-- ===== src/Mctp/Device/Outcome.antt =====
-- Every outcome of sending a message and of receiving one.
use spdm_working.Common.{
  ℕ, suc, ◌+◌, ◌≡◌, ◌≢◌, refl, subst, ◌∙◌, inl, inr, List, [], ◌∷◌, ◌++◌, Bool, true, false, ◌==◌,
  if◌then◌else◌, bit_or, u8, some, none, Option, arith, ◌-◌, take_all, length, Bool-cases,
}
use spdm_working.Common.Partial.{◌>>=◌}
use spdm_working.Common.Returns.{Returns}
use spdm_working.Libspdm.{Status, success, send_fail, receive_fail, invalid_msg_field}
use spdm_working.Tcp.Frame.{copy, Decoded, delivered, refused, out_of_memory}
use spdm_working.Mctp.Socket.{Datagrams, SameDatagrams, Departs, Peeks, ArrivedAs, Received}
use spdm_working.Mctp.Frame.{encode, decode}
use spdm_working.Mctp.Io.{write, read, after_peek, with_head}
use spdm_working.Mctp.Device.{device_send_message, device_receive_message, after_read, after_decode}

-- What `decode` makes of what `read` leaves of a datagram.
decode-lem :
    (malloc : ℕ → Bool) (eid source : ℕ) (payload : List ℕ)
    → decode malloc eid (1 ∷ source ∷ 5 ∷ payload)
      ≡ some (
          if source == eid
          then (if malloc (suc (length payload))
              then delivered (5 ∷ payload) (suc (length payload))
              else out_of_memory (suc (length payload)))
          else refused invalid_msg_field)
unfolding decode copy
decode-lem malloc eid source payload =
    ground (arith, take_all (3 + length payload - 2) (5 ∷ payload) (omega arith))

module _ (socket : Datagrams) where
  open socket use {
    State, pending, sent, sendto, sendto-Departs, peek, peek-Peeks, recvfrom, recvfrom-Arrives,
  }

  -- Success: one datagram went out to the endpoint, with what follows the message's first byte.
  -- Failure: none did.
  abbrev pub SentOrFailed : ℕ → List ℕ → State → Status × State → Type 0
  SentOrFailed eid rest s (success, t) =
      (pending t ≡ pending s) × (sent t ≡ sent s ++ (eid, rest) ∷ [])
  SentOrFailed eid rest s (send_fail, t) = SameDatagrams pending sent s t
  SentOrFailed eid rest s _ = ⊥

  write-lem :
      (a eid c : ℕ) (rest : List ℕ) (s : State)
      → write socket true (a ∷ eid ∷ c ∷ rest) s
        ≡ some (if (sendto eid rest s).0 then success else send_fail, (sendto eid rest s).1)
  unfolding write
  write-lem a eid c rest s = ground arith

  -- With the socket open, a message that is not empty either goes out as one datagram to the
  -- transport's endpoint, without the message's first byte, or is not sent at all and the
  -- status is `LIBSPDM_STATUS_SEND_FAIL`.
  pub device_send_message-SentOrFailed :
      (tag_owner eid type : ℕ) (rest : List ℕ) (s : State)
      → Returns (SentOrFailed eid rest s) (
          device_send_message socket tag_owner
            (some record { eid = eid; is_open = true })
            (type ∷ rest)
            s)
  unfolding device_send_message encode
  device_send_message-SentOrFailed tag_owner eid type rest s =
      let d = sendto-Departs eid rest s in
      rw (write-lem (bit_or (u8 tag_owner) 8) eid type rest s)
        (elim (Bool-cases (sendto eid rest s).0) [
          | inl e ↦ rw e (subst (λ b. Departs pending sent eid rest s b (sendto eid rest s).1) e d)
          | inr e ↦ rw e (subst (λ b. Departs pending sent eid rest s b (sendto eid rest s).1) e d)
        ])

  -- The peek of `read` failed, or its `recvfrom` after the peek did.
  pub data CallFailed (s : State) : State → Type 0 where
    peek_failed : (peek s).0 ≡ none → CallFailed s (peek s).1
    recvfrom_failed :
        {n : ℕ}
        → (peek s).0 ≡ some n
        → (recvfrom n (peek s).1).0.succeeded ≡ false
        → CallFailed s (recvfrom n (peek s).1).1

  -- What becomes of the next datagram, from the endpoint `source` with a payload: nothing, when a
  -- call fails; else it is taken, and either refused or delivered as a message of SPDM's type.
  pub data Taken (malloc : ℕ → Bool) (eid source : ℕ) (payload : List ℕ) (rest : List (ℕ × List ℕ))
      (s : State) : Decoded × State → Type 0 where
    failed :
        {t : State}
        → CallFailed s t
        → SameDatagrams pending sent s t
        → Taken malloc eid source payload rest s (refused receive_fail, t)
    mismatch :
        {t : State}
        → source ≢ eid
        → pending t ≡ rest
        → Taken malloc eid source payload rest s (refused receive_fail, t)
    no_memory :
        {t : State}
        → source ≡ eid
        → malloc (suc (length payload)) ≡ false
        → pending t ≡ rest
        → Taken malloc eid source payload rest s
            (record (out_of_memory (suc (length payload))) { status = receive_fail }, t)
    taken :
        {t : State}
        → source ≡ eid
        → malloc (suc (length payload)) ≡ true
        → pending t ≡ rest
        → Taken malloc eid source payload rest s (delivered (5 ∷ payload) (suc (length payload)), t)

  module _ (malloc : ℕ → Bool) (eid source : ℕ) (payload : List ℕ) (rest : List (ℕ × List ℕ))
      (s : State) where
    decided :
        (is_ours room : Bool) (u : State)
        → (is_ours ≡ true → source ≡ eid)
        → (is_ours ≡ false → source ≢ eid)
        → malloc (suc (length payload)) ≡ room
        → pending u ≡ rest
        → Returns (Taken malloc eid source payload rest s) (
            some (
              if is_ours
              then (if room
                  then delivered (5 ∷ payload) (suc (length payload))
                  else out_of_memory (suc (length payload)))
              else refused invalid_msg_field)
            >>= after_decode socket u)
    decided true true u same differs m left = taken (same refl) m left
    decided true false u same differs m left = no_memory (same refl) m left
    decided false room u same differs m left = mismatch (differs refl) left

    accepted :
        (r : Received) (u : State)
        → r.s_addr ≡ source
        → r.bytes ≡ payload
        → pending u ≡ rest
        → Returns
            (Taken malloc eid source payload rest s)
            (after_read socket malloc eid (success, with_head socket r.s_addr r.bytes, u))
    accepted r u addr whole left =
        rw (addr, whole, decode-lem malloc eid source payload)
          (decided (source == eid) (malloc (suc (length payload))) u (λ h. ground (arith, h))
            (λ h. ground (arith, h)) refl left)

  -- With the socket open and a datagram at the head of those that wait, `device_receive_message`
  -- always returns, with one of four outcomes: the peek or the `recvfrom` failed, and every datagram
  -- still waits;
  -- the datagram is taken and dropped, as it is from another endpoint than the transport's; it is
  -- taken and dropped for want of memory; or its payload is delivered behind the byte 5. The
  -- status is `LIBSPDM_STATUS_RECEIVE_FAIL` in the first three.
  pub device_receive_message-Taken :
      (malloc : ℕ → Bool) (eid source : ℕ) (payload : List ℕ) (rest : List (ℕ × List ℕ)) (s : State)
      → pending s ≡ (source, payload) ∷ rest
      → Returns
          (Taken malloc eid source payload rest s)
          (device_receive_message socket malloc (some record { eid = eid; is_open = true }) s)
  unfolding device_receive_message read
  device_receive_message-Taken malloc eid source payload rest s e =
      go (peek s).0 refl (peek-Peeks s)
    where
      go :
          (r : Option ℕ)
          → (peek s).0 ≡ r
          → Peeks pending sent s r (peek s).1
          → Returns
              (Taken malloc eid source payload rest s)
              (after_read socket malloc eid (after_peek socket (r, (peek s).1)))
      go none told same = failed (peek_failed told) same
      go (some n) told (same, (from, bytes, rest', e', size)) =
          let t = (peek s).1 in
          let fits : n ≡ length payload = cc in
          let a = recvfrom-Arrives n t in
          elim (Bool-cases (recvfrom n t).0.succeeded) [
            | inl d ↦ rw d (
                let (_, arrives) =
                  subst (λ b. ArrivedAs pending sent n t (recvfrom n t).0 (recvfrom n t).1 b) d a in
                let (addr, whole, left) = arrives source payload rest (same.0 ∙ e) fits in
                accepted malloc eid source payload rest s (recvfrom n t).0 (recvfrom n t).1 addr
                  whole left)
            | inr d ↦ rw d (
                let (p, q) =
                  subst (λ b. ArrivedAs pending sent n t (recvfrom n t).0 (recvfrom n t).1 b) d a in
                failed (recvfrom_failed told d) (p ∙ same.0, q ∙ same.1))
          ]
