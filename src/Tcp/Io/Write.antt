-- ===== src/Tcp/Io/Write.antt =====
-- `write` sends the buffer, all of it and in order, or reports a failure after a part of it.
use spdm_working.Common.{
  ℕ, zero, suc, ◌+◌, ◌-◌, ◌≤◌, ◌<◌, ◌≡◌, refl, sym, ap, ◌∙◌, List, ◌++◌, true, Option, some, arith,
  length, take, drop, drop-drop, append-nil, append_assoc, drop_all, dec_lt, take-append-drop,
  take-add,
}
use spdm_working.Common.Returns.{Returns, Returns-imp}
use spdm_working.Libspdm.{Status, success, send_fail}
use spdm_working.Tcp.Socket.{
  Socket, Sent, sent, send_failed, eintr, eagain, ewouldblock, other_errno, Departs,
}
use spdm_working.Tcp.Io.Timeout.{set_socket_timeout-SameStreams}
use spdm_working.Tcp.Io.{send_loop, after_send, write, set_socket_timeout}

module _ (socket : Socket) where
  open socket use {State, send, incoming, outgoing, interruptions}

  -- From `s`, where `rest` was still to be sent.
  abbrev pub Wrote : List ℕ → State → Status × State → Type 0
  Wrote rest s (success, t) =
      (outgoing t ≡ outgoing s ++ rest)
      × (incoming t ≡ incoming s)
      × (interruptions t ≤ interruptions s)
  Wrote rest s (send_fail, t) =
      ((k : ℕ) × (outgoing t ≡ outgoing s ++ take k rest))
      × (incoming t ≡ incoming s)
      × (interruptions t ≤ interruptions s)
  Wrote rest s (_, t) = ⊥

  -- Going on after `n` bytes were taken.
  pub Wrote-later :
      (n : ℕ) (rest : List ℕ) (s t : State) (r : Status × State)
      → outgoing t ≡ outgoing s ++ take n rest
      → incoming t ≡ incoming s
      → interruptions t ≤ interruptions s
      → Wrote (drop n rest) t r
      → Wrote rest s r
  Wrote-later n rest s t (success, u) o i j w = (
    w.0
        ∙ ap (λ x. x ++ drop n rest) o
        ∙ (append_assoc (outgoing s) (take n rest) (drop n rest)
            ∙ ap (λ x. outgoing s ++ x) (take-append-drop n rest)),
    w.1 ∙ i,
    omega (arith, w.2),
  )
  Wrote-later n rest s t (send_fail, u) o i j w = (
    (
      n + w.0.0,
      w.0.1
          ∙ ap (λ x. x ++ take w.0.0 (drop n rest)) o
          ∙ (append_assoc (outgoing s) (take n rest) (take w.0.0 (drop n rest))
              ∙ ap (λ x. outgoing s ++ x) (sym (take-add n w.0.0 rest))),
    ),
    w.1 ∙ i,
    omega (arith, w.2),
  )
  Wrote-later n rest s t (_, u) o i j w = absurd w

  pub Wrote-none :
      (rest : List ℕ) (s t : State)
      → outgoing t ≡ outgoing s
      → incoming t ≡ incoming s
      → interruptions t ≤ interruptions s
      → Wrote rest s (send_fail, t)
  Wrote-none rest s t o i j = ((0, o ∙ sym (append-nil (outgoing s))), i, j)

  module _ (fuel : ℕ) (buf : List ℕ) (total : ℕ) (s t : State) where
    after_send-Wrote :
        (again : ℕ → Option (Status × State))
        → ((total' : ℕ)
            → length buf - total' + interruptions t < fuel
            → Returns (Wrote (drop total' buf) t) (again total'))
        → (r : Sent) → Departs incoming outgoing interruptions (drop total buf) s r t
        → total < length buf
        → length buf - total + interruptions s < suc fuel
        → Returns (Wrote (drop total buf) s) (after_send socket again total t r)
    after_send-Wrote again ih (sent zero) d lt h =
        Wrote-none _ s t (d.1 ∙ append-nil (outgoing s)) d.2 d.3
    after_send-Wrote again ih (sent (suc n)) d lt h =
        Returns-imp _ _ (again (total + suc n)) (ih (total + suc n) (omega (arith, d.3))) (λ a w.
          Wrote-later (suc n) (drop total buf) s t a d.1 d.2 d.3
            (rw (drop-drop total (suc n) buf) w))
    after_send-Wrote again ih (send_failed eintr) d lt h =
        Returns-imp _ _ (again total) (ih total (omega (arith, d.2))) (λ a w.
          Wrote-later 0 (drop total buf) s t a (d.1 ∙ sym (append-nil (outgoing s))) d.0
            (omega (arith, d.2)) w)
    after_send-Wrote again ih (send_failed eagain) d lt h = Wrote-none _ s t d.1 d.0 d.2
    after_send-Wrote again ih (send_failed ewouldblock) d lt h = Wrote-none _ s t d.1 d.0 d.2
    after_send-Wrote again ih (send_failed (other_errno e)) d lt h = Wrote-none _ s t d.1 d.0 d.2

  module _ (fuel : ℕ) (buf : List ℕ) (total : ℕ) (s : State) where
    send_loop-done :
        length buf ≤ total → send_loop socket (suc fuel) buf total s ≡ some (success, s)
    unfolding send_loop
    send_loop-done h = ground arith

    send_loop-more :
        total < length buf
        → send_loop socket (suc fuel) buf total s ≡ (
            let (r, t) = send (drop total buf) s in
            after_send socket (λ total'. send_loop socket fuel buf total' t) total t r)
    unfolding send_loop
    send_loop-more h = ground arith

  send_loop-Wrote :
      (fuel : ℕ) (buf : List ℕ) (total : ℕ) (s : State)
      → length buf - total + interruptions s < fuel
      → Returns (Wrote (drop total buf) s) (send_loop socket fuel buf total s)
  send_loop-Wrote zero buf total s h = absurd (omega arith)
  send_loop-Wrote (suc fuel) buf total s h = elim (dec_lt total (length buf)) [
    | yes more ↦ rw (send_loop-more fuel buf total s more) (
        let t = (send (drop total buf) s).1 in
        after_send-Wrote fuel buf total s t _ (λ total' m. send_loop-Wrote fuel buf total' t m) _
          (socket.send-Departs (drop total buf) s) more h)
    | no done ↦
        rw (send_loop-done fuel buf total s (omega arith), drop_all total buf (omega arith))
          (sym (append-nil (outgoing s)), refl, omega arith)
  ]

  -- With fuel for the buffer and for the interruptions, `write` on an open socket returns: with
  -- success it has sent the whole buffer in order, and otherwise a prefix of it.
  pub write-Wrote :
      (fuel : ℕ) (buf : List ℕ) (timeout : ℕ) (s : State)
      → length buf + interruptions s < fuel
      → Returns (Wrote buf s) (write socket fuel true buf timeout s)
  unfolding write
  write-Wrote fuel buf timeout s h =
      let (inc, out, most) = set_socket_timeout-SameStreams socket timeout s in
      Returns-imp _ _ (send_loop socket fuel buf 0 (set_socket_timeout socket true timeout s).1)
        (send_loop-Wrote fuel buf 0 _ (omega (arith, most)))
        (λ r w. Wrote-later 0 buf s _ r (out ∙ sym (append-nil (outgoing s))) inc most w)
