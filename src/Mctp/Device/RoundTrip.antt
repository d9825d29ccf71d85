-- ===== src/Mctp/Device/RoundTrip.antt =====
-- A message that one endpoint sends is what the other one receives.
use spdm_working.Common.{
  ℕ, suc, ◌≡◌, ap, ◌∙◌, refl, ◌⊎◌, inl, inr, List, [], ◌∷◌, ◌++◌, Bool, true, some, length,
}
use spdm_working.Common.Returns.{Returns, Returns-at, Returns-imp}
use spdm_working.Libspdm.{success, receive_fail}
use spdm_working.Tcp.Frame.{Decoded, delivered, refused}
use spdm_working.Mctp.Socket.{Datagrams, SameDatagrams}
use spdm_working.Mctp.Device.{device_send_message, device_receive_message}
use spdm_working.Mctp.Device.Outcome.{
  CallFailed, SentOrFailed, device_send_message-SentOrFailed, Taken, failed, mismatch, no_memory,
  taken, device_receive_message-Taken,
}

-- Received: the message, and its datagram is taken. Otherwise the peek or the `recvfrom` failed, and
-- the datagram still waits.
abbrev pub Received :
    (socket : Datagrams)
    → List ℕ
    → List (ℕ × List ℕ)
    → socket.State
    → Decoded × socket.State
    → Type 0
Received socket message rest s (d, t) =
    ((d ≡ delivered message (length message)) × (socket.pending t ≡ rest))
    ⊎ ((d ≡ refused receive_fail)
        × CallFailed socket s t
        × SameDatagrams socket.pending socket.sent s t)

Taken-Received :
    (socket : Datagrams) (malloc : ℕ → Bool) (eid : ℕ) (body : List ℕ) (rest : List (ℕ × List ℕ))
    (s : socket.State)
    → malloc (suc (length body)) ≡ true
    → (r : Decoded × socket.State) → Taken socket malloc eid eid body rest s r
    → Received socket (5 ∷ body) rest s r
Taken-Received socket malloc eid body rest s room _ (failed call same) = inr (refl, call, same)
Taken-Received socket malloc eid body rest s room _ (mismatch differs left) = absurd (differs refl)
Taken-Received socket malloc eid body rest s room _ (no_memory e full left) = absurd cc
Taken-Received socket malloc eid body rest s room _ (taken e m left) = inl (refl, left)

-- Between two open sockets, where the network hands the datagram that left the one for `receiver` to
-- the other as coming from `sender`, and where that other has memory for the message: when sending
-- succeeds, the other's transport to `sender` receives the message behind its type's byte, whose
-- value becomes SPDM's 5, or its peek or `recvfrom` fails and the datagram still waits.
pub device_receive_message-device_send_message :
    (here there : Datagrams) (malloc : ℕ → Bool) (tag_owner sender receiver type : ℕ)
    (body bytes : List ℕ) (rest : List (ℕ × List ℕ)) (s t : here.State) (u : there.State)
    → malloc (suc (length body)) ≡ true
    → here.sent s ≡ []
    → device_send_message here tag_owner
        (some record { eid = receiver; is_open = true })
        (type ∷ body)
        s
      ≡ some (success, t)
    → here.sent t ≡ (receiver, bytes) ∷ []
    → there.pending u ≡ (sender, bytes) ∷ rest
    → Returns
        (Received there (5 ∷ body) rest u)
        (device_receive_message there malloc (some record { eid = sender; is_open = true }) u)
device_receive_message-device_send_message here there malloc tag_owner sender receiver type body
      bytes rest s t u room empty done out arrives =
    Returns-imp (Taken there malloc sender sender body rest u) (Received there (5 ∷ body) rest u)
      (device_receive_message there malloc (some record { eid = sender; is_open = true }) u)
      (device_receive_message-Taken there malloc sender sender body rest u
        (arrives ∙ ap (λ x. (sender, x) ∷ rest) same_bytes))
      (Taken-Received there malloc sender body rest u room)
  where
    went : SentOrFailed here receiver body s (success, t)
    went =
        Returns-at (SentOrFailed here receiver body s)
          (device_send_message here tag_owner (some record { eid = receiver; is_open = true })
            (type ∷ body) s)
          (device_send_message-SentOrFailed here tag_owner receiver type body s) done

    same_bytes : bytes ≡ body
    same_bytes =
        let whole : here.sent t ≡ (receiver, body) ∷ [] =
          went.1 ∙ ap (λ x. x ++ (receiver, body) ∷ []) empty in
        cc
