-- ===== src/Client/Io/Loops.antt =====
-- The client's loops end, and what they have moved then.
use spdm_working.Common.{
  ℕ, zero, suc, ◌+◌, ◌-◌, ◌≤◌, ◌<◌, ◌≡◌, refl, sym, ap, ◌∙◌, List, [], ◌∷◌, ◌++◌, Option, some,
  arith, length, length-append, append-nil, dec_lt, drop, drop_all, drop-drop,
}
use spdm_working.Common.Returns.{Returns, Returns-imp}
use spdm_working.Libspdm.{Status, success}
use spdm_working.Tcp.Socket.{
  Socket, Received, received, recv_failed, Sent, sent, send_failed, eintr, eagain, ewouldblock,
  other_errno, Arrives, Departs,
}
use spdm_working.Tcp.Io.{Filled, full}
use spdm_working.Tcp.Io.Write.{Wrote, Wrote-later, Wrote-none}
use spdm_working.Tcp.Io.Read.{Took, Took-later}
use spdm_working.Client.Io.{send_loop, after_send, recv_loop, after_recv}

module _ (socket : Socket) where
  open socket use {State, send, recv, incoming, outgoing, interruptions}

  module _ (fuel : ℕ) (buf : List ℕ) (total : ℕ) (s t : State) where
    after_send-Wrote :
        (again : ℕ → Option (Status × State))
        → ((total' : ℕ)
            → length buf - total' < fuel
            → Returns (Wrote socket (drop total' buf) t) (again total'))
        → (r : Sent) → Departs incoming outgoing interruptions (drop total buf) s r t
        → total < length buf
        → length buf - total < suc fuel
        → Returns (Wrote socket (drop total buf) s) (after_send socket again total t r)
    after_send-Wrote again ih (sent zero) d lt h =
        Wrote-none socket _ s t (d.1 ∙ append-nil (outgoing s)) d.2 d.3
    after_send-Wrote again ih (sent (suc n)) d lt h =
        Returns-imp _ _ (again (total + suc n)) (ih (total + suc n) (omega arith)) (λ a w.
          Wrote-later socket (suc n) (drop total buf) s t a d.1 d.2 d.3
            (rw (drop-drop total (suc n) buf) w))
    after_send-Wrote again ih (send_failed eintr) d lt h =
        Wrote-none socket _ s t d.1 d.0 (omega (arith, d.2))
    after_send-Wrote again ih (send_failed eagain) d lt h = Wrote-none socket _ s t d.1 d.0 d.2
    after_send-Wrote again ih (send_failed ewouldblock) d lt h = Wrote-none socket _ s t d.1 d.0 d.2
    after_send-Wrote again ih (send_failed (other_errno e)) d lt h =
        Wrote-none socket _ s t d.1 d.0 d.2

  module _ (fuel : ℕ) (buf : List ℕ) (total : ℕ) (s : State) where
    send_loop-done :
        length buf ≤ total → send_loop socket (suc fuel) buf total s ≡ some (success, s)
    unfolding send_loop
    send_loop-done h = ground arith

    send_loop-more :
        total < length buf
        → send_loop socket (suc fuel) buf total s ≡ (
            let (r, t) = send (drop total buf) s in
            after_send socket (λ total'. send_loop socket fuel buf total' t) total t r)
    unfolding send_loop
    send_loop-more h = ground arith

  -- The loop gives up at an interruption, so fuel for the buffer is enough.
  pub send_loop-Wrote :
      (fuel : ℕ) (buf : List ℕ) (total : ℕ) (s : State)
      → length buf - total < fuel
      → Returns (Wrote socket (drop total buf) s) (send_loop socket fuel buf total s)
  send_loop-Wrote zero buf total s h = absurd (omega arith)
  send_loop-Wrote (suc fuel) buf total s h = elim (dec_lt total (length buf)) [
    | yes more ↦ rw (send_loop-more fuel buf total s more) (
        let t = (send (drop total buf) s).1 in
        after_send-Wrote fuel buf total s t _ (λ total' m. send_loop-Wrote fuel buf total' t m) _
          (socket.send-Departs (drop total buf) s) more h)
    | no done ↦
        rw (send_loop-done fuel buf total s (omega arith), drop_all total buf (omega arith))
          (sym (append-nil (outgoing s)), refl, omega arith)
  ]

  module _ (fuel want : ℕ) (buf : List ℕ) (s t : State) where
    after_recv-Took :
        (again : List ℕ → Option (Filled × State))
        → ((buf' : List ℕ)
            → length buf' ≤ want
            → want - length buf' < fuel
            → Returns (Took socket want buf' t) (again buf'))
        → (r : Received) → Arrives incoming outgoing interruptions (want - length buf) s r t
        → length buf < want
        → want - length buf < suc fuel
        → Returns (Took socket want buf s) (after_recv socket again buf t r)
    after_recv-Took again ih (received []) a lt h = (lt, ap (λ x. buf ++ x) a.1, a.2, a.3)
    after_recv-Took again ih (received (b ∷ more)) a lt h =
        Returns-imp _ _ (again (buf ++ b ∷ more))
          (ih (buf ++ b ∷ more) (omega (arith, a.0, length-append buf (b ∷ more)))
            (omega (arith, a.0, length-append buf (b ∷ more))))
          (λ r w. Took-later socket want buf (b ∷ more) s t r a.1 a.2 a.3 w)
    after_recv-Took again ih (recv_failed eintr) a lt h =
        (lt, ap (λ x. buf ++ x) (sym a.0), a.1, omega (arith, a.2))
    after_recv-Took again ih (recv_failed eagain) a lt h =
        (lt, ap (λ x. buf ++ x) (sym a.0), a.1, a.2)
    after_recv-Took again ih (recv_failed ewouldblock) a lt h =
        (lt, ap (λ x. buf ++ x) (sym a.0), a.1, a.2)
    after_recv-Took again ih (recv_failed (other_errno e)) a lt h =
        (lt, ap (λ x. buf ++ x) (sym a.0), a.1, a.2)

  module _ (fuel want : ℕ) (buf : List ℕ) (s : State) where
    recv_loop-done : want ≤ length buf → recv_loop socket (suc fuel) want buf s ≡ some (full buf, s)
    unfolding recv_loop
    recv_loop-done h = ground arith

    recv_loop-more :
        length buf < want
        → recv_loop socket (suc fuel) want buf s ≡ (
            let (r, t) = recv (want - length buf) s in
            after_recv socket (λ buf'. recv_loop socket fuel want buf' t) buf t r)
    unfolding recv_loop
    recv_loop-more h = ground arith

  pub recv_loop-Took :
      (fuel want : ℕ) (buf : List ℕ) (s : State)
      → length buf ≤ want
      → want - length buf < fuel
      → Returns (Took socket want buf s) (recv_loop socket fuel want buf s)
  recv_loop-Took zero want buf s fits h = absurd (omega arith)
  recv_loop-Took (suc fuel) want buf s fits h = elim (dec_lt (length buf) want) [
    | yes more ↦ rw (recv_loop-more fuel want buf s more) (
        let t = (recv (want - length buf) s).1 in
        after_recv-Took fuel want buf s t _ (λ buf' f m. recv_loop-Took fuel want buf' t f m) _
          (socket.recv-Arrives (want - length buf) s) more h)
    | no done ↦
        rw (recv_loop-done fuel want buf s (omega arith)) (omega arith, refl, refl, omega arith)
  ]
