-- ===== src/Tcp/Io/Read.antt =====
-- `read` takes one frame off the stream, of the size that its header states, and nothing more.
use spdm_working.Common.{
  ℕ, zero, suc, ◌+◌, ◌-◌, ◌≤◌, ◌<◌, ◌≡◌, refl, sym, ap, ◌∙◌, List, [], ◌∷◌, ◌++◌, Option, some,
  arith, length, length-append, append-nil, append_assoc, dec_lt,
}
use spdm_working.Common.Returns.{Returns, Returns-imp}
use spdm_working.Tcp.Socket.{
  Socket, Received, received, recv_failed, eintr, eagain, ewouldblock, other_errno, Arrives,
}
use spdm_working.Tcp.Io.{Filled, full, stopped, recv_loop, after_recv}

module _ (socket : Socket) where
  open socket use {State, recv, incoming, outgoing, interruptions}

  -- From `s`, where `buf` was received already.
  abbrev pub Took : ℕ → List ℕ → State → Filled × State → Type 0
  Took want buf s (full out, t) =
      (length out ≡ want)
      × (buf ++ incoming s ≡ out ++ incoming t)
      × (outgoing t ≡ outgoing s)
      × (interruptions t ≤ interruptions s)
  Took want buf s (stopped out, t) =
      (length out < want)
      × (buf ++ incoming s ≡ out ++ incoming t)
      × (outgoing t ≡ outgoing s)
      × (interruptions t ≤ interruptions s)

  -- Going on after `more` arrived.
  pub Took-later :
      (want : ℕ) (buf more : List ℕ) (s t : State) (r : Filled × State)
      → incoming s ≡ more ++ incoming t
      → outgoing t ≡ outgoing s
      → interruptions t ≤ interruptions s
      → Took want (buf ++ more) t r
      → Took want buf s r
  Took-later want buf more s t (full out, u) i o j w = (
    w.0,
    ap (λ x. buf ++ x) i ∙ sym (append_assoc buf more (incoming t)) ∙ w.1,
    w.2 ∙ o,
    omega (arith, w.3),
  )
  Took-later want buf more s t (stopped out, u) i o j w = (
    w.0,
    ap (λ x. buf ++ x) i ∙ sym (append_assoc buf more (incoming t)) ∙ w.1,
    w.2 ∙ o,
    omega (arith, w.3),
  )

  Took-same :
      (want : ℕ) (buf : List ℕ) (s t : State) (r : Filled × State)
      → incoming t ≡ incoming s
      → outgoing t ≡ outgoing s
      → interruptions t ≤ interruptions s
      → Took want buf t r
      → Took want buf s r
  Took-same want buf s t r i o j w =
      Took-later want buf [] s t r (sym i) o j (rw (append-nil buf) w)

  module _ (fuel want : ℕ) (buf : List ℕ) (s t : State) where
    after_recv-Took :
        (again : List ℕ → Option (Filled × State))
        → ((buf' : List ℕ)
            → length buf' ≤ want
            → want - length buf' + interruptions t < fuel
            → Returns (Took want buf' t) (again buf'))
        → (r : Received) → Arrives incoming outgoing interruptions (want - length buf) s r t
        → length buf < want
        → want - length buf + interruptions s < suc fuel
        → Returns (Took want buf s) (after_recv socket again buf t r)
    after_recv-Took again ih (received []) a lt h = (lt, ap (λ x. buf ++ x) a.1, a.2, a.3)
    after_recv-Took again ih (received (b ∷ more)) a lt h =
        Returns-imp _ _ (again (buf ++ b ∷ more))
          (ih (buf ++ b ∷ more) (omega (arith, a.0, length-append buf (b ∷ more)))
            (omega (arith, a.0, a.3, length-append buf (b ∷ more))))
          (λ r w. Took-later want buf (b ∷ more) s t r a.1 a.2 a.3 w)
    after_recv-Took again ih (recv_failed eintr) a lt h =
        Returns-imp _ _ (again buf) (ih buf (omega arith) (omega (arith, a.2)))
          (λ r w. Took-same want buf s t r a.0 a.1 (omega (arith, a.2)) w)
    after_recv-Took again ih (recv_failed eagain) a lt h =
        (lt, ap (λ x. buf ++ x) (sym a.0), a.1, a.2)
    after_recv-Took again ih (recv_failed ewouldblock) a lt h =
        (lt, ap (λ x. buf ++ x) (sym a.0), a.1, a.2)
    after_recv-Took again ih (recv_failed (other_errno e)) a lt h =
        (lt, ap (λ x. buf ++ x) (sym a.0), a.1, a.2)

  module _ (fuel want : ℕ) (buf : List ℕ) (s : State) where
    recv_loop-done : want ≤ length buf → recv_loop socket (suc fuel) want buf s ≡ some (full buf, s)
    unfolding recv_loop
    recv_loop-done h = ground arith

    recv_loop-more :
        length buf < want
        → recv_loop socket (suc fuel) want buf s ≡ (
            let (r, t) = recv (want - length buf) s in
            after_recv socket (λ buf'. recv_loop socket fuel want buf' t) buf t r)
    unfolding recv_loop
    recv_loop-more h = ground arith

  -- A receive loop with enough fuel ends, with the bytes that it wanted or with fewer.
  pub recv_loop-Took :
      (fuel want : ℕ) (buf : List ℕ) (s : State)
      → length buf ≤ want
      → want - length buf + interruptions s < fuel
      → Returns (Took want buf s) (recv_loop socket fuel want buf s)
  recv_loop-Took zero want buf s fits h = absurd (omega arith)
  recv_loop-Took (suc fuel) want buf s fits h = elim (dec_lt (length buf) want) [
    | yes more ↦ rw (recv_loop-more fuel want buf s more) (
        let t = (recv (want - length buf) s).1 in
        after_recv-Took fuel want buf s t _ (λ buf' f m. recv_loop-Took fuel want buf' t f m) _
          (socket.recv-Arrives (want - length buf) s) more h)
    | no done ↦
        rw (recv_loop-done fuel want buf s (omega arith)) (omega arith, refl, refl, omega arith)
  ]
