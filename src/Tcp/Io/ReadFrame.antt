-- ===== src/Tcp/Io/ReadFrame.antt =====
-- The whole of `read`: what it takes off the stream when it succeeds and when it fails.
use spdm_working.Common.{
  ℕ, ◌+◌, ◌≤◌, ◌<◌, ◌≡◌, refl, sym, ap, ◌∙◌, ◌⊎◌, inl, inr, List, [], ◌++◌, some, arith, true,
  length, drop, length-append, append_assoc, dec_lt, IsBytes, IsBytes-left, drop-IsBytes,
  length-drop,
}
use spdm_working.Common.Partial.{◌>>=◌}
use spdm_working.Common.Returns.{Returns, Returns-imp, Returns-bind}
use spdm_working.Libspdm.{Status, success, receive_fail}
use spdm_working.Tcp.Frame.{load_be32}
use spdm_working.Tcp.Frame.Header.{stated_size, stated_size-append, load_be32-be_value}
use spdm_working.Tcp.Socket.{Socket}
use spdm_working.Tcp.Io.{
  Filled, full, stopped, recv_loop, after_header, after_payload, read, set_socket_timeout,
}
use spdm_working.Tcp.Io.Timeout.{set_socket_timeout-SameStreams}
use spdm_working.Tcp.Io.Read.{Took, recv_loop-Took}

-- Why a read gives up, by the bytes that it took: the header is not whole, it states a size past
-- the limit, or the payload is not whole.
abbrev pub GaveUp : List ℕ → Type 0
GaveUp lost =
    (length lost < 12)
    ⊎ ((length lost ≡ 12) × (65536 < stated_size lost))
    ⊎ ((12 ≤ length lost) × (stated_size lost ≤ 65536) × (length lost < 12 + stated_size lost))

module _ (socket : Socket) where
  open socket use {State, incoming, outgoing, interruptions}

  abbrev pub TookFrame : State → Status × List ℕ × State → Type 0
  TookFrame s (success, buf, t) =
      (length buf ≡ 12 + stated_size buf)
      × (stated_size buf ≤ 65536)
      × (incoming s ≡ buf ++ incoming t)
      × (outgoing t ≡ outgoing s)
  TookFrame s (receive_fail, buf, t) =
      ((lost : List ℕ) × (incoming s ≡ lost ++ incoming t) × GaveUp lost)
      × (outgoing t ≡ outgoing s)
  TookFrame s (_, buf, t) = ⊥

  module _ (s t : State) (header : List ℕ) (n : length header ≡ 12)
      (e : incoming s ≡ header ++ incoming t) (o : outgoing t ≡ outgoing s)
      (small : stated_size header ≤ 65536) where
    joined : (more : List ℕ) → incoming t ≡ more → incoming s ≡ header ++ more
    joined more f = e ∙ ap (λ x. header ++ x) f

    -- The header's size is that of the header and whatever follows it.
    same_size : (more : List ℕ) → stated_size (header ++ more) ≡ stated_size header
    same_size more = stated_size-append header more (omega arith)

    after_payload-TookFrame :
        (r : Filled × State)
        → Took socket (stated_size header) [] t r
        → Returns (TookFrame s) (after_payload socket header (stated_size header) r)
    after_payload-TookFrame (full payload, u) w = (
      omega (arith, length-append header payload, same_size payload, w.0),
      rw (same_size payload) small,
      joined _ w.1 ∙ sym (append_assoc header payload (incoming u)),
      w.2 ∙ o,
    )
    after_payload-TookFrame (stopped part, u) w = (
      (
        header ++ part,
        joined _ w.1 ∙ sym (append_assoc header part (incoming u)),
        inr (
            inr (
              omega (arith, length-append header part),
              rw (same_size part) small,
              omega (arith, length-append header part, same_size part, w.0),
            )),
      ),
      w.2 ∙ o,
    )

  module _ (fuel : ℕ) (s : State) (bs : IsBytes (incoming s))
      (enough : 65536 + interruptions s < fuel) where
    load_size :
        (header rest : List ℕ)
        → length header ≡ 12
        → incoming s ≡ header ++ rest
        → load_be32 header 8 ≡ some (stated_size header)
    load_size header rest n e =
        load_be32-be_value header (drop 8 header) 8 refl
          (drop-IsBytes 8 header (IsBytes-left header rest (rw (← e) bs)))
          (omega (arith, length-drop 8 header))

    module _ (header : List ℕ) (t : State)
        (load : load_be32 header 8 ≡ some (stated_size header)) where
      after_header-big :
          65536 < stated_size header
          → after_header socket fuel (full header, t) ≡ some (receive_fail, [], t)
      after_header-big big = rw load (ground arith)

      after_header-small :
          stated_size header ≤ 65536
          → after_header socket fuel (full header, t) ≡ (
              recv_loop socket fuel (stated_size header) [] t
              >>= after_payload socket header (stated_size header))
      after_header-small small = rw load (ground arith)

    after_header-TookFrame :
        (r : Filled × State)
        → Took socket 12 [] s r
        → Returns (TookFrame s) (after_header socket fuel r)
    after_header-TookFrame (stopped part, t) w = ((part, w.1, inl w.0), w.2)
    after_header-TookFrame (full header, t) w = elim (dec_lt 65536 (stated_size header)) [
      | yes big ↦ rw (after_header-big header t load big) ((header, w.1, inr (inl (w.0, big))), w.2)
      | no small ↦ rw (after_header-small header t load (omega arith)) (
          Returns-bind (Took socket (stated_size header) [] t) (TookFrame s)
            (recv_loop socket fuel (stated_size header) [] t)
            (after_payload socket header (stated_size header))
            (recv_loop-Took socket fuel (stated_size header) [] t (omega arith)
              (omega (arith, w.3)))
            (after_payload-TookFrame s t header w.0 w.1 w.2 (omega arith)))
    ]
      where
        load : load_be32 header 8 ≡ some (stated_size header)
        load = load_size header (incoming t) w.0 w.1

  module _ (s t : State) (i : incoming t ≡ incoming s) (o : outgoing t ≡ outgoing s) where
    TookFrame-same : (r : Status × List ℕ × State) → TookFrame t r → TookFrame s r
    TookFrame-same (success, buf, u) w = (w.0, w.1, sym i ∙ w.2, w.3 ∙ o)
    TookFrame-same (receive_fail, buf, u) w = ((w.0.0, sym i ∙ w.0.1, w.0.2), w.1 ∙ o)
    TookFrame-same (_, buf, u) w = absurd w

  -- With fuel for the largest payload and for the interruptions, `read` on an open socket whose
  -- stream is bytes returns: with success it took exactly one frame of the stated size, at most
  -- 65536, and otherwise the bytes that it took show why it gave up.
  pub read-TookFrame :
      (fuel timeout : ℕ) (s : State)
      → IsBytes (incoming s)
      → 65536 + interruptions s < fuel
      → Returns (TookFrame s) (read socket fuel true timeout s)
  unfolding read
  read-TookFrame fuel timeout s bs enough =
      let t = (set_socket_timeout socket true timeout s).1 in
      let (inc, out, most) = set_socket_timeout-SameStreams socket timeout s in
      Returns-imp (TookFrame t) (TookFrame s)
        (recv_loop socket fuel 12 [] t >>= after_header socket fuel)
        (Returns-bind (Took socket 12 [] t) (TookFrame t) (recv_loop socket fuel 12 [] t)
          (after_header socket fuel)
          (recv_loop-Took socket fuel 12 [] t (omega arith) (omega (arith, most)))
          (after_header-TookFrame fuel t (rw inc bs) (omega (arith, most))))
        (TookFrame-same s t inc out)
