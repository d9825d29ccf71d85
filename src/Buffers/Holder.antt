-- ===== src/Buffers/Holder.antt =====
-- The buffer has one holder at a time.
use spdm_working.Common.{ℕ, ◌≡◌, refl, sym, ap, ◌∙◌, List, [], ◌∷◌, Bool, true, false, replicate}
use spdm_working.Libspdm.{Status, invalid_state_local, acquire_fail}
use spdm_working.Buffers.{
  Buffer, BufferFunctions, give, acquire, release, tcp_functions, mctp_functions, client_functions,
  Operation, acquires_sender, releases_sender, acquires_receiver, releases_receiver, fills, Event,
  granted, refused, released, filled, event_of, step, run,
}

-- Of what happened, the latest first: whether the buffer was granted and has not been released
-- since.
abbrev pub is_held : List Event → Bool
is_held [] = false
is_held (granted ∷ earlier) = true
is_held (released ∷ earlier) = false
is_held (refused ∷ earlier) = is_held earlier
is_held (filled ∷ earlier) = is_held earlier

-- Each grant was made to a caller when nobody held the buffer, and each refusal when somebody did.
abbrev pub OneHolder : List Event → Type 0
OneHolder [] = Unit
OneHolder (granted ∷ earlier) = (is_held earlier ≡ false) × OneHolder earlier
OneHolder (refused ∷ earlier) = (is_held earlier ≡ true) × OneHolder earlier
OneHolder (released ∷ earlier) = OneHolder earlier
OneHolder (filled ∷ earlier) = OneHolder earlier

-- The functions of the three programs.
pub data Installed (size : ℕ) : BufferFunctions → Type 0 where
  on_tcp : Installed size (tcp_functions size)
  on_mctp : Installed size (mctp_functions size)
  on_client : Installed size (client_functions size)

-- An acquisition is a grant of zeroed bytes if the buffer is free, and else changes nothing.
abbrev Acquires : ℕ → Buffer → Event × Buffer → Type 0
Acquires size b (granted, b') =
    (b.acquired ≡ false) × (b' ≡ record { bytes = replicate size 0; acquired = true })
Acquires size b (refused, b') = (b.acquired ≡ true) × (b' ≡ b)
Acquires size b (_, b') = ⊥

acquire-Acquires :
    (busy : Status) (size : ℕ) (b : Buffer)
    → event_of busy ≡ refused
    → let (st, b') = acquire busy size b in Acquires size b (event_of st, b')
unfolding acquire
acquire-Acquires busy size b e = given b.acquired refl
  where
    given :
        (held : Bool)
        → b.acquired ≡ held
        → let (st, b') = give held busy size b in Acquires size b (event_of st, b')
    given true h = rw e (h, refl)
    given false h = (h, refl)

-- The same for every event, with the history before it.
abbrev Follows : List Event → Event × Buffer → Type 0
Follows events (e, b) = OneHolder (e ∷ events) × (is_held (e ∷ events) ≡ b.acquired)

Acquires-Follows :
    (size : ℕ) (events : List Event) (b : Buffer) (e : Event) (b' : Buffer)
    → OneHolder events
    → is_held events ≡ b.acquired
    → Acquires size b (e, b')
    → Follows events (e, b')
Acquires-Follows size events b granted b' one h (free, made) =
    ((h ∙ free, one), sym (ap (λ x. x.acquired) made))
Acquires-Follows size events b refused b' one h (held, same) =
    ((h ∙ held, one), h ∙ sym (ap (λ x. x.acquired) same))
Acquires-Follows size events b released b' one h a = absurd a
Acquires-Follows size events b filled b' one h a = absurd a

module _ (size : ℕ) where
  -- Both acquisitions of installed functions, and both releases.
  abbrev Works : BufferFunctions → Type 0
  Works f =
      ((b : Buffer) → let (st, b') = f.acquire_sender b in Acquires size b (event_of st, b'))
      × ((b : Buffer) → let (st, b') = f.acquire_receiver b in Acquires size b (event_of st, b'))
      × ((b : Buffer) → (f.release_sender b).acquired ≡ false)
      × ((b : Buffer) → (f.release_receiver b).acquired ≡ false)

  Installed-Works : (f : BufferFunctions) → Installed size f → Works f
  unfolding release
  Installed-Works _ on_tcp =
      let a = λ (b : Buffer). acquire-Acquires invalid_state_local size b refl in
      (a, a, (λ b. refl), λ b. refl)
  Installed-Works _ on_mctp =
      let a = λ (b : Buffer). acquire-Acquires invalid_state_local size b refl in
      (a, a, (λ b. refl), λ b. refl)
  Installed-Works _ on_client =
      let a = λ (b : Buffer). acquire-Acquires acquire_fail size b refl in
      (a, a, (λ b. refl), λ b. refl)

  step-Follows :
      (f : BufferFunctions) (o : Operation) (events : List Event) (b : Buffer)
      → Works f
      → OneHolder events
      → is_held events ≡ b.acquired
      → Follows events (step f o b)
  unfolding step
  step-Follows f acquires_sender events b w one h =
      let (st, b') = f.acquire_sender b in
      Acquires-Follows size events b (event_of st) b' one h (w.0 b)
  step-Follows f acquires_receiver events b w one h =
      let (st, b') = f.acquire_receiver b in
      Acquires-Follows size events b (event_of st) b' one h (w.1 b)
  step-Follows f releases_sender events b w one h = (one, sym (w.2 b))
  step-Follows f releases_receiver events b w one h = (one, sym (w.3 b))
  step-Follows f (fills bytes) events b w one h = (one, h)

  run-Follows :
      (f : BufferFunctions) (os : List Operation) (events : List Event) (b : Buffer)
      → Works f
      → OneHolder events
      → is_held events ≡ b.acquired
      → let (es, b') = run f os events b in OneHolder es × (is_held es ≡ b'.acquired)
  unfolding run
  run-Follows f [] events b w one h = (one, h)
  run-Follows f (o ∷ os) events b w one h =
      let (e, b') = step f o b in
      let (one', h') = step-Follows f o events b w one h in
      run-Follows f os (e ∷ events) b' w one' h'

  -- The next acquisition, by whether somebody holds the buffer: it is granted, with zeroed
  -- bytes, or refused, with the buffer as it was.
  abbrev pub Next : Bool → Buffer → Status × Buffer → Type 0
  Next true b (st, b') = (event_of st ≡ refused) × (b' ≡ b)
  Next false b (st, b') =
      (event_of st ≡ granted) × (b' ≡ record { bytes = replicate size 0; acquired = true })

  Acquires-Next :
      (held : Bool) (b b' : Buffer) (st : Status) (e : Event)
      → event_of st ≡ e
      → held ≡ b.acquired
      → Acquires size b (e, b')
      → Next held b (st, b')
  Acquires-Next true b b' st granted s h (free, made) = absurd cc
  Acquires-Next true b b' st refused s h (held, same) = (s, same)
  Acquires-Next false b b' st granted s h (free, made) = (s, made)
  Acquires-Next false b b' st refused s h (held, same) = absurd cc
  Acquires-Next held b b' st released s h a = absurd a
  Acquires-Next held b b' st filled s h a = absurd a

-- For the functions of each of the three programs and a buffer that nobody holds: in every sequence
-- of acquisitions, releases and writes each grant is made when nobody holds the buffer and each
-- refusal when somebody does, so that there is one holder at a time; and after the sequence both
-- acquisitions succeed if nobody holds the buffer, which they zero, and otherwise leave it
-- as it is.
pub run-OneHolder :
    (size : ℕ) (f : BufferFunctions) (os : List Operation) (b : Buffer)
    → Installed size f
    → b.acquired ≡ false
    → let (events, b') = run f os [] b in
      OneHolder events
      × Next size (is_held events) b' (f.acquire_sender b')
      × Next size (is_held events) b' (f.acquire_receiver b')
run-OneHolder size f os b i free =
    let w = Installed-Works size f i in
    let (events, b') = run f os [] b in
    let (one, h) = run-Follows size f os [] b w tt (sym free) in
    let s = f.acquire_sender b' in
    let r = f.acquire_receiver b' in
    (
      one,
      Acquires-Next size (is_held events) b' s.1 s.0 (event_of s.0) refl h (w.0 b'),
      Acquires-Next size (is_held events) b' r.1 r.0 (event_of r.0) refl h (w.1 b'),
    )
