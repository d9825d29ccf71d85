-- ===== src/Daemon/Responders.antt =====
-- The responders that each loop of requester/spdmd.cpp leaves, by what the policy allows.
use spdm_working.Common.{
  ℕ, ◌≡◌, refl, sym, ap, subst, ◌∙◌, List, [], ◌∷◌, Option, none, some, Bool, true, false, All,
  arith, Bool-cases, inl, inr,
}
use spdm_working.Exceptions.{Result, ok, threw, unfinished, runtime_error}
use spdm_working.Libspdm.{Libspdm, World}
use spdm_working.Config.{SecureSessionConfig}
use spdm_working.Session.{SpdmSession, stop}
use spdm_working.Responder.{
  ResponderInfo, Responder, secure_session_active, new_responder, open_secure_session,
  close_secure_session, close_on, open_on, open_session, constructed,
}
use spdm_working.Integrity.{State, Component, require_context}
use spdm_working.Integrity.Certificates.{initialize_spdm_connection}
use spdm_working.Daemon.{
  Platform, close_if_active, close_all, open_and_beat, construct, process_device, process_all,
  process_discovered_devices, open_if_inactive, open_all, prepare, has_transport, with_constructed,
  pushed,
}

-- A responder that the policy allows: it has a transport, and a session only with the policy's
-- consent.
abbrev pub IsAllowed : Bool → Responder → Type 0
IsAllowed true r = has_transport r.transport ≡ true
IsAllowed false r = (has_transport r.transport ≡ true) × (secure_session_active r ≡ false)

weaker : (r : Responder) (secure : Bool) → IsAllowed secure r → has_transport r.transport ≡ true
weaker r true h = h
weaker r false h = h.0

stop-inactive :
    {D : Type 0} (lib : Libspdm D) (session : SpdmSession) (w : World D)
    → (stop lib 0 session w).1.is_active ≡ false
unfolding stop
stop-inactive lib session w = ground arith

module _ {D : Type 0} (platform : Platform D) (cfg : SecureSessionConfig) where
  close_on-inactive :
      (session : Option SpdmSession) (r : Responder) (w : World D)
      → session ≡ r.session
      → (secure_session_active (close_on platform.lib session r w).1 ≡ false)
        × ((close_on platform.lib session r w).1.transport ≡ r.transport)
  close_on-inactive none r w e = ((rw (← e) refl), refl)
  close_on-inactive (some session) r w e = (stop-inactive platform.lib session w, refl)

  close_secure_session-inactive :
      (r : Responder) (w : World D)
      → (secure_session_active (close_secure_session platform.lib r w).1 ≡ false)
        × ((close_secure_session platform.lib r w).1.transport ≡ r.transport)
  unfolding close_secure_session
  close_secure_session-inactive r w = close_on-inactive r.session r w refl

  close_if_active-IsAllowed :
      (r : Responder) (w : World D)
      → has_transport r.transport ≡ true
      → IsAllowed false (close_if_active platform r w).0
  unfolding close_if_active
  close_if_active-IsAllowed r w h = ground (arith, close_secure_session-inactive r w)

  pub close_all-IsAllowed :
      (secure : Bool) (rs : List Responder) (w : World D)
      → All (IsAllowed secure) rs
      → All (IsAllowed false) (close_all platform rs w).0
  unfolding close_all
  close_all-IsAllowed secure [] w all = tt
  close_all-IsAllowed secure (r ∷ rs) w all =
      (close_if_active-IsAllowed r w (weaker r secure all.0), close_all-IsAllowed secure rs _ all.1)

  open_on-transport :
      (transport : Option ℕ) (r : Responder) (w : World D)
      → (open_on platform.lib platform.algorithms platform.files transport cfg 0 r w).1.transport
        ≡ r.transport
  unfolding open_session
  open_on-transport none r w = refl
  open_on-transport (some t) r w = ground arith

  open_secure_session-transport :
      (r : Responder) (w : World D)
      → (open_secure_session platform.lib platform.algorithms platform.files cfg 0 r w).1.transport
        ≡ r.transport
  unfolding open_secure_session
  open_secure_session-transport r w = open_on-transport r.transport r w

  open_and_beat-transport :
      (r : Responder) (w : World D) → (open_and_beat platform cfg r w).0.transport ≡ r.transport
  unfolding open_and_beat
  open_and_beat-transport r w = ground (arith, open_secure_session-transport r w)

  open_if_inactive-transport :
      (r : Responder) (w : World D)
      → has_transport r.transport ≡ true
      → IsAllowed true (open_if_inactive platform cfg r w).0
  unfolding open_if_inactive
  open_if_inactive-transport r w h = ground (arith, open_and_beat-transport r w)

  pub open_all-IsAllowed :
      (secure : Bool) (rs : List Responder) (w : World D)
      → All (IsAllowed secure) rs
      → All (IsAllowed true) (open_all platform cfg rs w).0
  unfolding open_all
  open_all-IsAllowed secure [] w all = tt
  open_all-IsAllowed secure (r ∷ rs) w all =
      (open_if_inactive-transport r w (weaker r secure all.0), open_all-IsAllowed secure rs _ all.1)

  connected :
      (transport : Option ℕ) (c : Component) (s : State D)
      → c.transport ≡ transport
      → (initialize_spdm_connection platform.lib c s).0 ≡ ok tt
      → has_transport transport ≡ true
  unfolding initialize_spdm_connection require_context
  connected none c s e h = absurd (cc (h, none_throws c s e))
    where
      none_throws :
          (c : Component) (s : State D)
          → c.transport ≡ none
          → (initialize_spdm_connection platform.lib c s).0
            ≡ threw (runtime_error "SPDM transport not initialized")
      none_throws c s e = rw e refl
  connected (some t) c s e h = refl

  constructed-ok :
      (r₀ r : Responder) (result : Result (Unit {0}) × State D)
      → (constructed r₀ result).0 ≡ ok r
      → (r₀ ≡ r) × (result.0 ≡ ok tt)
  constructed-ok r₀ r (ok u, s) e = ((cc e), refl)
  constructed-ok r₀ r (threw x, s) e = absurd (cc e)
  constructed-ok r₀ r (unfinished, s) e = absurd (cc e)

  -- The connection needs a transport, and the constructor opens no session.
  new_responder-IsAllowed :
      (info : ResponderInfo) (w : World D) (r : Responder)
      → (new_responder platform.lib platform.filename platform.clock info w).0 ≡ ok r
      → IsAllowed false r × (r.transport ≡ info.transport)
  unfolding new_responder
  new_responder-IsAllowed info w r e =
      let parts = constructed-ok _ r _ e in
      subst (λ r. IsAllowed false r × (r.transport ≡ info.transport)) parts.0
        ((connected info.transport _ _ refl parts.1, refl), refl)

  Made : Bool → Option Responder → Type 0
  Made secure none = Unit
  Made secure (some r) = IsAllowed secure r

  with_constructed-Made :
      (secure : Bool) (info : ResponderInfo) (result : Result Responder × World D)
      → ((r : Responder) → result.0 ≡ ok r → IsAllowed false r × (r.transport ≡ info.transport))
      → Made secure (with_constructed platform cfg secure info.transport result).0
  unfolding Made
  with_constructed-Made true info (ok r, w) h =
      let ready : has_transport info.transport ≡ true =
        sym (ap has_transport (h r refl).1) ∙ (h r refl).0.0 in
      rw ready (ap has_transport (open_and_beat-transport r w) ∙ (h r refl).0.0)
  with_constructed-Made false info (ok r, w) h = ground (arith, (h r refl).0)
  with_constructed-Made secure info (threw e, w) h = tt
  with_constructed-Made secure info (unfinished, w) h = tt

  construct-Made :
      (secure : Bool) (info : ResponderInfo) (w : World D)
      → Made secure (construct platform cfg secure info w).0
  unfolding construct
  construct-Made secure info w =
      with_constructed-Made secure info _ (λ r e. new_responder-IsAllowed info w r e)

  process_device-Made :
      (secure : Bool) (info : ResponderInfo) (w : World D)
      → Made secure (process_device platform cfg secure info w).0
  unfolding process_device Made
  process_device-Made secure info w = elim (Bool-cases (prepare platform cfg info.transport w).0) [
    | inl ready ↦ rw ready (construct-Made secure info _)
    | inr skipped ↦ rw skipped tt
  ]

  pushed-IsAllowed :
      (secure : Bool) (made : Option Responder) (rs : List Responder)
      → Made secure made
      → All (IsAllowed secure) rs
      → All (IsAllowed secure) (pushed made rs)
  unfolding Made
  pushed-IsAllowed secure none rs m all = all
  pushed-IsAllowed secure (some r) rs m all = (m, all)

  process_all-IsAllowed :
      (secure : Bool) (infos : List ResponderInfo) (w : World D)
      → All (IsAllowed secure) (process_all platform cfg secure infos w).0
  unfolding process_all
  process_all-IsAllowed secure [] w = tt
  process_all-IsAllowed secure (info ∷ infos) w =
      pushed-IsAllowed secure _ _ (process_device-Made secure info w)
        (process_all-IsAllowed secure infos _)

  pub process_discovered_devices-IsAllowed :
      (secure : Bool) (infos : List ResponderInfo) (rs : List Responder) (w : World D)
      → All (IsAllowed secure) (process_discovered_devices platform cfg secure infos rs w).0
  unfolding process_discovered_devices
  process_discovered_devices-IsAllowed secure infos rs w = process_all-IsAllowed secure infos _
