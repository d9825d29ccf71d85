-- ===== src/Integrity.antt =====
-- `ComponentIntegrity` of requester/component_integrity_dbus.cpp: the object that asks a device for
-- its certificates and measurements and hands them out as evidence.
pub mod Indices
pub mod Measurements
pub mod Pem
pub mod Certificates
pub mod Evidence
mod Examples
use spdm_working.Common.{arith, ℕ, ◌≡◌, refl, List, Option, none, some, Bool, true, if◌then◌else◌}
use spdm_working.Common.Text.{codes}
use spdm_working.Exceptions.{ok, runtime_error}
use spdm_working.Exceptions.Action.{Action, return, throw}
use spdm_working.Libspdm.{World, context_of}
use spdm_working.Certificate.{Properties}

-- `SecurityTechnologyType`, as far as the program names it.
pub data SecurityTechnologyType : Type 0 where
  spdm : SecurityTechnologyType

-- The members and the properties of the object. `last_updated` is in milliseconds.
pub record Component : Type 0 where
  pub path : List ℕ
  pub technology_type : SecurityTechnologyType
  pub type_version : List ℕ
  pub enabled : Bool
  pub last_updated : ℕ
  pub transport : Option ℕ

-- The constructor with `initializeProperties`, which reads the clock.
unfoldable pub new_component : List ℕ → ℕ → Component
new_component path now = record {
  path = path;
  technology_type = spdm;
  type_version = codes "1.1";
  enabled = true;
  last_updated = now;
  transport = none;
}

-- `setTransport`.
abbrev pub with_transport : Option ℕ → Component → Component
with_transport transport c = record c { transport = transport }

-- What its methods change: the world, and the certificate object that they publish.
pub record State (D : Type 0) : Type 0 where
  pub world : World D
  pub certificate_object : Option Properties

-- The two tests that its requests begin with: the transport and its context are there.
unfoldable pub require_context : {D : Type 0} → Option ℕ → Action (State D) ℕ
require_context none s = throw (runtime_error "SPDM transport not initialized") s
require_context (some t) s =
    if context_of t s.world
    then return t s
    else throw (runtime_error "SPDM context not initialized") s

-- A call of libspdm on the world of the state.
abbrev pub ask : {D A : Type 0} → (World D → A × World D) → Action (State D) A
ask f s = let r = f s.world in return r.0 (record s { world = r.1 })

pub require_context-present :
    {D : Type 0} (transport : Option ℕ) (t : ℕ) (s : State D)
    → transport ≡ some t
    → context_of t s.world ≡ true
    → require_context transport s ≡ (ok t, s)
unfolding require_context
require_context-present transport t s e c = ground arith
