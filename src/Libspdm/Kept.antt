-- ===== src/Libspdm/Kept.antt =====
-- What every call of libspdm keeps of the world, all that is built of such calls keeps.
use spdm_working.Common.{ℕ, ◌≡◌, Option, some, Bool}
use spdm_working.Libspdm.{Libspdm, DataType, DataValue, World, call, call_for, set_transport}

-- The calls that the daemon makes for a transport, and what it records in it, keep `P`.
pub record Respects {D : Type 0} (lib : Libspdm D) (P : World D → Type 0) (t : ℕ) : Type 0 where
  pub init_connection : (w : World D) → P w → P (call (lib.init_connection t) w).1
  pub get_digest : (w : World D) → P w → P (call_for (lib.get_digest t) w).1
  pub get_certificate :
      (slot : ℕ) (w : World D) → P w → P (call_for (lib.get_certificate t slot) w).1
  pub start_session :
      (use_psk : Bool) (hash slot policy : ℕ) (w : World D)
      → P w
      → P (call_for (lib.start_session t use_psk hash slot policy) w).1
  pub stop_session : (id attrs : ℕ) (w : World D) → P w → P (call (lib.stop_session t id attrs) w).1
  pub heartbeat : (id : ℕ) (w : World D) → P w → P (call (lib.heartbeat t id) w).1
  pub set_data :
      (k : DataType) (v : DataValue) (w : World D) → P w → P (call (lib.set_data t k v) w).1
  pub get_base_asym_algo : (w : World D) → P w → P (call_for (lib.get_base_asym_algo t) w).1
  pub use_version :
      (version : ℕ) (w : World D)
      → P w
      → P (set_transport t (record (w.transports t) { use_version = version }) w)
  pub use_flags :
      (flags : ℕ) (w : World D)
      → P w
      → P (set_transport t (record (w.transports t) { use_requester_capability_flags = flags }) w)

-- For the transport, if there is one.
abbrev pub RespectsOn : {D : Type 0} → Libspdm D → (World D → Type 0) → Option ℕ → Type 0
RespectsOn lib P transport = (t : ℕ) → transport ≡ some t → Respects lib P t
