-- ===== src/Integrity/Measurements.antt =====
-- The requests for measurements, one for each index.
pub mod Collection
use spdm_working.Common.{ℕ, List, [], ◌∷◌, ◌++◌, Option, some, u8, Bool, ◌==◌, if◌then◌else◌}
use spdm_working.Exceptions.{runtime_error}
use spdm_working.Exceptions.Action.{Action, return, throw, from_option, ◌>>=◌}
use spdm_working.Libspdm.{Libspdm, call_for}
use spdm_working.Base64.{base64_encode}
use spdm_working.Integrity.{Component, State, require_context, ask}

-- The indices that are asked for when none is given.
unfoldable pub indices_to_process : List ℕ → List ℕ
indices_to_process [] = 255 ∷ []
indices_to_process (idx ∷ rest) = idx ∷ rest

unfoldable pub process_measurement_data : ℕ → List ℕ → List ℕ → List ℕ
process_measurement_data index measurement_data all_measurements =
    if index == 0 then all_measurements else all_measurements ++ measurement_data

module _ {D : Type 0} (lib : Libspdm D) where
  unfoldable pub get_single_measurement : ℕ → ℕ → ℕ → Action (State D) (List ℕ)
  get_single_measurement t index slot_id = do
    (status, blocks, record_) ← ask (call_for (lib.get_measurement t 0 (u8 index) (u8 slot_id)))
    if lib.is_error status
        then throw (runtime_error "Failed to get signed measurements")
        else return record_

  -- The loop over the indices.
  unfoldable pub collect : ℕ → ℕ → List ℕ → List ℕ → Action (State D) (List ℕ)
  unfolding get_single_measurement
  collect t slot_id [] all_measurements = return all_measurements
  collect t slot_id (idx ∷ rest) all_measurements = do
    data_ ← get_single_measurement t idx slot_id
    collect t slot_id rest (process_measurement_data idx data_ all_measurements)

  -- The nonce is only logged.
  unfoldable pub get_signed_measurements :
      Component → List ℕ → List ℕ → ℕ → Action (State D) (List ℕ)
  unfolding collect
  get_signed_measurements component measurement_indices nonce slot_id = do
    t ← require_context component.transport
    all_measurements ← collect t slot_id (indices_to_process measurement_indices) []
    from_option (base64_encode all_measurements)
