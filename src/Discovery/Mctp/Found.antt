-- ===== src/Discovery/Mctp/Found.antt =====
-- Which D-Bus objects are SPDM devices.
use spdm_working.Common.{
  ℕ, ◌==◌, ◌≡◌, ◌≢◌, refl, sym, ◌∙◌, ap, List, [], ◌∷◌, Option, none, some, Bool, true, false, not,
  if◌then◌else◌, arith,
}
use spdm_working.Common.Text.{codes}
use spdm_working.Common.Partial.{◌>>=◌}
use spdm_working.Discovery.{
  DbusInterface, DbusInterfaces, ManagedObjects, byte, find, ResponderInfo,
}
use spdm_working.Discovery.Select.{Selects, done, emplaced-Selects, skipped}
use spdm_working.Discovery.Mctp.Fields.{
  ListsSpdm, HasUuid, supports_spdm-ListsSpdm, ListsSpdm-supports_spdm, extract_eid-valid,
  extract_eid-lem, extract_uuid-HasUuid, HasUuid-extract_uuid,
}
use spdm_working.Discovery.Mctp.{
  mctp_endpoint_intf_name, supports_spdm, extract_eid, extract_uuid, new_device, with_uuid,
  with_endpoint, invalid_eid, create_device_from_interfaces, process_managed_objects,
}

-- An object with the interface of an MCTP endpoint that lists SPDM's message type, with an endpoint
-- identifier other than 255 and a UUID that is not empty; and the device made of it.
abbrev pub Found : List ℕ × DbusInterfaces → ResponderInfo → Type 0
Found (object_path, interfaces) device =
    (endpoint : DbusInterface) × (eid : ℕ) × (uuid : List ℕ) × (find mctp_endpoint_intf_name
        interfaces
      ≡ some endpoint)
    × ListsSpdm endpoint
    × (find (codes "EID") endpoint ≡ some (byte eid))
    × (eid ≢ 255)
    × HasUuid interfaces uuid
    × (device ≡ new_device object_path eid uuid)

-- What the last three tests of `create_device_from_interfaces` let through.
passed :
    (supported invalid : Bool) (object_path : List ℕ) (eid : ℕ) (uuid : List ℕ) (d : ResponderInfo)
    → (if not supported then none else if invalid then none else with_uuid object_path eid uuid)
      ≡ some d
    → (supported ≡ true) × (invalid ≡ false) × (uuid ≢ []) × (d ≡ new_device object_path eid uuid)
passed false invalid p eid uuid d e = absurd cc
passed true true p eid uuid d e = absurd cc
passed true false p eid [] d e = absurd cc
passed true false p eid (c ∷ s) d e = (refl, refl, (λ f. absurd cc), cc)

create_device_from_interfaces-Found :
    (interfaces : DbusInterfaces) (object_path : List ℕ) (d : ResponderInfo)
    → create_device_from_interfaces interfaces object_path ≡ some d
    → Found (object_path, interfaces) d
unfolding create_device_from_interfaces
create_device_from_interfaces-Found interfaces object_path d =
    of_endpoint (find mctp_endpoint_intf_name interfaces) refl
  where
    of_endpoint :
        (v : Option DbusInterface)
        → find mctp_endpoint_intf_name interfaces ≡ v
        → (v >>= with_endpoint object_path interfaces) ≡ some d
        → Found (object_path, interfaces) d
    of_endpoint none f e = absurd cc
    of_endpoint (some endpoint) f e =
        let eid = extract_eid endpoint in
        let uuid = extract_uuid interfaces in
        let (supported, valid, non_empty, made) =
          passed (supports_spdm endpoint) (eid == invalid_eid) object_path eid uuid d e in
        let differs : eid ≢ 255 = λ h. absurd (ground (arith, valid, h)) in
        (
          endpoint,
          eid,
          uuid,
          f,
          supports_spdm-ListsSpdm endpoint supported,
          extract_eid-valid endpoint differs,
          differs,
          extract_uuid-HasUuid interfaces non_empty,
          made,
        )

with_uuid-lem :
    (object_path : List ℕ) (eid : ℕ) (uuid : List ℕ)
    → uuid ≢ []
    → with_uuid object_path eid uuid ≡ some (new_device object_path eid uuid)
with_uuid-lem object_path eid [] h = absurd (h refl)
with_uuid-lem object_path eid (c ∷ s) h = refl

Found-create_device_from_interfaces :
    (interfaces : DbusInterfaces) (object_path : List ℕ) (d : ResponderInfo)
    → Found (object_path, interfaces) d
    → create_device_from_interfaces interfaces object_path ≡ some d
unfolding create_device_from_interfaces
Found-create_device_from_interfaces interfaces object_path d
      (endpoint, eid, uuid, f, lists, has_eid, differs, has_uuid, made) =
    rw
      (
        f,
        ListsSpdm-supports_spdm endpoint lists,
        extract_eid-lem endpoint eid has_eid,
        HasUuid-extract_uuid interfaces uuid has_uuid,
      )
      (skipped (eid == invalid_eid) (ground (arith, differs))
        (with_uuid-lem object_path eid uuid has_uuid.1 ∙ ap some (sym made)))

-- `processManagedObjects` makes one device for each object that is an SPDM device, in the order
-- of the objects, and none for any other.
pub process_managed_objects-Selects :
    (objects : ManagedObjects) → Selects Found objects (process_managed_objects objects)
unfolding process_managed_objects
process_managed_objects-Selects [] = done
process_managed_objects-Selects ((object_path, interfaces) ∷ rest) =
    emplaced-Selects (create_device_from_interfaces interfaces object_path)
      (create_device_from_interfaces-Found interfaces object_path)
      (Found-create_device_from_interfaces interfaces object_path)
      (process_managed_objects-Selects rest)
