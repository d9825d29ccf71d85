-- ===== src/Discovery/Mctp/Matched.antt =====
-- Which path the entity manager's objects give a device.
use spdm_working.Common.{
  ℕ, ==_iff, ◌≡◌, refl, ap, List, [], ◌∷◌, ◌++◌, Option, none, some, Bool, true, false, All,
  if◌then◌else◌,
}
use spdm_working.Common.Text.{codes}
use spdm_working.Common.Partial.{◌>>=◌}
use spdm_working.Discovery.{
  DbusPropertyValue, get_uint64, DbusInterface, DbusInterfaces, ManagedObjects, uint64, find,
  ResponderInfo, mctp, mctp_responder,
}
use spdm_working.Discovery.Mctp.{
  spdm_mctp_requester, configured_eid, has_eid, matches, assign_object_path, parse_spdm_em_config,
  process_managed_objects, discover_devices, get_spdm_em_configs,
}
use spdm_working.Discovery.Select.{Selects, done, kept, dropped}
use spdm_working.Discovery.Mctp.Found.{Found, process_managed_objects-Selects}

-- The object configures a requester of MCTP for the identifier.
abbrev pub Configures : ℕ → List ℕ × DbusInterfaces → Type 0
Configures eid (path, interfaces) =
    (properties : DbusInterface) × (find spdm_mctp_requester interfaces ≡ some properties)
    × (find (codes "EID") properties ≡ some (uint64 eid))

-- The device with the path of the first object that configures its identifier, or as it was.
pub data Assigned (eid : ℕ) (device : ResponderInfo) (objects : ManagedObjects)
    : ResponderInfo → Type 0 where
  first_match :
      (before after : ManagedObjects) (path : List ℕ) (interfaces : DbusInterfaces)
      → objects ≡ before ++ (path, interfaces) ∷ after
      → All (λ o. Configures eid o → ⊥) before
      → Configures eid (path, interfaces)
      → Assigned eid device objects (record device { device_object_path = path })
  no_match : All (λ o. Configures eid o → ⊥) objects → Assigned eid device objects device

configured_eid-Configures :
    (eid : ℕ) (path : List ℕ) (interfaces : DbusInterfaces)
    → configured_eid interfaces ≡ some eid
    → Configures eid (path, interfaces)
configured_eid-Configures eid path interfaces = of_interface (find spdm_mctp_requester interfaces)
  where
    of_value :
        (v : Option DbusPropertyValue) → (v >>= get_uint64) ≡ some eid → v ≡ some (uint64 eid)
    of_value (some (uint64 n)) e = cc
    of_value none e = absurd cc
    of_value (some _) e = absurd cc

    of_interface :
        (v : Option DbusInterface)
        → (v >>= (λ i. find (codes "EID") i >>= get_uint64)) ≡ some eid
        → (properties : DbusInterface) × (v ≡ some properties)
          × (find (codes "EID") properties ≡ some (uint64 eid))
    of_interface none e = absurd cc
    of_interface (some i) e = (i, refl, of_value (find (codes "EID") i) e)

Configures-configured_eid :
    (eid : ℕ) (path : List ℕ) (interfaces : DbusInterfaces)
    → Configures eid (path, interfaces)
    → configured_eid interfaces ≡ some eid
Configures-configured_eid eid path interfaces (properties, e, f) = rw (e, f) refl

module _ (device : ResponderInfo) (eid : ℕ) (uuid : List ℕ) (of_mctp : device.transport_type ≡ mctp)
    (of_eid : device.responder_data ≡ mctp_responder eid uuid) where
  matches-Configures :
      (path : List ℕ) (interfaces : DbusInterfaces)
      → matches device (configured_eid interfaces) ≡ true
      → Configures eid (path, interfaces)
  matches-Configures path interfaces h =
      configured_eid-Configures eid path interfaces (of_option (configured_eid interfaces) h)
    where
      of_option : (o : Option ℕ) → matches device o ≡ true → o ≡ some eid
      of_option none h = absurd cc
      of_option (some n) h =
          let same : has_eid mctp (mctp_responder eid uuid) n ≡ true = cc in
          ap some ((==_iff n eid).0 same)

  Configures-matches :
      (path : List ℕ) (interfaces : DbusInterfaces)
      → Configures eid (path, interfaces)
      → matches device (configured_eid interfaces) ≡ true
  Configures-matches path interfaces h =
      rw (Configures-configured_eid eid path interfaces h, of_mctp, of_eid)
        ((==_iff eid eid).1 refl)

  step-Assigned :
      (path : List ℕ) (interfaces : DbusInterfaces) (objects : ManagedObjects)
      (later : ResponderInfo) (b : Bool)
      → matches device (configured_eid interfaces) ≡ b
      → Assigned eid device objects later
      → Assigned eid device
          ((path, interfaces) ∷ objects)
          (if b then record device { device_object_path = path } else later)
  step-Assigned path interfaces objects later true h rest =
      first_match [] objects path interfaces refl tt (matches-Configures path interfaces h)
  step-Assigned path interfaces objects _ false h (no_match all) =
      no_match ((λ c. let e = Configures-matches path interfaces c in absurd cc), all)
  step-Assigned path interfaces objects _ false h (first_match before after p i e all c) =
      first_match ((path, interfaces) ∷ before) after p i (ap (λ os. (path, interfaces) ∷ os) e)
        ((λ d. let e = Configures-matches path interfaces d in absurd cc), all) c

  assign_object_path-Assigned :
      (objects : ManagedObjects) → Assigned eid device objects (assign_object_path device objects)
  unfolding assign_object_path
  assign_object_path-Assigned [] = no_match tt
  assign_object_path-Assigned ((path, interfaces) ∷ rest) =
      step-Assigned path interfaces rest (assign_object_path device rest)
        (matches device (configured_eid interfaces)) refl (assign_object_path-Assigned rest)

-- An SPDM device of the objects, whose path in the inventory comes from the entity manager's.
abbrev pub Located : ManagedObjects → List ℕ × DbusInterfaces → ResponderInfo → Type 0
Located em_objects object result =
    (device : ResponderInfo) × (eid : ℕ) × (uuid : List ℕ) × Found object device
    × (device.responder_data ≡ mctp_responder eid uuid)
    × Assigned eid device em_objects result

located :
    (em_objects : ManagedObjects) (object : List ℕ × DbusInterfaces) (device : ResponderInfo)
    → Found object device
    → Located em_objects object (assign_object_path device em_objects)
located em_objects object device h =
    let (endpoint, eid, uuid, f, lists, has, differs, has_uuid, made) = h in
    let of_eid = ap (λ d. d.responder_data) made in
    (
      device,
      eid,
      uuid,
      h,
      of_eid,
      assign_object_path-Assigned device eid uuid (ap (λ d. d.transport_type) made) of_eid
          em_objects,
    )

parse_spdm_em_config-Selects :
    (em_objects objects : ManagedObjects) (devices : List ResponderInfo)
    → Selects Found objects devices
    → Selects (Located em_objects) objects (parse_spdm_em_config devices em_objects)
unfolding parse_spdm_em_config
parse_spdm_em_config-Selects em_objects _ _ done = done
parse_spdm_em_config-Selects em_objects _ _ (kept {a = o} {b = d} {xs = os} {ys = ds} h rest) =
    kept (located em_objects o d h) (parse_spdm_em_config-Selects em_objects os ds rest)
parse_spdm_em_config-Selects em_objects _ _ (dropped {xs = os} {ys = ds} none_made rest) =
    dropped (λ r h. none_made h.0 h.3) (parse_spdm_em_config-Selects em_objects os ds rest)

-- Where both calls of `GetManagedObjects` give objects, the callback of `discoverDevices` is given one
-- device for each D-Bus object that is an SPDM device, in their order, and none for any other object;
-- each has the path of the first object of the entity manager that configures its endpoint
-- identifier, or is left as it was made where none does.
pub discover_devices-Selects :
    (objects em_objects : ManagedObjects)
    → Selects (Located em_objects) objects (discover_devices true (some objects) (some em_objects))
unfolding discover_devices get_spdm_em_configs
discover_devices-Selects objects em_objects =
    parse_spdm_em_config-Selects em_objects objects (process_managed_objects objects)
      (process_managed_objects-Selects objects)
