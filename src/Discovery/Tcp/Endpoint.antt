-- ===== src/Discovery/Tcp/Endpoint.antt =====
-- Which D-Bus objects are TCP endpoints.
use spdm_working.Common.{
  ℕ, zero, suc, ◌==◌, ◌≡◌, ◌≢◌, refl, sym, ◌∙◌, List, [], ◌∷◌, Option, none, some, Bool, true,
  false, All, arith, if◌then◌else◌, Option-cases, inl, inr, ◌⊎◌,
}
use spdm_working.Common.Partial.{◌>>=◌}
use spdm_working.Discovery.{
  DbusPropertyValue, DbusInterface, DbusInterfaces, ManagedObjects, text, uint64, get_text,
  get_uint64, find, ResponderInfo,
}
use spdm_working.Discovery.Values.{IsMap}
use spdm_working.Discovery.Select.{Selects, done, emplaced-Selects, skipped}
use spdm_working.Discovery.Tcp.Properties.{or_default, take_properties-read_off}
use spdm_working.Discovery.Tcp.{
  spdm_tcp_endpoint, host_name, port_name, TcpInfo, new_device, with_info,
  create_device_from_interfaces, process_managed_objects, discover_devices,
}

-- An object with the interface of a TCP endpoint, whose host name is a text that is not empty and
-- whose port is a number other than 0; and the device made of it, whose transport has the
-- port's last 16 bits.
abbrev pub IsEndpoint : List ℕ × DbusInterfaces → ResponderInfo → Type 0
IsEndpoint (object_path, interfaces) device =
    (properties : DbusInterface) × (ip_addr : List ℕ) × (port : ℕ) × (find spdm_tcp_endpoint
        interfaces
      ≡ some properties)
    × (find host_name properties ≡ some (text ip_addr))
    × (ip_addr ≢ [])
    × (find port_name properties ≡ some (uint64 port))
    × (port ≢ 0)
    × (device ≡ new_device object_path (record { ip_addr = ip_addr; port = port }))

module _ (object_path : List ℕ) where
  -- The device for the two properties' values.
  abbrev made_of : Option DbusPropertyValue → Option DbusPropertyValue → Option ResponderInfo
  made_of host port =
      let info : Option TcpInfo = or_default get_text [] host >>= (λ ip.
        or_default get_uint64 0 port >>= (λ n. some (record { ip_addr = ip; port = n }))) in
      info >>= (λ info. with_info object_path info.ip_addr info.port)

  with_port-tested :
      (ip : List ℕ) (port : ℕ) (d : ResponderInfo) (b : Bool)
      → (port == 0) ≡ b
      → (if b then none else some (new_device object_path (record { ip_addr = ip; port = port })))
        ≡ some d
      → (port ≢ 0) × (d ≡ new_device object_path (record { ip_addr = ip; port = port }))
  with_port-tested ip port d true t e = absurd cc
  with_port-tested ip port d false t e = ((λ h. absurd (ground (arith, t, h))), cc)

  made_of_sound :
      (host port : Option DbusPropertyValue) (d : ResponderInfo)
      → made_of host port ≡ some d
      → (ip : List ℕ) × (n : ℕ) × (host ≡ some (text ip))
        × (ip ≢ [])
        × (port ≡ some (uint64 n))
        × (n ≢ 0)
        × (d ≡ new_device object_path (record { ip_addr = ip; port = n }))
  made_of_sound (some (text (c ∷ s))) (some (uint64 n)) d e =
      let (differs, made) = with_port-tested (c ∷ s) n d (n == 0) refl e in
      (c ∷ s, n, refl, (λ h. absurd cc), refl, differs, made)
  made_of_sound none none d e = absurd cc
  made_of_sound none (some (uint64 n)) d e = absurd cc
  made_of_sound none (some _) d e = absurd cc
  made_of_sound (some (text [])) none d e = absurd cc
  made_of_sound (some (text [])) (some (uint64 n)) d e = absurd cc
  made_of_sound (some (text [])) (some _) d e = absurd cc
  made_of_sound (some (text (c ∷ s))) none d e = absurd cc
  made_of_sound (some (text (c ∷ s))) (some _) d e = absurd cc
  made_of_sound (some _) port d e = absurd cc

  made_of_complete :
      (ip : List ℕ) (n : ℕ)
      → ip ≢ []
      → n ≢ 0
      → made_of (some (text ip)) (some (uint64 n))
        ≡ some (new_device object_path (record { ip_addr = ip; port = n }))
  made_of_complete [] n h g = absurd (h refl)
  made_of_complete (c ∷ s) zero h g = absurd (g refl)
  made_of_complete (c ∷ s) (suc n) h g = skipped (suc n == 0) (ground arith) refl

-- The interface's properties are a map.
abbrev pub HasMap : List ℕ × DbusInterfaces → Type 0
HasMap (path, interfaces) =
    (properties : DbusInterface)
    → find spdm_tcp_endpoint interfaces ≡ some properties
    → IsMap properties

create-made_of :
    (interfaces : DbusInterfaces) (object_path : List ℕ) (properties : DbusInterface)
    → HasMap (object_path, interfaces)
    → find spdm_tcp_endpoint interfaces ≡ some properties
    → create_device_from_interfaces interfaces object_path
      ≡ made_of object_path (find host_name properties) (find port_name properties)
unfolding create_device_from_interfaces
create-made_of interfaces object_path properties m f =
    rw (f, take_properties-read_off (record { ip_addr = []; port = 0 }) properties (m properties f))
      refl

create-IsEndpoint :
    (interfaces : DbusInterfaces) (object_path : List ℕ) (d : ResponderInfo)
    → HasMap (object_path, interfaces)
    → create_device_from_interfaces interfaces object_path ≡ some d
    → IsEndpoint (object_path, interfaces) d
unfolding create_device_from_interfaces
create-IsEndpoint interfaces object_path d m e =
    of_interface (Option-cases (find spdm_tcp_endpoint interfaces))
  where
    none_made :
        find spdm_tcp_endpoint interfaces ≡ none
        → create_device_from_interfaces interfaces object_path ≡ none
    none_made f = rw f refl

    of_interface :
        (find spdm_tcp_endpoint interfaces ≡ none)
          ⊎ ((p : DbusInterface) × (find spdm_tcp_endpoint interfaces ≡ some p))
        → IsEndpoint (object_path, interfaces) d
    of_interface (inl f) = let g = none_made f in absurd cc
    of_interface (inr (properties, f)) =
        let (ip, n, h, i, p, g, made) =
          made_of_sound object_path (find host_name properties) (find port_name properties) d
            (sym (create-made_of interfaces object_path properties m f) ∙ e) in
        (properties, ip, n, f, h, i, p, g, made)

IsEndpoint-create :
    (interfaces : DbusInterfaces) (object_path : List ℕ) (d : ResponderInfo)
    → HasMap (object_path, interfaces)
    → IsEndpoint (object_path, interfaces) d
    → create_device_from_interfaces interfaces object_path ≡ some d
IsEndpoint-create interfaces object_path d m (properties, ip, n, f, h, i, p, g, made) =
    create-made_of interfaces object_path properties m f
    ∙ rw (h, p, made) (made_of_complete object_path ip n i g)

-- For objects whose endpoint interfaces are maps, as D-Bus gives them, and where the call succeeds: the callback of
-- `discoverDevices` is given one device for each object that is a TCP endpoint, in their order,
-- and none for any other object.
pub discover_devices-IsEndpoint :
    (objects : ManagedObjects)
    → All HasMap objects
    → Selects IsEndpoint objects (discover_devices true (some objects))
unfolding discover_devices process_managed_objects
discover_devices-IsEndpoint [] m = done
discover_devices-IsEndpoint ((object_path, interfaces) ∷ rest) (m, ms) =
    emplaced-Selects (create_device_from_interfaces interfaces object_path)
      (λ d. create-IsEndpoint interfaces object_path d m)
      (λ d. IsEndpoint-create interfaces object_path d m) (discover_devices-IsEndpoint rest ms)
