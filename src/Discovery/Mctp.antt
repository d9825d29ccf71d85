-- ===== src/Discovery/Mctp.antt =====
-- `MCTPTransportDiscovery` of requester/mctp_transport_discovery.cpp.
pub mod Fields
pub mod Found
pub mod Matched
use spdm_working.Common.{
  ℕ, ◌==◌, u8, List, [], ◌∷◌, Option, none, some, Bool, true, false, not, ◌||◌, if◌then◌else◌,
}
use spdm_working.Common.Text.{codes}
use spdm_working.Common.Partial.{◌>>=◌}
use spdm_working.Discovery.{
  DbusPropertyValue, DbusInterface, DbusInterfaces, ManagedObjects, get_text, get_byte,
  get_byte_array, get_uint64, find, mctp, mctp_responder, tcp_responder, mctp_transport,
  ResponderInfo, ResponderData, TransportType, emplaced, or_none_found,
}

abbrev pub mctp_endpoint_intf_name : List ℕ
mctp_endpoint_intf_name = codes "xyz.openbmc_project.MCTP.Endpoint"

abbrev pub uuid_intf_name : List ℕ
uuid_intf_name = codes "xyz.openbmc_project.Common.UUID"

abbrev pub spdm_mctp_requester : List ℕ
spdm_mctp_requester = codes "xyz.openbmc_project.Configuration.SpdmMctpRequester"

abbrev pub mctp_message_type_spdm_value : ℕ
mctp_message_type_spdm_value = 0x05

abbrev pub invalid_eid : ℕ
invalid_eid = 255

-- `std::find` with a result other than the end.
unfoldable pub contains : ℕ → List ℕ → Bool
contains x [] = false
contains x (y ∷ ys) = y == x || contains x ys

abbrev pub holds_spdm : Option (List ℕ) → Bool
holds_spdm none = false
holds_spdm (some types) = contains mctp_message_type_spdm_value types

unfoldable pub supports_spdm : DbusInterface → Bool
supports_spdm interface =
    holds_spdm (find (codes "SupportedMessageTypes") interface >>= get_byte_array)

abbrev pub valid_eid : Option ℕ → ℕ
valid_eid none = invalid_eid
valid_eid (some eid) = if eid == invalid_eid then invalid_eid else eid

unfoldable pub extract_eid : DbusInterface → ℕ
extract_eid interface = valid_eid (find (codes "EID") interface >>= get_byte)

abbrev pub or_empty : Option (List ℕ) → List ℕ
or_empty none = []
or_empty (some s) = s

-- Without the interface, the property or a text in it, the empty text.
unfoldable pub extract_uuid : DbusInterfaces → List ℕ
extract_uuid interfaces =
    or_empty (find uuid_intf_name interfaces >>= (λ i. find (codes "UUID") i >>= get_text))

-- `std::make_unique<SpdmMctpTransport>(eid)`, whose argument is a byte.
abbrev pub new_device : List ℕ → ℕ → List ℕ → ResponderInfo
new_device object_path eid uuid = record {
  object_path = object_path;
  device_object_path = [];
  transport = mctp_transport (u8 eid);
  responder_data = mctp_responder eid uuid;
  transport_type = mctp;
}

abbrev pub with_uuid : List ℕ → ℕ → List ℕ → Option ResponderInfo
with_uuid object_path eid [] = none
with_uuid object_path eid (c ∷ s) = some (new_device object_path eid (c ∷ s))

abbrev pub with_endpoint : List ℕ → DbusInterfaces → DbusInterface → Option ResponderInfo
with_endpoint object_path interfaces endpoint =
    if not (supports_spdm endpoint)
    then none
    else if extract_eid endpoint == invalid_eid
    then none
    else with_uuid object_path (extract_eid endpoint) (extract_uuid interfaces)

unfoldable pub create_device_from_interfaces : DbusInterfaces → List ℕ → Option ResponderInfo
create_device_from_interfaces interfaces object_path =
    find mctp_endpoint_intf_name interfaces >>= with_endpoint object_path interfaces

unfoldable pub process_managed_objects : ManagedObjects → List ResponderInfo
process_managed_objects [] = []
process_managed_objects ((object_path, interfaces) ∷ rest) =
    emplaced (create_device_from_interfaces interfaces object_path) (process_managed_objects rest)

-- The identifier that an object of the entity manager configures, if it does.
abbrev pub configured_eid : DbusInterfaces → Option ℕ
configured_eid interfaces =
    find spdm_mctp_requester interfaces >>= (λ i. find (codes "EID") i >>= get_uint64)

-- Whether a device is of MCTP and has the identifier. Its `eid` is a `size_t`.
abbrev pub has_eid : TransportType → ResponderData → ℕ → Bool
has_eid mctp (mctp_responder eid uuid) configured = configured == eid
has_eid _ _ configured = false

abbrev pub matches : ResponderInfo → Option ℕ → Bool
matches device none = false
matches device (some configured) = has_eid device.transport_type device.responder_data configured

-- The inner loop.
unfoldable pub assign_object_path : ResponderInfo → ManagedObjects → ResponderInfo
assign_object_path device [] = device
assign_object_path device ((em_obj_path, em_ifaces) ∷ rest) =
    let later = assign_object_path device rest in
    if matches device (configured_eid em_ifaces)
    then record device { device_object_path = em_obj_path }
    else later

unfoldable pub parse_spdm_em_config : List ResponderInfo → ManagedObjects → List ResponderInfo
parse_spdm_em_config [] objects = []
parse_spdm_em_config (device ∷ devices) objects =
    assign_object_path device objects ∷ parse_spdm_em_config devices objects

-- What the callback of `getSpdmEMConfigs` is given.
unfoldable pub get_spdm_em_configs : Option ManagedObjects → List ResponderInfo → List ResponderInfo
get_spdm_em_configs em_objects devices =
    or_none_found em_objects (λ objects. parse_spdm_em_config devices objects)

-- What the callback of `discoverDevices` is given, where `async_ctx` is not null and the two calls
-- of `GetManagedObjects` give objects or fail.
unfoldable pub discover_devices :
    Bool → Option ManagedObjects → Option ManagedObjects → List ResponderInfo
unfolding get_spdm_em_configs
discover_devices false managed_objects em_objects = []
discover_devices true managed_objects em_objects =
    or_none_found managed_objects
      (λ objects. get_spdm_em_configs em_objects (process_managed_objects objects))
