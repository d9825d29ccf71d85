-- ===== src/Discovery/Tcp.antt =====
-- `TCPTransportDiscovery` of requester/tcp_transport_discovery.cpp.
pub mod Properties
pub mod Endpoint
use spdm_working.Common.{
  ℕ, ◌==◌, u16, List, [], ◌∷◌, Option, none, some, Bool, true, false, if◌then◌else◌,
}
use spdm_working.Common.Text.{codes}
use spdm_working.Common.Partial.{◌>>=◌}
use spdm_working.Discovery.{
  DbusPropertyValue, DbusInterface, DbusInterfaces, ManagedObjects, get_text, get_uint64, same_text,
  find, tcp, tcp_responder, tcp_transport, ResponderInfo, emplaced, or_none_found,
}

abbrev pub spdm_tcp_endpoint : List ℕ
spdm_tcp_endpoint = codes "xyz.openbmc_project.Configuration.SpdmTcpEndpoint"

abbrev pub host_name : List ℕ
host_name = codes "HostName"

abbrev pub port_name : List ℕ
port_name = codes "Port"

-- `tcpInfo`.
pub record TcpInfo : Type 0 where
  pub ip_addr : List ℕ
  pub port : ℕ

-- The body of the loop for a value, by the two tests on its name; `none` is a return for a value of
-- another type.
abbrev pub take_named : Bool → Bool → TcpInfo → DbusPropertyValue → Option TcpInfo
take_named true is_port info value = do s ← get_text value; some (record info { ip_addr = s })
take_named false true info value = do n ← get_uint64 value; some (record info { port = n })
take_named false false info value = some info

unfoldable pub take_property : TcpInfo → List ℕ → DbusPropertyValue → Option TcpInfo
take_property info name value =
    take_named (same_text name host_name) (same_text name port_name) info value

unfoldable pub take_properties : TcpInfo → DbusInterface → Option TcpInfo
take_properties info [] = some info
take_properties info ((name, value) ∷ rest) = do
  info ← take_property info name value
  take_properties info rest

-- `static_cast<uint16_t>(tcpInfo.port)` goes to the transport.
abbrev pub new_device : List ℕ → TcpInfo → ResponderInfo
new_device object_path info = record {
  object_path = object_path;
  device_object_path = object_path;
  transport = tcp_transport info.ip_addr (u16 info.port);
  responder_data = tcp_responder info.ip_addr info.port;
  transport_type = tcp;
}

abbrev pub with_port : List ℕ → List ℕ → ℕ → Option ResponderInfo
with_port object_path ip_addr port =
    if port == 0
    then none
    else some (new_device object_path (record { ip_addr = ip_addr; port = port }))

abbrev pub with_info : List ℕ → List ℕ → ℕ → Option ResponderInfo
with_info object_path [] port = none
with_info object_path (c ∷ s) port = with_port object_path (c ∷ s) port

unfoldable pub create_device_from_interfaces : DbusInterfaces → List ℕ → Option ResponderInfo
create_device_from_interfaces interfaces object_path = do
  properties ← find spdm_tcp_endpoint interfaces
  info ← take_properties (record { ip_addr = []; port = 0 }) properties
  with_info object_path info.ip_addr info.port

unfoldable pub process_managed_objects : ManagedObjects → List ResponderInfo
process_managed_objects [] = []
process_managed_objects ((object_path, interfaces) ∷ rest) =
    emplaced (create_device_from_interfaces interfaces object_path) (process_managed_objects rest)

-- What the callback of `discoverDevices` is given, where `async_ctx` is not null and the call gives
-- objects or fails.
unfoldable pub discover_devices : Bool → Option ManagedObjects → List ResponderInfo
discover_devices false managed_objects = []
discover_devices true managed_objects = or_none_found managed_objects process_managed_objects
