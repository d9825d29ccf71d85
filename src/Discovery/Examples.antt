-- ===== src/Discovery/Examples.antt =====
-- Two D-Bus objects and what discovery makes of them.
use spdm_working.Common.{ℕ, ◌≡◌, refl, subst, [], ◌∷◌, some, true}
use mathlib.Core.Option.{some-injective}
use spdm_working.Common.Text.{codes}
use spdm_working.Discovery.{
  DbusInterface, DbusInterfaces, ManagedObjects, text, uint64, find, same_text, mctp_transport,
  tcp_transport, mctp_responder, tcp_responder, mctp, tcp,
}
use spdm_working.Discovery.Demo.{objects, em_objects}
use spdm_working.Discovery.Select.{Selects}
use spdm_working.Discovery.Mctp.{
  contains, supports_spdm, extract_eid, extract_uuid, create_device_from_interfaces,
  process_managed_objects, assign_object_path, parse_spdm_em_config, get_spdm_em_configs,
  discover_devices,
}
use spdm_working.Discovery.Mctp.Matched.{Located, discover_devices-Selects}
use spdm_working.Discovery.Tcp as TcpDiscovery
use spdm_working.Discovery.Values.{IsMap}
use spdm_working.Discovery.Tcp.Endpoint.{HasMap, IsEndpoint, discover_devices-IsEndpoint}

discovers :
    discover_devices true (some objects) (some em_objects)
    ≡ record {
      object_path = codes "/a";
      device_object_path = codes "/em";
      transport = mctp_transport 9;
      responder_data = mctp_responder 9 (codes "u");
      transport_type = mctp;
    }
      ∷ []
unfolding discover_devices get_spdm_em_configs process_managed_objects parse_spdm_em_config
    assign_object_path create_device_from_interfaces supports_spdm extract_eid extract_uuid contains
    find same_text
discovers = refl

discover_devices-Selects_example :
    Selects (Located em_objects) objects (discover_devices true (some objects) (some em_objects))
discover_devices-Selects_example = discover_devices-Selects objects em_objects

abbrev tcp_properties : ℕ → DbusInterface
tcp_properties port =
    (TcpDiscovery.host_name, text (codes "10.0.0.1")) ∷ (TcpDiscovery.port_name, uint64 port) ∷ []

abbrev tcp_endpoint : ℕ → DbusInterfaces
tcp_endpoint port = (TcpDiscovery.spdm_tcp_endpoint, tcp_properties port) ∷ []

abbrev tcp_objects : ManagedObjects
tcp_objects = (codes "/t", tcp_endpoint 65536) ∷ []

-- A port of more than 16 bits is accepted, and cut down.
discovers_tcp :
    TcpDiscovery.discover_devices true (some tcp_objects)
    ≡ record {
      object_path = codes "/t";
      device_object_path = codes "/t";
      transport = tcp_transport (codes "10.0.0.1") 0;
      responder_data = tcp_responder (codes "10.0.0.1") 65536;
      transport_type = tcp;
    }
      ∷ []
unfolding TcpDiscovery.discover_devices TcpDiscovery.process_managed_objects
    TcpDiscovery.create_device_from_interfaces TcpDiscovery.take_properties
    TcpDiscovery.take_property find same_text
discovers_tcp = refl

tcp_objects-HasMap : HasMap (codes "/t", tcp_endpoint 65536)
unfolding find same_text
tcp_objects-HasMap properties e =
    subst IsMap (some-injective (tcp_properties 65536) properties e) (refl, (refl, tt))

discover_devices-IsEndpoint_example :
    Selects IsEndpoint tcp_objects (TcpDiscovery.discover_devices true (some tcp_objects))
discover_devices-IsEndpoint_example =
    discover_devices-IsEndpoint tcp_objects (tcp_objects-HasMap, tt)
