-- ===== src/Discovery/Demo.antt =====
-- D-Bus objects for tests: an SPDM endpoint over MCTP, and what configures it.
use spdm_working.Common.{[], ◌∷◌}
use spdm_working.Common.Text.{codes}
use spdm_working.Discovery.{DbusInterfaces, ManagedObjects, text, byte, byte_array, uint64}
use spdm_working.Discovery.Mctp.{mctp_endpoint_intf_name, uuid_intf_name, spdm_mctp_requester}

abbrev endpoint : DbusInterfaces
endpoint =
    (uuid_intf_name, (codes "UUID", text (codes "u")) ∷ [])
    ∷ (
      mctp_endpoint_intf_name,
      (codes "EID", byte 9) ∷ (codes "SupportedMessageTypes", byte_array (0 ∷ 5 ∷ [])) ∷ [],
    )
    ∷ []

abbrev pub objects : ManagedObjects
objects = (codes "/a", endpoint) ∷ (codes "/b", []) ∷ []

abbrev pub em_objects : ManagedObjects
em_objects = (codes "/em", (spdm_mctp_requester, (codes "EID", uint64 9) ∷ []) ∷ []) ∷ []
