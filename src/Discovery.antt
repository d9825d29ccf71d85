-- ===== src/Discovery.antt =====
-- The devices that the D-Bus objects tell of: requester/mctp_transport_discovery.cpp and
-- requester/tcp_transport_discovery.cpp, with the types of requester/utils.hpp and
-- requester/spdm_discovery.hpp. What the
-- asynchronous calls answer is an argument.
pub mod Values
pub mod Select
pub mod Mctp
pub mod Tcp
pub mod Flow
pub mod Demo
mod Examples
use spdm_working.Common.{ℕ, ◌==◌, List, [], ◌∷◌, Option, none, some, Bool, true, false, ◌&&◌}

-- `DbusPropertyValue`.
pub data DbusPropertyValue : Type 0 where
  text : List ℕ → DbusPropertyValue
  byte : ℕ → DbusPropertyValue
  byte_array : List ℕ → DbusPropertyValue
  uint64 : ℕ → DbusPropertyValue

-- A map in the order of its keys.
abbrev pub DbusInterface : Type 0
DbusInterface = List (List ℕ × DbusPropertyValue)

abbrev pub DbusInterfaces : Type 0
DbusInterfaces = List (List ℕ × DbusInterface)

abbrev pub ManagedObjects : Type 0
ManagedObjects = List (List ℕ × DbusInterfaces)

-- `std::get_if`.
abbrev pub get_text : DbusPropertyValue → Option (List ℕ)
get_text (text s) = some s
get_text _ = none

abbrev pub get_byte : DbusPropertyValue → Option ℕ
get_byte (byte b) = some b
get_byte _ = none

abbrev pub get_byte_array : DbusPropertyValue → Option (List ℕ)
get_byte_array (byte_array bs) = some bs
get_byte_array _ = none

abbrev pub get_uint64 : DbusPropertyValue → Option ℕ
get_uint64 (uint64 n) = some n
get_uint64 _ = none

unfoldable pub same_text : List ℕ → List ℕ → Bool
same_text [] [] = true
same_text (a ∷ s) (b ∷ t) = a == b && same_text s t
same_text _ _ = false

-- `std::map::find`, of a map's element.
unfoldable pub find {ℓ} : {A : Type ℓ} → List ℕ → List (List ℕ × A) → Option A
find key [] = none
find key ((k, a) ∷ rest) =
    let later = find key rest in elim (same_text k key) [ true ↦ some a | false ↦ later ]

pub data TransportType : Type 0 where
  mctp pcie_doe tcp : TransportType

-- `MctpResponderInfo` and `tcpResponderInfo`.
pub data ResponderData : Type 0 where
  mctp_responder : ℕ → List ℕ → ResponderData
  tcp_responder : List ℕ → ℕ → ResponderData

-- The transport that is made, with its constructor's arguments.
pub data NewTransport : Type 0 where
  mctp_transport : ℕ → NewTransport
  tcp_transport : List ℕ → ℕ → NewTransport

pub record ResponderInfo : Type 0 where
  pub object_path : List ℕ
  pub device_object_path : List ℕ
  pub transport : NewTransport
  pub responder_data : ResponderData
  pub transport_type : TransportType

-- `emplace_back` of the device, if there is one.
abbrev pub emplaced : Option ResponderInfo → List ResponderInfo → List ResponderInfo
emplaced none ds = ds
emplaced (some d) ds = d ∷ ds

-- What a callback is given where the call did not succeed.
abbrev pub or_none_found :
    Option ManagedObjects → (ManagedObjects → List ResponderInfo) → List ResponderInfo
or_none_found none process = []
or_none_found (some objects) process = process objects
