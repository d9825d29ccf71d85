-- ===== src/Discovery/Tcp/Properties.antt =====
-- The loop over the properties of an endpoint finds the two that it looks for.
use spdm_working.Common.{
  ℕ, ◌≡◌, refl, sym, ◌∙◌, subst, List, [], ◌∷◌, Option, none, some, false, Bool-cases, inl, inr,
}
use spdm_working.Common.Partial.{◌>>=◌}
use spdm_working.Discovery.{DbusPropertyValue, DbusInterface, get_text, get_uint64, same_text, find}
use spdm_working.Discovery.Values.{same_text→≡, IsMap, find-here, find-later}
use spdm_working.Discovery.Tcp.{host_name, port_name, TcpInfo, take_property, take_properties}

-- The property's value where it has the right type; the default where there is none.
abbrev pub or_default :
    {A : Type 0} → (DbusPropertyValue → Option A) → A → Option DbusPropertyValue → Option A
or_default get a none = some a
or_default get a (some v) = get v

-- What the loop reads off: the two properties, by name.
abbrev pub read_off : TcpInfo → DbusInterface → Option TcpInfo
read_off info properties = do
  ip ← or_default get_text info.ip_addr (find host_name properties)
  port ← or_default get_uint64 info.port (find port_name properties)
  some (record { ip_addr = ip; port = port })

-- The first property is the one looked for, and the rest has none of its name.
module _ (info : TcpInfo) (value : DbusPropertyValue) (rest : DbusInterface)
    (later : (i : TcpInfo) → take_properties i rest ≡ read_off i rest) where
  of_host :
      (o : Option (List ℕ))
      → find host_name rest ≡ none
      → ((o >>= (λ s. some (record info { ip_addr = s }))) >>= (λ i. take_properties i rest)) ≡ (
          o >>= (λ ip.
            or_default get_uint64 info.port (find port_name rest)
            >>= (λ port. some (record { ip_addr = ip; port = port }))))
  of_host none fresh = refl
  of_host (some s) fresh = later (record info { ip_addr = s }) ∙ rw fresh refl

  of_port :
      (o : Option ℕ) (ip : Option (List ℕ))
      → find port_name rest ≡ none
      → or_default get_text info.ip_addr (find host_name rest) ≡ ip
      → ((o >>= (λ n. some (record info { port = n }))) >>= (λ i. take_properties i rest))
        ≡ (ip >>= (λ ip. o >>= (λ port. some (record { ip_addr = ip; port = port }))))
  of_port none none fresh e = refl
  of_port none (some s) fresh e = refl
  of_port (some n) ip fresh e = later (record info { port = n }) ∙ rw (fresh, e) refl

port_is_not_host : same_text host_name port_name ≡ false
unfolding same_text
port_is_not_host = refl

read_off-empty : (info : TcpInfo) → read_off info [] ≡ some info
unfolding find
read_off-empty info = refl

pub take_properties-read_off :
    (info : TcpInfo) (properties : DbusInterface)
    → IsMap properties
    → take_properties info properties ≡ read_off info properties
unfolding take_properties take_property
take_properties-read_off info [] m = sym (read_off-empty info)
take_properties-read_off info ((name, value) ∷ rest) (fresh, m) =
    elim (Bool-cases (same_text name host_name)) [
      | inl e ↦
          let is_host : name ≡ host_name = same_text→≡ name host_name e in
          let not_port : same_text name port_name ≡ false =
            subst (λ n. same_text n port_name ≡ false) (sym is_host) port_is_not_host in
          rw
            (
              e,
              find-here host_name name value rest e,
              find-later port_name name value rest not_port,
            )
            (of_host info value rest (λ i. take_properties-read_off i rest m) (get_text value)
              (subst (λ n. find n rest ≡ none) is_host fresh))
      | inr e ↦ elim (Bool-cases (same_text name port_name)) [
        | inl f ↦
            let is_port : name ≡ port_name = same_text→≡ name port_name f in
            rw (e, f, find-here port_name name value rest f, find-later host_name name value rest e)
              (of_port info value rest (λ i. take_properties-read_off i rest m) (get_uint64 value)
                (or_default get_text info.ip_addr (find host_name rest))
                (subst (λ n. find n rest ≡ none) is_port fresh) refl)
        | inr f ↦
            rw
              (e, f, find-later host_name name value rest e, find-later port_name name value rest f)
              (take_properties-read_off info rest m)
      ]
    ]
