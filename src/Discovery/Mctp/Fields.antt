-- ===== src/Discovery/Mctp/Fields.antt =====
-- What the properties of an MCTP endpoint say, and what the program reads of them.
use spdm_working.Common.{
  ℕ, ◌==◌, ==_iff, ◌≡◌, ◌≢◌, refl, ap, List, [], ◌∷◌, ◌++◌, Option, none, some, Bool, true, false,
  ◌||◌, arith,
}
use spdm_working.Common.Text.{codes}
use spdm_working.Common.Partial.{◌>>=◌}
use spdm_working.Discovery.{
  DbusPropertyValue, get_text, get_byte, get_byte_array, DbusInterface, DbusInterfaces, byte_array,
  byte, text, find,
}
use spdm_working.Discovery.Mctp.{
  uuid_intf_name, contains, holds_spdm, valid_eid, or_empty, supports_spdm, extract_eid,
  extract_uuid,
}

-- The byte array lists the message type of SPDM, which is 5.
abbrev pub ListsSpdm : DbusInterface → Type 0
ListsSpdm endpoint =
    (before : List ℕ) × (after : List ℕ) × (find (codes "SupportedMessageTypes") endpoint
      ≡ some (byte_array (before ++ 5 ∷ after)))

abbrev pub HasUuid : DbusInterfaces → List ℕ → Type 0
HasUuid interfaces uuid =
    ((properties : DbusInterface) × (find uuid_intf_name interfaces ≡ some properties)
      × (find (codes "UUID") properties ≡ some (text uuid)))
    × (uuid ≢ [])

-- The place of an element.
abbrev Occurs : ℕ → List ℕ → Type 0
Occurs x xs = (before : List ℕ) × (after : List ℕ) × (xs ≡ before ++ x ∷ after)

contains-Occurs : (x : ℕ) (xs : List ℕ) → contains x xs ≡ true → Occurs x xs
unfolding contains
contains-Occurs x [] h = absurd cc
contains-Occurs x (y ∷ ys) h = split (y == x) h (==_iff y x).0 (contains-Occurs x ys)
  where
    split :
        (b : Bool)
        → (b || contains x ys) ≡ true
        → (b ≡ true → y ≡ x)
        → (contains x ys ≡ true → Occurs x ys)
        → Occurs x (y ∷ ys)
    split true h same later = ([], ys, ap (λ z. z ∷ ys) (same refl))
    split false h same later =
        let (before, after, f) = later h in (y ∷ before, after, ap (λ zs. y ∷ zs) f)

contains-here : (x : ℕ) (before after : List ℕ) → contains x (before ++ x ∷ after) ≡ true
unfolding contains
contains-here x [] after = ground arith
contains-here x (y ∷ before) after = ground (arith, contains-here x before after)

pub supports_spdm-ListsSpdm :
    (endpoint : DbusInterface) → supports_spdm endpoint ≡ true → ListsSpdm endpoint
unfolding supports_spdm
supports_spdm-ListsSpdm endpoint = lists (find (codes "SupportedMessageTypes") endpoint)
  where
    lists :
        (v : Option DbusPropertyValue)
        → holds_spdm (v >>= get_byte_array) ≡ true
        → (before : List ℕ) × (after : List ℕ) × (v ≡ some (byte_array (before ++ 5 ∷ after)))
    lists (some (byte_array types)) h =
        let (before, after, e) = contains-Occurs 5 types h in
        (before, after, ap (λ bs. some (byte_array bs)) e)
    lists none h = absurd cc
    lists (some _) h = absurd cc

pub ListsSpdm-supports_spdm :
    (endpoint : DbusInterface) → ListsSpdm endpoint → supports_spdm endpoint ≡ true
unfolding supports_spdm
ListsSpdm-supports_spdm endpoint (before, after, e) = rw e (contains-here 5 before after)

pub extract_eid-valid :
    (endpoint : DbusInterface)
    → extract_eid endpoint ≢ 255
    → find (codes "EID") endpoint ≡ some (byte (extract_eid endpoint))
unfolding extract_eid
extract_eid-valid endpoint = valid (find (codes "EID") endpoint)
  where
    kept_eid : (eid : ℕ) → valid_eid (some eid) ≢ 255 → eid ≡ valid_eid (some eid)
    kept_eid eid h = ground arith

    valid :
        (v : Option DbusPropertyValue)
        → valid_eid (v >>= get_byte) ≢ 255
        → v ≡ some (byte (valid_eid (v >>= get_byte)))
    valid (some (byte eid)) h = ap (λ n. some (byte n)) (kept_eid eid h)
    valid none h = absurd (h refl)
    valid (some _) h = absurd (h refl)

pub extract_eid-lem :
    (endpoint : DbusInterface) (eid : ℕ)
    → find (codes "EID") endpoint ≡ some (byte eid)
    → extract_eid endpoint ≡ eid
unfolding extract_eid
extract_eid-lem endpoint eid e = rw e (ground arith)

pub extract_uuid-HasUuid :
    (interfaces : DbusInterfaces)
    → extract_uuid interfaces ≢ []
    → HasUuid interfaces (extract_uuid interfaces)
unfolding extract_uuid
extract_uuid-HasUuid interfaces h = (of_interface (find uuid_intf_name interfaces) h, h)
  where
    of_property :
        (v : Option DbusPropertyValue)
        → or_empty (v >>= get_text) ≢ []
        → v ≡ some (text (or_empty (v >>= get_text)))
    of_property (some (text s)) h = refl
    of_property none h = absurd (h refl)
    of_property (some _) h = absurd (h refl)

    of_interface :
        (v : Option DbusInterface)
        → or_empty (v >>= (λ i. find (codes "UUID") i >>= get_text)) ≢ []
        → (properties : DbusInterface) × (v ≡ some properties)
          × (find (codes "UUID") properties
              ≡ some (text (or_empty (v >>= (λ i. find (codes "UUID") i >>= get_text)))))
    of_interface none h = absurd (h refl)
    of_interface (some i) h = (i, refl, of_property (find (codes "UUID") i) h)

pub HasUuid-extract_uuid :
    (interfaces : DbusInterfaces) (uuid : List ℕ)
    → HasUuid interfaces uuid
    → extract_uuid interfaces ≡ uuid
unfolding extract_uuid
HasUuid-extract_uuid interfaces uuid ((properties, e, f), h) = rw (e, f) refl
