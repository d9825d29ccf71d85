-- ===== src/Daemon/PolicyFile.antt =====
-- `PolicyManager::load` of requester/policy_manager.cpp, and the start of `main` in
-- requester/spdmd.cpp, which calls it before any callback is registered. What the file is read as is
-- an argument.
pub mod Boot
use spdm_working.Common.{List, [], ◌∷◌, ℕ, Option, none, some, Bool, true, false}
use spdm_working.Common.Text.{codes}
use spdm_working.Libspdm.{World}
use spdm_working.Discovery.{same_text}
use spdm_working.Daemon.{Daemon}

-- A JSON value, as far as `get<bool>` tells it apart: it throws where there is no Boolean.
pub data Json : Type 0 where
  boolean : Bool → Json
  other_json : Json

-- The file: absent, not to be opened, not JSON, or an object with its items.
pub data Cache : Type 0 where
  absent unreadable unparsable : Cache
  items : List (List ℕ × Json) → Cache

-- What `load` comes to: the property `Enabled`, an error, or an exception that nobody catches.
pub data Loaded : Type 0 where
  loaded : Bool → Loaded
  failed terminated : Loaded

-- The value of an item whose key is `enabled`.
abbrev pub after_value : Json → (Bool → Loaded) → Loaded
after_value (boolean b) rest = rest b
after_value other_json rest = terminated

abbrev pub take_item : Bool → Bool → Json → (Bool → Loaded) → Loaded
take_item true enabled value rest = after_value value rest
take_item false enabled value rest = rest enabled

-- The loop.
unfoldable pub load_items : List (List ℕ × Json) → Bool → Loaded
load_items [] enabled = loaded enabled
load_items ((key, value) ∷ rest) enabled =
    take_item (same_text key (codes "enabled")) enabled value (load_items rest)

unfoldable pub load : Cache → Bool → Loaded
load absent enabled = loaded enabled
load unreadable enabled = failed
load unparsable enabled = terminated
load (items entries) enabled = load_items entries enabled

abbrev pub started : {D : Type 0} → Bool → World D → Loaded → Option (Daemon D)
started secure w (loaded enabled) = some record {
  enabled = enabled;
  secure_session_enabled = secure;
  discovered_devices = [];
  responders = [];
  world = w;
}
started secure w failed = none
started secure w terminated = none

-- The variables of `main` when its event loop begins, from the defaults of the two properties; or
-- `main` ends first.
unfoldable pub boot : {D : Type 0} → Cache → Bool → Bool → World D → Option (Daemon D)
unfolding load
boot cache enabled secure w = started secure w (load cache enabled)
