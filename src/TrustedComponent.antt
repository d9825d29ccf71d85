-- ===== src/TrustedComponent.antt =====
-- `TrustedComponent` of requester/trusted_component_dbus.cpp: its path and its one property.
mod Examples
use spdm_working.Common.{List, ℕ, Bool, true, false, if◌then◌else◌}
use spdm_working.Common.Text.{codes}
use spdm_working.Discovery.{same_text}

pub data ComponentAttachType : Type 0 where
  integrated discrete unknown : ComponentAttachType

pub record TrustedComponent : Type 0 where
  pub path : List ℕ
  pub trusted_component_type : ComponentAttachType

unfoldable pub update_trusted_component_type : List ℕ → TrustedComponent → TrustedComponent
update_trusted_component_type type c =
    if same_text type (codes "Integrated")
    then record c { trusted_component_type = integrated }
    else if same_text type (codes "Discrete")
    then record c { trusted_component_type = discrete }
    else record c { trusted_component_type = unknown }
