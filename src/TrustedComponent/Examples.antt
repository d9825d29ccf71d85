-- ===== src/TrustedComponent/Examples.antt =====
-- The three types of a trusted component.
use spdm_working.Common.{◌≡◌, refl}
use spdm_working.Common.Text.{codes}
use spdm_working.Discovery.{same_text}
use spdm_working.TrustedComponent.{
  TrustedComponent, discrete, unknown, update_trusted_component_type,
}

abbrev component : TrustedComponent
component = record { path = codes "/t"; trusted_component_type = unknown }

becomes_discrete :
    update_trusted_component_type (codes "Discrete") component
    ≡ record component { trusted_component_type = discrete }
unfolding update_trusted_component_type same_text
becomes_discrete = refl

becomes_unknown :
    update_trusted_component_type
      (codes "discrete")
      (record component { trusted_component_type = discrete })
    ≡ component
unfolding update_trusted_component_type same_text
becomes_unknown = refl
