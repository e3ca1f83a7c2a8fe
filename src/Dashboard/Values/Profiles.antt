-- ===== src/Dashboard/Values/Profiles.antt =====
-- Robot capabilities and profiles (dashboard/packages/api/src/routers/dashboard.ts).
use robotics_pacific_rim.Base.{
  ℕ, String, Bool, true, false, not, ◌||◌, Option, List, map, length, select, Text, text, eq_text,
  is_empty,
}
use robotics_pacific_rim.Base.Sort.{sort}
use robotics_pacific_rim.Dashboard.Values.{
  Json, as_string_array, as_unknown_array, as_record, as_string, as_boolean, as_finite_number,
  field,
}

pub record RobotCapabilitySignal : Type 0 where
  pub name : Text
  pub unit : Text

pub record RobotCapabilityContract : Type 0 where
  pub path : Text
  pub route : Text
  pub service : Text
  pub status : Text

pub record RobotCapability : Type 0 where
  pub contract_status : Text
  pub contracts : List RobotCapabilityContract
  pub family : Text
  pub id : Text
  pub recommended_idl_service : Text
  pub signals : List RobotCapabilitySignal
  pub summary : Text

pub record RobotProfileService : Type 0 where
  pub capabilities : List Text
  pub notes : Text
  pub package_name : Text
  pub required : Bool
  pub role : Text
  pub service : Text

pub record RobotProfileDeploy : Type 0 where
  pub default_domain_id : Option Text
  pub ros_distro : Text
  pub targets : List Text
  pub transport_families : List Text
  pub verification : List Text

pub record RobotProfileAiNative : Type 0 where
  pub agent_entry : Text
  pub module_policy : Text
  pub skill : Text

pub record RobotProfile : Type 0 where
  pub ai_native : RobotProfileAiNative
  pub capabilities : List Text
  pub deploy : RobotProfileDeploy
  pub display_name : Text
  pub id : Text
  pub planned_services : List RobotProfileService
  pub robot_class : Text
  pub services : List RobotProfileService
  pub status : Text
  pub summary : Text

abbrev text_field : Json → String → Text
text_field value name = as_string (field (as_record value) (text name))

abbrev array_field : Json → String → List Json
array_field value name = as_unknown_array (field (as_record value) (text name))

abbrev strings_field : Json → String → List Text
strings_field value name = as_string_array (field (as_record value) (text name))

unfoldable pub robot_capability_signal_from_value : Json → RobotCapabilitySignal
unfolding field
robot_capability_signal_from_value value = record {
  name = text_field value "name";
  unit = text_field value "unit";
}

unfoldable pub robot_capability_contract_from_value : Json → RobotCapabilityContract
unfolding field
robot_capability_contract_from_value value = record {
  service = text_field value "service";
  route = text_field value "route";
  path = text_field value "path";
  status = text_field value "status";
}

unfoldable pub robot_capability_from_value : Json → RobotCapability
unfolding field robot_capability_signal_from_value robot_capability_contract_from_value
robot_capability_from_value value = record {
  id = text_field value "id";
  family = text_field value "family";
  summary = text_field value "summary";
  contract_status = text_field value "contractStatus";
  recommended_idl_service = text_field value "recommendedIdlService";
  signals =
      select (λ signal. not (is_empty signal.name))
        (map robot_capability_signal_from_value (array_field value "signals"));
  contracts =
      select (λ contract. not (is_empty contract.path) || not (is_empty contract.service))
        (map robot_capability_contract_from_value (array_field value "contracts"));
}

unfoldable pub robot_profile_service_from_value : Json → Bool → RobotProfileService
unfolding field
robot_profile_service_from_value value default_required = record {
  service = text_field value "service";
  package_name = text_field value "package";
  role = text_field value "role";
  required = as_boolean (field (as_record value) (text "required")) default_required;
  capabilities = strings_field value "capabilities";
  notes = text_field value "notes";
}

unfoldable pub robot_profile_deploy_from_value : Json → RobotProfileDeploy
unfolding field
robot_profile_deploy_from_value value = record {
  ros_distro = text_field value "rosDistro";
  default_domain_id = as_finite_number (field (as_record value) (text "defaultDomainId"));
  transport_families = strings_field value "transportFamilies";
  targets = strings_field value "targets";
  verification = strings_field value "verification";
}

unfoldable pub robot_profile_ai_native_from_value : Json → RobotProfileAiNative
unfolding field
robot_profile_ai_native_from_value value = record {
  skill = text_field value "skill";
  agent_entry = text_field value "agentEntry";
  module_policy = text_field value "modulePolicy";
}

abbrev services_field : Json → String → Bool → List RobotProfileService
services_field value name default_required =
    select (λ service. not (is_empty service.service))
      (map (λ service. robot_profile_service_from_value service default_required)
        (array_field value name))

unfoldable pub robot_profile_from_value : Json → RobotProfile
unfolding field robot_profile_service_from_value robot_profile_deploy_from_value
    robot_profile_ai_native_from_value
robot_profile_from_value value = record {
  id = text_field value "id";
  display_name = text_field value "displayName";
  status = text_field value "status";
  robot_class = text_field value "robotClass";
  summary = text_field value "summary";
  capabilities = strings_field value "capabilities";
  services = services_field value "services" true;
  planned_services = services_field value "plannedServices" false;
  deploy = robot_profile_deploy_from_value (field (as_record value) (text "deploy"));
  ai_native = robot_profile_ai_native_from_value (field (as_record value) (text "aiNative"));
}

-- The capabilities and the profiles of `readRobotProfiles`, of the values that the files have; `le`
-- is the order of `localeCompare`.
module _ (le : Text → Text → Bool) where
  unfoldable pub robot_capabilities : Json → List RobotCapability
  unfolding field robot_capability_from_value sort
  robot_capabilities value =
      sort (λ left right. le left.id right.id)
        (select (λ capability. not (is_empty capability.id))
          (map robot_capability_from_value (array_field value "capabilities")))

  unfoldable pub robot_profiles : List Json → List RobotProfile
  unfolding robot_profile_from_value sort
  robot_profiles values =
      sort (λ left right. le left.id right.id)
        (select (λ profile. not (is_empty profile.id)) (map robot_profile_from_value values))

abbrev has_status : Text → RobotProfile → Bool
has_status status profile = eq_text profile.status status

unfoldable pub active_profiles : List RobotProfile → ℕ
unfolding eq_text
active_profiles profiles = length (select (has_status (text "active")) profiles)

unfoldable pub template_profiles : List RobotProfile → ℕ
unfolding eq_text
template_profiles profiles = length (select (has_status (text "template")) profiles)
