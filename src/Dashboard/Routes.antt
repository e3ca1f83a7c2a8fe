-- ===== src/Dashboard/Routes.antt =====
-- The routes of a module's configuration, read line by line as a state machine over its indentation
-- (dashboard/packages/api/src/routers/dashboard.ts). A handler that answers true has changed the
-- state, and is `some` of the new one; one that answers false has not, and is `none`.
pub mod Parse
pub mod Bound
pub mod Kept
pub mod Steps
pub mod Sound
use robotics_pacific_rim.Base.{
  ℕ, zero, suc, ◌+◌, ◌-◌, ◌*◌, ◌/◌, ◌%◌, ◌^◌, ◌≤◌, ◌<◌, Ordering, String, ◌≡◌, refl, sym, ap, ap₂,
  ◌∙◌, subst, fun_ext, ◌≢◌, ◌↔◌, ◌⊎◌, inl, inr, Bool, true, false, not, ◌&&◌, ◌||◌, Option, none,
  some, List, [], ◌∷◌, ◌++◌, map, append_assoc, append-nil, map-append, arith, ltb, leb, ◌==◌,
  if◌then◌else◌, ltb→lt, lt→ltb, leb→le, ==_iff, tests, Bool-cases, Option-cases, and-eq-true,
  or_else, is_some, length, take, drop, replicate, get_elem?, all, any, find, select, length-append,
  length-replicate, length-take, length-drop, length-map, All, All-append, Text, text, eq_text,
  eq_text_iff, eq_text_refl, has_text, is_empty, or_text, is_space, trim_start, trim_end, trim,
  starts_with, includes, ends_with, lower_unit, lower, is_upper_letter, is_lower_letter, is_digit,
  is_letter, join, before, string_runs,
}
use robotics_pacific_rim.Dashboard.Lines.{
  ParsedLine, split_lines, scalar_value, parsed_communication_line, parse_key_value, route_key,
}

pub data CommunicationSection : Type 0 where
  services : CommunicationSection
  topics : CommunicationSection

pub data RouteKind : Type 0 where
  service : RouteKind
  topic : RouteKind

pub data RouteStatus : Type 0 where
  configured : RouteStatus
  single_binding : RouteStatus
  observer_pending : RouteStatus

pub record BindingSummary : Type 0 where
  pub address : Text
  pub direction : Text
  pub middleware : Text
  pub queue_group : Text
  pub queue_size : Text
  pub transport : Text

pub record CommunicationRoute : Type 0 where
  pub bindings : List BindingSummary
  pub config_path : Text
  pub direction : Text
  pub id : Text
  pub kind : RouteKind
  pub message_type : Text
  pub module_name : Text
  pub name : Text
  pub status : RouteStatus

-- `Partial<BindingSummary>`.
pub record PartialBinding : Type 0 where
  pub address : Option Text
  pub direction : Option Text
  pub middleware : Option Text
  pub queue_group : Option Text
  pub queue_size : Option Text
  pub transport : Option Text

abbrev pub no_binding : PartialBinding
no_binding = record {
  address = none;
  direction = none;
  middleware = none;
  queue_group = none;
  queue_size = none;
  transport = none;
}

abbrev pub address_from_binding : PartialBinding → Text
address_from_binding binding = or_else binding.address []

abbrev pub transport_from_binding : PartialBinding → Text
transport_from_binding binding = or_else binding.transport (or_else binding.middleware [])

abbrev pub route_status_from_bindings : ℕ → RouteStatus
route_status_from_bindings n =
    if ltb 1 n then observer_pending else if n == 1 then single_binding else configured

-- `existing.x = existing.x || binding.x || ...` for each field of a binding that is there already.
abbrev fill_binding : PartialBinding → Text → BindingSummary → BindingSummary
fill_binding binding transport existing = record existing {
  middleware = or_text existing.middleware (or_text (or_else binding.middleware []) transport);
  address = or_text existing.address (address_from_binding binding);
  direction = or_text existing.direction (or_else binding.direction []);
  queue_group = or_text existing.queue_group (or_else binding.queue_group []);
  queue_size = or_text existing.queue_size (or_else binding.queue_size []);
}

abbrev new_binding : PartialBinding → Text → BindingSummary
new_binding binding transport = record {
  transport = transport;
  middleware = or_else binding.middleware transport;
  address = address_from_binding binding;
  direction = or_else binding.direction [];
  queue_group = or_else binding.queue_group [];
  queue_size = or_else binding.queue_size [];
}

-- The first binding with the transport is filled in; without one, the binding comes at the end.
unfoldable pub put_binding : PartialBinding → Text → List BindingSummary → List BindingSummary
unfolding eq_text
put_binding binding transport [] = new_binding binding transport ∷ []
put_binding binding transport (existing ∷ bindings) =
    let rest = put_binding binding transport bindings in
    if eq_text existing.transport transport
    then fill_binding binding transport existing ∷ bindings
    else existing ∷ rest

-- `appendBinding` on a route.
unfoldable pub append_to : CommunicationRoute → PartialBinding → CommunicationRoute
unfolding put_binding
append_to route binding =
    let transport = transport_from_binding binding in
    if is_empty transport
    then route
    else record route { bindings = put_binding binding transport route.bindings }

-- `appendBinding`, where either can be missing.
abbrev pub append_binding :
    Option CommunicationRoute → Option PartialBinding → Option CommunicationRoute
append_binding none binding = none
append_binding (some route) none = some route
append_binding (some route) (some binding) = some (append_to route binding)

-- `CommunicationParseState`. The only list is `middlewares`, and the only nested value `addresses`.
pub record CommunicationParseState : Type 0 where
  pub current_binding : Option PartialBinding
  pub in_middlewares : Bool
  pub in_addresses : Bool
  pub current_route : Option CommunicationRoute
  pub in_communication : Bool
  pub routes : List CommunicationRoute
  pub section : Option CommunicationSection

abbrev with_status : CommunicationRoute → CommunicationRoute
with_status route = record route { status = route_status_from_bindings (length route.bindings) }

abbrev pub push_route :
    List CommunicationRoute → Option CommunicationRoute → List CommunicationRoute
push_route routes none = routes
push_route routes (some route) = routes ++ with_status route ∷ []

unfoldable pub complete_route : CommunicationParseState → CommunicationParseState
unfolding append_to
complete_route state = record state {
  routes = push_route state.routes (append_binding state.current_route state.current_binding);
  current_route = none;
  current_binding = none;
  in_middlewares = false;
  in_addresses = false;
}

abbrev pub section_text : CommunicationSection → Text
section_text services = text "services"
section_text topics = text "topics"

abbrev pub kind_of_section : CommunicationSection → RouteKind
kind_of_section services = service
kind_of_section topics = topic

unfoldable pub route_id : Text → CommunicationSection → Text → Text
route_id config_path section route_name =
    config_path ++ (b':' ∷ (section_text section ++ (b':' ∷ route_name)))

unfoldable pub create_route : Text → Text → CommunicationSection → Text → CommunicationRoute
unfolding route_id
create_route config_path module_name section route_name = record {
  id = route_id config_path section route_name;
  module_name = module_name;
  config_path = config_path;
  kind = kind_of_section section;
  name = route_name;
  direction = [];
  message_type = [];
  bindings = [];
  status = configured;
}

-- A handler's answer.
abbrev pub Handled : Type 0
Handled = Option CommunicationParseState

abbrev pub when {ℓ} : {A : Type ℓ} → Bool → A → Option A
when test a = if test then some a else none

abbrev pub section_of : Text → Option CommunicationSection
section_of trimmed =
    if eq_text trimmed (text "services:")
    then some services
    else if eq_text trimmed (text "topics:")
    then some topics
    else none

unfoldable pub update_communication_scope : CommunicationParseState → ParsedLine → Handled
unfolding complete_route eq_text
update_communication_scope state line =
    when (line.indent == 0)
      (record (if state.in_communication then complete_route state else state) {
        in_communication = eq_text line.trimmed (text "communication:");
        section = none;
      })

abbrev pub enter_section : CommunicationParseState → Option CommunicationSection → Handled
enter_section state none = none
enter_section state (some section) = some (record (complete_route state) { section = some section })

unfoldable pub update_communication_section : CommunicationParseState → ParsedLine → Handled
unfolding complete_route eq_text
update_communication_section state line =
    if line.indent == 2 then enter_section state (section_of line.trimmed) else none

abbrev pub enter_route :
    CommunicationParseState → Text → Text → Option Text → Option CommunicationSection → Handled
enter_route state config_path module_name none section = none
enter_route state config_path module_name (some name) none = none
enter_route state config_path module_name (some name) (some section) =
    some (record (complete_route state) {
      current_route = some (create_route config_path module_name section name);
    })

unfoldable pub start_route : CommunicationParseState → ParsedLine → Text → Text → Handled
unfolding complete_route create_route route_key
start_route state line config_path module_name =
    if line.indent == 4
    then enter_route state config_path module_name (route_key line.trimmed) state.section
    else none
