-- ===== src/Dashboard/Details/Parse.antt =====
-- The state machine that reads the communication items of a configuration, or of a public interface,
-- under a layout of indentations (dashboard/packages/api/src/routers/dashboard.ts).
use robotics_pacific_rim.Base.{
  ℕ, Bool, false, Option, none, some, List, [], ◌∷◌, ◌++◌, if◌then◌else◌, Text, text, eq_text,
  has_text, is_empty, or_text,
}
use robotics_pacific_rim.Base.Distinct.{set_of}
use robotics_pacific_rim.Dashboard.Routes.{
  CommunicationSection, RouteKind, service, topic, kind_of_section,
}
use robotics_pacific_rim.Dashboard.Details.{
  CommunicationSource, config, idl, DetailBindingSummary, DetailPartialBinding, no_detail_binding,
  ModuleCommunicationItem, DetailRouteDraft, transport_families_from_transports,
  append_detail_binding, append_to_draft, apply_detail_binding_value,
}

pub data Nested : Type 0 where
  addresses : Nested
  contract : Nested
  payload : Nested

-- `DetailCommunicationParseState`.
pub record DetailCommunicationParseState : Type 0 where
  pub current_binding : Option DetailPartialBinding
  pub in_middlewares : Bool
  pub current_nested : Option Nested
  pub current_route : Option DetailRouteDraft
  pub in_communication : Bool
  pub items : List ModuleCommunicationItem
  pub section : Option CommunicationSection

abbrev pub source_text : CommunicationSource → Text
source_text config = text "config"
source_text idl = text "idl"

abbrev pub kind_text : RouteKind → Text
kind_text service = text "service"
kind_text topic = text "topic"

abbrev pub transports_of : List DetailBindingSummary → List Text
transports_of [] = []
transports_of (binding ∷ bindings) = binding.transport ∷ transports_of bindings

-- A route without bindings gets the one of its own values.
abbrev pub with_own_binding : DetailRouteDraft → DetailRouteDraft
with_own_binding route =
    if is_empty route.bindings then append_to_draft route route.route_binding else route

unfoldable pub item_id : CommunicationSource → Text → RouteKind → Text → Text
item_id source path kind name =
    source_text source ++ (b':' ∷ (path ++ (b':' ∷ (kind_text kind ++ (b':' ∷ name)))))

unfoldable pub item_of : DetailRouteDraft → ModuleCommunicationItem
unfolding set_of item_id transport_families_from_transports
item_of route =
    let transports = set_of eq_text (transports_of route.bindings) in
    record {
      id = item_id route.source route.path route.kind route.name;
      name = route.name;
      kind = route.kind;
      source = route.source;
      path = route.path;
      definition = route.definition;
      role = route.role;
      direction = route.direction;
      format = route.format;
      message_type = route.message_type;
      bindings = route.bindings;
      transports = transports;
      transport_families = transport_families_from_transports transports;
    }

-- Without a route the list that is open stays open.
abbrev pub complete_draft :
    DetailCommunicationParseState → Option DetailRouteDraft → DetailCommunicationParseState
complete_draft state none = record state { current_binding = none; current_nested = none }
complete_draft state (some route) = record state {
  items =
      state.items
      ++ item_of (with_own_binding (append_detail_binding route state.current_binding)) ∷ [];
  current_route = none;
  current_binding = none;
  current_nested = none;
  in_middlewares = false;
}

unfoldable pub complete_detail_route : DetailCommunicationParseState → DetailCommunicationParseState
unfolding append_to_draft item_of
complete_detail_route state = complete_draft state state.current_route

unfoldable pub create_detail_route :
    Text → CommunicationSource → Text → CommunicationSection → Text → DetailRouteDraft
create_detail_route definition source path section name = record {
  name = name;
  kind = kind_of_section section;
  source = source;
  path = path;
  definition = definition;
  role = [];
  direction = [];
  format = [];
  message_type = [];
  bindings = [];
  route_binding = no_detail_binding;
}

abbrev with_own_direction : DetailPartialBinding → Text → DetailPartialBinding
with_own_direction own value = record own {
  partial = record own.partial { direction = some value };
}

unfoldable pub apply_detail_route_value : DetailRouteDraft → Text → Text → DetailRouteDraft
unfolding has_text eq_text apply_detail_binding_value
apply_detail_route_value route key value =
    if has_text key (text "service_ref" ∷ text "topic_ref" ∷ [])
    then record route { message_type = value; format = or_text route.format (text "ref") }
    else if has_text key (text "data" ∷ text "data_format" ∷ [])
    then record route { format = value }
    else if has_text key (text "service_type" ∷ text "message_type" ∷ text "type" ∷ [])
    then record route { message_type = value }
    else if eq_text key (text "format")
    then record route { format = value }
    else if eq_text key (text "role")
    then record route { role = value }
    else if eq_text key (text "direction")
    then record route {
      direction = value;
      route_binding = with_own_direction route.route_binding value;
    }
    else record route { route_binding = apply_detail_binding_value route.route_binding key value }

pub record DetailParseLayout : Type 0 where
  pub binding_indent : ℕ
  pub nested_value_indent : ℕ
  pub route_indent : ℕ
  pub section_indent : ℕ
  pub source : CommunicationSource
  pub starts_in_communication : Bool
  pub top_level_communication : Bool
  pub value_indent : ℕ

unfoldable pub create_detail_parse_state : Bool → DetailCommunicationParseState
create_detail_parse_state starts_in_communication = record {
  in_communication = starts_in_communication;
  section = none;
  current_route = none;
  current_binding = none;
  current_nested = none;
  in_middlewares = false;
  items = [];
}

-- A handler's answer: the new state, where the code answers true.
abbrev pub DetailHandled : Type 0
DetailHandled = Option DetailCommunicationParseState
