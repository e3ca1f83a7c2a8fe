-- ===== src/Dashboard/Details.antt =====
-- The communication items of a module's detail page: drafts of routes, their bindings and their
-- completion (dashboard/packages/api/src/routers/dashboard.ts).
pub mod Parse
pub mod Handlers
pub mod Items
pub mod Bound
pub mod Drafts
pub mod Steps
pub mod Sound
use robotics_pacific_rim.Base.{
  ℕ, zero, suc, ◌+◌, ◌-◌, ◌*◌, ◌/◌, ◌%◌, ◌^◌, ◌≤◌, ◌<◌, Ordering, String, ◌≡◌, refl, sym, ap, ap₂,
  ◌∙◌, subst, fun_ext, ◌≢◌, ◌↔◌, ◌⊎◌, inl, inr, Bool, true, false, not, ◌&&◌, ◌||◌, Option, none,
  some, List, [], ◌∷◌, ◌++◌, map, append_assoc, append-nil, map-append, arith, ltb, leb, ◌==◌,
  if◌then◌else◌, ltb→lt, lt→ltb, leb→le, ==_iff, tests, Bool-cases, Option-cases, and-eq-true,
  or_else, is_some, length, take, drop, replicate, get_elem?, all, any, find, select, Each,
  or_else-Each, if-keeps, length-append, length-replicate, length-take, length-drop, length-map,
  All, All-append, Text, text, eq_text, eq_text_iff, eq_text_refl, has_text, is_empty, or_text,
  is_space, trim_start, trim_end, trim, starts_with, includes, ends_with, lower_unit, lower,
  is_upper_letter, is_lower_letter, is_digit, is_letter, join, before, string_runs,
}
use robotics_pacific_rim.Base.Distinct.{set_of}
use robotics_pacific_rim.Dashboard.Routes.{
  CommunicationSection, section_text, RouteKind, service, topic, kind_of_section, BindingSummary,
  PartialBinding, no_binding, address_from_binding, transport_from_binding,
}

pub data CommunicationSource : Type 0 where
  config : CommunicationSource
  idl : CommunicationSource

pub data TransportFamily : Type 0 where
  cyclonedds : TransportFamily
  fastdds : TransportFamily
  nats : TransportFamily
  ros2 : TransportFamily

-- `DetailBindingSummary`, which extends `BindingSummary`.
pub record DetailBindingSummary : Type 0 where
  pub summary : BindingSummary
  pub open summary use *
  pub standard : Text

-- `Partial<DetailBindingSummary>`.
pub record DetailPartialBinding : Type 0 where
  pub partial : PartialBinding
  pub open partial use *
  pub standard : Option Text

abbrev pub no_detail_binding : DetailPartialBinding
no_detail_binding = record { partial = no_binding; standard = none }

pub record ModuleCommunicationItem : Type 0 where
  pub bindings : List DetailBindingSummary
  pub definition : Text
  pub direction : Text
  pub format : Text
  pub id : Text
  pub kind : RouteKind
  pub message_type : Text
  pub name : Text
  pub path : Text
  pub role : Text
  pub source : CommunicationSource
  pub transport_families : List TransportFamily
  pub transports : List Text

pub record DetailRouteDraft : Type 0 where
  pub bindings : List DetailBindingSummary
  pub definition : Text
  pub direction : Text
  pub format : Text
  pub kind : RouteKind
  pub message_type : Text
  pub name : Text
  pub path : Text
  pub role : Text
  pub route_binding : DetailPartialBinding
  pub source : CommunicationSource

unfoldable pub transport_family : Text → Option TransportFamily
unfolding includes
transport_family transport =
    let lower_case = lower transport in
    if includes (text "nats") lower_case
    then some nats
    else if includes (text "fastdds") lower_case || includes (text "fastrtps") lower_case
    then some fastdds
    else if includes (text "cyclonedds") lower_case || includes (text "dds") lower_case
    then some cyclonedds
    else if includes (text "ros2") lower_case
    then some ros2
    else none

abbrev pub eq_family : TransportFamily → TransportFamily → Bool
eq_family cyclonedds cyclonedds = true
eq_family fastdds fastdds = true
eq_family nats nats = true
eq_family ros2 ros2 = true
eq_family f g = false

abbrev pub cons_some : {A : Type 0} → Option A → List A → List A
cons_some none xs = xs
cons_some (some x) xs = x ∷ xs

-- `transports.map(transportFamily).filter(Boolean)`.
abbrev pub families : List Text → List TransportFamily
families [] = []
families (transport ∷ transports) = cons_some (transport_family transport) (families transports)

unfoldable pub transport_families_from_transports : List Text → List TransportFamily
unfolding transport_family set_of
transport_families_from_transports transports = set_of eq_family (families transports)

-- A field's value with the route's own for a fallback.
abbrev field_or : Option Text → Option Text → Text
field_or value own = or_else value (or_else own [])

abbrev filled_or : Text → Option Text → Option Text → Text
filled_or existing value own = or_text existing (or_text (or_else value []) (or_else own []))

abbrev fill_detail_binding :
    DetailRouteDraft → DetailPartialBinding → Text → DetailBindingSummary → DetailBindingSummary
fill_detail_binding route binding transport existing =
    let own = route.route_binding in
    record {
      summary = record {
        transport = existing.transport;
        middleware =
            or_text existing.middleware (or_text (or_else binding.middleware []) transport);
        address = or_text existing.address (address_from_binding binding.partial);
        direction =
            or_text existing.direction (or_text (or_else binding.direction []) route.direction);
        queue_group = filled_or existing.queue_group binding.queue_group own.queue_group;
        queue_size = filled_or existing.queue_size binding.queue_size own.queue_size;
      };
      standard = or_text existing.standard (or_else binding.standard []);
    }

abbrev new_detail_binding : DetailRouteDraft → DetailPartialBinding → Text → DetailBindingSummary
new_detail_binding route binding transport =
    let own = route.route_binding in
    record {
      summary = record {
        transport = transport;
        middleware = or_else binding.middleware transport;
        address = address_from_binding binding.partial;
        direction = or_else binding.direction route.direction;
        queue_group = field_or binding.queue_group own.queue_group;
        queue_size = field_or binding.queue_size own.queue_size;
      };
      standard = or_else binding.standard [];
    }

unfoldable pub put_detail_binding :
    DetailRouteDraft
    → DetailPartialBinding
    → Text
    → List DetailBindingSummary
    → List DetailBindingSummary
unfolding eq_text
put_detail_binding route binding transport [] = new_detail_binding route binding transport ∷ []
put_detail_binding route binding transport (existing ∷ bindings) =
    let rest = put_detail_binding route binding transport bindings in
    if eq_text existing.transport transport
    then fill_detail_binding route binding transport existing ∷ bindings
    else existing ∷ rest

-- `appendDetailBinding` on a route and a binding that are there.
unfoldable pub append_to_draft : DetailRouteDraft → DetailPartialBinding → DetailRouteDraft
unfolding put_detail_binding
append_to_draft route binding =
    let transport = transport_from_binding binding.partial in
    if is_empty transport
    then route
    else record route { bindings = put_detail_binding route binding transport route.bindings }

abbrev pub append_detail_binding : DetailRouteDraft → Option DetailPartialBinding → DetailRouteDraft
append_detail_binding route none = route
append_detail_binding route (some binding) = append_to_draft route binding

-- `appendDetailTransport`, where the route is there: with `createDetailBinding` inside.
unfoldable pub create_detail_binding : Text → DetailRouteDraft → Text → DetailPartialBinding
create_detail_binding transport route address = record {
  partial = record {
    address = some address;
    direction = some route.direction;
    middleware = some transport;
    queue_group = some (or_else route.route_binding.queue_group []);
    queue_size = some (or_else route.route_binding.queue_size []);
    transport = some transport;
  };
  standard = none;
}

unfoldable pub append_detail_transport : DetailRouteDraft → Text → Text → DetailRouteDraft
unfolding append_to_draft create_detail_binding
append_detail_transport route transport address =
    if is_empty transport
    then route
    else append_to_draft route (create_detail_binding transport route address)

-- A request and a response share the address field, with a slash between them.
abbrev joined_address : Text → Text → Text
joined_address [] value = value
joined_address (c ∷ address) value = c ∷ (address ++ (text " / " ++ value))

unfoldable pub apply_detail_binding_value :
    DetailPartialBinding → Text → Text → DetailPartialBinding
unfolding has_text eq_text
apply_detail_binding_value binding key value =
    let partial = binding.partial in
    if eq_text key (text "transport")
    then record binding { partial = record partial { transport = some value } }
    else if eq_text key (text "middleware")
    then record binding {
      partial = record partial {
        middleware = some value;
        transport = some (or_else partial.transport value);
      };
    }
    else if has_text key (text "subject" ∷ text "service" ∷ text "topic" ∷ [])
    then record binding { partial = record partial { address = some value } }
    else if has_text key (text "request" ∷ text "response" ∷ [])
    then record binding {
      partial = record partial {
        address = some (joined_address (or_else partial.address []) value);
      };
    }
    else if eq_text key (text "direction")
    then record binding { partial = record partial { direction = some value } }
    else if eq_text key (text "queue_group")
    then record binding { partial = record partial { queue_group = some value } }
    else if eq_text key (text "queue_size")
    then record binding { partial = record partial { queue_size = some value } }
    else if eq_text key (text "standard")
    then record binding { standard = some value }
    else binding
