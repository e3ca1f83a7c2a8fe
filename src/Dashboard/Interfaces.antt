-- ===== src/Dashboard/Interfaces.antt =====
-- The public interface of a service: which items provide a route, how configuration and interface are
-- merged, and the blocks of new routes (dashboard/packages/api/src/routers/dashboard.ts).
pub mod Merged
use robotics_pacific_rim.Base.{
  ℕ, zero, suc, ◌+◌, ◌-◌, ◌*◌, ◌/◌, ◌%◌, ◌^◌, ◌≤◌, ◌<◌, Ordering, String, ◌≡◌, refl, sym, ap, ap₂,
  ◌∙◌, subst, fun_ext, ◌≢◌, ◌↔◌, ◌⊎◌, inl, inr, Bool, true, false, not, ◌&&◌, ◌||◌, Option, none,
  some, List, [], ◌∷◌, ◌++◌, map, append_assoc, append-nil, map-append, arith, ltb, leb, ◌==◌,
  if◌then◌else◌, ltb→lt, lt→ltb, leb→le, ==_iff, tests, Bool-cases, Option-cases, and-eq-true,
  or_else, is_some, length, take, drop, replicate, get_elem?, all, any, find, select, Each,
  or_else-Each, if-keeps, length-append, length-replicate, length-take, length-drop, length-map,
  All, All-append, Text, text, eq_text, eq_text_iff, eq_text_refl, has_text, is_empty, or_text,
  is_space, trim_start, trim_end, trim, starts_with, includes, ends_with, lower_unit, lower,
  is_upper_letter, is_lower_letter, is_digit, is_letter, join, before, string_runs,
}
use robotics_pacific_rim.Base.Result.{Result, ok, err, ◌>>=◌, ◌>>◌, ensure, bind-ok}
use robotics_pacific_rim.Dashboard.Lines.{split_lines, join_lines, span}
use robotics_pacific_rim.Dashboard.Names.{
  route_reference, ros2_route_address, is_word_start, is_word_unit,
}
use robotics_pacific_rim.Dashboard.Routes.{RouteKind, service, topic}
use robotics_pacific_rim.Dashboard.Details.{
  CommunicationSource, config, idl, TransportFamily, cyclonedds, fastdds, nats, ros2,
  ModuleCommunicationItem,
}
use robotics_pacific_rim.Dashboard.Details.Parse.{kind_text}
use robotics_pacific_rim.Dashboard.Formats.{
  DataFormatKind, proto, msg, srv, dds_idl, ModuleDataFormatItem, word_at, after_prefix, spaced,
  then_do, unit_behind,
}

abbrev pub is_service : RouteKind → Bool
is_service service = true
is_service topic = false

unfoldable pub is_provider_communication_item : ModuleCommunicationItem → Bool
unfolding has_text eq_text
is_provider_communication_item item =
    let direction = lower (or_text item.direction item.role) in
    if is_empty direction
    then true
    else if is_service item.kind
    then not (has_text direction (text "client" ∷ text "consumer" ∷ []))
    else not (
        has_text direction
          (text "subscribe" ∷ text "subscriber" ∷ text "in" ∷ text "consumer" ∷ []))

abbrev pub route_key : RouteKind → Text → Text
route_key kind name = kind_text kind ++ (b':' ∷ name)

-- `value.replace(pattern, "")`: the first occurrence is taken out.
unfoldable pub without_first : Text → Text → Text
unfolding starts_with
without_first pattern [] = []
without_first pattern (c ∷ s) =
    let rest = without_first pattern s in
    if starts_with pattern (c ∷ s) then drop (length pattern) (c ∷ s) else c ∷ rest

abbrev pub is_config : CommunicationSource → Bool
is_config config = true
is_config idl = false

unfoldable pub config_item_duplicates_public_provider :
    ModuleCommunicationItem → Text → List Text → Bool
unfolding is_provider_communication_item without_first has_text
config_item_duplicates_public_provider item service_name public_provider_keys =
    if not (is_config item.source) || not (is_provider_communication_item item)
    then false
    else has_text (route_key item.kind item.name) public_provider_keys
      || has_text (route_key item.kind (without_first (service_name ++ text ".") item.message_type))
          public_provider_keys

-- The keys of the public providers; a list does for the set, as only membership is asked.
abbrev pub provider_keys : List ModuleCommunicationItem → List Text
provider_keys idl_items =
    map (λ item. route_key item.kind item.name) (select is_provider_communication_item idl_items)

unfoldable pub merge_module_communication_items :
    Text
    → List ModuleCommunicationItem
    → List ModuleCommunicationItem
    → List ModuleCommunicationItem
unfolding config_item_duplicates_public_provider is_provider_communication_item
merge_module_communication_items service_name config_items idl_items =
    select
      (λ item.
        not (config_item_duplicates_public_provider item service_name (provider_keys idl_items)))
      config_items
    ++ idl_items

-- `PROTO_PACKAGE_REGEX` at the beginning of a line: the package that is named.
abbrev is_package_unit : ℕ → Bool
is_package_unit c = is_word_unit c || c == b'.'

unfoldable pub package_at : Text → Option Text
unfolding span trim_start is_space
package_at s = then_do (after_prefix (text "package") s) λ s.
    then_do (spaced s)
      λ s. then_do (word_at is_package_unit s) λ w. then_do (unit_behind b';' w.1) λ _. some w.0

abbrev first_of : Option Text → Option Text → Option Text
first_of none o = o
first_of (some a) o = some a

-- With the flag `m` the pattern begins at the text or behind a line terminator.
abbrev is_terminator : ℕ → Bool
is_terminator c = c == 10 || c == 13 || c == 0x2028 || c == 0x2029

unfoldable pub package_from : Bool → Text → Option Text
unfolding package_at
package_from at_start [] = none
package_from at_start (c ∷ s) =
    first_of (if at_start then package_at (c ∷ s) else none) (package_from (is_terminator c) s)

unfoldable pub proto_package_from_definition : Text → Text → Text
unfolding package_from
proto_package_from_definition definition service_name =
    or_else (package_from true definition)
      (text "pacific_rim." ++ (service_name ++ text ".protocols.pb"))

abbrev public_type_as : DataFormatKind → ModuleDataFormatItem → Text → Text
public_type_as proto format service_name =
    proto_package_from_definition format.definition service_name ++ (b'.' ∷ format.name)
public_type_as dds_idl format service_name = service_name ++ (text "::" ++ format.name)
public_type_as srv format service_name = service_name ++ (text "/srv/" ++ format.name)
public_type_as msg format service_name = service_name ++ (text "/msg/" ++ format.name)

unfoldable pub public_type_from_data_format : ModuleDataFormatItem → Text → Text
unfolding proto_package_from_definition
public_type_from_data_format format service_name = public_type_as format.kind format service_name

-- `createProviderCommunicationInput`, as far as these functions read it.
pub record ProviderInput : Type 0 where
  pub communication : TransportFamily
  pub data_service : Text
  pub format : DataFormatKind
  pub kind : RouteKind

pub data ProviderFailure : Type 0 where
  common_is_reserved : ProviderFailure
  foreign_data_format : ProviderFailure
  service_needs_call_format : ProviderFailure
  topic_needs_message_format : ProviderFailure
  dds_idl_needs_dds : ProviderFailure

abbrev is_msg : DataFormatKind → Bool
is_msg msg = true
is_msg kind = false

abbrev is_srv : DataFormatKind → Bool
is_srv srv = true
is_srv kind = false

abbrev is_proto : DataFormatKind → Bool
is_proto proto = true
is_proto kind = false

abbrev is_dds_idl : DataFormatKind → Bool
is_dds_idl dds_idl = true
is_dds_idl kind = false

abbrev is_dds : TransportFamily → Bool
is_dds cyclonedds = true
is_dds fastdds = true
is_dds family = false

unfoldable pub validate_provider_communication_input :
    ProviderInput → Text → Result ProviderFailure (Unit {0})
unfolding eq_text
validate_provider_communication_input input service_name =
    ensure (not (eq_text input.data_service (text "common"))) common_is_reserved
    >> ensure (eq_text input.data_service service_name) foreign_data_format
    >> ensure (not (is_service input.kind && is_msg input.format)) service_needs_call_format
    >> ensure (not (not (is_service input.kind) && is_srv input.format)) topic_needs_message_format
    >> ensure (not (is_dds_idl input.format && not (is_dds input.communication))) dds_idl_needs_dds

abbrev nats_kind : RouteKind → Text
nats_kind service = text "rpc"
nats_kind topic = text "topic"

abbrev address_line : TransportFamily → RouteKind → Text → Text → Text
address_line nats kind service_name route_name =
    text "      nats: robot."
    ++ (nats_kind kind ++ (b'.' ∷ route_reference service_name route_name))
address_line ros2 kind service_name route_name =
    text "      ros2: " ++ ros2_route_address service_name route_name
address_line fastdds kind service_name route_name =
    text "      fastdds: " ++ route_reference service_name route_name
address_line cyclonedds kind service_name route_name =
    text "      cyclonedds: " ++ route_reference service_name route_name

unfoldable pub provider_route_address_line : TransportFamily → RouteKind → Text → Text → Text
unfolding route_reference ros2_route_address
provider_route_address_line communication kind service_name route_name =
    address_line communication kind service_name route_name

abbrev kind_name : DataFormatKind → Text
kind_name proto = text "proto"
kind_name msg = text "msg"
kind_name srv = text "srv"
kind_name dds_idl = text "dds_idl"

abbrev response_type : ProviderInput → Option ModuleDataFormatItem → Text
response_type input none = []
response_type input (some output_format) =
    if is_service input.kind && is_proto input.format
    then public_type_from_data_format output_format input.data_service
    else []

abbrev response_line : Text → Text
response_line [] = []
response_line (c ∷ type) = text "    response_type: " ++ (c ∷ type)

abbrev role_text : RouteKind → Text
role_text service = text "server"
role_text topic = text "publisher"

abbrev direction_text : RouteKind → Text
direction_text service = text "server"
direction_text topic = text "publish"

abbrev is_full : Text → Bool
is_full line = not (is_empty line)

unfoldable pub provider_public_route_block :
    ProviderInput → ModuleDataFormatItem → Option ModuleDataFormatItem → Text → Text → Text
unfolding public_type_from_data_format provider_route_address_line join_lines
provider_public_route_block input input_format output_format route_name service_name = join_lines (
    select is_full (
      (text "  " ++ (route_name ++ text ":"))
      ∷ (text "    role: " ++ role_text input.kind)
      ∷ (text "    direction: " ++ direction_text input.kind)
      ∷ (text "    data: " ++ kind_name input.format)
      ∷ (text "    type: " ++ public_type_from_data_format input_format input.data_service)
      ∷ response_line (response_type input output_format)
      ∷ text "    addresses:"
      ∷ provider_route_address_line input.communication input.kind service_name route_name
      ∷ []))
