-- ===== src/Monitor/Discovery/Merge.antt =====
-- Merging the drafts of one URL into one endpoint (monitor/pr-monitor/src/discovery.ts,
-- `discoverProjectEndpoints` from the drafts on).
use Prim.Native.Nat.{bit_or}
use robotics_pacific_rim.Base.{
  Bool, not, ◌&&◌, Option, none, some, List, [], ◌∷◌, ◌++◌, map, if◌then◌else◌, or_else, select,
  Text, text, eq_text, has_text, is_empty,
}
use robotics_pacific_rim.Base.Assoc.{Assoc, get, put, values}
use robotics_pacific_rim.Base.Sort.{sort}
use robotics_pacific_rim.Monitor.Types.{EndpointInfo}
use robotics_pacific_rim.Monitor.Discovery.Draft.{
  EndpointDraft, transport_from_url, is_public_interface_source, endpoint_from_draft,
}

-- A string that is there and truthy.
abbrev pub is_given : Option Text → Bool
is_given o = not (is_empty (or_else o []))

-- `hiddenPublicRuntimeUrls`.
unfoldable pub hidden_public_runtime_urls : List EndpointDraft → List Text
hidden_public_runtime_urls drafts =
    map (λ d. or_else d.runtime_url [])
      (select (λ d. is_given d.runtime_url && not (eq_text (or_else d.runtime_url []) d.url))
        drafts)

-- The drafts that the loop does not skip.
unfoldable pub is_kept : List Text → EndpointDraft → Bool
is_kept hidden d =
    not
      (not (is_given d.runtime_url) && has_text d.url hidden && is_public_interface_source d.source)

-- `if (!texts.includes(text)) texts.push(text)`.
unfoldable pub add_text : Text → List Text → List Text
add_text t ts = if has_text t ts then ts else ts ++ t ∷ []

unfoldable pub absorb : {R : Type 0} → EndpointInfo R → EndpointDraft → EndpointInfo R
absorb existing draft = record existing {
  type = bit_or existing.type draft.type;
  runtime_url =
      if not (is_given existing.runtime_url) && is_given draft.runtime_url
      then draft.runtime_url
      else existing.runtime_url;
  ser_type =
      if eq_text existing.ser_type (text "unknown") && not (eq_text draft.ser_type (text "unknown"))
      then draft.ser_type
      else existing.ser_type;
  sources = add_text draft.source existing.sources;
  route_names = add_text draft.route_name existing.route_names;
}

unfoldable pub merge_draft :
    {R : Type 0} → Assoc (EndpointInfo R) → EndpointDraft → Assoc (EndpointInfo R)
merge_draft by_url draft = elim (get draft.url by_url) [
  | none ↦ put draft.url (endpoint_from_draft draft) by_url
  | some existing ↦ put draft.url (absorb existing draft) by_url
]

unfoldable pub merge_drafts :
    {R : Type 0} → Assoc (EndpointInfo R) → List EndpointDraft → Assoc (EndpointInfo R)
merge_drafts by_url [] = by_url
merge_drafts by_url (d ∷ ds) = merge_drafts (merge_draft by_url d) ds

-- `compareEndpoints`, as an order, under the locale's order of texts.
unfoldable pub by_scheme :
    {R : Type 0} → (Text → Text → Bool) → EndpointInfo R → EndpointInfo R → Bool
by_scheme locale_le left right =
    let left_scheme = transport_from_url left.url in
    let right_scheme = transport_from_url right.url in
    if eq_text left_scheme right_scheme
    then locale_le left.url right.url
    else locale_le left_scheme right_scheme

unfoldable pub kept_drafts : List EndpointDraft → List EndpointDraft
kept_drafts drafts = select (is_kept (hidden_public_runtime_urls drafts)) drafts

-- The endpoints of all drafts.
unfoldable pub endpoints_of :
    {R : Type 0} → (Text → Text → Bool) → List EndpointDraft → List (EndpointInfo R)
endpoints_of locale_le drafts =
    sort (by_scheme locale_le) (values (merge_drafts [] (kept_drafts drafts)))
