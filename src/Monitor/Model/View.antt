-- ===== src/Monitor/Model/View.antt =====
-- Which endpoints the monitor lists, and in which order (monitor/pr-monitor/src/model.ts).
use robotics_pacific_rim.Base.{
  ◌≡◌, ◌≢◌, Bool, true, false, not, ◌&&◌, ◌||◌, none, some, List, [], ◌∷◌, ◌++◌, map, arith, ◌==◌,
  if◌then◌else◌, any, select, Text, text, has_text, is_empty, is_space, trim, includes, lower, join,
}
use robotics_pacific_rim.Base.Assoc.{get}
use robotics_pacific_rim.Monitor.Types.{EndpointInfo, MonitorOptions, Host}
use robotics_pacific_rim.Monitor.Model.State.{MonitorModel}
use robotics_pacific_rim.Base.Sort.{sort}
use robotics_pacific_rim.Monitor.Types.{publisher, subscriber, has_bits}

-- The pieces between commas and white space, some of them empty.
unfoldable pub split_pieces : Text → Text → List Text
split_pieces cur [] = cur ∷ []
split_pieces cur (c ∷ s) =
    let closed = cur ∷ split_pieces [] s in
    let longer = split_pieces (cur ++ c ∷ []) s in
    if c == b',' || is_space c then closed else longer

-- `splitFilter`. Where the pattern takes a run of separators at once, the pieces inside the run are
-- empty here, and empty pieces are dropped in both.
unfoldable pub split_filter : Text → List Text
split_filter filter = select (λ t. not (is_empty t)) (map trim (split_pieces [] filter))

module _ (host : Host) where
  open host use {Real, locale_le}

  unfoldable pub haystack : EndpointInfo Real → Text
  haystack e = lower (
      e.url
      ++ (text " "
          ++ (e.ser_type
              ++ (text " "
                  ++ (join (text " ") e.sources ++ (text " " ++ join (text " ") e.route_names))))))

  -- `this.stats.get(endpoint.url)?.active`.
  unfoldable pub is_active : MonitorModel Real → EndpointInfo Real → Bool
  is_active m e = elim (get e.url m.stats) [ none ↦ false | some s ↦ s.active ]

  unfoldable pub passes_urls : MonitorOptions → EndpointInfo Real → Bool
  passes_urls options e =
      is_empty options.urls
      || (if options.black_mode
          then not (has_text e.url options.urls)
          else has_text e.url options.urls)

  unfoldable pub matches_term : List Text → EndpointInfo Real → Bool
  matches_term terms e = any (λ term. includes (lower term) (haystack e)) terms

  unfoldable pub passes_terms : MonitorOptions → List Text → EndpointInfo Real → Bool
  passes_terms options terms e =
      is_empty terms
      || (if options.black_mode then not (matches_term terms e) else matches_term terms e)

  unfoldable pub passes_pubsub : MonitorOptions → EndpointInfo Real → Bool
  passes_pubsub options e =
      not options.pubsub_mode || has_bits e.type publisher || has_bits e.type subscriber

  -- The predicate that `visibleEndpoints` filters by.
  unfoldable pub is_visible : MonitorModel Real → EndpointInfo Real → Bool
  is_visible m e =
      passes_urls m.options e
      && passes_terms m.options (split_filter m.filter_text) e
      && passes_pubsub m.options e
      && (not m.options.active_mode || is_active m e)

  -- The comparator, as an order: active endpoints first, then by URL.
  unfoldable pub by_activity : MonitorModel Real → EndpointInfo Real → EndpointInfo Real → Bool
  by_activity m left right =
      if is_active m left
      then (if is_active m right then locale_le left.url right.url else true)
      else (if is_active m right then false else locale_le left.url right.url)

  unfoldable pub visible_endpoints : MonitorModel Real → List (EndpointInfo Real)
  visible_endpoints m = sort (by_activity m) (select (is_visible m) m.endpoints)

  -- With URLs given, no filter text, and neither the pub/sub nor the active mode, black mode lists
  -- exactly the endpoints that are hidden without it.
  is_visible-black :
      (m : MonitorModel Real) (e : EndpointInfo Real)
      → m.options.urls ≢ []
      → split_filter m.filter_text ≡ []
      → m.options.pubsub_mode ≡ false
      → m.options.active_mode ≡ false
      → is_visible (record m { options = record m.options { black_mode = true } }) e
        ≡ not (is_visible (record m { options = record m.options { black_mode = false } }) e)
  unfolding is_visible passes_urls passes_terms passes_pubsub
  is_visible-black m e u t p a = ground arith
