-- ===== src/Monitor/Collectors/Rounds.antt =====
-- The rounds in which the CycloneDDS and ROS2 collectors sample the routes, a few at each tick
-- (monitor/pr-monitor/src/collectors.ts). The answers of the ros2 command, its topics and
-- services, are arguments.
pub mod Fair
use robotics_pacific_rim.Base.{
  Bool, not, ◌&&◌, ◌||◌, if◌then◌else◌, ◌==◌, ltb, ℕ, zero, suc, ◌+◌, ◌-◌, ◌%◌, Option, none, some,
  List, [], ◌∷◌, ◌++◌, map, length, take, drop, all, select, is_empty, Text, text, string_runs,
  starts_with, before, eq_text, is_lower_letter, is_digit,
}
use robotics_pacific_rim.Base.Distinct.{has}
use robotics_pacific_rim.Monitor.Types.{EndpointInfo}
use robotics_pacific_rim.Monitor.Discovery.Draft.{drop_slashes}

abbrev max_ros2_hz_samples_per_tick : ℕ
max_ros2_hz_samples_per_tick = 1

abbrev max_cyclone_dds_samples_per_tick : ℕ
max_cyclone_dds_samples_per_tick = 1

-- The routes from the cursor on, and from the start again when they are too few.
abbrev pub budget_of {ℓ} : {A : Type ℓ} → ℕ → List A → ℕ → List A
budget_of limit routes cursor =
    let budget = take limit (drop cursor routes) in
    if ltb (length budget) limit then budget ++ take (limit - length budget) routes else budget

abbrev pub next_cursor : ℕ → ℕ → ℕ → ℕ
next_cursor limit count cursor = if count == 0 then 0 else (cursor + limit) % count

unfoldable pub ros_route_url : Text → Text
unfolding drop_slashes
ros_route_url route = text "ros2://" ++ drop_slashes route

abbrev is_lower_scheme_unit : ℕ → Bool
is_lower_scheme_unit c = is_lower_letter c || is_digit c || c == b'+' || c == b'.' || c == b'-'

-- `url.replace(/^[a-z0-9+.-]+:\/\//, "")`.
abbrev without_scheme : Text → Text
without_scheme url =
    let scheme = before (text "://") url in
    if not (is_empty scheme) && all is_lower_scheme_unit scheme && not (length scheme == length url)
    then drop (length scheme + 3) url
    else url

unfoldable pub route_from_url : Text → Text
unfolding drop_slashes before
route_from_url url = b'/' ∷ drop_slashes (without_scheme url)

abbrev or_url : Option Text → Text → Text
or_url none url = url
or_url (some runtime_url) url = if is_empty runtime_url then url else runtime_url

module _ {R : Type 0} where
  unfoldable pub endpoint_runtime_url : EndpointInfo R → Text
  endpoint_runtime_url endpoint = or_url endpoint.runtime_url endpoint.url

  -- The endpoints that one tick of a collector samples, with the cursor that it leaves.
  unfoldable pub dds_routes : List (EndpointInfo R) → List (EndpointInfo R)
  unfolding starts_with
  dds_routes endpoints =
      select (λ endpoint. starts_with (text "cyclonedds://") endpoint.url) endpoints

  -- The endpoints that a tick of the CycloneDDS collector samples, and the cursor that it leaves.
  unfoldable pub collect_cyclone_dds : List (EndpointInfo R) → ℕ → List (EndpointInfo R) × ℕ
  unfolding dds_routes
  collect_cyclone_dds endpoints cursor =
      let routes = dds_routes endpoints in
      if is_empty routes then ([], cursor) else (
        budget_of max_cyclone_dds_samples_per_tick routes cursor,
        next_cursor max_cyclone_dds_samples_per_tick (length routes) cursor,
      )

  unfoldable pub ros2_routes : List (EndpointInfo R) → List (EndpointInfo R)
  unfolding starts_with endpoint_runtime_url
  ros2_routes endpoints =
      select (λ endpoint. starts_with (text "ros2://") (endpoint_runtime_url endpoint)) endpoints

  module _ (topics services : List Text) where
    unfoldable pub live_endpoints : List (EndpointInfo R) → List (EndpointInfo R)
    unfolding ros2_routes endpoint_runtime_url ros_route_url has eq_text
    live_endpoints endpoints =
        let live = map ros_route_url (topics ++ services) in
        select (λ endpoint. has eq_text (endpoint_runtime_url endpoint) live)
          (ros2_routes endpoints)

    unfoldable pub topic_endpoints : List (EndpointInfo R) → List (EndpointInfo R)
    unfolding live_endpoints endpoint_runtime_url route_from_url has eq_text
    topic_endpoints endpoints =
        select (λ endpoint. has eq_text (route_from_url (endpoint_runtime_url endpoint)) topics)
          (live_endpoints endpoints)

    -- The same of the ROS2 collector, which measures topics alone.
    unfoldable pub collect_ros2 : List (EndpointInfo R) → ℕ → List (EndpointInfo R) × ℕ
    unfolding ros2_routes live_endpoints topic_endpoints
    collect_ros2 endpoints cursor = if is_empty (ros2_routes endpoints) then ([], cursor) else (
      budget_of max_ros2_hz_samples_per_tick (topic_endpoints endpoints) cursor,
      next_cursor max_ros2_hz_samples_per_tick (length (live_endpoints endpoints)) cursor,
    )

-- What the tick of this number samples, counted from a cursor, while the endpoints stay the same.
abbrev pub sampled_at {ℓ} : {A : Type ℓ} → (ℕ → List A × ℕ) → ℕ → ℕ → List A
sampled_at tick zero cursor = (tick cursor).0
sampled_at tick (suc k) cursor = sampled_at tick k (tick cursor).1
