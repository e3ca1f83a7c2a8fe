-- ===== src/Dashboard/Snapshot.antt =====
-- The snapshot of the dashboard: the state of the endpoints, and the numbers over all modules and
-- routes (dashboard/packages/api/src/routers/dashboard.ts).
use robotics_pacific_rim.Base.{
  ℕ, ◌+◌, String, Bool, true, false, not, ◌&&◌, Option, none, some, List, [], ◌∷◌, ◌++◌, map, leb,
  ◌==◌, if◌then◌else◌, length, find, select, Text, text, eq_text,
}
use robotics_pacific_rim.Base.Decimal.{show_nat}
use robotics_pacific_rim.Dashboard.Routes.{CommunicationRoute}
use robotics_pacific_rim.Dashboard.Interfaces.{is_service}
use robotics_pacific_rim.Dashboard.Transports.{TransportSummary, summarize_transports}
use robotics_pacific_rim.Dashboard.Values.Projects.{ModuleSummary}

pub record ObservabilityEndpoint : Type 0 where
  pub href : Text
  pub id : Text
  pub label : Text
  pub url : Text

pub data Status : Type 0 where
  online : Status
  degraded : Status
  offline : Status

-- `EndpointStatus`, which extends `ObservabilityEndpoint`.
pub record EndpointStatus : Type 0 where
  pub endpoint : ObservabilityEndpoint
  pub open endpoint use *
  pub status : Status
  pub status_code : Option ℕ

abbrev endpoint_at : String → String → String → String → ObservabilityEndpoint
endpoint_at id label url href = record {
  id = text id;
  label = text label;
  url = text url;
  href = text href;
}

abbrev pub observability_endpoints : List ObservabilityEndpoint
observability_endpoints =
    endpoint_at "grafana" "Grafana" "http://localhost:16000/api/health" "http://localhost:16000"
    ∷ endpoint_at "prometheus" "Prometheus" "http://localhost:18180/-/ready"
        "http://localhost:18180"
    ∷ endpoint_at "loki" "Loki" "http://localhost:6200/ready" "http://localhost:6200"
    ∷ endpoint_at "tempo" "Tempo" "http://localhost:6400/ready" "http://localhost:6400"
    ∷ endpoint_at "otel" "OTel Collector" "http://localhost:26266" "http://localhost:26266"
    ∷ []

-- What `fetch` came to: no response within 900 ms or an error, or a response with its status code;
-- `response.ok` is that the code is 200 to 299.
unfoldable pub check_endpoint : ObservabilityEndpoint → Option ℕ → EndpointStatus
check_endpoint endpoint none = record { endpoint = endpoint; status = offline; status_code = none }
check_endpoint endpoint (some code) = record {
  endpoint = endpoint;
  status = if leb 200 code && leb code 299 then online else degraded;
  status_code = some code;
}

abbrev is_online : EndpointStatus → Bool
is_online endpoint = elim endpoint.status [ online ↦ true | _ ↦ false ]

abbrev status_text : Status → Text
status_text online = text "online"
status_text degraded = text "degraded"
status_text offline = text "offline"

pub record Issue : Type 0 where
  pub severity : Text
  pub title : Text
  pub detail : Text
  pub source : Text

abbrev severity_of : Status → Text
severity_of offline = text "warning"
severity_of status = text "info"

-- A code of 0 is falsy.
abbrev detail_of : Option ℕ → Text
detail_of none = text "No local readiness response"
detail_of (some code) =
    if code == 0 then text "No local readiness response" else text "HTTP " ++ show_nat code

abbrev issue_of : EndpointStatus → Issue
issue_of endpoint = record {
  severity = severity_of endpoint.status;
  title = endpoint.label ++ (text " is " ++ status_text endpoint.status);
  detail = detail_of endpoint.status_code;
  source = endpoint.href;
}

-- The part of the snapshot that is computed.
pub record Overview : Type 0 where
  pub project_count : ℕ
  pub runtime_module_count : ℕ
  pub critical_module_count : ℕ
  pub route_count : ℕ
  pub service_route_count : ℕ
  pub topic_route_count : ℕ
  pub binding_count : ℕ
  pub online_observability_count : ℕ
  pub issue_count : ℕ
  pub issues : List Issue
  pub transports : List TransportSummary
  pub metrics_are_online : Bool

abbrev pub bindings_of : List CommunicationRoute → ℕ
bindings_of [] = 0
bindings_of (route ∷ routes) = length route.bindings + bindings_of routes

abbrev prometheus_online : Option EndpointStatus → Bool
prometheus_online none = false
prometheus_online (some endpoint) = is_online endpoint

-- `createSnapshotData`, of what was read.
unfoldable pub create_snapshot_data :
    List ModuleSummary → List CommunicationRoute → List EndpointStatus → Overview
unfolding summarize_transports eq_text show_nat
create_snapshot_data projects routes endpoint_statuses =
    let offline_endpoints = select (λ endpoint. not (is_online endpoint)) endpoint_statuses in
    record {
      project_count = length projects;
      runtime_module_count = length (select (λ project. project.runtime) projects);
      critical_module_count = length (select (λ project. project.critical) projects);
      route_count = length routes;
      service_route_count = length (select (λ route. is_service route.kind) routes);
      topic_route_count = length (select (λ route. not (is_service route.kind)) routes);
      binding_count = bindings_of routes;
      online_observability_count = length (select is_online endpoint_statuses);
      issue_count = length offline_endpoints;
      issues = map issue_of offline_endpoints;
      transports = summarize_transports routes;
      metrics_are_online =
          prometheus_online
            (find (λ endpoint. eq_text endpoint.id (text "prometheus")) endpoint_statuses);
    }
