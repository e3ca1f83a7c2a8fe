-- ===== src/Monitor/Samples.antt =====
-- Concrete data for the runs of the monitor.
use robotics_pacific_rim.Base.{
  ℕ, ◌+◌, true, false, none, some, List, [], ◌∷◌, ltb, or_else, Text, text,
}
use robotics_pacific_rim.Base.Locale.{lex_le}
use robotics_pacific_rim.Monitor.Types.{
  pos, whole, proto, ProcessInfo, EndpointInfo, CollectorSample, CollectorSnapshot, MonitorOptions,
  Host,
}
use robotics_pacific_rim.Monitor.Model.State.{MonitorModel, new_model}
use robotics_pacific_rim.Monitor.Model.Sampling.{Settled, fulfilled, rejected}
use robotics_pacific_rim.Monitor.Model.Collect.{begin_collect, finish_collect, initialize}

-- Whole numbers for the measured values, and the order of code units for the locale's.
abbrev pub host : Host
host = record {
  Real = ℕ;
  zero_real = 0;
  add_real = λ x y. x + y;
  is_positive = λ x. ltb 0 x;
  round = λ x. whole (pos x);
  time_string = λ t. [];
  locale_le = lex_le;
}

abbrev pub options : MonitorOptions
options = record {
  urls = [];
  filter = [];
  black_mode = false;
  native_mode = false;
  count_mode = false;
  detail_mode = false;
  observe_all_mode = false;
  profiler_mode = false;
  ser_mode = false;
  active_mode = false;
  pubsub_mode = false;
  process_mode = false;
  chart_mode = false;
  preset_mode = false;
  plain_mode = false;
  dot_mode = false;
  blob_mode = false;
  rows = pos 0;
  columns = pos 0;
  chart_width = pos 30;
  process_width = pos 40;
  proto_args = [];
  proto_dir = [];
  fbs_dir = [];
  loc_mode = false;
  project_root = text "/repo";
  prometheus_url = text "http://localhost:18180";
  ros2_sample_seconds = some (pos 1);
  list_routes = false;
  list_processes = false;
}

abbrev pub process_named : Text → ℕ → ProcessInfo ℕ
process_named name pid = record {
  type = 1;
  host = text "pi";
  ip = text "127.0.0.1";
  name = name;
  pid = pid;
  profiler = none;
}

abbrev pub endpoint : Text → EndpointInfo ℕ
endpoint url = record {
  type = 3;
  url = url;
  runtime_url = none;
  ser_type = text "pb";
  schema_type = proto;
  process_list = process_named (text "server") 7 ∷ [];
  sources = [];
  route_names = [];
}

abbrev pub endpoints : List (EndpointInfo ℕ)
endpoints = endpoint (text "dds://b") ∷ endpoint (text "dds://a") ∷ []

abbrev pub sample : CollectorSample ℕ
sample = record {
  url = text "dds://b";
  source = text "ros2";
  timestamp = 50000;
  freq = some 10;
  rate = some 400;
  loss = none;
  latency = none;
  count_delta = none;
  size = none;
  active = none;
  status = none;
  preview = some (text "x");
  process_list = some (process_named (text "client") 9 ∷ []);
}

abbrev pub snapshot : CollectorSnapshot ℕ
snapshot = record {
  samples = sample ∷ [];
  status = record { name = text "ros2"; is_ok = true; message = text "1 sample"; updated_at = 0 };
}

abbrev pub names : List Text
names = text "prometheus" ∷ text "ros2" ∷ []

abbrev pub answers : List (Settled (CollectorSnapshot ℕ))
answers = rejected (text "connection refused") ∷ fulfilled snapshot ∷ []

abbrev pub first : MonitorModel ℕ
first = new_model 0 options

abbrev pub ready : MonitorModel ℕ
ready = initialize host 40000 endpoints (text "a.yaml" ∷ []) [] names first

abbrev pub started : MonitorModel ℕ
started = or_else (begin_collect host ready) ready

abbrev pub collected : MonitorModel ℕ
collected = finish_collect host 50100 answers started
