-- ===== src/Monitor/Model/Sampling.antt =====
-- What the collectors' answers do to the model (monitor/pr-monitor/src/model.ts). The clock is an
-- argument, `now`.
use robotics_pacific_rim.Base.{
  ℕ, zero, suc, Bool, false, not, ◌&&◌, ◌||◌, Option, none, some, List, [], ◌∷◌, ◌++◌, leb,
  if◌then◌else◌, or_else, is_some, any, Text, text, eq_text, is_empty,
}
use robotics_pacific_rim.Base.Assoc.{Assoc, get, put, values}
use robotics_pacific_rim.Base.Decimal.{show_nat}
use robotics_pacific_rim.Base.Sort.{sort}
use robotics_pacific_rim.Monitor.Types.{
  ProcessInfo, EndpointInfo, EndpointStats, EndpointHistory, DetailSample, CollectorSample,
  CollectorStatus, CollectorSnapshot, Host, ℤ, pos, whole,
}
use robotics_pacific_rim.Monitor.Numbers.{add_number, max_zero, is_same}
use robotics_pacific_rim.Monitor.Model.State.{
  MonitorModel, shift_while, push, modify, ensure_key, detail_limit, history_limit, empty_history,
}

-- `Promise.allSettled` gives a value or a reason for each collector.
pub data Settled (A : Type 0) : Type 0 where
  fulfilled : A → Settled A
  rejected : Text → Settled A

-- `a ?? b` on optional values, where the result may be missing too.
abbrev pub or_option {ℓ} : {A : Type ℓ} → Option A → Option A → Option A
or_option none o = o
or_option (some a) o = some a

abbrev pub positive_number : ℕ → ℕ → ℕ
positive_number zero d = d
positive_number (suc n) d = suc n

unfoldable pub update_status : Text → CollectorStatus → List CollectorStatus → List CollectorStatus
update_status name next [] = next ∷ []
update_status name next (item ∷ items) =
    if eq_text item.name name then next ∷ items else item ∷ update_status name next items

module _ (host : Host) where
  open host use {Real, zero_real, add_real, is_positive, round, time_string, locale_le}

  unfoldable pub zero_stats : EndpointStats Real
  zero_stats = record {
    freq = none;
    rate = none;
    loss = none;
    latency = none;
    stable = false;
    active = false;
    ticks = 0;
    seq = whole (pos 0);
    last_seen_at = none;
    source = [];
    status = text "not observed";
  }

  unfoldable pub ensure_endpoint_state : MonitorModel Real → EndpointInfo Real → MonitorModel Real
  ensure_endpoint_state m endpoint = record m {
    stats = ensure_key endpoint.url zero_stats m.stats;
    histories = ensure_key endpoint.url (empty_history Real) m.histories;
    details = ensure_key endpoint.url [] m.details;
  }

  unfoldable pub update_collector_status :
      ℕ → Text → CollectorStatus → MonitorModel Real → MonitorModel Real
  update_collector_status now name status m = record m {
    collector_statuses =
        update_status name
          (record status { name = name; updated_at = positive_number status.updated_at now })
          m.collector_statuses;
  }

  abbrev pub is_positive_option : Option Real → Bool
  is_positive_option none = false
  is_positive_option (some x) = is_positive x

  unfoldable pub has_observed_value : CollectorSample Real → Bool
  has_observed_value sample =
      is_positive_option sample.freq
      || is_positive_option sample.rate
      || is_positive_option sample.count_delta
      || or_else sample.active false

  -- The key under which a process is merged: `name:pid:type`.
  unfoldable pub process_key : ProcessInfo Real → Text
  process_key p = p.name ++ (b':' ∷ (show_nat p.pid ++ (b':' ∷ show_nat p.type)))

  unfoldable pub merge_into :
      Assoc (ProcessInfo Real) → List (ProcessInfo Real) → Assoc (ProcessInfo Real)
  merge_into merged [] = merged
  merge_into merged (p ∷ ps) = merge_into (put (process_key p) p merged) ps

  -- `left.name.localeCompare(right.name) || left.pid - right.pid`, as an order.
  unfoldable pub by_process : ProcessInfo Real → ProcessInfo Real → Bool
  by_process left right =
      locale_le left.name right.name
      && (not (locale_le right.name left.name) || leb left.pid right.pid)

  unfoldable pub merge_processes :
      List (ProcessInfo Real) → List (ProcessInfo Real) → List (ProcessInfo Real)
  merge_processes current incoming = sort by_process (values (merge_into [] (current ++ incoming)))

  unfoldable pub append_history :
      EndpointHistory Real → Real → Real → Real → Real → ℤ → EndpointHistory Real
  append_history history freq rate loss latency chart_width =
      let limit = history_limit chart_width in
      record {
        freq = shift_while limit (push history.freq freq);
        rate = shift_while limit (push history.rate rate);
        loss = shift_while limit (push history.loss loss);
        latency = shift_while limit (push history.latency latency);
      }

  abbrev pub or_zero : Option Real → Real
  or_zero o = or_else o zero_real

  unfoldable pub append_history_sample :
      EndpointHistory Real → EndpointStats Real → ℤ → EndpointHistory Real
  append_history_sample history stats chart_width =
      append_history history (or_zero stats.freq) (or_zero stats.rate) (or_zero stats.loss)
        (or_zero stats.latency) chart_width

  unfoldable pub append_detail :
      List (DetailSample Real)
      → CollectorSample Real
      → EndpointStats Real
      → List (DetailSample Real)
  append_detail detail sample stats = shift_while detail_limit (
      push detail (record {
        time = time_string sample.timestamp;
        seq = stats.seq;
        size = sample.size;
        latency = sample.latency;
        preview =
            or_else sample.preview
              (sample.source ++ (text ": " ++ or_else sample.status (text "observed")));
      }))

  -- The statistics of an endpoint after a sample.
  unfoldable pub sampled_stats : CollectorSample Real → EndpointStats Real → EndpointStats Real
  unfolding add_number max_zero
  sampled_stats sample stats =
      let observed = has_observed_value sample in
      let active =
        if is_some sample.active || observed
        then or_else sample.active observed
        else stats.active in
      record stats {
        freq = or_option sample.freq stats.freq;
        rate = or_option sample.rate stats.rate;
        loss = or_option sample.loss stats.loss;
        latency = or_option sample.latency stats.latency;
        source = sample.source;
        status = or_else sample.status (text "sampled");
        last_seen_at = some sample.timestamp;
        active = active;
        stable = leb 2 stats.ticks && active;
        seq =
            add_number stats.seq
              (max_zero (round (or_zero (or_option sample.count_delta sample.freq))));
      }

  abbrev pub has_preview : CollectorSample Real → Bool
  has_preview sample = not (is_empty (or_else sample.preview []))

  -- `endpoint.processList = …` on the first endpoint of the URL.
  unfoldable pub set_processes :
      Text → List (ProcessInfo Real) → List (EndpointInfo Real) → List (EndpointInfo Real)
  set_processes url incoming [] = []
  set_processes url incoming (e ∷ es) =
      if eq_text e.url url
      then record e { process_list = merge_processes e.process_list incoming } ∷ es
      else e ∷ set_processes url incoming es

  -- `applySample` for an endpoint that was found.
  unfoldable pub apply_found : CollectorSample Real → MonitorModel Real → MonitorModel Real
  unfolding is_same
  apply_found sample m =
      let url = sample.url in
      let before = or_else (get url m.stats) zero_stats in
      let stats = sampled_stats sample before in
      record m {
        stats = modify url (sampled_stats sample) m.stats;
        endpoints = set_processes url (or_else sample.process_list []) m.endpoints;
        histories =
            if has_observed_value sample || is_some sample.active
            then modify url (λ history. append_history_sample history stats m.options.chart_width)
                m.histories
            else m.histories;
        details =
            if not (is_same stats.seq before.seq) || has_preview sample
            then modify url (λ detail. append_detail detail sample stats) m.details
            else m.details;
      }

  unfoldable pub has_endpoint : Text → List (EndpointInfo Real) → Bool
  has_endpoint url endpoints = any (λ e. eq_text e.url url) endpoints

  unfoldable pub apply_sample : MonitorModel Real → CollectorSample Real → MonitorModel Real
  apply_sample m sample = if has_endpoint sample.url m.endpoints then apply_found sample m else m

  unfoldable pub apply_samples : MonitorModel Real → List (CollectorSample Real) → MonitorModel Real
  apply_samples m [] = m
  apply_samples m (sample ∷ samples) = apply_samples (apply_sample m sample) samples

  -- One round of the loop over the snapshots.
  unfoldable pub apply_snapshot :
      ℕ → MonitorModel Real → Text → Settled (CollectorSnapshot Real) → MonitorModel Real
  apply_snapshot now m name (fulfilled snapshot) =
      apply_samples (update_collector_status now name snapshot.status m) snapshot.samples
  apply_snapshot now m name (rejected reason) =
      update_collector_status now name
        (record { name = name; is_ok = false; message = reason; updated_at = now }) m

  unfoldable pub apply_snapshots :
      ℕ
      → MonitorModel Real
      → List Text
      → List (Settled (CollectorSnapshot Real))
      → MonitorModel Real
  apply_snapshots now m [] snapshots = m
  apply_snapshots now m (name ∷ names) [] = m
  apply_snapshots now m (name ∷ names) (snapshot ∷ snapshots) =
      apply_snapshots now (apply_snapshot now m name snapshot) names snapshots
