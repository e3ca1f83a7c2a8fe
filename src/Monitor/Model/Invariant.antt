-- ===== src/Monitor/Model/Invariant.antt =====
-- The invariant of the monitor's state (monitor/pr-monitor/src/model.ts).
use robotics_pacific_rim.Base.{
  ℕ, ◌≤◌, ◌≡◌, Bool, true, false, List, [], arith, if◌then◌else◌, length, Text,
}
use robotics_pacific_rim.Base.Assoc.{Assoc, keys, HasDistinct}
use robotics_pacific_rim.Monitor.Types.{
  EndpointInfo, EndpointStats, EndpointHistory, DetailSample, CollectorSample, CollectorStatus,
  Host, ℤ,
}
use robotics_pacific_rim.Monitor.Model.State.{
  MonitorModel, push, modify, detail_limit, history_limit, empty_history,
}
use robotics_pacific_rim.Monitor.Model.Sampling.{
  zero_stats, ensure_endpoint_state, update_collector_status, append_history, append_history_sample,
  append_detail, sampled_stats, apply_found,
}
use robotics_pacific_rim.Monitor.Model.Maps.{
  length-shift_while, keys-modify, ensure_key-HasDistinct, Values, ensure_key-Values, modify-Values,
}

-- Each of the four series is within the limit.
pub record IsWithin {R : Type 0} (limit : ℕ) (h : EndpointHistory R) : Type 0 where
  pub freq : length h.freq ≤ limit
  pub rate : length h.rate ≤ limit
  pub loss : length h.loss ≤ limit
  pub latency : length h.latency ≤ limit

-- What is shown as stable is active, and was ticked at least twice.
abbrev pub IsHonest : {R : Type 0} → EndpointStats R → Type 0
IsHonest s = s.stable ≡ true → (s.active ≡ true) × (2 ≤ s.ticks)

pub record IsConsistent {R : Type 0} (m : MonitorModel R) : Type 0 where
  pub distinct_stats : HasDistinct (keys m.stats)
  pub distinct_histories : HasDistinct (keys m.histories)
  pub distinct_details : HasDistinct (keys m.details)
  pub honest : Values IsHonest m.stats
  pub short_histories : Values (IsWithin (history_limit m.options.chart_width)) m.histories
  pub short_details : Values (λ d. length d ≤ detail_limit) m.details

module _ {ℓ} {V : Type ℓ} where
  pub modify-HasDistinct :
      (k : Text) (f : V → V) (m : Assoc V)
      → HasDistinct (keys m)
      → HasDistinct (keys (modify k f m))
  modify-HasDistinct k f m h = rw (keys-modify k f m) h

module _ (host : Host) where
  open host use {Real, zero_real}

  zero_stats-IsHonest : IsHonest (zero_stats host)
  unfolding zero_stats
  zero_stats-IsHonest h = cc

  pub ensure_endpoint_state-IsConsistent :
      (m : MonitorModel Real) (e : EndpointInfo Real)
      → IsConsistent m
      → IsConsistent (ensure_endpoint_state host m e)
  unfolding ensure_endpoint_state empty_history
  ensure_endpoint_state-IsConsistent m e c = record {
    distinct_stats = ensure_key-HasDistinct e.url (zero_stats host) m.stats c.distinct_stats;
    distinct_histories =
        ensure_key-HasDistinct e.url (empty_history Real) m.histories c.distinct_histories;
    distinct_details = ensure_key-HasDistinct e.url [] m.details c.distinct_details;
    honest =
        ensure_key-Values IsHonest e.url (zero_stats host) m.stats zero_stats-IsHonest c.honest;
    short_histories =
        ensure_key-Values (IsWithin _) e.url (empty_history Real) m.histories (omega arith)
          c.short_histories;
    short_details =
        ensure_key-Values (λ d. length d ≤ detail_limit) e.url [] m.details (omega arith)
          c.short_details;
  }

  pub update_collector_status-IsConsistent :
      (now : ℕ) (name : Text) (status : CollectorStatus) (m : MonitorModel Real)
      → IsConsistent m
      → IsConsistent (update_collector_status host now name status m)
  unfolding update_collector_status
  update_collector_status-IsConsistent now name status m c = record {
    distinct_stats = c.distinct_stats;
    distinct_histories = c.distinct_histories;
    distinct_details = c.distinct_details;
    honest = c.honest;
    short_histories = c.short_histories;
    short_details = c.short_details;
  }

  pub append_history-IsWithin :
      (h : EndpointHistory Real) (freq rate loss latency : Real) (width : ℤ)
      → IsWithin (history_limit width) (append_history host h freq rate loss latency width)
  unfolding append_history
  append_history-IsWithin h freq rate loss latency width = record {
    freq = length-shift_while _ (push h.freq freq);
    rate = length-shift_while _ (push h.rate rate);
    loss = length-shift_while _ (push h.loss loss);
    latency = length-shift_while _ (push h.latency latency);
  }

  append_history_sample-IsWithin :
      (h : EndpointHistory Real) (s : EndpointStats Real) (width : ℤ)
      → IsWithin (history_limit width) (append_history_sample host h s width)
  unfolding append_history_sample
  append_history_sample-IsWithin h s width = append_history-IsWithin h _ _ _ _ width

  append_detail_bound :
      (d : List (DetailSample Real)) (sample : CollectorSample Real) (s : EndpointStats Real)
      → length (append_detail host d sample s) ≤ detail_limit
  unfolding append_detail
  append_detail_bound d sample s = length-shift_while detail_limit _

  sampled_stats-IsHonest :
      (sample : CollectorSample Real) (s : EndpointStats Real)
      → IsHonest (sampled_stats host sample s)
  unfolding sampled_stats
  sampled_stats-IsHonest sample s h = ground arith

  if-Values :
      {V : Type 0} (P : V → Type 0) (b : Bool) (m m' : Assoc V)
      → Values P m
      → Values P m'
      → Values P (if b then m else m')
  if-Values P true m m' h k = h
  if-Values P false m m' h k = k

  if-HasDistinct :
      {V : Type 0} (b : Bool) (m m' : Assoc V)
      → HasDistinct (keys m)
      → HasDistinct (keys m')
      → HasDistinct (keys (if b then m else m'))
  if-HasDistinct true m m' h k = h
  if-HasDistinct false m m' h k = k

  pub apply_found-IsConsistent :
      (sample : CollectorSample Real) (m : MonitorModel Real)
      → IsConsistent m
      → IsConsistent (apply_found host sample m)
  unfolding apply_found
  apply_found-IsConsistent sample m c =
      let url = sample.url in
      record {
        distinct_stats =
            modify-HasDistinct url (sampled_stats host sample) m.stats c.distinct_stats;
        distinct_histories =
            if-HasDistinct _ _ m.histories
              (modify-HasDistinct url _ m.histories c.distinct_histories) c.distinct_histories;
        distinct_details =
            if-HasDistinct _ _ m.details (modify-HasDistinct url _ m.details c.distinct_details)
              c.distinct_details;
        honest =
            modify-Values IsHonest url (sampled_stats host sample) m.stats
              (λ s _. sampled_stats-IsHonest sample s) c.honest;
        short_histories =
            if-Values (IsWithin _) _ _ m.histories
              (modify-Values (IsWithin _) url _ m.histories
                (λ h _. append_history_sample-IsWithin h _ m.options.chart_width) c.short_histories)
              c.short_histories;
        short_details =
            if-Values (λ d. length d ≤ detail_limit) _ _ m.details
              (modify-Values (λ d. length d ≤ detail_limit) url _ m.details
                (λ d _. append_detail_bound d sample _) c.short_details)
              c.short_details;
      }
