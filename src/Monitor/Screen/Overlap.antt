-- ===== src/Monitor/Screen/Overlap.antt =====
-- Keys, frames and collections in any order: the state of the monitor stays consistent, and no two
-- collections overlap (monitor/pr-monitor/src/index.ts).
use robotics_pacific_rim.Base.{
  ℕ, ◌≡◌, refl, sym, ap, ◌∙◌, inl, inr, Bool, not, ◌&&◌, List, [], ◌∷◌, arith, if◌then◌else◌,
  Bool-cases, Option-cases, Text,
}
use robotics_pacific_rim.Base.Assoc.{Assoc}
use robotics_pacific_rim.Monitor.Types.{
  EndpointInfo, EndpointStats, EndpointHistory, DetailSample, MonitorOptions, Host, ℤ,
}
use robotics_pacific_rim.Monitor.Model.State.{MonitorModel, new_model}
use robotics_pacific_rim.Monitor.Model.Sampling.{ensure_endpoint_state}
use robotics_pacific_rim.Monitor.Model.Collect.{
  begin_collect, finish_collect, initialize, ensure_all,
}
use robotics_pacific_rim.Monitor.Model.Invariant.{IsConsistent}
use robotics_pacific_rim.Monitor.Model.Begin.{begin_collect-IsTracked}
use robotics_pacific_rim.Monitor.Model.Preserved.{
  same_maps-IsConsistent, begin_collect-IsConsistent, finish_collect-IsConsistent,
  initialize-IsConsistent,
}
use robotics_pacific_rim.Monitor.Screen.Keys.{
  KeyEvent, Delta, up, down, move_selection, filter_key, open_detail, page_right, option_key,
  list_key, handle_key, render_clamp, normalize_key_name,
}
use robotics_pacific_rim.Monitor.Screen.World.{
  World, call_collect, press, draw, answer, Step, pressed, ticked, drawn, answered, opened,
  Reachable, start, step,
}

chart_width-option_key :
    (host : Host) (name : Text) (o : MonitorOptions)
    → (option_key host name o).chart_width ≡ o.chart_width
unfolding option_key
chart_width-option_key host name o = ground arith

-- What keys and frames leave alone.
abbrev Data : Type 0 → Type 0
Data R =
    Assoc (EndpointStats R) × Assoc (EndpointHistory R) × Assoc (List (DetailSample R)) × ℤ × Bool

abbrev data_of : {R : Type 0} → MonitorModel R → Data R
data_of m = (m.stats, m.histories, m.details, m.options.chart_width, m.collecting)

module _ (host : Host) where
  open host use {Real}

  data-move_selection :
      (delta : Delta) (height : ℕ) (m : MonitorModel Real)
      → data_of (move_selection host delta height m) ≡ data_of m
  unfolding move_selection
  data-move_selection delta height m = ground arith

  data-open_detail : (m : MonitorModel Real) → data_of (open_detail host m) ≡ data_of m
  unfolding open_detail
  data-open_detail m = ground arith

  data-filter_key :
      (key : KeyEvent) (m : MonitorModel Real) → data_of (filter_key host key m) ≡ data_of m
  unfolding filter_key
  data-filter_key key m = ground arith

  data-render_clamp :
      (height : ℕ) (m : MonitorModel Real) → data_of (render_clamp host height m) ≡ data_of m
  unfolding render_clamp
  data-render_clamp height m = ground arith

  data-list_key :
      (name : Text) (height : ℕ) (m : MonitorModel Real)
      → data_of (list_key host name height m) ≡ data_of m
  unfolding list_key page_right
  data-list_key name height m = ground (
    arith,
    data-move_selection up height m,
    data-move_selection down height m,
    data-open_detail m,
    chart_width-option_key host name m.options,
  )

  data-handle_key :
      (key : KeyEvent) (height : ℕ) (m : MonitorModel Real)
      → data_of (handle_key host key height m).model ≡ data_of m
  unfolding handle_key
  data-handle_key key height m =
      ground (arith, data-filter_key key m, data-list_key (normalize_key_name key) height m)

  data-IsConsistent :
      (m m' : MonitorModel Real) → data_of m' ≡ data_of m → IsConsistent m → IsConsistent m'
  data-IsConsistent m m' e =
      same_maps-IsConsistent host m m' (sym (ap (λ d. d.0) e)) (sym (ap (λ d. d.1) e))
        (sym (ap (λ d. d.2) e)) (sym (ap (λ d. d.3) e))

  abbrev flights : Bool → ℕ
  flights collecting = if collecting then 1 else 0

  -- The state is consistent, and a collection is in flight exactly while the model is marked as
  -- collecting, and then one only.
  pub record IsSound (w : World Real) : Type 0 where
    pub consistent : IsConsistent w.model
    pub in_flight : w.in_flight ≡ flights w.model.collecting

  call_collect-IsSound : (w : World Real) → IsSound w → IsSound (call_collect host w)
  unfolding call_collect
  call_collect-IsSound w s = elim (Option-cases (begin_collect host w.model)) [
    | inl e ↦ rw (e, call_collect) s
    | inr (m, e) ↦
        let (_, idle, busy, _, _) = begin_collect-IsTracked host w.model m e in
        rw (e, call_collect)
          (record {
            consistent = begin_collect-IsConsistent host w.model m e s.consistent;
            in_flight = rw (busy, s.in_flight, idle) refl;
          })
  ]

  changed-IsSound :
      (w : World Real) (m : MonitorModel Real) (is_open : Bool)
      → data_of m ≡ data_of w.model
      → IsSound w
      → IsSound (record w { model = m; is_open = is_open })
  changed-IsSound w m is_open e s = record {
    consistent = data-IsConsistent w.model m e s.consistent;
    in_flight = s.in_flight ∙ ap flights (sym (ap (λ d. d.4) e));
  }

  press-IsSound :
      (key : KeyEvent) (height : ℕ) (w : World Real) → IsSound w → IsSound (press host key height w)
  unfolding press
  press-IsSound key height w s =
      let outcome = handle_key host key height w.model in
      let next =
        changed-IsSound w outcome.model (w.is_open && not outcome.shuts_down)
          (data-handle_key key height w.model) s in
      elim (Bool-cases outcome.collects) [
        | inl e ↦ rw e (call_collect-IsSound _ next)
        | inr e ↦ rw e next
      ]

  Step-IsSound : (v w : World Real) → Step host v w → IsSound v → IsSound w
  unfolding answer draw finish_collect
  Step-IsSound v w (pressed key height _) s = press-IsSound key height v s
  Step-IsSound v w (ticked _) s = call_collect-IsSound v s
  Step-IsSound v w (drawn height _) s =
      changed-IsSound v _ v.is_open (data-render_clamp height v.model) s
  Step-IsSound v w (answered now ss busy) s = record {
    consistent = finish_collect-IsConsistent host now ss v.model s.consistent;
    in_flight = grind (arith, s.in_flight);
  }

  collecting-ensure_all :
      (m : MonitorModel Real) (es : List (EndpointInfo Real))
      → (ensure_all host m es).collecting ≡ m.collecting
  unfolding ensure_all ensure_endpoint_state
  collecting-ensure_all m [] = refl
  collecting-ensure_all m (e ∷ es) = collecting-ensure_all (ensure_endpoint_state host m e) es

  new_model-IsConsistent :
      (options : MonitorOptions) → IsConsistent (new_model host.zero_real options)
  unfolding new_model
  new_model-IsConsistent options = record {
    distinct_stats = tt;
    distinct_histories = tt;
    distinct_details = tt;
    honest = tt;
    short_histories = tt;
    short_details = tt;
  }

  opened-IsSound :
      (options : MonitorOptions) (now : ℕ) (endpoints : List (EndpointInfo Real))
      (sources errors collectors : List Text)
      → IsSound (opened host options now endpoints sources errors collectors)
  unfolding initialize new_model
  opened-IsSound options now endpoints sources errors collectors = record {
    consistent =
        initialize-IsConsistent host now endpoints sources errors collectors
          (new_model host.zero_real options) (new_model-IsConsistent options);
    in_flight = sym (ap flights (collecting-ensure_all _ endpoints));
  }

  -- Whatever keys are pressed, timers tick, frames are drawn and answers come, in any order: the
  -- monitor's state stays consistent, and at most one collection is in flight, one exactly while
  -- the model is marked as collecting.
  pub Reachable-IsSound :
      (options : MonitorOptions) (w : World Real) → Reachable host options w → IsSound w
  Reachable-IsSound options w (start now endpoints sources errors collectors) =
      call_collect-IsSound _ (opened-IsSound options now endpoints sources errors collectors)
  Reachable-IsSound options w (step {v} r s) = Step-IsSound v w s (Reachable-IsSound options v r)
