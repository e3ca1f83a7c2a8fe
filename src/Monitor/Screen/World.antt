-- ===== src/Monitor/Screen/World.antt =====
-- The monitor's event loop (`main` of monitor/pr-monitor/src/index.ts) as a step relation: a run is
-- a sequence of key presses, timer ticks, frames and answers of the collectors, in any order. A
-- collection that was started is in flight until its answers come.
use robotics_pacific_rim.Base.{
  ℕ, ◌+◌, ◌-◌, ◌<◌, ◌≡◌, Bool, true, not, ◌&&◌, none, some, List, if◌then◌else◌, Text,
}
use robotics_pacific_rim.Monitor.Types.{EndpointInfo, MonitorOptions, CollectorSnapshot, Host}
use robotics_pacific_rim.Monitor.Model.State.{MonitorModel, new_model}
use robotics_pacific_rim.Monitor.Model.Sampling.{Settled}
use robotics_pacific_rim.Monitor.Model.Collect.{begin_collect, finish_collect, initialize}
use robotics_pacific_rim.Monitor.Screen.Keys.{KeyEvent, handle_key, render_clamp}

pub record World (R : Type 0) : Type 0 where
  pub model : MonitorModel R
  pub in_flight : ℕ
  pub is_open : Bool

module _ (host : Host) where
  open host use {Real, zero_real}

  -- `model.collect()`, up to its `await`.
  unfoldable pub call_collect : World Real → World Real
  call_collect w = elim (begin_collect host w.model) [
    | none ↦ w
    | some m ↦ record w { model = m; in_flight = w.in_flight + 1 }
  ]

  unfoldable pub press : KeyEvent → ℕ → World Real → World Real
  press key height w =
      let outcome = handle_key host key height w.model in
      let next = record w {
        model = outcome.model;
        is_open = w.is_open && not outcome.shuts_down;
      } in
      if outcome.collects then call_collect next else next

  unfoldable pub draw : ℕ → World Real → World Real
  draw height w = record w { model = render_clamp host height w.model }

  unfoldable pub answer : ℕ → List (Settled (CollectorSnapshot Real)) → World Real → World Real
  answer now ss w = record w {
    model = finish_collect host now ss w.model;
    in_flight = w.in_flight - 1;
  }

  pub data Step : World Real → World Real → Type 0 where
    pressed :
        {w : World Real} (key : KeyEvent) (height : ℕ)
        → w.is_open ≡ true
        → Step w (press key height w)
    ticked : {w : World Real} → w.is_open ≡ true → Step w (call_collect w)
    drawn : {w : World Real} (height : ℕ) → w.is_open ≡ true → Step w (draw height w)
    answered :
        {w : World Real} (now : ℕ) (ss : List (Settled (CollectorSnapshot Real)))
        → 0 < w.in_flight
        → Step w (answer now ss w)

  -- The world in which `main` makes its first call of `collect`.
  abbrev pub opened :
      MonitorOptions → ℕ → List (EndpointInfo Real) → List Text → List Text → List Text → World Real
  opened options now endpoints sources errors collectors = record {
    model = initialize host now endpoints sources errors collectors (new_model zero_real options);
    in_flight = 0;
    is_open = true;
  }

  -- The worlds that a run of the monitor with these options can reach.
  pub data Reachable (options : MonitorOptions) : World Real → Type 0 where
    start :
        (now : ℕ) (endpoints : List (EndpointInfo Real)) (sources errors collectors : List Text)
        → Reachable options (call_collect (opened options now endpoints sources errors collectors))
    step : {v w : World Real} → Reachable options v → Step v w → Reachable options w
