-- ===== src/Experiments/Samples.antt =====
-- A sweep and its scheduler at concrete inputs.
use option_engine.Common.{
  refl, ℕ, zero, suc, ◌+◌, ◌*◌, ◌≤◌, ◌<◌, ◌≡◌, ◌⊎◌, String, false, none, some, List, map, [], ◌∷◌,
  length, get_elem?, arith, string_eq,
}
use option_engine.Common.Int.{ℤ, pos}
use option_engine.Common.Dict.{has, bit}
use option_engine.Experiments.Matrix.{Config, ParameterRanges, Value, generate_matrix, dimensions}
use option_engine.Experiments.Sweep
use option_engine.Experiments.Sweep.{settings}
use option_engine.Experiments.Product.{View, view, product, numbered, matrix-product}
use option_engine.Experiments.Scheduler
use option_engine.Experiments.Scheduler.{
  Phase, idle, waiting, Shared, Scheduler, new_scheduler, Reach, here, next, works, moves, enqueues,
  Work, Works, done, more,
}
use option_engine.Experiments.Exclusion.{sum_of, holds, executes, scheduler_exclusive}
use option_engine.Experiments.Progress.{IsQuiet, work_left}
use option_engine.Experiments.Liveness.{workers_drain}

abbrev ranges : ParameterRanges ℤ
ranges = record {
  ema_fast = pos 5 ∷ pos 9 ∷ [];
  ema_slow = [];
  rsi_period = pos 14 ∷ [];
  rsi_overbought = [];
  rsi_oversold = [];
  macd_fast = [];
  macd_slow = [];
  macd_signal = [];
  min_confidence = pos 50 ∷ pos 60 ∷ pos 70 ∷ [];
  max_positions = [];
}

abbrev config : Config ℤ
config = record {
  enabled = false;
  parallel_workers = pos 0;
  max_concurrent_runs = pos 0;
  subscriber_buffer = pos 0;
  symbols = "A" ∷ "B" ∷ [];
  timeframes = [];
  parameter_ranges = ranges;
  strategy = "";
}

-- Two values of the fast average with three confidences, for each of two symbols.
abbrev expected_runs : List (View ℤ)
expected_runs =
    numbered (λ _. "id") "e" "trend_following" 0
      (product ("A" ∷ "B" ∷ []) ("5m" ∷ []) (settings (Sweep.ranges ranges)))

abbrev twelve : ℕ
twelve = 12

matrix-product_example :
    (map view (generate_matrix (λ _. "id") config "e") ≡ expected_runs)
    × (length (generate_matrix (λ _. "id") config "e") ≡ twelve)
unfolding dimensions
matrix-product_example = matrix-product (λ _. "id") config "e"

expected_last :
    get_elem? (settings (Sweep.ranges ranges)) 5
    ≡ some (
        some (Value.int (pos 9))
        ∷ none
        ∷ some (Value.int (pos 14))
        ∷ none
        ∷ none
        ∷ none
        ∷ none
        ∷ none
        ∷ some (Value.float (pos 70))
        ∷ none
        ∷ [])
unfolding mathlib.Core.List.flat_map
expected_last = refl

abbrev empty_state : Scheduler
empty_state = new_scheduler (pos 2) (pos 1)

abbrev queued_state : Scheduler
queued_state = record empty_state {
  shared = record { queue = "a" ∷ []; running = []; semaphore = 0 };
}

abbrev taken_state : Scheduler
taken_state = record queued_state {
  shared = record { queue = []; running = ("a", tt) ∷ []; semaphore = 0 };
  phases = waiting "a" ∷ idle ∷ [];
}

taken : Reach empty_state taken_state
unfolding new_scheduler option_engine.Common.Arrays.repeat Scheduler.advance Scheduler.try_start
    option_engine.Common.Dict.get option_engine.Common.Dict.put
taken =
    next (next here (enqueues "a" (omega arith) refl))
      (works (moves [] (idle ∷ []) idle (waiting "a") taken_state.shared refl refl refl))

scheduler_exclusive_example :
    ((id : String) → sum_of (holds id) taken_state.phases ≤ 1)
    × ((id : String)
        → sum_of (holds id) taken_state.phases ≡ bit (has id taken_state.shared.running))
    × (sum_of executes taken_state.phases ≤ 1)
unfolding new_scheduler
scheduler_exclusive_example = scheduler_exclusive (pos 2) (pos 1) taken_state taken

workers_drain_example :
    (IsQuiet taken_state ⊎ ((u : Scheduler) × Work taken_state u))
    × ((u : Scheduler) → Work taken_state u → work_left u < work_left taken_state)
    × ((u : Scheduler) × Works taken_state u × IsQuiet u)
workers_drain_example =
    workers_drain (pos 2) (pos 1) taken_state taken_state taken (refl, (refl, tt)) done
