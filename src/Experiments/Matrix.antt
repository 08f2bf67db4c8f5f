-- ===== src/Experiments/Matrix.antt =====
-- internal/experiments/{config,generator}.go: the runs of a sweep. A parameter value is an `any`, here
-- a whole number, a float or a string; `fresh` is the n-th new identifier.
use option_engine.Common.{
  ℕ, ◌+◌, ◌*◌, Bool, String, List, [], ◌∷◌, ◌++◌, map, ltb, if◌then◌else◌, length, ◌==◌, string_eq,
  keep,
}
use option_engine.Common.Int.{ℤ, pos, leb_ℤ}
use option_engine.Common.Dict.{Dict, put}

pub data Value (F : Type 0) : Type 0 where
  int : ℤ → Value F
  float : F → Value F
  text : String → Value F

abbrev pub ParameterSet : Type 0 → Type 0
ParameterSet F = Dict String (Value F)

pub record ParameterRanges (F : Type 0) : Type 0 where
  pub ema_fast : List ℤ
  pub ema_slow : List ℤ
  pub rsi_period : List ℤ
  pub rsi_overbought : List F
  pub rsi_oversold : List F
  pub macd_fast : List ℤ
  pub macd_slow : List ℤ
  pub macd_signal : List ℤ
  pub min_confidence : List F
  pub max_positions : List ℤ

pub record Config (F : Type 0) : Type 0 where
  pub enabled : Bool
  pub parallel_workers : ℤ
  pub max_concurrent_runs : ℤ
  pub subscriber_buffer : ℤ
  pub symbols : List String
  pub timeframes : List String
  pub parameter_ranges : ParameterRanges F
  pub strategy : String

pub data RunStatus : Type 0 where
  created queued running completed failed : RunStatus

pub record ExperimentRun (F : Type 0) : Type 0 where
  pub experiment_id : String
  pub run_id : String
  pub backtest_id : String
  pub strategy : String
  pub symbol : String
  pub timeframe : String
  pub parameters : ParameterSet F
  pub status : RunStatus

abbrev pub Dimension : Type 0 → Type 0
Dimension F = String × List (Value F)

abbrev pub or_else {ℓ} : {A : Type ℓ} → List A → List A → List A
or_else [] d = d
or_else (x ∷ xs) d = x ∷ xs

module _ {F : Type 0} where
  -- `WithDefaults`
  unfoldable pub with_defaults : Config F → Config F
  with_defaults c =
      let workers = if leb_ℤ c.parallel_workers (pos 0) then pos 4 else c.parallel_workers in
      record c {
        parallel_workers = workers;
        max_concurrent_runs =
            if leb_ℤ c.max_concurrent_runs (pos 0) then workers else c.max_concurrent_runs;
        subscriber_buffer =
            if leb_ℤ c.subscriber_buffer (pos 0) then pos 256 else c.subscriber_buffer;
        symbols = or_else c.symbols ("NIFTY" ∷ []);
        timeframes = or_else c.timeframes ("5m" ∷ []);
        strategy = if c.strategy == "" then "trend_following" else c.strategy;
      }

  -- The dimensions of a sweep, in the order of the code.
  unfoldable pub dimensions : ParameterRanges F → List (Dimension F)
  dimensions r =
      ("ema_fast", map int r.ema_fast)
      ∷ ("ema_slow", map int r.ema_slow)
      ∷ ("rsi_period", map int r.rsi_period)
      ∷ ("rsi_overbought", map float r.rsi_overbought)
      ∷ ("rsi_oversold", map float r.rsi_oversold)
      ∷ ("macd_fast", map int r.macd_fast)
      ∷ ("macd_slow", map int r.macd_slow)
      ∷ ("macd_signal", map int r.macd_signal)
      ∷ ("min_confidence", map float r.min_confidence)
      ∷ ("max_positions", map int r.max_positions)
      ∷ []

  abbrev pub is_active : Dimension F → Bool
  is_active (name, values) = ltb 0 (length values)

  -- One base set with each value of a dimension.
  unfoldable pub with_each : String → List (Value F) → ParameterSet F → List (ParameterSet F)
  with_each name [] base = []
  with_each name (v ∷ vs) base = put name v base ∷ with_each name vs base

  unfoldable pub next_combos : Dimension F → List (ParameterSet F) → List (ParameterSet F)
  next_combos (name, values) [] = []
  next_combos (name, values) (base ∷ bases) =
      with_each name values base ++ next_combos (name, values) bases

  unfoldable pub combos_loop : List (Dimension F) → List (ParameterSet F) → List (ParameterSet F)
  combos_loop [] combos = combos
  combos_loop (d ∷ ds) combos = combos_loop ds (next_combos d combos)

  unfoldable pub combos_of : ParameterRanges F → List (ParameterSet F)
  combos_of r = or_else (combos_loop (keep is_active (dimensions r)) ([] ∷ [])) ([] ∷ [])

  module _ (fresh : ℕ → String) (experiment_id strategy : String) where
    unfoldable pub make_run : ℕ → String → String → ParameterSet F → ExperimentRun F
    make_run n symbol timeframe params =
        let enriched = put "timeframe" (text timeframe) (
          put "symbol" (text symbol)
            (put "experiment_id" (text experiment_id) (put "run_id" (text (fresh n)) params))) in
        record {
          experiment_id = experiment_id;
          run_id = fresh n;
          backtest_id = experiment_id;
          strategy = strategy;
          symbol = symbol;
          timeframe = timeframe;
          parameters = enriched;
          status = created;
        }

    -- The three loops; `n` identifiers have been taken.
    unfoldable pub runs_of : ℕ → String → String → List (ParameterSet F) → List (ExperimentRun F)
    runs_of n symbol timeframe [] = []
    runs_of n symbol timeframe (p ∷ ps) =
        make_run n symbol timeframe p ∷ runs_of (n + 1) symbol timeframe ps

    unfoldable pub timeframe_loop :
        ℕ → String → List String → List (ParameterSet F) → List (ExperimentRun F)
    timeframe_loop n symbol [] combos = []
    timeframe_loop n symbol (t ∷ ts) combos =
        runs_of n symbol t combos ++ timeframe_loop (n + length combos) symbol ts combos

    unfoldable pub symbol_loop :
        ℕ → List String → List String → List (ParameterSet F) → List (ExperimentRun F)
    symbol_loop n [] timeframes combos = []
    symbol_loop n (s ∷ ss) timeframes combos =
        timeframe_loop n s timeframes combos
        ++ symbol_loop (n + length timeframes * length combos) ss timeframes combos

  -- `GenerateMatrix`
  unfoldable pub generate_matrix : (ℕ → String) → Config F → String → List (ExperimentRun F)
  generate_matrix fresh config experiment_id =
      let cfg = with_defaults config in
      symbol_loop fresh experiment_id cfg.strategy 0 cfg.symbols cfg.timeframes
        (combos_of cfg.parameter_ranges)
