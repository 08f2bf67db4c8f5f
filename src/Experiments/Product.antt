-- ===== src/Experiments/Product.antt =====
-- The matrix of internal/experiments/generator.go is the product of what was configured.
use option_engine.Common.{
  ℕ, suc, ◌+◌, ◌*◌, ◌≡◌, refl, sym, ap, ◌∙◌, String, Option, some, List, [], ◌∷◌, ◌++◌, map, arith,
  length, length-append, if◌then◌else◌, ◌==◌, string_eq,
}
use mathlib.Core.List.{flat_map, map-append, map-map}
use option_engine.Common.FlatMap.{flat_map-congr}
use option_engine.Common.Dict.{get-put}
use option_engine.Experiments.Matrix.{
  Value, text, ParameterSet, Config, RunStatus, created, ExperimentRun, dimensions, or_else,
  with_defaults, combos_of, make_run, runs_of, timeframe_loop, symbol_loop, generate_matrix,
}
use option_engine.Experiments.Size.{choices, matrix-size}
use option_engine.Experiments.Sweep.{sweep, ranges, settings, values_at, combos_of-settings}

length-map : {A B : Type 0} (f : A → B) (xs : List A) → length (map f xs) ≡ length xs
length-map f [] = refl
length-map f (x ∷ xs) = ap suc (length-map f xs)

-- What a run is: its fields, and its parameters under the names that tell of the run and under those
-- that are swept.
pub record View (F : Type 0) : Type 0 where
  pub experiment_id : String
  pub run_id : String
  pub backtest_id : String
  pub strategy : String
  pub symbol : String
  pub timeframe : String
  pub status : RunStatus
  pub marks : List (Option (Value F))
  pub choice : List (Option (Value F))

abbrev pub mark_names : List String
mark_names = "run_id" ∷ "experiment_id" ∷ "symbol" ∷ "timeframe" ∷ []

-- A symbol, a timeframe and a choice of parameters.
abbrev pub Cell : Type 0 → Type 0
Cell F = String × String × List (Option (Value F))

module _ {F : Type 0} where
  abbrev pub view : ExperimentRun F → View F
  view r = record {
    experiment_id = r.experiment_id;
    run_id = r.run_id;
    backtest_id = r.backtest_id;
    strategy = r.strategy;
    symbol = r.symbol;
    timeframe = r.timeframe;
    status = r.status;
    marks = values_at mark_names r.parameters;
    choice = values_at sweep r.parameters;
  }

  -- Each symbol with each timeframe with each choice.
  abbrev pub product : List String → List String → List (List (Option (Value F))) → List (Cell F)
  product ss ts os = flat_map (λ s. flat_map (λ t. map (λ o. (s, t, o)) os) ts) ss

  module _ (fresh : ℕ → String) (experiment_id strategy : String) where
    abbrev pub expected : ℕ → Cell F → View F
    expected n (s, t, o) = record {
      experiment_id = experiment_id;
      run_id = fresh n;
      backtest_id = experiment_id;
      strategy = strategy;
      symbol = s;
      timeframe = t;
      status = created;
      marks =
          some (text (fresh n)) ∷ some (text experiment_id) ∷ some (text s) ∷ some (text t) ∷ [];
      choice = o;
    }

    -- The runs of some cells, numbered from `n` on.
    abbrev pub numbered : ℕ → List (Cell F) → List (View F)
    numbered n [] = []
    numbered n (c ∷ cs) = expected n c ∷ numbered (n + 1) cs

    numbered-append :
        (n : ℕ) (cs ds : List (Cell F))
        → numbered n (cs ++ ds) ≡ numbered n cs ++ numbered (n + length cs) ds
    numbered-append n [] ds = let e : n + 0 ≡ n = omega arith in rw e
    numbered-append n (c ∷ cs) ds =
        let e : n + length (c ∷ cs) ≡ n + 1 + length cs = omega arith in
        rw e (ap (◌∷◌ (expected n c)) (numbered-append (n + 1) cs ds))

    abbrev cell : String → String → ParameterSet F → Cell F
    cell s t p = (s, t, values_at sweep p)

    view-make_run :
        (n : ℕ) (s t : String) (p : ParameterSet F)
        → view (make_run fresh experiment_id strategy n s t p) ≡ expected n (cell s t p)
    unfolding make_run
    view-make_run n s t p = simp get-put

    view-runs_of :
        (n : ℕ) (s t : String) (ps : List (ParameterSet F))
        → map view (runs_of fresh experiment_id strategy n s t ps) ≡ numbered n (map (cell s t) ps)
    unfolding runs_of
    view-runs_of n s t [] = refl
    view-runs_of n s t (p ∷ ps) = rw (view-make_run n s t p, view-runs_of (n + 1) s t ps)

    abbrev cells : String → List String → List (ParameterSet F) → List (Cell F)
    cells s ts ps = flat_map (λ t. map (cell s t) ps) ts

    length-cells :
        (s : String) (ts : List String) (ps : List (ParameterSet F))
        → length (cells s ts ps) ≡ length ts * length ps
    unfolding flat_map
    length-cells s [] ps = omega arith
    length-cells s (t ∷ ts) ps = omega (
      arith,
      length-append (map (cell s t) ps) (cells s ts ps),
      length-map (cell s t) ps,
      length-cells s ts ps,
    )

    view-timeframe_loop :
        (n : ℕ) (s : String) (ts : List String) (ps : List (ParameterSet F))
        → map view (timeframe_loop fresh experiment_id strategy n s ts ps)
          ≡ numbered n (cells s ts ps)
    unfolding timeframe_loop flat_map
    view-timeframe_loop n s [] ps = refl
    view-timeframe_loop n s (t ∷ ts) ps =
        let here = map (cell s t) ps in
        let later = timeframe_loop fresh experiment_id strategy (n + length ps) s ts ps in
        map-append view (runs_of fresh experiment_id strategy n s t ps) later
        ∙ ap (λ l. l ++ map view later) (view-runs_of n s t ps)
        ∙ ap (λ l. numbered n here ++ l)
            (view-timeframe_loop (n + length ps) s ts ps
              ∙ ap (λ k. numbered (n + k) (cells s ts ps)) (sym (length-map (cell s t) ps)))
        ∙ sym (numbered-append n here (cells s ts ps))

    view-symbol_loop :
        (n : ℕ) (ss ts : List String) (ps : List (ParameterSet F))
        → map view (symbol_loop fresh experiment_id strategy n ss ts ps)
          ≡ numbered n (flat_map (λ s. cells s ts ps) ss)
    unfolding symbol_loop flat_map
    view-symbol_loop n [] ts ps = refl
    view-symbol_loop n (s ∷ ss) ts ps =
        let here = cells s ts ps in
        let rest = flat_map (λ s. cells s ts ps) ss in
        let later = symbol_loop fresh experiment_id strategy (n + length ts * length ps) ss ts ps in
        map-append view (timeframe_loop fresh experiment_id strategy n s ts ps) later
        ∙ ap (λ l. l ++ map view later) (view-timeframe_loop n s ts ps)
        ∙ ap (λ l. numbered n here ++ l)
            (view-symbol_loop (n + length ts * length ps) ss ts ps
              ∙ ap (λ k. numbered (n + k) rest) (sym (length-cells s ts ps)))
        ∙ sym (numbered-append n here rest)

    -- The cells hold the choices that the sets hold.
    cells-product :
        (ss ts : List String) (ps : List (ParameterSet F))
        → flat_map (λ s. cells s ts ps) ss ≡ product ss ts (map (values_at sweep) ps)
    cells-product ss ts ps =
        flat_map-congr _ _ ss
          (λ s. flat_map-congr _ _ ts (λ t. sym (map-map (λ o. (s, t, o)) (values_at sweep) ps)))

  -- The runs of the matrix are, in order, those of each symbol with each timeframe with each choice
  -- of a value for every swept parameter, a parameter without values being left unset, and an empty
  -- list of symbols or timeframes standing for the default one. The i-th run has the i-th new
  -- identifier, the experiment's identifier, also as its backtest's, the strategy, its symbol and
  -- its timeframe, and is created; its parameters hold the two identifiers, the symbol and the
  -- timeframe, and the chosen value under the name of each swept parameter. So there are as many
  -- runs as the numbers of symbols, of timeframes and of values to choose from, multiplied.
  pub matrix-product :
      (fresh : ℕ → String) (config : Config F) (experiment_id : String)
      → let symbols = or_else config.symbols ("NIFTY" ∷ []) in
        let timeframes = or_else config.timeframes ("5m" ∷ []) in
        let strategy = if config.strategy == "" then "trend_following" else config.strategy in
        let runs = generate_matrix fresh config experiment_id in
        (map view runs
          ≡ numbered fresh experiment_id strategy 0
              (product symbols timeframes (settings (ranges config.parameter_ranges))))
        × (length runs
            ≡ length symbols * (length timeframes * choices (dimensions config.parameter_ranges)))
  unfolding generate_matrix with_defaults
  matrix-product fresh config experiment_id =
      let cfg = with_defaults config in
      let combos = combos_of cfg.parameter_ranges in
      (
        view-symbol_loop fresh experiment_id cfg.strategy 0 cfg.symbols cfg.timeframes combos
            ∙ ap (numbered fresh experiment_id cfg.strategy 0) (
                cells-product fresh experiment_id cfg.strategy cfg.symbols cfg.timeframes combos
                ∙ ap (product cfg.symbols cfg.timeframes)
                    (combos_of-settings cfg.parameter_ranges)),
        matrix-size fresh config experiment_id,
      )
