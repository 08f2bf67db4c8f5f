-- ===== src/Experiments/Size.antt =====
-- How many runs `GenerateMatrix` of experiments/generator.go makes.
use option_engine.Common.{
  ℕ, suc, ◌+◌, ◌*◌, ◌≡◌, ◌≤◌, ◌<◌, refl, ap, ◌∙◌, String, inl, inr, List, [], ◌∷◌, arith, ltb,
  Bool-cases, if◌then◌else◌, length, length-append, keep,
}
use native.Mathlib.Nat.{mul_assoc, mul-le-mul}
use option_engine.Experiments.Matrix.{
  Value, ParameterSet, ParameterRanges, Config, Dimension, with_defaults, dimensions, is_active,
  with_each, next_combos, combos_loop, combos_of, or_else, runs_of, timeframe_loop, symbol_loop,
  generate_matrix,
}

length-or_else {ℓ} :
    {A : Type ℓ} (xs d : List A) → 0 < length xs → length (or_else xs d) ≡ length xs
length-or_else [] d h = absurd (omega arith)
length-or_else (x ∷ xs) d h = refl

module _ {F : Type 0} where
  -- The choices of a dimension: one, if it is not swept.
  abbrev pub options : Dimension F → ℕ
  options (name, values) = if ltb 0 (length values) then length values else 1

  abbrev pub choices : List (Dimension F) → ℕ
  choices [] = 1
  choices (d ∷ ds) = options d * choices ds

  length-with_each :
      (name : String) (vs : List (Value F)) (base : ParameterSet F)
      → length (with_each name vs base) ≡ length vs
  unfolding with_each
  length-with_each name [] base = refl
  length-with_each name (v ∷ vs) base = ap suc (length-with_each name vs base)

  length-next_combos :
      (name : String) (vs : List (Value F)) (bases : List (ParameterSet F))
      → length (next_combos (name, vs) bases) ≡ length bases * length vs
  unfolding next_combos
  length-next_combos name vs [] = omega arith
  length-next_combos name vs (b ∷ bs) = omega (
    arith,
    length-append (with_each name vs b) (next_combos (name, vs) bs),
    length-with_each name vs b,
    length-next_combos name vs bs,
  )

  pub length-combos_loop :
      (ds : List (Dimension F)) (combos : List (ParameterSet F))
      → length (combos_loop (keep is_active ds) combos) ≡ length combos * choices ds
  unfolding combos_loop keep
  length-combos_loop [] combos = omega arith
  length-combos_loop ((name, vs) ∷ ds) combos = elim (Bool-cases (ltb 0 (length vs))) [
    | inl y ↦ rw y (
        length-combos_loop ds (next_combos (name, vs) combos)
        ∙ ap (λ n. n * choices ds) (length-next_combos name vs combos)
        ∙ mul_assoc (length combos) (length vs) (choices ds))
    | inr n ↦ rw n (length-combos_loop ds combos ∙ ap (λ n. length combos * n) (omega arith))
  ]

  pub choices_pos : (ds : List (Dimension F)) → 0 < choices ds
  choices_pos [] = omega arith
  choices_pos ((name, vs) ∷ ds) =
      let o : 1 ≤ options (name, vs) = ground arith in omega (arith, mul-le-mul o (choices_pos ds))

  length-combos_of : (r : ParameterRanges F) → length (combos_of r) ≡ choices (dimensions r)
  unfolding combos_of
  length-combos_of r =
      let n = length-combos_loop (dimensions r) ([] ∷ []) in
      length-or_else (combos_loop (keep is_active (dimensions r)) ([] ∷ [])) ([] ∷ [])
        (omega (arith, n, choices_pos (dimensions r)))
      ∙ n
      ∙ omega arith

  module _ (fresh : ℕ → String) (experiment_id strategy : String) where
    length-runs_of :
        (n : ℕ) (symbol timeframe : String) (ps : List (ParameterSet F))
        → length (runs_of fresh experiment_id strategy n symbol timeframe ps) ≡ length ps
    unfolding runs_of
    length-runs_of n symbol timeframe [] = refl
    length-runs_of n symbol timeframe (p ∷ ps) = ap suc (length-runs_of (n + 1) symbol timeframe ps)

    length-timeframe_loop :
        (n : ℕ) (symbol : String) (ts : List String) (combos : List (ParameterSet F))
        → length (timeframe_loop fresh experiment_id strategy n symbol ts combos)
          ≡ length ts * length combos
    unfolding timeframe_loop
    length-timeframe_loop n symbol [] combos = omega arith
    length-timeframe_loop n symbol (t ∷ ts) combos = omega (
      arith,
      length-append (runs_of fresh experiment_id strategy n symbol t combos)
          (timeframe_loop fresh experiment_id strategy (n + length combos) symbol ts combos),
      length-runs_of n symbol t combos,
      length-timeframe_loop (n + length combos) symbol ts combos,
    )

    length-symbol_loop :
        (n : ℕ) (ss ts : List String) (combos : List (ParameterSet F))
        → length (symbol_loop fresh experiment_id strategy n ss ts combos)
          ≡ length ss * (length ts * length combos)
    unfolding symbol_loop
    length-symbol_loop n [] ts combos = omega arith
    length-symbol_loop n (s ∷ ss) ts combos = omega (
      arith,
      length-append (timeframe_loop fresh experiment_id strategy n s ts combos)
          (symbol_loop fresh experiment_id strategy (n + length ts * length combos) ss ts combos),
      length-timeframe_loop n s ts combos,
      length-symbol_loop (n + length ts * length combos) ss ts combos,
    )

  -- The matrix has one run for each symbol, timeframe and choice of a value in every swept dimension,
  -- where a dimension without values counts once and an empty list of symbols or timeframes stands for
  -- the default one.
  pub matrix-size :
      (fresh : ℕ → String) (config : Config F) (experiment_id : String)
      → length (generate_matrix fresh config experiment_id)
        ≡ length (or_else config.symbols ("NIFTY" ∷ []))
          * (length (or_else config.timeframes ("5m" ∷ []))
              * choices (dimensions config.parameter_ranges))
  unfolding generate_matrix with_defaults
  matrix-size fresh config experiment_id =
      let cfg = with_defaults config in
      length-symbol_loop fresh experiment_id cfg.strategy 0 cfg.symbols cfg.timeframes
        (combos_of cfg.parameter_ranges)
      ∙ ap (λ n. length cfg.symbols * (length cfg.timeframes * n))
          (length-combos_of cfg.parameter_ranges)
