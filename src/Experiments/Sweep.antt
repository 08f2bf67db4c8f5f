-- ===== src/Experiments/Sweep.antt =====
-- The combinations of internal/experiments/generator.go: a choice for each dimension, and the
-- parameter set that holds it.
use option_engine.Common.{
  suc, ◌≡◌, ◌<◌, refl, sym, ap, ◌∙◌, Bool, true, false, not, ◌&&◌, ◌||◌, String, Option, none, some,
  List, [], ◌∷◌, ◌++◌, map, arith, ltb, lt→ltb, length, ◌==◌, ==_iff, string_eq, keep, All, All-map,
}
use mathlib.Core.List.{flat_map, append-nil, map-map}
use option_engine.Common.FlatMap.{
  flat_map-append, flat_map-congr, flat_map-map, map-flat_map, All-flat_map, All-of_map, map_same,
}
use option_engine.Common.Dict.{get, put, get-put, get-put_self}
use option_engine.Experiments.Matrix.{
  Value, int, float, ParameterSet, ParameterRanges, Dimension, dimensions, is_active, with_each,
  next_combos, combos_loop, combos_of, or_else,
}
use option_engine.Experiments.Size.{length-combos_loop, choices_pos}

module _ {ℓ} {A : Type ℓ} where
  or_else_full : (xs d : List A) → 0 < length xs → or_else xs d ≡ xs
  or_else_full [] d h = absurd (omega (arith, h))
  or_else_full (x ∷ xs) d h = refl

abbrev pub member : String → List String → Bool
member k [] = false
member k (n ∷ ns) = n == k || member k ns

abbrev pub distinct : List String → Bool
distinct [] = true
distinct (n ∷ ns) = not (member n ns) && distinct ns

abbrev pub sweep : List String
sweep =
    "ema_fast" ∷ "ema_slow" ∷ "rsi_period" ∷ "rsi_overbought" ∷ "rsi_oversold" ∷ "macd_fast"
    ∷ "macd_slow" ∷ "macd_signal" ∷ "min_confidence" ∷ "max_positions" ∷ []

-- An empty set holds nothing.
absent : (F : Type 0) (ns : List String) → All (λ k. get {V = Value F} k [] ≡ none) ns
unfolding get
absent F [] = tt
absent F (n ∷ ns) = (refl, absent F ns)

module _ {F : Type 0} where
  -- The values to try, in the order of `sweep`.
  abbrev pub ranges : ParameterRanges F → List (List (Value F))
  ranges r =
      map int r.ema_fast
      ∷ map int r.ema_slow
      ∷ map int r.rsi_period
      ∷ map float r.rsi_overbought
      ∷ map float r.rsi_oversold
      ∷ map int r.macd_fast
      ∷ map int r.macd_slow
      ∷ map int r.macd_signal
      ∷ map float r.min_confidence
      ∷ map int r.max_positions
      ∷ []

  -- Every choice of one value in each list, and of none in an empty list; the last list varies first.
  abbrev pub settings : List (List (Value F)) → List (List (Option (Value F)))
  settings [] = [] ∷ []
  settings ([] ∷ vss) = map (λ o. none ∷ o) (settings vss)
  settings ((v ∷ vs) ∷ vss) = flat_map (λ w. map (λ o. some w ∷ o) (settings vss)) (v ∷ vs)

  -- The values that a set has under some names.
  abbrev pub values_at : List String → ParameterSet F → List (Option (Value F))
  values_at [] p = []
  values_at (n ∷ ns) p = get n p ∷ values_at ns p

  abbrev names : List (Dimension F) → List String
  names [] = []
  names ((n, vs) ∷ ds) = n ∷ names ds

  abbrev lists : List (Dimension F) → List (List (Value F))
  lists [] = []
  lists ((n, vs) ∷ ds) = vs ∷ lists ds

  -- A choice written into a set.
  abbrev fill : List String → ParameterSet F → List (Option (Value F)) → ParameterSet F
  fill [] base os = base
  fill (n ∷ ns) base [] = base
  fill (n ∷ ns) base (none ∷ os) = fill ns base os
  fill (n ∷ ns) base (some v ∷ os) = fill ns (put n v base) os

  abbrev filled : List (Dimension F) → ParameterSet F → List (ParameterSet F)
  filled ds base = map (fill (names ds) base) (settings (lists ds))

  with_each-map :
      (n : String) (vs : List (Value F)) (base : ParameterSet F)
      → with_each n vs base ≡ map (λ v. put n v base) vs
  unfolding with_each
  with_each-map n [] base = refl
  with_each-map n (v ∷ vs) base = ap (◌∷◌ (put n v base)) (with_each-map n vs base)

  -- A dimension that is swept, before the others.
  filled-cons :
      (n : String) (v : Value F) (vs : List (Value F)) (ds : List (Dimension F))
      (base : ParameterSet F)
      → flat_map (filled ds) (with_each n (v ∷ vs) base) ≡ filled ((n, v ∷ vs) ∷ ds) base
  filled-cons n v vs ds base =
      ap (flat_map (filled ds)) (with_each-map n (v ∷ vs) base)
      ∙ flat_map-map (filled ds) (λ w. put n w base) (v ∷ vs)
      ∙ flat_map-congr _ _ (v ∷ vs)
          (λ w. sym (map-map (fill (n ∷ names ds) base) (λ o. some w ∷ o) (settings (lists ds))))
      ∙ sym (
          map-flat_map (fill (n ∷ names ds) base) (λ w. map (λ o. some w ∷ o) (settings (lists ds)))
            (v ∷ vs))

  next_combos-filled :
      (n : String) (v : Value F) (vs : List (Value F)) (ds : List (Dimension F))
      (bases : List (ParameterSet F))
      → flat_map (filled ds) (next_combos (n, v ∷ vs) bases)
        ≡ flat_map (filled ((n, v ∷ vs) ∷ ds)) bases
  unfolding next_combos flat_map
  next_combos-filled n v vs ds [] = refl
  next_combos-filled n v vs ds (b ∷ bs) =
      flat_map-append (filled ds) (with_each n (v ∷ vs) b) (next_combos (n, v ∷ vs) bs)
      ∙ ap (λ l. l ++ flat_map (filled ds) (next_combos (n, v ∷ vs) bs)) (filled-cons n v vs ds b)
      ∙ ap (λ l. filled ((n, v ∷ vs) ∷ ds) b ++ l) (next_combos-filled n v vs ds bs)

  flat_map_single : (xs : List (ParameterSet F)) → xs ≡ flat_map (filled []) xs
  unfolding flat_map
  flat_map_single [] = refl
  flat_map_single (x ∷ xs) = ap (◌∷◌ x) (flat_map_single xs)

  combos_loop-filled :
      (ds : List (Dimension F)) (combos : List (ParameterSet F))
      → combos_loop (keep is_active ds) combos ≡ flat_map (filled ds) combos
  unfolding combos_loop keep
  combos_loop-filled [] combos = flat_map_single combos
  combos_loop-filled ((n, []) ∷ ds) combos =
      combos_loop-filled ds combos
      ∙ flat_map-congr _ _ combos
          (λ b. sym (map-map (fill (n ∷ names ds) b) (λ o. none ∷ o) (settings (lists ds))))
  combos_loop-filled ((n, v ∷ vs) ∷ ds) combos =
      let active : ltb 0 (length (v ∷ vs)) ≡ true = lt→ltb 0 (length (v ∷ vs)) (omega arith) in
      rw active (
        combos_loop-filled ds (next_combos (n, v ∷ vs) combos)
        ∙ next_combos-filled n v vs ds combos)

  -- The sets are the choices, each written into an empty set.
  combos_of-fill : (r : ParameterRanges F) → combos_of r ≡ map (fill sweep []) (settings (ranges r))
  unfolding combos_of flat_map dimensions
  combos_of-fill r =
      let ds = dimensions r in
      let all : combos_loop (keep is_active ds) ([] ∷ []) ≡ filled ds [] ++ [] =
        combos_loop-filled ds ([] ∷ []) in
      or_else_full _ _ (omega (arith, length-combos_loop ds ([] ∷ []), choices_pos ds))
      ∙ all
      ∙ append-nil (filled ds [])

  -- A choice has a place for each list.
  settings-sized : (vss : List (List (Value F))) → All (λ o. length o ≡ length vss) (settings vss)
  settings-sized [] = (refl, tt)
  settings-sized ([] ∷ vss) =
      All-of_map (λ o. length o ≡ suc (length vss)) (λ o. none ∷ o) (settings vss)
        (All-map (λ o. length o ≡ length vss) (λ o. suc (length o) ≡ suc (length vss))
          (settings vss) (λ o e. ap suc e) (settings-sized vss))
  settings-sized ((v ∷ vs) ∷ vss) =
      All-flat_map (λ o. length o ≡ suc (length vss)) (λ w. map (λ o. some w ∷ o) (settings vss))
        (v ∷ vs)
        (λ w.
          All-of_map (λ o. length o ≡ suc (length vss)) (λ o. some w ∷ o) (settings vss)
            (All-map (λ o. length o ≡ length vss) (λ o. suc (length o) ≡ suc (length vss))
              (settings vss) (λ o e. ap suc e) (settings-sized vss)))

  get-fill_other :
      (k : String) (ns : List String) (base : ParameterSet F) (os : List (Option (Value F)))
      → member k ns ≡ false
      → get k (fill ns base os) ≡ get k base
  get-fill_other k [] base os h = refl
  get-fill_other k (n ∷ ns) base [] h = refl
  get-fill_other k (n ∷ ns) base (none ∷ os) h = get-fill_other k ns base os (ground (arith, h))
  get-fill_other k (n ∷ ns) base (some v ∷ os) h =
      let other : (n == k) ≡ false = ground (arith, h) in
      get-fill_other k ns (put n v base) os (ground (arith, h)) ∙ get-put n k v base ∙ rw other refl

  put-absent :
      (n : String) (v : Value F) (ns : List String) (base : ParameterSet F)
      → member n ns ≡ false
      → All (λ k. get k base ≡ none) ns
      → All (λ k. get k (put n v base) ≡ none) ns
  put-absent n v [] base m h = tt
  put-absent n v (k ∷ ns) base m h =
      let other : (k == n) ≡ false = ground (arith, m) in
      let other' : (n == k) ≡ false = ground (arith, other, ==_iff k n, ==_iff n k) in
      (get-put n k v base ∙ rw other' h.0, put-absent n v ns base (ground (arith, m)) h.1)

  -- A choice is read back from the set that holds it.
  values_at-fill :
      (ns : List String) (base : ParameterSet F) (os : List (Option (Value F)))
      → distinct ns ≡ true
      → All (λ k. get k base ≡ none) ns
      → length os ≡ length ns
      → values_at ns (fill ns base os) ≡ os
  values_at-fill [] base [] d a n = refl
  values_at-fill [] base (o ∷ os) d a n = absurd (omega (arith, n))
  values_at-fill (k ∷ ns) base [] d a n = absurd (omega (arith, n))
  values_at-fill (k ∷ ns) base (none ∷ os) d a n =
      let fresh : member k ns ≡ false = ground (arith, d) in
      rw (
        get-fill_other k ns base os fresh ∙ a.0,
        values_at-fill ns base os (ground (arith, d)) a.1 (omega (arith, n)),
      )
  values_at-fill (k ∷ ns) base (some v ∷ os) d a n =
      let fresh : member k ns ≡ false = ground (arith, d) in
      rw (
        get-fill_other k ns (put k v base) os fresh ∙ get-put_self k v base,
        values_at-fill ns (put k v base) os (ground (arith, d)) (put-absent k v ns base fresh a.1)
            (omega (arith, n)),
      )

  -- So the sets have, under the swept names, exactly the choices.
  pub combos_of-settings :
      (r : ParameterRanges F) → map (values_at sweep) (combos_of r) ≡ settings (ranges r)
  combos_of-settings r =
      ap (map (values_at sweep)) (combos_of-fill r)
      ∙ map-map (values_at sweep) (fill sweep []) (settings (ranges r))
      ∙ map_same (λ o. values_at sweep (fill sweep [] o)) (settings (ranges r))
          (All-map (λ o. length o ≡ length sweep) (λ o. values_at sweep (fill sweep [] o) ≡ o)
            (settings (ranges r)) (λ o e. values_at-fill sweep [] o refl (absent F sweep) e)
            (settings-sized (ranges r)))
