-- ===== src/Strategy/Legality.antt =====
-- Which decisions the rules of analytics/strategy/rules.go make in which position.
use option_engine.Common.{
  ◌≡◌, refl, inl, inr, Bool, true, false, not, ◌||◌, String, Option, none, some, List, [], arith,
  Bool-cases, if◌then◌else◌, string_eq, All, All-append,
}
use option_engine.Common.Dict.{get, put, get-put_self}
use option_engine.Common.Float.{Float}
use option_engine.Domain.{
  is_zero, Action, long_entry, short_entry, long_exit, short_exit, hold, other, SeriesKey,
  series_key_eq,
}
use option_engine.Strategy.{
  PositionState, is_long, is_short, InputSignal, StoredSignal, SeriesState, Cache, StrategyDecision,
  Config, key_of, state_or_fresh, update, is_hold, position_allows_entry, align_entry_signals,
  eval_pair, eval_breakout, eval_state, evaluate, process,
}

-- Entries turn or open a position, exits close one of their own side.
abbrev pub is_legal : PositionState → Action → Bool
is_legal p long_entry = not (is_long p)
is_legal p short_entry = not (is_short p)
is_legal p long_exit = is_long p
is_legal p short_exit = is_short p
is_legal p hold = true
is_legal p (other s) = false

module _ {F : Type 0} ⦃f : Float F⦄ (min : F → F → F) where
  -- A decision of the series that is legal in its position, and sure enough if it is no hold.
  pub record IsSound (cfg : Config F) (key : SeriesKey) (p : PositionState) (d : StrategyDecision F)
      : Type 0 where
    pub of_symbol : d.symbol ≡ key.symbol
    pub of_timeframe : d.timeframe ≡ key.timeframe
    pub legal : is_legal p d.decision ≡ true
    pub sure : is_hold d.decision || not (f.lt d.confidence cfg.min_confidence) ≡ true

  -- What two signals agree on is sure enough, or a hold; and legal, where it is no entry into the
  -- position that there is.
  aligned_sound :
      (cfg : Config F) (primary confirm : StoredSignal F) (p : PositionState)
      → let a = align_entry_signals min cfg primary confirm p in
        (is_hold a.decision || not (f.lt a.confidence cfg.min_confidence) ≡ true)
        × (not (position_allows_entry a.decision p) || is_legal p a.decision ≡ true)
  unfolding align_entry_signals position_allows_entry
  aligned_sound cfg primary confirm PositionState.flat = (ground arith, ground arith)
  aligned_sound cfg primary confirm PositionState.long = (ground arith, ground arith)
  aligned_sound cfg primary confirm PositionState.short = (ground arith, ground arith)

  eval_pair-IsSound :
      (cfg : Config F) (name : String) (key : SeriesKey) (p : PositionState)
      (primary confirm : Option (StoredSignal F))
      → All (IsSound cfg key p) (eval_pair min cfg name key p primary confirm)
  unfolding eval_pair
  eval_pair-IsSound cfg name key p none confirm = tt
  eval_pair-IsSound cfg name key p (some primary) none = tt
  eval_pair-IsSound cfg name key p (some primary) (some confirm) =
      let a = align_entry_signals min cfg primary confirm p in
      let sound = aligned_sound cfg primary confirm p in
      elim (Bool-cases a.ok) [
        | inr n ↦
            rw n (record { of_symbol = refl; of_timeframe = refl; legal = refl; sure = refl }, tt)
        | inl y ↦ elim (Bool-cases (is_hold a.decision)) [
          | inl h ↦
              rw (y, h)
                (record { of_symbol = refl; of_timeframe = refl; legal = refl; sure = refl }, tt)
          | inr n ↦ elim (Bool-cases (position_allows_entry a.decision p)) [
            | inr m ↦ rw (y, n, m) tt
            | inl m ↦
                rw (y, n, m)
                  (
                    record {
                      of_symbol = refl;
                      of_timeframe = refl;
                      legal = rw m at sound.1;
                      sure = sound.0;
                    },
                    tt,
                  )
          ]
        ]
      ]

  eval_breakout-IsSound :
      (cfg : Config F) (key : SeriesKey) (s : SeriesState F)
      → All (IsSound cfg key s.position) (eval_breakout min key s)
  unfolding eval_breakout
  eval_breakout-IsSound cfg key s = elim (Bool-cases (is_zero s.last_decision_at)) [
    | inl y ↦ rw y tt
    | inr n ↦ rw n (record { of_symbol = refl; of_timeframe = refl; legal = refl; sure = refl }, tt)
  ]

  -- What a disabled strategy decides is nothing.
  enabled-IsSound :
      (cfg : Config F) (key : SeriesKey) (p : PositionState) (on : Bool)
      (ds : List (StrategyDecision F))
      → All (IsSound cfg key p) ds
      → All (IsSound cfg key p) (if on then ds else [])
  enabled-IsSound cfg key p true ds h = h
  enabled-IsSound cfg key p false ds h = tt

  eval_state-IsSound :
      (cfg : Config F) (key : SeriesKey) (s : SeriesState F)
      → All (IsSound cfg key s.position) (eval_state min cfg key s)
  unfolding eval_state
  eval_state-IsSound cfg key s =
      let P = IsSound cfg key s.position in
      All-append P _ _
        (All-append P _ _
          (enabled-IsSound cfg key s.position cfg.trend_following _ (
            eval_pair-IsSound cfg "trend_following" key s.position (get "ema_cross" s.signals)
              (get "macd_cross" s.signals)))
          (enabled-IsSound cfg key s.position cfg.mean_reversion _ (
            eval_pair-IsSound cfg "mean_reversion" key s.position (get "rsi" s.signals)
              (get "bollinger" s.signals))))
        (enabled-IsSound cfg key s.position cfg.breakout _ (eval_breakout-IsSound cfg key s))

  evaluate-IsSound :
      (cfg : Config F) (key : SeriesKey) (s : SeriesState F) (c : Cache F)
      → get key c ≡ some s
      → All (IsSound cfg key s.position) (evaluate min cfg key c)
  unfolding evaluate
  evaluate-IsSound cfg key s c h = rw (evaluate, h) (eval_state-IsSound cfg key s)

  -- Every decision that a signal leads to is for the signal's series and legal in the position that the
  -- series had before the signal: an entry does not repeat the position, an exit closes one of its own
  -- side; and unless it is a hold, its confidence is not below the least one.
  pub process-IsSound :
      (cfg : Config F) (sig : InputSignal F) (c : Cache F)
      → All
          (IsSound cfg (key_of sig) (state_or_fresh (get (key_of sig) c)).position)
          (process min cfg sig c).0
  unfolding process update
  process-IsSound cfg sig c =
      let old = state_or_fresh (get (key_of sig) c) in
      let stored : StoredSignal F = record {
        signal = sig.signal;
        confidence = sig.confidence;
        at = sig.timestamp;
      } in
      let s : SeriesState F = record old { signals = put sig.strategy stored old.signals } in
      evaluate-IsSound cfg (key_of sig) s (update sig c) (get-put_self (key_of sig) s c)
