-- ===== src/Strategy.antt =====
-- The strategy rules: internal/analytics/strategy/{cache,rules,config,events}.go. Random identifiers
-- are left out. `min` is `math.Min`, and `half` the default of the least confidence, 0.5.
pub mod Legality
pub mod Settings
pub mod Samples
use option_engine.Common.{
  ℕ, Bool, true, false, not, ◌&&◌, ◌||◌, String, Option, none, some, List, [], ◌∷◌, ◌++◌, ltb,
  if◌then◌else◌, ◌==◌, string_eq,
}
use option_engine.Common.Int.{ℤ, pos, leb_ℤ}
use option_engine.Common.Dict.{Dict, get, put}
use option_engine.Common.Float.{Float, le}
use option_engine.Domain.{
  Instant, is_zero, Action, long_entry, short_entry, long_exit, short_exit, hold, SeriesKey,
  series_key_eq,
}

pub data PositionState : Type 0 where
  flat long short : PositionState

abbrev pub is_flat : PositionState → Bool
is_flat flat = true
is_flat _ = false

abbrev pub is_long : PositionState → Bool
is_long long = true
is_long _ = false

abbrev pub is_short : PositionState → Bool
is_short short = true
is_short _ = false

pub record InputSignal (F : Type 0) : Type 0 where
  pub symbol : String
  pub timeframe : String
  pub signal : String
  pub strategy : String
  pub confidence : F
  pub timestamp : Instant

pub record StoredSignal (F : Type 0) : Type 0 where
  pub signal : String
  pub confidence : F
  pub at : Instant

-- The last decision is the empty string at first, which is `none`.
pub record SeriesState (F : Type 0) : Type 0 where
  pub position : PositionState
  pub last_decision : Option Action
  pub last_decision_at : Instant
  pub signals : Dict String (StoredSignal F)

abbrev pub Cache : Type 0 → Type 0
Cache F = Dict SeriesKey (SeriesState F)

pub record StrategyDecision (F : Type 0) : Type 0 where
  pub symbol : String
  pub timeframe : String
  pub decision : Action
  pub strategy : String
  pub confidence : F
  pub timestamp : Instant
  pub reason : String

pub record Config (F : Type 0) : Type 0 where
  pub enabled : Bool
  pub subscriber_buffer : ℤ
  pub min_confidence : F
  pub trend_following : Bool
  pub mean_reversion : Bool
  pub breakout : Bool

-- What `alignEntrySignals` returns.
pub record Alignment (F : Type 0) : Type 0 where
  pub reason : String
  pub decision : Action
  pub confidence : F
  pub ok : Bool

unfoldable pub signals_conflict : String → String → Bool
signals_conflict a b = (a == "BUY" && b == "SELL") || (a == "SELL" && b == "BUY")

unfoldable pub later_time : Instant → Instant → Instant
later_time a b = if ltb a b then b else a

unfoldable pub position_allows_entry : Action → PositionState → Bool
position_allows_entry long_entry p = is_flat p || is_short p
position_allows_entry short_entry p = is_flat p || is_long p
position_allows_entry _ p = true

-- The position after a decision.
unfoldable pub moved : Action → PositionState → PositionState
moved long_entry p = long
moved short_entry p = short
moved long_exit p = flat
moved short_exit p = flat
moved _ p = p

abbrev pub is_hold : Action → Bool
is_hold hold = true
is_hold _ = false

module _ {F : Type 0} where
  abbrev pub key_of : InputSignal F → SeriesKey
  key_of sig = record { symbol = sig.symbol; timeframe = sig.timeframe }

  abbrev fresh_state : SeriesState F
  fresh_state = record { position = flat; last_decision = none; last_decision_at = 0; signals = [] }

  abbrev pub state_or_fresh : Option (SeriesState F) → SeriesState F
  state_or_fresh none = fresh_state
  state_or_fresh (some s) = s

  -- `update`
  unfoldable pub update : InputSignal F → Cache F → Cache F
  update sig c =
      let s = state_or_fresh (get (key_of sig) c) in
      let stored : StoredSignal F = record {
        signal = sig.signal;
        confidence = sig.confidence;
        at = sig.timestamp;
      } in
      put (key_of sig) (record s { signals = put sig.strategy stored s.signals }) c

  -- `recordDecision`
  unfoldable pub record_decision : SeriesKey → Action → Instant → Cache F → Cache F
  record_decision key d at c = elim (get key c) [
    | none ↦ c
    | some s ↦
        put key
          (record s {
            last_decision = some d;
            last_decision_at = at;
            position = moved d s.position;
          })
          c
  ]

  abbrev pub decide : String → SeriesKey → Instant → Action → F → String → StrategyDecision F
  decide strategy key at d confidence reason = record {
    symbol = key.symbol;
    timeframe = key.timeframe;
    decision = d;
    strategy = strategy;
    confidence = confidence;
    timestamp = at;
    reason = reason;
  }

module _ {F : Type 0} ⦃f : Float F⦄ where
  -- `WithDefaults`
  unfoldable pub with_defaults : F → Config F → Config F
  with_defaults half c = record c {
    subscriber_buffer = if leb_ℤ c.subscriber_buffer (pos 0) then pos 256 else c.subscriber_buffer;
    min_confidence =
        if le f.lt f.eq c.min_confidence (f.of_int (pos 0)) then half else c.min_confidence;
  }

module _ {F : Type 0} ⦃f : Float F⦄ (min : F → F → F) where
  abbrev aligned : String → Action → F → Alignment F
  aligned reason d confidence = record {
    reason = reason;
    decision = d;
    confidence = confidence;
    ok = true;
  }

  unfoldable pub align_entry_signals :
      Config F → StoredSignal F → StoredSignal F → PositionState → Alignment F
  align_entry_signals cfg primary confirm position =
      let confidence = min primary.confidence confirm.confidence in
      if f.lt confidence cfg.min_confidence
      then aligned "insufficient confidence" hold confidence
      else if primary.signal == "BUY" && confirm.signal == "BUY"
      then aligned "bullish alignment" long_entry confidence
      else if primary.signal == "SELL" && confirm.signal == "SELL"
      then aligned "bearish alignment" short_entry confidence
      else if primary.signal == "EXIT_LONG" && is_long position
      then aligned "exit long signal" long_exit confidence
      else if primary.signal == "EXIT_SHORT" && is_short position
      then aligned "exit short signal" short_exit confidence
      else if signals_conflict primary.signal confirm.signal
      then aligned "conflicting signals" hold confidence
      else record { reason = ""; decision = hold; confidence = confidence; ok = false }

  -- What `evalTrendFollowing` and `evalMeanReversion` do alike, with their two signals.
  unfoldable pub eval_pair :
      Config F
      → String
      → SeriesKey
      → PositionState
      → Option (StoredSignal F)
      → Option (StoredSignal F)
      → List (StrategyDecision F)
  eval_pair cfg name key position none confirm = []
  eval_pair cfg name key position (some primary) none = []
  eval_pair cfg name key position (some primary) (some confirm) =
      let at = later_time primary.at confirm.at in
      let a = align_entry_signals cfg primary confirm position in
      if not a.ok
      then decide name key at hold a.confidence a.reason ∷ []
      else if is_hold a.decision
      then decide name key at hold a.confidence a.reason ∷ []
      else if not (position_allows_entry a.decision position)
      then []
      else decide name key at a.decision a.confidence a.reason ∷ []

  unfoldable pub eval_breakout : SeriesKey → SeriesState F → List (StrategyDecision F)
  eval_breakout key s =
      if is_zero s.last_decision_at
      then []
      else decide "breakout" key s.last_decision_at hold (f.of_int (pos 0))
          "breakout strategy not implemented"
        ∷ []

  unfoldable pub eval_state : Config F → SeriesKey → SeriesState F → List (StrategyDecision F)
  eval_state cfg key s =
      (if cfg.trend_following
        then eval_pair cfg "trend_following" key s.position (get "ema_cross" s.signals)
            (get "macd_cross" s.signals)
        else [])
      ++ (if cfg.mean_reversion
          then eval_pair cfg "mean_reversion" key s.position (get "rsi" s.signals)
              (get "bollinger" s.signals)
          else [])
      ++ (if cfg.breakout then eval_breakout key s else [])

  -- `Evaluate`
  unfoldable pub evaluate : Config F → SeriesKey → Cache F → List (StrategyDecision F)
  evaluate cfg key c = elim (get key c) [ none ↦ [] | some s ↦ eval_state cfg key s ]

  unfoldable pub record_all : SeriesKey → List (StrategyDecision F) → Cache F → Cache F
  record_all key [] c = c
  record_all key (d ∷ ds) c = record_all key ds (record_decision key d.decision d.timestamp c)

  -- `Process`, of an evaluator with its defaults.
  unfoldable pub process : Config F → InputSignal F → Cache F → List (StrategyDecision F) × Cache F
  process cfg sig c =
      let c' = update sig c in
      let decisions = evaluate cfg (key_of sig) c' in
      (decisions, record_all (key_of sig) decisions c')
