-- ===== src/Risk.antt =====
-- The risk engine: internal/analytics/risk/{cache,config,events,rules}.go.
-- An intent's random identifier is left out. Counters are ℕ: `tradesToday` stays within its limit.
pub mod Moves
pub mod Limits
pub mod Days
pub mod Samples
use option_engine.Common.{
  ℕ, ◌+◌, Bool, true, false, ◌&&◌, ◌||◌, String, Option, none, some, List, [], ◌∷◌, leb, ltb, ◌==◌,
  string_eq, if◌then◌else◌,
}
use option_engine.Common.Int.{ℤ, pos, leb_ℤ, ltb_ℤ}
use option_engine.Common.Dict.{Dict, get, put, count_where}
use option_engine.Common.Float.{Float, le}
use option_engine.Domain.{
  Instant, is_zero, Action, long_entry, short_entry, long_exit, short_exit, hold, other, SeriesKey,
  series_key_eq,
}

pub data PositionState : Type 0 where
  flat long short : PositionState

pub data Status : Type 0 where
  approved rejected : Status

abbrev pub is_approved : Status → Bool
is_approved approved = true
is_approved rejected = false

pub record Config (F : Type 0) : Type 0 where
  pub enabled : Bool
  pub subscriber_buffer : ℤ
  pub min_confidence : F
  pub max_positions : ℤ
  pub max_trades_per_day : ℤ
  pub default_quantity : ℤ
  pub day_reset_timezone : String

pub record InputDecision (F : Type 0) : Type 0 where
  pub symbol : String
  pub timeframe : String
  pub decision : Action
  pub strategy : String
  pub confidence : F
  pub timestamp : Instant
  pub reason : String

pub record ApprovedTradeIntent (F : Type 0) : Type 0 where
  pub symbol : String
  pub timeframe : String
  pub status : Status
  pub action : Action
  pub quantity : ℤ
  pub strategy : String
  pub confidence : F
  pub reason : String
  pub timestamp : Instant

-- `location` gives the start of an instant's day, which `time.Date(y, m, d, 0, ..., loc)` computes.
pub record Cache : Type 0 where
  pub series : Dict SeriesKey PositionState
  pub trades_today : ℕ
  pub reset_day : Instant
  pub location : Option (Instant → Instant)

unfoldable pub new_cache : (Instant → Instant) → Cache
new_cache loc = record { series = []; trades_today = 0; reset_day = 0; location = some loc }

-- The two defaults that are no whole numbers are given: 0.70 and "Asia/Kolkata".
unfoldable pub with_defaults : {F : Type 0} ⦃n : Float F⦄ → F → Config F → Config F
with_defaults ⦃n⦄ min_default c = record {
  enabled = c.enabled;
  subscriber_buffer = if leb_ℤ c.subscriber_buffer (pos 0) then pos 256 else c.subscriber_buffer;
  min_confidence =
      if le n.lt n.eq c.min_confidence (n.of_int (pos 0)) then min_default else c.min_confidence;
  max_positions = if leb_ℤ c.max_positions (pos 0) then pos 5 else c.max_positions;
  max_trades_per_day = if leb_ℤ c.max_trades_per_day (pos 0) then pos 20 else c.max_trades_per_day;
  default_quantity = if leb_ℤ c.default_quantity (pos 0) then pos 1 else c.default_quantity;
  day_reset_timezone = if c.day_reset_timezone == "" then "Asia/Kolkata" else c.day_reset_timezone;
}

unfoldable pub start_day : Cache → Instant → Cache
start_day c day =
    if is_zero c.reset_day || ltb c.reset_day day
    then record c { reset_day = day; trades_today = 0 }
    else c

unfoldable pub reset_day_if_needed : Cache → Instant → Cache
unfolding start_day
reset_day_if_needed c at = elim c.location [
  | none ↦ c
  | some day_start ↦ start_day c (day_start at)
]

abbrev pub or_flat : Option PositionState → PositionState
or_flat none = flat
or_flat (some p) = p

-- `seriesState` stores a flat state for a series that it has not met.
unfoldable pub series_state : Cache → SeriesKey → PositionState × Cache
series_state c key = elim (get key c.series) [
  | none ↦ (flat, record c { series = put key flat c.series })
  | some state ↦ (state, c)
]

abbrev pub is_open : PositionState → Bool
is_open flat = false
is_open long = true
is_open short = true

abbrev pub active_positions : Cache → ℕ
active_positions c = count_where is_open c.series

-- The state that an action leaves a position in; `hold` and unknown actions leave it alone.
unfoldable pub moved : Action → PositionState → PositionState
moved long_entry p = long
moved short_entry p = short
moved long_exit p = flat
moved short_exit p = flat
moved _ p = p

abbrev pub is_hold : Action → Bool
is_hold hold = true
is_hold _ = false

module _ {F : Type 0} where
  abbrev pub key_of : InputDecision F → SeriesKey
  key_of input = record { symbol = input.symbol; timeframe = input.timeframe }

  unfoldable pub new_trade_intent : Status → ℤ → String → InputDecision F → ApprovedTradeIntent F
  new_trade_intent status quantity reason input = record {
    symbol = input.symbol;
    timeframe = input.timeframe;
    status = status;
    action = input.decision;
    quantity = quantity;
    strategy = input.strategy;
    confidence = input.confidence;
    reason = reason;
    timestamp = input.timestamp;
  }

  unfoldable pub refuse : String → InputDecision F → ApprovedTradeIntent F
  unfolding new_trade_intent
  refuse reason = new_trade_intent rejected (pos 0) reason

  unfoldable pub approve : Config F → InputDecision F → ApprovedTradeIntent F
  unfolding new_trade_intent
  approve cfg input = new_trade_intent approved cfg.default_quantity input.reason input

  unfoldable pub is_full : Config F → Cache → PositionState → Bool
  is_full cfg c flat = leb_ℤ cfg.max_positions (pos (active_positions c))
  is_full cfg c _ = false

  -- The `switch input.Decision`: the position is that of the decision's series.
  unfoldable pub decide :
      Config F → InputDecision F → Cache → Action → PositionState → ApprovedTradeIntent F
  unfolding is_full refuse approve
  decide cfg input c long_entry long = refuse "duplicate long position" input
  decide cfg input c long_entry p =
      if is_full cfg c p then refuse "max positions exceeded" input else approve cfg input
  decide cfg input c short_entry short = refuse "duplicate short position" input
  decide cfg input c short_entry p =
      if is_full cfg c p then refuse "max positions exceeded" input else approve cfg input
  decide cfg input c long_exit long = approve cfg input
  decide cfg input c long_exit p = refuse "no open long position" input
  decide cfg input c short_exit short = approve cfg input
  decide cfg input c short_exit p = refuse "no open short position" input
  decide cfg input c _ p = refuse "unsupported decision" input

  abbrev pub intent_key : ApprovedTradeIntent F → SeriesKey
  intent_key i = record { symbol = i.symbol; timeframe = i.timeframe }

  unfoldable pub apply : Cache → ApprovedTradeIntent F → Cache
  apply c intent = elim intent.status [
    | rejected ↦ c
    | approved ↦
        let (p, c') =
          series_state (record c { trades_today = c.trades_today + 1 }) (intent_key intent) in
        record c' { series = put (intent_key intent) (moved intent.action p) c'.series }
  ]

module _ {F : Type 0} ⦃n : Float F⦄ where
  unfoldable pub evaluate : Config F → InputDecision F → Cache → Cache × ApprovedTradeIntent F
  evaluate cfg input c =
      if is_hold input.decision
      then (c, refuse "non-actionable decision" input)
      else if n.lt input.confidence cfg.min_confidence
      then (c, refuse "confidence below threshold" input)
      else if leb_ℤ cfg.max_trades_per_day (pos c.trades_today)
      then (c, refuse "daily trade limit exceeded" input)
      else let (state, c') = series_state c (key_of input) in
        (c', decide cfg input c' input.decision state)

  unfoldable pub process : Config F → InputDecision F → Cache → Cache × ApprovedTradeIntent F
  process cfg input c =
      let (c', intent) = evaluate cfg input (reset_day_if_needed c input.timestamp) in
      (apply c' intent, intent)

  -- A day's decisions in the order in which they arrive.
  unfoldable pub process_all :
      Config F → List (InputDecision F) → Cache → Cache × List (ApprovedTradeIntent F)
  process_all cfg [] c = (c, [])
  process_all cfg (d ∷ ds) c =
      let (c', intent) = process cfg d c in
      let (c'', intents) = process_all cfg ds c' in (c'', intent ∷ intents)

abbrev pub position_of : Cache → SeriesKey → PositionState
position_of c key = or_flat (get key c.series)
