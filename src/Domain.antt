-- ===== src/Domain.antt =====
-- Types that the engines share: instants, trade actions, series keys and ticks.
-- (internal/domain/market, and the action and key types that internal/analytics/risk,
-- internal/execution/paper and internal/portfolio each declare with the same spellings.)
use option_engine.Common.{
  ℕ, ◌≡◌, ◌↔◌, Bool, true, ◌&&◌, String, arith, Comparable, ◌==◌, ==_iff, string_eq, nat_beq,
}
use option_engine.Common.Int.{ℤ}

-- time.Time as nanoseconds since Go's zero time, 1 January of year 1 UTC. `.UTC()` and `.In(loc)`
-- change how an instant is shown and not which instant it is.
abbrev pub Instant : Type 0
Instant = ℕ

-- time.Duration, where the code only uses those that are not negative.
abbrev pub Duration : Type 0
Duration = ℕ

abbrev pub is_zero : Instant → Bool
is_zero t = nat_beq t 0

-- The strings that stand for trade actions on the wire; `other` is any other string.
pub data Action : Type 0 where
  long_entry short_entry long_exit short_exit hold : Action
  other : String → Action

pub record SeriesKey : Type 0 where
  pub symbol : String
  pub timeframe : String

abbrev series_key_beq : SeriesKey → SeriesKey → Bool
series_key_beq a b = a.symbol == b.symbol && a.timeframe == b.timeframe

pub series_key_beq_iff : (a b : SeriesKey) → (series_key_beq a b ≡ true) ↔ (a ≡ b)
series_key_beq_iff a b = ground (arith, ==_iff a.symbol b.symbol, ==_iff a.timeframe b.timeframe)

instance abbrev pub series_key_eq : Comparable SeriesKey
series_key_eq = record { equal = series_key_beq; equal_iff = series_key_beq_iff }

-- `market.InstrumentType`; `other_type` is any other string.
pub data InstrumentType : Type 0 where
  spot future option index : InstrumentType
  other_type : String → InstrumentType

-- internal/domain/market, `Tick`, less its random identifier.
pub record Tick (F : Type 0) : Type 0 where
  pub symbol : String
  pub exchange : String
  pub instrument_type : InstrumentType
  pub ltp : F
  pub open_price : F
  pub high : F
  pub low : F
  pub close_price : F
  pub volume : ℤ
  pub bid : F
  pub ask : F
  pub bid_qty : ℤ
  pub ask_qty : ℤ
  pub oi : ℤ
  pub provider_ts : Instant
  pub received_at : Instant
  pub sequence_num : ℤ
