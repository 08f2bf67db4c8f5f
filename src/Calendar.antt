-- ===== src/Calendar.antt =====
-- The exchange's calendar: internal/core/calendar/calendar.go.
pub mod Days
pub mod Samples
use option_engine.Common.{
  ℕ, zero, suc, Bool, true, false, not, ◌&&◌, ◌||◌, String, Option, none, some, List, [], ◌∷◌, ltb,
  nat_beq, if◌then◌else◌, ◌==◌, string_eq, ◌>>=◌,
}
use option_engine.Common.Dict.{Dict, put, has}
use option_engine.Domain.{Instant}

-- What the calendar calls of `time`, in the exchange's location: the date `2006-01-02` of an instant,
-- its weekday with Sunday as 0, `AddDate(0, 0, 1)`, and `ParseInLocation` of a date and a clock time.
pub record Time : Type 0 where
  pub date_of : Instant → String
  pub weekday : Instant → ℕ
  pub next_day : Instant → Instant
  pub parse : String → String → Option Instant

pub data SessionType : Type 0 where
  regular muhurat early_close holiday : SessionType

-- Less the name of the time zone.
pub record Config : Type 0 where
  pub regular_open : String
  pub regular_close : String
  pub muhurat_open : String
  pub muhurat_close : String
  pub early_close_at : String
  pub holidays : List String
  pub muhurat_days : List String
  pub early_close_days : List String
  pub expiry_weekday : ℕ

pub record Calendar : Type 0 where
  pub cfg : Config
  pub holiday_set : Dict String (Unit {0})
  pub muhurat_set : Dict String (Unit {0})
  pub early_set : Dict String (Unit {0})

-- `toSet`, from the last date to the first.
unfoldable pub to_set : List String → Dict String (Unit {0})
to_set [] = []
to_set (d ∷ ds) = put d tt (to_set ds)

-- `New`, where the time zone is found: weekday 0, which is Sunday, stands for Thursday.
unfoldable pub new_calendar : Config → Calendar
new_calendar cfg = record {
  cfg = record cfg {
    expiry_weekday = if nat_beq cfg.expiry_weekday 0 then 4 else cfg.expiry_weekday;
  };
  holiday_set = to_set cfg.holidays;
  muhurat_set = to_set cfg.muhurat_days;
  early_set = to_set cfg.early_close_days;
}

module _ (time : Time) (c : Calendar) where
  unfoldable pub is_weekend : Instant → Bool
  is_weekend t = nat_beq (time.weekday t) 6 || nat_beq (time.weekday t) 0

  unfoldable pub is_holiday : Instant → Bool
  is_holiday t = has (time.date_of t) c.holiday_set

  unfoldable pub is_trading_day : Instant → Bool
  is_trading_day t = if is_weekend t || is_holiday t then false else true

  unfoldable pub session_type_for : Instant → SessionType
  session_type_for t =
      let key = time.date_of t in
      if has key c.holiday_set
      then holiday
      else if is_weekend t
      then holiday
      else if has key c.muhurat_set
      then muhurat
      else if has key c.early_set
      then early_close
      else regular

  unfoldable pub parse_time : Instant → String → Option Instant
  parse_time day hhmm = if hhmm == "" then none else time.parse (time.date_of day) hhmm

  unfoldable pub market_open : Instant → Option Instant
  market_open t = elim (session_type_for t) [
    | holiday ↦ none
    | muhurat ↦ parse_time t c.cfg.muhurat_open
    | _ ↦ parse_time t c.cfg.regular_open
  ]

  unfoldable pub market_close : Instant → Option Instant
  market_close t = elim (session_type_for t) [
    | holiday ↦ none
    | muhurat ↦ parse_time t c.cfg.muhurat_close
    | early_close ↦
        if not (c.cfg.early_close_at == "")
        then parse_time t c.cfg.early_close_at
        else parse_time t c.cfg.regular_close
    | regular ↦ parse_time t c.cfg.regular_close
  ]

  abbrev pub or_false : Option Bool → Bool
  or_false none = false
  or_false (some b) = b

  unfoldable pub is_market_open : Instant → Bool
  is_market_open at =
      if is_trading_day at
      then or_false (do
        open_at ← market_open at
        close_at ← market_close at
        some (not (ltb at open_at) && ltb at close_at))
      else false

  unfoldable pub is_expiry_day : Instant → Bool
  is_expiry_day t = nat_beq (time.weekday t) c.cfg.expiry_weekday && is_trading_day t

  -- The loop of `NextTradingDay`, with so many rounds left.
  unfoldable pub next_loop : ℕ → Instant → Instant
  next_loop zero d = d
  next_loop (suc n) d =
      let next = time.next_day d in
      let rest = next_loop n next in if is_trading_day next then next else rest

  unfoldable pub next_trading_day : Instant → Instant
  next_trading_day t = next_loop 366 t
