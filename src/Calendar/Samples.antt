-- ===== src/Calendar/Samples.antt =====
-- The calendar over days that are instants: day 0 is a Saturday.
use option_engine.Common.{
  refl, ℕ, zero, suc, ◌+◌, ◌-◌, ◌%◌, ◌≡◌, true, false, ltb, String, Option, none, some, [], ◌∷◌,
  nat_beq, if◌then◌else◌, not, ◌&&◌, ◌==◌, string_eq,
}
use option_engine.Calendar.{
  Time, Calendar, Config, new_calendar, is_weekend, is_holiday, is_market_open, next_trading_day,
  market_open, market_close,
}
use option_engine.Calendar.Days.{IsNext, next_trading_day-IsNext, market_hours}

-- A day has a hundred instants; day 3, a Tuesday, is a holiday.
abbrev time : Time
time = record {
  date_of = λ t. if ltb t 400 then (if ltb t 300 then "before" else "third") else "after";
  weekday = λ t. if ltb t 100 then 6 else if ltb t 200 then 0 else if ltb t 300 then 1 else 2;
  next_day = λ t. t + 100;
  parse =
      λ date hhmm. if hhmm == "open" then some 420 else if hhmm == "close" then some 480 else none;
}

abbrev config : Config
config = record {
  regular_open = "open";
  regular_close = "close";
  muhurat_open = "";
  muhurat_close = "";
  early_close_at = "";
  holidays = "before" ∷ "third" ∷ [];
  muhurat_days = "before" ∷ [];
  early_close_days = [];
  expiry_weekday = 4;
}

abbrev calendar : Calendar
calendar = new_calendar config

next_is_fourth : next_trading_day time calendar 10 ≡ 410
unfolding next_trading_day option_engine.Calendar.next_loop option_engine.Calendar.is_trading_day
    is_weekend is_holiday option_engine.Common.Dict.get new_calendar option_engine.Calendar.to_set
    option_engine.Common.Dict.put
next_is_fourth = refl

next_trading_day-IsNext_example : IsNext time calendar 366 10 (next_trading_day time calendar 10)
next_trading_day-IsNext_example = next_trading_day-IsNext time calendar 10

opens : market_open time calendar 430 ≡ some 420
unfolding market_open option_engine.Calendar.session_type_for option_engine.Common.Dict.get
    new_calendar option_engine.Calendar.to_set option_engine.Common.Dict.put is_weekend
    option_engine.Calendar.parse_time
opens = refl

closes : market_close time calendar 430 ≡ some 480
unfolding market_close option_engine.Calendar.session_type_for option_engine.Common.Dict.get
    new_calendar option_engine.Calendar.to_set option_engine.Common.Dict.put is_weekend
    option_engine.Calendar.parse_time
closes = refl

market_hours_example :
    (is_weekend time calendar 430 ≡ false)
    × (is_holiday time calendar 430 ≡ false)
    × (is_market_open time calendar 430 ≡ true)
market_hours_example = market_hours time calendar 430 420 480 opens closes
