-- ===== src/Paper/Samples.antt =====
-- The paper engine at concrete inputs, prices being whole numbers.
use option_engine.Common.{
  ℕ, ◌+◌, ◌≡◌, refl, Bool, true, false, String, Option, none, some, List, [], ◌∷◌, arith, ◌==◌,
  string_eq, if◌then◌else◌, get_elem?,
}
use option_engine.Common.Int.{ℤ, pos}
use option_engine.Common.Float.{int_float}
use option_engine.Format.{format_order_id, read_decimal, read-format, emit}
use option_engine.Domain.{Action, long_entry, short_entry, series_key_eq}
use option_engine.Paper.{
  Text, Config, ApprovedTradeIntent, ExecutionReport, filled, rejected, Cache, new_cache,
  new_engine, Engine, execute, handle, handle_all, apply_slippage, publish, fill, report_of, apply,
  record_report, next_order_id, not_positive,
}
use option_engine.Paper.Orders.{order_ids_distinct}
use option_engine.Paper.Positions.{Settles, Answers, execute-Settles}

-- Texts are as they are, and the only number that is read is 7.
abbrev pub sample_text : Text ℤ
sample_text = record {
  encodes = λ p. true;
  trim_space = λ s. s;
  to_lower = λ s. s;
  parse_float = λ s. if s == "7" then some (pos 7) else none;
}

abbrev pub sample_config : Config ℤ
sample_config = record {
  enabled = true;
  subscriber_buffer = pos 256;
  slippage_percent = pos 100;
  default_price = "market";
}

abbrev pub intent_at : Action → ℕ → ApprovedTradeIntent ℤ
intent_at a price = record {
  symbol = "NIFTY";
  timeframe = "5m";
  status = "APPROVED";
  action = a;
  quantity = pos 2;
  strategy = "trend";
  reference_price = pos price;
  timestamp = 110;
}

abbrev pub two_orders : List (Bool × ApprovedTradeIntent ℤ)
two_orders = (false, intent_at long_entry 10) ∷ (false, intent_at short_entry 0) ∷ []

abbrev second_report : ExecutionReport ℤ
second_report = record {
  order_id = b'2' ∷ [];
  symbol = "NIFTY";
  timeframe = "5m";
  action = short_entry;
  quantity = pos 2;
  execution_price = pos 0;
  status = rejected;
  strategy = "trend";
  timestamp = 110;
  rejection_reason = "market reference price unavailable";
}

second_in_log :
    get_elem? (handle_all sample_text sample_config two_orders new_engine).cache.executed 1
    ≡ some second_report
unfolding handle_all handle execute new_engine new_cache publish fill not_positive
    option_engine.Paper.default_price_value option_engine.Paper.reject record_report next_order_id
    apply report_of format_order_id emit
second_in_log = refl

-- Slippage of 100 percent doubles the price of an entry.
slippage_runs : apply_slippage sample_text (pos 10) long_entry (pos 100) ≡ pos 20
unfolding apply_slippage option_engine.Common.Int.◌*ℤ◌ option_engine.Common.Int.◌+ℤ◌
    option_engine.Common.Int.div_trunc
slippage_runs = refl

abbrev second : ℕ
second = 1

order_ids_distinct_example : second ≡ second
order_ids_distinct_example =
    order_ids_distinct sample_text sample_config two_orders second second second_report
      second_report (omega arith) second_in_log second_in_log refl

execute-Settles_example :
    let (c', r) = execute sample_text sample_config (intent_at long_entry 10) new_cache in
    Settles new_cache c' r × Answers (intent_at long_entry 10) r
execute-Settles_example =
    execute-Settles sample_text sample_config (intent_at long_entry 10) new_cache

read-format_example : read_decimal (format_order_id 90210) ≡ 90210
read-format_example = read-format 90210 (omega arith)
