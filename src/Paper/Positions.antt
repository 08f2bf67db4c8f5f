-- ===== src/Paper/Positions.antt =====
-- What an order does to the open positions (executor.go; cache.go, `apply`).
use option_engine.Common.{
  ◌≡◌, refl, inl, inr, true, false, ◌&&◌, Option, none, some, arith, ◌==◌, string_eq, if◌then◌else◌,
  Bool-cases,
}
use option_engine.Common.Dict.{Dict, get, get-put, get-remove}
use option_engine.Common.Float.{Float}
use option_engine.Format.{Bytes}
use option_engine.Domain.{
  Action, long_entry, short_entry, long_exit, short_exit, SeriesKey, series_key_eq,
}
use option_engine.Paper.{
  Text, Config, ApprovedTradeIntent, ExecutionReport, filled, rejected, long, short, Position,
  Cache, next_order_id, is_filled, report_key, intent_key, record_report, apply, apply_filled,
  opened, apply_slippage, report_of, reject, fill, default_price_value, requires_market_price,
  not_positive, execute,
}
use option_engine.Paper.Orders.{execute_cases}

-- What a filled report leaves in its series: an entry replaces what was there, an exit closes it.
abbrev pub settled :
    {F : Type 0} → Action → ExecutionReport F → Option (Position F) → Option (Position F)
settled long_entry r p = some (opened long r)
settled short_entry r p = some (opened short r)
settled long_exit r p = none
settled short_exit r p = none
settled _ r p = p

abbrev pub Settles : {F : Type 0} → Cache F → Cache F → ExecutionReport F → Type 0
Settles c c' r =
    (j : SeriesKey)
    → get j c'.positions ≡ (
        if is_filled r.status && report_key r == j
        then settled r.action r (get j c.positions)
        else get j c.positions)

get-apply_filled :
    {F : Type 0} (a : Action) (r : ExecutionReport F) (m : Dict SeriesKey (Position F))
    (j : SeriesKey)
    → get j (apply_filled a r m) ≡ (if report_key r == j then settled a r (get j m) else get j m)
unfolding apply_filled
get-apply_filled long_entry r m j = get-put (report_key r) j (opened long r) m
get-apply_filled short_entry r m j = get-put (report_key r) j (opened short r) m
get-apply_filled long_exit r m j = get-remove (report_key r) j m
get-apply_filled short_exit r m j = get-remove (report_key r) j m
get-apply_filled _ r m j = ground arith

get-apply : {F : Type 0} (c : Cache F) (r : ExecutionReport F) → Settles c (apply c r) r
unfolding apply
get-apply c r j = ground (arith, get-apply_filled r.action r c.positions j)

-- The fields that a report takes over from its intent.
abbrev pub Answers : {F : Type 0} → ApprovedTradeIntent F → ExecutionReport F → Type 0
Answers i r =
    (report_key r ≡ intent_key i)
    × (r.action ≡ i.action)
    × (r.quantity ≡ i.quantity)
    × (r.strategy ≡ i.strategy)
    × (r.timestamp ≡ i.timestamp)

module _ {F : Type 0} ⦃n : Float F⦄ (text : Text F) (cfg : Config F)
    (i : ApprovedTradeIntent F) where
  fill-Settles :
      (c : Cache F) (order_id : Bytes) (p : F)
      → let (c', r) = fill text cfg c i order_id p in Settles c c' r
  unfolding fill reject record_report report_of
  fill-Settles c order_id p j = elim (Bool-cases (not_positive text p)) [
    | inl low ↦ rw (low, fill) refl
    | inr fine ↦
        let r =
          report_of text i order_id filled (apply_slippage text p i.action cfg.slippage_percent)
            "" in
        rw (fine, fill) (get-apply (record_report c r) r j)
  ]

  -- The open positions after an order: the intent's own series as its action demands, if the order
  -- was filled, and every other series as before. The report repeats the intent's fields.
  pub execute-Settles :
      (c : Cache F) → let (c', r) = execute text cfg i c in Settles c c' r × Answers i r
  execute-Settles c =
      execute_cases text cfg i c (λ o. Settles c o.0 o.1 × Answers i o.1)
        (λ p.
          let (id, c') = next_order_id c in
          (
            λ j. unfold next_order_id in fill-Settles c' id p j,
            unfold fill reject report_of in ground arith,
          ))
        (
          λ j. unfold next_order_id reject record_report report_of in refl,
          unfold reject report_of in ground arith,
        )

  -- With no price in the intent and the configured default `market`, nothing is ever filled.
  pub execute_unpriced :
      (c : Cache F)
      → not_positive text i.reference_price ≡ true
      → requires_market_price text cfg ≡ true
      → let (c', r) = execute text cfg i c in (r.status ≡ rejected) × (c'.positions ≡ c.positions)
  unfolding execute default_price_value reject report_of record_report next_order_id
  execute_unpriced c low market = ground arith

  -- An intent with a price above zero is filled, at that price with the configured slippage.
  pub execute_priced :
      (c : Cache F)
      → not_positive text i.reference_price ≡ false
      → let (c', r) = execute text cfg i c in
        (r.status ≡ filled)
        × (r.execution_price ≡ apply_slippage text i.reference_price i.action cfg.slippage_percent)
  unfolding execute fill report_of
  execute_priced c fine = ground arith
