-- ===== src/Pipeline/Samples.antt =====
-- The three engines joined, at concrete inputs.
use option_engine.Common.{◌≡◌, refl, false, some, [], ◌∷◌}
use option_engine.Common.Int.{ℤ, pos}
use option_engine.Common.Float.{int_float}
use option_engine.Domain.{long_entry, short_entry, series_key_eq}
use option_engine.Risk
use option_engine.Risk.{process, position_of, key_of, approve}
use option_engine.Risk.Samples
use option_engine.Risk.Samples.{decision_at, sample_cache, entry_approved}
use option_engine.Paper
use option_engine.Paper.{not_positive, requires_market_price}
use option_engine.Paper.Samples.{sample_text, sample_config, intent_at, two_orders}
use option_engine.Portfolio
use option_engine.Portfolio.{position_at}
use option_engine.Pipeline.{to_paper, Desk, place, place_all, new_desk}
use option_engine.Pipeline.Agreement.{Agree, session-Agree}
use option_engine.Pipeline.Gaps.{
  risk_intents_never_fill, approved_entry_unfilled, turned_lot_books_nothing,
}

session-Agree_example : Agree (place_all sample_text sample_config two_orders new_desk)
session-Agree_example = session-Agree sample_text sample_config two_orders (refl, (refl, tt))

abbrev entry_intent : Risk.ApprovedTradeIntent ℤ
entry_intent = approve Risk.Samples.sample_config (decision_at long_entry 110)

risk_intents_never_fill_example :
    (place_all sample_text sample_config
      ((false, to_paper entry_intent) ∷ [])
      new_desk).paper.cache.positions
    ≡ new_desk.paper.cache.positions
unfolding not_positive requires_market_price
risk_intents_never_fill_example =
    risk_intents_never_fill sample_text sample_config (entry_intent ∷ []) new_desk refl refl

approved_entry_unfilled_example :
    let (c', intent) =
      process Risk.Samples.sample_config (decision_at long_entry 110) sample_cache in
    (position_of c' (key_of (decision_at long_entry 110)) ≡ Risk.PositionState.long)
    × ((place sample_text sample_config false (to_paper intent) new_desk).paper.cache.positions
        ≡ new_desk.paper.cache.positions)
unfolding not_positive requires_market_price
approved_entry_unfilled_example =
    approved_entry_unfilled sample_text sample_config Risk.Samples.sample_config
      (decision_at long_entry 110) sample_cache new_desk refl refl refl entry_approved

-- A desk whose portfolio and paper engine are long.
abbrev long_desk : Desk ℤ
long_desk = place sample_text sample_config false (intent_at long_entry 10) new_desk

turned_lot_books_nothing_example :
    let c =
      (place sample_text sample_config false
        (intent_at short_entry 14)
        long_desk).portfolio.cache in
    (c.realized_total ≡ long_desk.portfolio.cache.realized_total)
    × (new' : Portfolio.Position ℤ) × (position_at
          (Paper.intent_key (intent_at short_entry 14))
          c.positions
        ≡ some new')
    × (new'.side ≡ Portfolio.Side.short)
    × (new'.quantity ≡ pos 2)
unfolding not_positive
turned_lot_books_nothing_example =
    turned_lot_books_nothing sample_text sample_config (intent_at short_entry 14) long_desk refl
      refl refl refl refl
