-- ===== src/Recommendations/Samples.antt =====
-- The cache of recommendations at concrete inputs.
use option_engine.Common.{ℕ, ◌≡◌, ◌≤◌, refl, String, some, List, [], ◌∷◌, length}
use option_engine.Common.Int.{ℤ, pos}
use option_engine.Common.Dict.{get, put, size}
use option_engine.Common.Float.{int_float}
use option_engine.Domain.{Instant}
use option_engine.Recommendations.{
  Level, strong_buy, avoid, closed, RecId, CompositeKey, composite_key_eq, rec_id_eq, Format,
  InputValidated, Cache, StoredRecommendation,
}
use option_engine.Recommendations.Store.{new_cache, key_of, apply_all}
use option_engine.Recommendations.Limits.{recommendations_bounded}
use option_engine.Recommendations.Lifecycle.{IsClosed, apply_all-IsClosed}

abbrev sample_format : Format ℤ
sample_format = record {
  date_of = λ t. "20260105";
  created_reason = λ l. "validated recommendation";
  fixed4 = λ x. "0";
  join = λ ss. "low confidence";
}

abbrev input_at : Level → ℕ → String → InputValidated ℤ
input_at l c status = record {
  symbol = "NIFTY";
  timeframe = "5m";
  strategy = "trend";
  recommendation = l;
  confidence = pos c;
  validation_status = status;
  rejection_reasons = [];
}

abbrev opened_and_closed : List (Instant × InputValidated ℤ)
opened_and_closed = (1, input_at strong_buy 3 "VALID") ∷ (2, input_at avoid 1 "REJECTED") ∷ []

abbrev later : List (Instant × InputValidated ℤ)
later = (3, input_at strong_buy 5 "VALID") ∷ []

abbrev closed_cache : Cache ℤ
closed_cache = apply_all sample_format opened_and_closed (new_cache (pos 2))

abbrev the_key : CompositeKey
the_key = key_of (input_at strong_buy 3 "VALID")

abbrev the_id : RecId
the_id = record { date = "20260105"; symbol = "NIFTY"; number = 1 }

recommendations_bounded_example :
    let start : Cache ℤ = new_cache (pos 2) in
    let c = apply_all sample_format opened_and_closed start in
    (size c.active ≤ start.max_active) × (length c.history ≤ 10_000)
recommendations_bounded_example = recommendations_bounded sample_format (pos 2) opened_and_closed

abbrev the_recommendation : StoredRecommendation ℤ
the_recommendation = record {
  recommendation = record {
    recommendation_id = some the_id;
    symbol = "NIFTY";
    timeframe = "5m";
    strategy = "trend";
    current_status = closed;
    confidence = pos 3;
    created_at = 1;
    updated_at = 2;
    closed_at = some 2;
  };
  timeline = [];
}

abbrev kept_cache : Cache ℤ
kept_cache = record {
  max_active = 2;
  max_history = 10_000;
  active = [];
  closed = (the_key, the_id) ∷ [];
  by_id = (the_id, the_recommendation) ∷ [];
  by_symbol = [];
  by_strategy = [];
  seq_by_symbol_date = [];
  history = [];
}

kept_cache-IsClosed : IsClosed the_key the_id kept_cache
unfolding get
kept_cache-IsClosed = record {
  not_active = refl;
  filed = refl;
  stored = the_recommendation;
  found = refl;
  status = refl;
  named = refl;
}

apply_all-IsClosed_example : IsClosed the_key the_id (apply_all sample_format later kept_cache)
apply_all-IsClosed_example =
    apply_all-IsClosed sample_format the_key the_id later kept_cache (refl, tt) kept_cache-IsClosed

rejection_closes : get the_key closed_cache.closed ≡ some the_id
unfolding apply_all new_cache get put option_engine.Recommendations.Store.apply_validated
    option_engine.Recommendations.Store.apply_new size option_engine.Recommendations.apply_update
    option_engine.Recommendations.apply_valid_update option_engine.Recommendations.Store.blank
    option_engine.Recommendations.create option_engine.Recommendations.map_recommendation_to_status
    option_engine.Recommendations.move_to option_engine.Recommendations.Store.store_new
    option_engine.Recommendations.Store.append_history option_engine.Recommendations.Store.index
    option_engine.Recommendations.Store.next_id option_engine.Recommendations.Store.apply_known
    option_engine.Recommendations.apply_rejection option_engine.Recommendations.Store.file_status
rejection_closes = refl
