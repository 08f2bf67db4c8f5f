-- ===== src/Recommendations/Lifecycle.antt =====
-- Closing a recommendation is final (internal/recommendationstate/{cache,timeline}.go).
use option_engine.Common.{
  ◌≡◌, sym, subst, ◌∙◌, inl, inr, true, none, some, List, [], ◌∷◌, arith, ==_refl, Option-cases,
  All,
}
use option_engine.Common.Dict.{get, get-put_self, get-remove}
use option_engine.Common.Float.{Float}
use option_engine.Domain.{Instant}
use option_engine.Recommendations.{
  status_beq, closed, RecId, rec_id_eq, CompositeKey, composite_key_eq, Format, InputValidated,
  StoredRecommendation, Updated, Cache, apply_update,
}
use option_engine.Recommendations.Store.{
  append_history, key_of, known_id, file_status, apply_known, apply_validated, apply_all,
}
use option_engine.Recommendations.Limits.{apply_update-closed}

-- A key's recommendation is closed, and filed as such.
pub record IsClosed {F : Type 0} (key : CompositeKey) (id : RecId) (c : Cache F) : Type 0 where
  pub not_active : get key c.active ≡ none
  pub filed : get key c.closed ≡ some id
  pub stored : StoredRecommendation F
  pub found : get id c.by_id ≡ some stored
  pub status : status_beq stored.recommendation.current_status closed ≡ true
  pub named : stored.recommendation.recommendation_id ≡ some id

module _ {F : Type 0} ⦃n : Float F⦄ (fmt : Format F) (at : Instant) (i : InputValidated F) where
  apply_known-IsClosed :
      (id : RecId) (c : Cache F) (v : IsClosed (key_of i) id c)
      → IsClosed (key_of i) id (apply_known fmt at i id v.stored c).0
  unfolding apply_known append_history file_status
  apply_known-IsClosed id c v =
      let s = v.stored in
      let key = key_of i in
      let start : Updated F = record {
        rec = s.recommendation;
        timeline = s.timeline;
        latest = none;
      } in
      let u = apply_update fmt i at start in
      let (shut, name) = apply_update-closed fmt i at start id v.named v.status in
      elim (Option-cases u.latest) [
        | inl e ↦
            rw (e, apply_known)
              (record {
                not_active = v.not_active;
                filed = v.filed;
                stored = record s { timeline = u.timeline };
                found = get-put_self id (record s { timeline = u.timeline }) c.by_id;
                status = v.status;
                named = v.named;
              })
        | inr (t, e) ↦
            let s' : StoredRecommendation F = record {
              recommendation = u.rec;
              timeline = u.timeline;
            } in
            rw (e, name, shut, apply_known)
              (record {
                not_active = get-remove key key c.active ∙ ground (arith, ==_refl key);
                filed = get-put_self key id c.closed;
                stored = s';
                found = get-put_self id s' c.by_id;
                status = shut;
                named = name;
              })
      ]

  apply_validated-IsClosed :
      (id : RecId) (c : Cache F)
      → IsClosed (key_of i) id c
      → IsClosed (key_of i) id (apply_validated fmt at i c).0
  unfolding apply_validated
  apply_validated-IsClosed id c v =
      let known : known_id (key_of i) c ≡ some id = rw (v.not_active, known_id) v.filed in
      rw (known, v.found, apply_validated) (apply_known-IsClosed id c v)

-- A closed recommendation never comes back: whatever further inputs its symbol, timeframe and
-- strategy get, valid or rejected, it stays closed and filed under the same identifier, and its key
-- is not active.
pub apply_all-IsClosed :
    {F : Type 0} ⦃n : Float F⦄ (fmt : Format F) (key : CompositeKey) (id : RecId)
    (is : List (Instant × InputValidated F)) (c : Cache F)
    → All (λ x. key_of x.1 ≡ key) is
    → IsClosed key id c
    → IsClosed key id (apply_all fmt is c)
unfolding apply_all
apply_all-IsClosed fmt key id [] c same v = v
apply_all-IsClosed fmt key id ((at, i) ∷ is) c (k, same) v =
    apply_all-IsClosed fmt key id is (apply_validated fmt at i c).0 same (
      subst (λ j. IsClosed j id (apply_validated fmt at i c).0) k
        (apply_validated-IsClosed fmt at i id c (subst (λ j. IsClosed j id c) (sym k) v)))
