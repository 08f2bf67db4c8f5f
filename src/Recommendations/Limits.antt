-- ===== src/Recommendations/Limits.antt =====
-- What the cache of recommendations never exceeds (cache.go), and that closing is final
-- (timeline.go).
use option_engine.Common.{
  ◌-◌, ◌≤◌, ◌≡◌, refl, sym, ◌∙◌, inl, inr, Bool, true, Option, none, some, List, [], ◌∷◌, ◌++◌,
  arith, leb, ◌==◌, string_eq, Bool-cases, Option-cases, length, length-drop,
}
use option_engine.Common.Int.{ℤ}
use option_engine.Common.Dict.{get, put, size, size-put, size-remove_le}
use option_engine.Common.Float.{Float}
use option_engine.Domain.{Instant}
use option_engine.Recommendations.{
  Status, status_beq, closed, RecId, rec_id_eq, CompositeKey, composite_key_eq, Format,
  Recommendation, InputValidated, StoredRecommendation, Updated, Cache, move_to, create,
  note_confidence, follow, apply_valid_update, apply_rejection, apply_update,
}
use option_engine.Recommendations.Store.{
  new_cache, append_history, index, key_of, known_id, file_status, next_id, blank, store_new,
  apply_new, apply_known, apply_validated, apply_all,
}

status_closed : (s : Status) → status_beq s closed ≡ true → s ≡ closed
status_closed s h = ground arith

module _ {F : Type 0} ⦃n : Float F⦄ (fmt : Format F) (i : InputValidated F) (at : Instant) where
  -- No update takes a recommendation that has an identifier out of the closed state, nor does it
  -- change the identifier.
  pub apply_update-closed :
      (u : Updated F) (id : RecId)
      → u.rec.recommendation_id ≡ some id
      → status_beq u.rec.current_status closed ≡ true
      → let v = apply_update fmt i at u in
        (status_beq v.rec.current_status closed ≡ true) × (v.rec.recommendation_id ≡ some id)
  unfolding apply_update apply_valid_update apply_rejection follow note_confidence move_to
  apply_update-closed u id e h = ground (arith, e, h)

  apply_update_id :
      (u : Updated F) → (apply_update fmt i at u).rec.recommendation_id ≡ u.rec.recommendation_id
  unfolding apply_update apply_valid_update apply_rejection create follow note_confidence move_to
  apply_update_id u = ground arith

-- The limits of the cache are the same before and after, and the second cache keeps to them.
pub record Keeps {F : Type 0} (c c' : Cache F) : Type 0 where
  pub same_active : c'.max_active ≡ c.max_active
  pub same_history : c'.max_history ≡ c.max_history
  pub few : size c'.active ≤ c.max_active
  pub short : length c'.history ≤ c.max_history

module _ {F : Type 0} where
  append_history-Keeps :
      (r : Recommendation F) (c c' : Cache F)
      → c'.max_active ≡ c.max_active
      → c'.max_history ≡ c.max_history
      → size c'.active ≤ c.max_active
      → Keeps c (append_history r c')
  unfolding append_history
  append_history-Keeps r c c' a h few =
      let longer = c'.history ++ r ∷ [] in
      record {
        same_active = a;
        same_history = h;
        few = few;
        short = ground (arith, h, length-drop (length longer - c'.max_history) longer);
      }

  -- Filing never adds an active key: it would have to take a recommendation out of the closed state.
  file_status-few :
      (key : CompositeKey) (was : Bool) (r : Recommendation F) (id : Option RecId) (c : Cache F)
      → (was ≡ true → (j : RecId) → id ≡ some j → status_beq r.current_status closed ≡ true)
      → let c' = file_status key was r id c in
        (c'.max_active ≡ c.max_active)
        × (c'.max_history ≡ c.max_history)
        × (size c'.active ≤ size c.active)
  unfolding file_status
  file_status-few key was r none c stays = (refl, refl, omega arith)
  file_status-few key was r (some id) c stays =
      elim (Bool-cases (status_beq r.current_status closed)) [
        | inl done ↦ rw (done, file_status) (refl, refl, size-remove_le key c.active)
        | inr going ↦ elim (Bool-cases was) [
          | inl w ↦ absurd (ground (arith, stays w id refl, going))
          | inr w ↦ rw (going, w, file_status) (refl, refl, omega arith)
        ]
      ]

module _ {F : Type 0} ⦃n : Float F⦄ (fmt : Format F) (at : Instant) (i : InputValidated F)
    (c : Cache F) where
  apply_known-Keeps :
      (id : RecId) (s : StoredRecommendation F)
      → Keeps c c
      → Keeps c (apply_known fmt at i id s c).0
  unfolding apply_known
  apply_known-Keeps id s v =
      let old = s.recommendation in
      let start : Updated F = record { rec = old; timeline = s.timeline; latest = none } in
      let u = apply_update fmt i at start in
      let was = status_beq old.current_status closed in
      let stays : (was ≡ true
          → (j : RecId) → u.rec.recommendation_id ≡ some j
          → status_beq u.rec.current_status closed ≡ true) =
        λ w j e.
          (apply_update-closed fmt i at start j (sym (apply_update_id fmt i at start) ∙ e) w).0 in
      let saved = record c {
        by_id = put id (record { recommendation = u.rec; timeline = u.timeline }) c.by_id;
      } in
      let (a, h, few) = file_status-few (key_of i) was u.rec u.rec.recommendation_id saved stays in
      elim (Option-cases u.latest) [
        | inl e ↦
            rw (e, apply_known)
              (record { same_active = refl; same_history = refl; few = v.few; short = v.short })
        | inr (t, e) ↦
            rw (e, apply_known)
              (append_history-Keeps u.rec c
                (file_status (key_of i) was u.rec u.rec.recommendation_id saved) a h
                (omega (arith, few, v.few)))
      ]

  apply_new-Keeps : Keeps c c → Keeps c (apply_new fmt at i c).0
  unfolding apply_new store_new next_id index
  apply_new-Keeps v =
      let u = apply_update fmt i at (blank fmt at i) in
      elim (Bool-cases (i.validation_status == "VALID")) [
        | inr bad ↦ rw (bad, apply_new) v
        | inl good ↦ elim (Bool-cases (leb c.max_active (size c.active))) [
          | inl full ↦ rw (good, full, apply_new) v
          | inr room ↦ elim (Option-cases u.latest) [
            | inl e ↦ rw (good, room, e, apply_new) v
            | inr (t, e) ↦
                let (id, c') = next_id fmt at i.symbol c in
                rw (good, room, e, apply_new)
                  (append_history-Keeps _ c _ refl refl
                    (ground (arith, room, size-put (key_of i) id c.active)))
          ]
        ]
      ]

  apply_validated-Keeps : Keeps c c → Keeps c (apply_validated fmt at i c).0
  unfolding apply_validated
  apply_validated-Keeps v = elim (Option-cases (known_id (key_of i) c)) [
    | inl e ↦ rw (e, apply_validated) (apply_new-Keeps v)
    | inr (id, e) ↦ elim (Option-cases (get id c.by_id)) [
      | inl f ↦ rw (e, f, apply_validated) v
      | inr (s, f) ↦ rw (e, f, apply_validated) (apply_known-Keeps id s v)
    ]
  ]

apply_all-Keeps :
    {F : Type 0} ⦃n : Float F⦄ (fmt : Format F) (is : List (Instant × InputValidated F))
    (c : Cache F)
    → Keeps c c
    → Keeps c (apply_all fmt is c)
unfolding apply_all
apply_all-Keeps fmt [] c v = v
apply_all-Keeps fmt ((at, i) ∷ is) c v =
    let c' = (apply_validated fmt at i c).0 in
    let w = apply_validated-Keeps fmt at i c v in
    let x = apply_all-Keeps fmt is c' (record {
      same_active = refl;
      same_history = refl;
      few = omega (arith, w.few, w.same_active);
      short = omega (arith, w.short, w.same_history);
    }) in
    record {
      same_active = x.same_active ∙ w.same_active;
      same_history = x.same_history ∙ w.same_history;
      few = omega (arith, x.few, w.same_active);
      short = omega (arith, x.short, w.same_history);
    }

-- Whatever recommendations arrive: the cache never holds more active ones than it was made for, and
-- its history is never longer than 10,000 entries.
pub recommendations_bounded :
    {F : Type 0} ⦃n : Float F⦄ (fmt : Format F) (max_active : ℤ)
    (is : List (Instant × InputValidated F))
    → let start : Cache F = new_cache max_active in
      let c = apply_all fmt is start in
      (size c.active ≤ start.max_active) × (length c.history ≤ 10_000)
unfolding new_cache
recommendations_bounded {F} fmt max_active is =
    let start : Cache F = new_cache max_active in
    let v : Keeps start start = record {
      same_active = refl;
      same_history = refl;
      few = unfold size in omega arith;
      short = omega arith;
    } in
    let w = apply_all-Keeps fmt is start v in (w.few, w.short)
