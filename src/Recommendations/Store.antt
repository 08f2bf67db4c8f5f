-- ===== src/Recommendations/Store.antt =====
-- The cache of recommendations (internal/recommendationstate/cache.go).
use option_engine.Common.{
  ℕ, ◌+◌, ◌-◌, Bool, true, false, ◌&&◌, ◌||◌, not, String, Option, none, some, List, [], ◌∷◌, ◌++◌,
  ltb, leb, ◌==◌, nat_eq, string_eq, if◌then◌else◌, length, drop, keep,
}
use option_engine.Common.Int.{ℤ, pos, pos_part, ltb_ℤ, u64}
use option_engine.Common.Dict.{Dict, get, put, remove, size}
use option_engine.Common.Float.{Float}
use option_engine.Domain.{Instant}
use option_engine.Recommendations.{
  status_text, status_beq, created, closed, RecId, rec_id_eq, CompositeKey, composite_key_eq,
  DateKey, date_key_eq, Format, TimelineEntry, Recommendation, InputValidated, StoredRecommendation,
  Updated, Cache, apply_update,
}

-- The four results of `ApplyValidated`.
pub record Outcome (F : Type 0) : Type 0 where
  pub rec : Option (Recommendation F)
  pub latest : Option TimelineEntry
  pub duplicate : Bool
  pub changed : Bool

abbrev pub or_zero : Option ℕ → ℕ
or_zero none = 0
or_zero (some n) = n

abbrev pub member : RecId → List RecId → Bool
member id [] = false
member id (x ∷ xs) = x == id || member id xs

-- `set[id] = struct{}{}` in a set that is made when it is missing.
abbrev pub insert_id : RecId → Option (List RecId) → List RecId
insert_id id none = id ∷ []
insert_id id (some ids) = if member id ids then ids else ids ++ id ∷ []

-- A filter that is the empty string lets everything pass.
abbrev pub matches : String → String → Bool
matches wanted found = wanted == "" || found == wanted

module _ {F : Type 0} where
  unfoldable pub new_cache : ℤ → Cache F
  new_cache max_active = record {
    max_active = if ltb_ℤ max_active (pos 1) then 10_000 else pos_part max_active;
    max_history = 10_000;
    active = [];
    closed = [];
    by_id = [];
    by_symbol = [];
    by_strategy = [];
    seq_by_symbol_date = [];
    history = [];
  }

  unfoldable pub append_history : Recommendation F → Cache F → Cache F
  append_history rec c =
      let h = c.history ++ rec ∷ [] in
      record c {
        history = if ltb c.max_history (length h) then drop (length h - c.max_history) h else h;
      }

  unfoldable pub index : RecId → String → String → Cache F → Cache F
  index id symbol strategy c = record c {
    by_symbol = put symbol (insert_id id (get symbol c.by_symbol)) c.by_symbol;
    by_strategy = put strategy (insert_id id (get strategy c.by_strategy)) c.by_strategy;
  }

  abbrev pub key_of : InputValidated F → CompositeKey
  key_of i = record { symbol = i.symbol; timeframe = i.timeframe; strategy = i.strategy }

  -- The identifier under which a key is known, active before closed.
  abbrev pub known_id : CompositeKey → Cache F → Option RecId
  known_id key c = elim (get key c.active) [ none ↦ get key c.closed | some id ↦ some id ]

  abbrev pub nothing : Bool → Outcome F
  nothing duplicate = record { rec = none; latest = none; duplicate = duplicate; changed = false }

  -- The status of a recommendation that is stored decides which index its key is in.
  unfoldable pub file_status :
      CompositeKey → Bool → Recommendation F → Option RecId → Cache F → Cache F
  file_status key was_closed rec none c = c
  file_status key was_closed rec (some id) c =
      if status_beq rec.current_status closed
      then record c { active = remove key c.active; closed = put key id c.closed }
      else if was_closed
      then record c { closed = remove key c.closed; active = put key id c.active }
      else c

  unfoldable pub get_by_id : RecId → Cache F → Option (StoredRecommendation F)
  get_by_id id c = get id c.by_id

  abbrev pub stored_values : Dict RecId (StoredRecommendation F) → List (Recommendation F)
  stored_values [] = []
  stored_values ((id, s) ∷ m) = s.recommendation ∷ stored_values m

module _ {F : Type 0} ⦃n : Float F⦄ where
  abbrev pub selects : String → String → String → String → F → Recommendation F → Bool
  selects symbol strategy timeframe status confidence_min rec =
      let low = n.lt (n.of_int (pos 0)) confidence_min && n.lt rec.confidence confidence_min in
      matches symbol rec.symbol
      && matches strategy rec.strategy
      && matches timeframe rec.timeframe
      && matches status (status_text rec.current_status)
      && not low

  -- `List`: over the history, or over the stored recommendations while there is none.
  unfoldable pub list : String → String → String → String → F → Cache F → List (Recommendation F)
  list symbol strategy timeframe status confidence_min c =
      let all : List (Recommendation F) = elim c.history [
        | [] ↦ stored_values c.by_id
        | r ∷ rs ↦ r ∷ rs
      ] in
      keep (selects symbol strategy timeframe status confidence_min) all

module _ {F : Type 0} ⦃n : Float F⦄ (fmt : Format F) (at : Instant) where
  unfoldable pub next_id : String → Cache F → RecId × Cache F
  next_id symbol c =
      let key : DateKey = record { date = fmt.date_of at; symbol = symbol } in
      let number = u64 (or_zero (get key c.seq_by_symbol_date) + 1) in
      (
        record { date = fmt.date_of at; symbol = symbol; number = number },
        record c { seq_by_symbol_date = put key number c.seq_by_symbol_date },
      )

  -- A new recommendation's status is the empty string until `applyUpdate` sets it, before any read.
  unfoldable pub blank : InputValidated F → Updated F
  blank i = record {
    rec = record {
      recommendation_id = none;
      symbol = i.symbol;
      timeframe = i.timeframe;
      strategy = i.strategy;
      current_status = created;
      confidence = n.of_int (pos 0);
      created_at = at;
      updated_at = at;
      closed_at = none;
    };
    timeline = [];
    latest = none;
  }

  -- The recommendation is stored under its new identifier.
  unfoldable pub store_new : InputValidated F → Updated F → Cache F → Cache F × Recommendation F
  store_new i u c =
      let (id, c') = next_id i.symbol c in
      let rec = record u.rec { recommendation_id = some id } in
      let stored = record c' {
        by_id = put id (record { recommendation = rec; timeline = u.timeline }) c'.by_id;
        active = put (key_of i) id c'.active;
      } in
      (append_history rec (index id rec.symbol rec.strategy stored), rec)

  unfoldable pub apply_new : InputValidated F → Cache F → Cache F × Outcome F
  apply_new i c =
      let u = apply_update fmt i at (blank i) in
      let (c', rec) = store_new i u c in
      if not (i.validation_status == "VALID")
      then (c, nothing false)
      else if leb c.max_active (size c.active)
      then (c, nothing false)
      else elim u.latest [
        | none ↦ (c, nothing false)
        | some e ↦
            (c', record { rec = some rec; latest = some e; duplicate = false; changed = true })
      ]

  -- `stored` is held behind a pointer: its timeline is changed in place whatever the result.
  unfoldable pub apply_known :
      InputValidated F → RecId → StoredRecommendation F → Cache F → Cache F × Outcome F
  apply_known i id stored c =
      let old = stored.recommendation in
      let u =
        apply_update fmt i at (record { rec = old; timeline = stored.timeline; latest = none }) in
      let kept = record c { by_id = put id (record stored { timeline = u.timeline }) c.by_id } in
      let saved = record c {
        by_id = put id (record { recommendation = u.rec; timeline = u.timeline }) c.by_id;
      } in
      let filed =
        file_status (key_of i) (status_beq old.current_status closed) u.rec u.rec.recommendation_id
          saved in
      elim u.latest [
        | none ↦ (kept, nothing true)
        | some e ↦ (
          append_history u.rec filed,
          record { rec = some u.rec; latest = some e; duplicate = true; changed = true },
        )
      ]

  unfoldable pub apply_validated : InputValidated F → Cache F → Cache F × Outcome F
  apply_validated i c = elim (known_id (key_of i) c) [
    | none ↦ apply_new i c
    | some id ↦ elim (get id c.by_id) [
      | none ↦ (c, nothing false)
      | some stored ↦ apply_known i id stored c
    ]
  ]

-- A session of validated recommendations, each with the instant that the engine gives it.
unfoldable pub apply_all :
    {F : Type 0} ⦃n : Float F⦄ → Format F → List (Instant × InputValidated F) → Cache F → Cache F
apply_all fmt [] c = c
apply_all fmt ((at, i) ∷ is) c = apply_all fmt is (apply_validated fmt at i c).0
