-- ===== src/Recommendations.antt =====
-- The life cycle of recommendations: internal/recommendationstate/{events,timeline,cache}.go.
-- `Format` stands for Go's time formatting, `fmt.Sprintf` of a number and `strings`. The empty
-- identifier and the zero timeline entry of the source are `none` here. The identifier
-- "REC-<date>-<symbol>-<number>" is the triple of its parts.
pub mod Store
pub mod Limits
pub mod Lifecycle
pub mod Samples
use option_engine.Common.{
  ℕ, ◌+◌, ◌-◌, Bool, true, false, ◌&&◌, ◌||◌, not, String, Option, none, some, List, [], ◌∷◌, ◌++◌,
  ltb, leb, Comparable, ◌==◌, ==_iff, nat_eq, string_eq, if◌then◌else◌, ◌≡◌, ◌↔◌, arith, length,
  drop,
}
use option_engine.Common.Int.{u64}
use option_engine.Common.Dict.{Dict, get, put, remove, has, size}
use option_engine.Common.Float.{Float}
use option_engine.Domain.{Instant}

pub data Status : Type 0 where
  created active watch exit_recommended closed : Status

abbrev pub status_beq : Status → Status → Bool
status_beq created created = true
status_beq active active = true
status_beq watch watch = true
status_beq exit_recommended exit_recommended = true
status_beq closed closed = true
status_beq _ _ = false

abbrev pub status_text : Status → String
status_text created = "CREATED"
status_text active = "ACTIVE"
status_text watch = "WATCH"
status_text exit_recommended = "EXIT_RECOMMENDED"
status_text closed = "CLOSED"

-- The tiers of internal/recommendation/events.go; `other` is any other string.
pub data Level : Type 0 where
  strong_buy buy watch avoid : Level
  other : String → Level

pub record RecId : Type 0 where
  pub date : String
  pub symbol : String
  pub number : ℕ

abbrev rec_id_beq : RecId → RecId → Bool
rec_id_beq a b = a.date == b.date && a.symbol == b.symbol && a.number == b.number

pub rec_id_beq_iff : (a b : RecId) → (rec_id_beq a b ≡ true) ↔ (a ≡ b)
rec_id_beq_iff a b =
    ground (arith, ==_iff a.date b.date, ==_iff a.symbol b.symbol, ==_iff a.number b.number)

instance abbrev pub rec_id_eq : Comparable RecId
rec_id_eq = record { equal = rec_id_beq; equal_iff = rec_id_beq_iff }

pub record CompositeKey : Type 0 where
  pub symbol : String
  pub timeframe : String
  pub strategy : String

abbrev composite_key_beq : CompositeKey → CompositeKey → Bool
composite_key_beq a b =
    a.symbol == b.symbol && a.timeframe == b.timeframe && a.strategy == b.strategy

pub composite_key_beq_iff : (a b : CompositeKey) → (composite_key_beq a b ≡ true) ↔ (a ≡ b)
composite_key_beq_iff a b =
    ground (
      arith,
      ==_iff a.symbol b.symbol,
      ==_iff a.timeframe b.timeframe,
      ==_iff a.strategy b.strategy,
    )

instance abbrev pub composite_key_eq : Comparable CompositeKey
composite_key_eq = record { equal = composite_key_beq; equal_iff = composite_key_beq_iff }

-- The key of the counters: a date, which has eight characters, and a symbol.
pub record DateKey : Type 0 where
  pub date : String
  pub symbol : String

abbrev date_key_beq : DateKey → DateKey → Bool
date_key_beq a b = a.date == b.date && a.symbol == b.symbol

pub date_key_beq_iff : (a b : DateKey) → (date_key_beq a b ≡ true) ↔ (a ≡ b)
date_key_beq_iff a b = ground (arith, ==_iff a.date b.date, ==_iff a.symbol b.symbol)

instance abbrev pub date_key_eq : Comparable DateKey
date_key_eq = record { equal = date_key_beq; equal_iff = date_key_beq_iff }

pub record Format (F : Type 0) : Type 0 where
  pub date_of : Instant → String
  pub created_reason : Level → String
  pub fixed4 : F → String
  pub join : List String → String

pub record TimelineEntry : Type 0 where
  pub timestamp : Instant
  pub event : String
  pub reason : String
  pub previous_value : String
  pub new_value : String

pub record Recommendation (F : Type 0) : Type 0 where
  pub recommendation_id : Option RecId
  pub symbol : String
  pub timeframe : String
  pub strategy : String
  pub current_status : Status
  pub confidence : F
  pub created_at : Instant
  pub updated_at : Instant
  pub closed_at : Option Instant

pub record InputValidated (F : Type 0) : Type 0 where
  pub symbol : String
  pub timeframe : String
  pub strategy : String
  pub recommendation : Level
  pub confidence : F
  pub validation_status : String
  pub rejection_reasons : List String

pub record StoredRecommendation (F : Type 0) : Type 0 where
  pub recommendation : Recommendation F
  pub timeline : List TimelineEntry

-- What `applyUpdate` leaves: the recommendation, its timeline, and the entry to report.
pub record Updated (F : Type 0) : Type 0 where
  pub rec : Recommendation F
  pub timeline : List TimelineEntry
  pub latest : Option TimelineEntry

pub record Cache (F : Type 0) : Type 0 where
  pub max_active : ℕ
  pub max_history : ℕ
  pub active : Dict CompositeKey RecId
  pub closed : Dict CompositeKey RecId
  pub by_id : Dict RecId (StoredRecommendation F)
  pub by_symbol : Dict String (List RecId)
  pub by_strategy : Dict String (List RecId)
  pub seq_by_symbol_date : Dict DateKey ℕ
  pub history : List (Recommendation F)

unfoldable pub map_recommendation_to_status : Level → Status
map_recommendation_to_status strong_buy = active
map_recommendation_to_status buy = active
map_recommendation_to_status watch = watch
map_recommendation_to_status avoid = exit_recommended
map_recommendation_to_status _ = watch

abbrev pub last_timeline_entry : List TimelineEntry → Option TimelineEntry
last_timeline_entry [] = none
last_timeline_entry (e ∷ []) = some e
last_timeline_entry (e ∷ f ∷ es) = last_timeline_entry (f ∷ es)

abbrev pub entry : Instant → String → String → String → String → TimelineEntry
entry at event reason previous new' = record {
  timestamp = at;
  event = event;
  reason = reason;
  previous_value = previous;
  new_value = new';
}

module _ {F : Type 0} where
  -- `appendTimeline`, together with the new status.
  unfoldable pub move_to : Status → TimelineEntry → Updated F → Updated F
  move_to s e u = record {
    rec = record u.rec { current_status = s };
    timeline = u.timeline ++ e ∷ [];
    latest = some e;
  }

  abbrev pub set_rec : Recommendation F → Updated F → Updated F
  set_rec r u = record u { rec = r }

module _ {F : Type 0} ⦃n : Float F⦄ (fmt : Format F) (input : InputValidated F) (at : Instant) where
  -- The branch of `applyValidUpdate` for a recommendation that has no identifier yet.
  unfoldable pub create : Status → Updated F → Updated F
  create target u =
      let first =
        entry at "Recommendation Created" (fmt.created_reason input.recommendation) ""
          (status_text target) in
      let second =
        entry at "Status Changed" "initial activation from validated recommendation"
          (status_text created) (status_text target) in
      let begun =
        move_to created first
          (record u { rec = record u.rec { confidence = input.confidence; updated_at = at } }) in
      if status_beq target created then begun else move_to target second begun

  unfoldable pub note_confidence : Updated F → Updated F
  note_confidence u =
      let old = u.rec.confidence in
      let up =
        entry at "Confidence Increased" "validated recommendation confidence increased"
          (fmt.fixed4 old) (fmt.fixed4 input.confidence) in
      let down =
        entry at "Confidence Decreased" "validated recommendation confidence decreased"
          (fmt.fixed4 old) (fmt.fixed4 input.confidence) in
      let rec' = record u.rec { confidence = input.confidence; updated_at = at } in
      if n.lt old input.confidence
      then record { rec = rec'; timeline = u.timeline ++ up ∷ []; latest = some up }
      else if n.lt input.confidence old
      then record { rec = rec'; timeline = u.timeline ++ down ∷ []; latest = some down }
      else record { rec = rec'; timeline = u.timeline; latest = none }

  abbrev pub or_last : Updated F → Updated F
  or_last u = elim u.latest [
    | none ↦ record u { latest = last_timeline_entry u.timeline }
    | some e ↦ u
  ]

  unfoldable pub follow : Status → Updated F → Updated F
  follow target u =
      let status = u.rec.current_status in
      let leaving =
        entry at "Exit Recommended" "validated recommendation suggests exit" (status_text status)
          (status_text exit_recommended) in
      let changed =
        entry at "Status Changed" "validated recommendation status changed" (status_text status)
          (status_text target) in
      if status_beq target exit_recommended
        && not (status_beq status exit_recommended)
        && not (status_beq status closed)
      then move_to exit_recommended leaving u
      else if not (status_beq target status) && not (status_beq status closed)
      then move_to target changed u
      else or_last u

  unfoldable pub apply_valid_update : Updated F → Updated F
  apply_valid_update u =
      let target = map_recommendation_to_status input.recommendation in
      elim u.rec.recommendation_id [
        | none ↦ create target u
        | some id ↦ follow target (note_confidence u)
      ]

  unfoldable pub apply_rejection : Updated F → Updated F
  apply_rejection u =
      let reason = elim input.rejection_reasons as (λ _. String) [
        | [] ↦ "validation rejected"
        | r ∷ rs ↦ fmt.join (r ∷ rs)
      ] in
      let e = entry at "Closed" reason (status_text u.rec.current_status) (status_text closed) in
      elim u.rec.recommendation_id [
        | none ↦ record u { latest = none }
        | some id ↦
            if status_beq u.rec.current_status closed
            then record u { latest = last_timeline_entry u.timeline }
            else move_to closed e
                (record u { rec = record u.rec { updated_at = at; closed_at = some at } })
      ]

  unfoldable pub apply_update : Updated F → Updated F
  apply_update u =
      if input.validation_status == "REJECTED" then apply_rejection u else apply_valid_update u
