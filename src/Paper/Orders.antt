-- ===== src/Paper/Orders.antt =====
-- Order numbers (cache.go, `nextOrderID`; executor.go): every order is recorded, under the decimal
-- text of its place.
use option_engine.Common.{
  ℕ, ◌+◌, ◌≤◌, ◌<◌, ◌^◌, ◌≡◌, refl, sym, ap, ◌∙◌, inl, inr, Bool, true, false, Option, none, some,
  List, [], ◌∷◌, ◌++◌, arith, ◌==◌, string_eq, Bool-cases, Option-cases, length, length-append,
  get_elem?, get_elem?-snoc, length_of_get_elem?,
}
use option_engine.Common.Int.{u64}
use option_engine.Common.Float.{Float}
use option_engine.Format.{Bytes, format_order_id, format-injective}
use option_engine.Paper.{
  Text, Config, ApprovedTradeIntent, ExecutionReport, Cache, new_cache, new_engine, Engine,
  record_health, publish, next_order_id, is_incomplete, record_report, apply, report_of, reject,
  fill, default_price_value, requires_market_price, not_positive, execute, handle, handle_all,
}

-- The orders so far are numbered from 1, and the counter is at the last of them.
pub record Inv {F : Type 0} (c : Cache F) : Type 0 where
  pub counted : c.order_counter ≡ length c.executed
  pub numbered :
      (i : ℕ) (r : ExecutionReport F)
      → get_elem? c.executed i ≡ some r
      → r.order_id ≡ format_order_id (i + 1)

-- What every run of `Execute` does to the order log.
abbrev pub Logs : {F : Type 0} → Cache F → Cache F → ExecutionReport F → Type 0
Logs c c' r =
    (c'.order_counter ≡ u64 (c.order_counter + 1))
    × (c'.executed ≡ c.executed ++ r ∷ [])
    × (r.order_id ≡ format_order_id (u64 (c.order_counter + 1)))

module _ {F : Type 0} ⦃n : Float F⦄ (text : Text F) (cfg : Config F)
    (i : ApprovedTradeIntent F) where
  fill-Logs :
      (c : Cache F) (order_id : Bytes) (p : F)
      → let (c', r) = fill text cfg c i order_id p in
        (c'.order_counter ≡ c.order_counter)
        × (c'.executed ≡ c.executed ++ r ∷ [])
        × (r.order_id ≡ order_id)
  unfolding fill reject record_report apply report_of
  fill-Logs c order_id p = ground arith

  -- `Execute` ends in `fill`, or refuses for want of a market price.
  pub execute_cases {ℓ} :
      (c : Cache F) (P : Cache F × ExecutionReport F → Type ℓ)
      → let (order_id, c') = next_order_id c in
        ((p : F) → P (fill text cfg c' i order_id p))
        → P (reject text c' i order_id "market reference price unavailable")
        → P (execute text cfg i c)
  unfolding execute
  execute_cases c P filled refused = elim (Bool-cases (not_positive text i.reference_price)) [
    | inr fine ↦ rw (fine, execute) (filled i.reference_price)
    | inl low ↦ elim (Option-cases (default_price_value text cfg)) [
      | inr (p, e) ↦ rw (low, e, execute) (filled p)
      | inl e ↦ elim (Bool-cases (requires_market_price text cfg)) [
        | inl m ↦ rw (low, e, m, execute) refused
        | inr m ↦ rw (low, e, m, execute) (filled i.reference_price)
      ]
    ]
  ]

  execute-Logs : (c : Cache F) → let (c', r) = execute text cfg i c in Logs c c' r
  execute-Logs c =
      execute_cases c (λ o. Logs c o.0 o.1)
        (λ p.
          let (id, c') = next_order_id c in
          unfold next_order_id in ground (arith, fill-Logs c' id p))
        (unfold next_order_id reject record_report report_of in ground arith)

  -- An event is dropped, or executed, and its report is published if it can be encoded.
  pub handle_cases {ℓ} :
      (cancelled : Bool) (e : Engine F) (P : Engine F × Option (ExecutionReport F) → Type ℓ)
      → P (e, none)
      → (let (c', r) = execute text cfg i e.cache in
          is_incomplete i ≡ false
          → text.encodes r.execution_price ≡ true
          → P (record { cache = c'; health = record_health e.health r }, some r))
      → (let (c', r) = execute text cfg i e.cache in
          text.encodes r.execution_price ≡ false
          → P (record { cache = c'; health = e.health }, none))
      → P (handle text cfg cancelled i e)
  unfolding handle publish
  handle_cases cancelled e P dropped published silent = elim (Bool-cases (is_incomplete i)) [
    | inl b ↦ rw (b, handle) dropped
    | inr b ↦ elim (Bool-cases (i.status == "APPROVED")) [
      | inr a ↦ rw (b, a, handle) dropped
      | inl a ↦ elim (Bool-cases cancelled) [
        | inl d ↦ rw (b, a, d, handle) dropped
        | inr d ↦
            let (c', r) = execute text cfg i e.cache in
            elim (Bool-cases (text.encodes r.execution_price)) [
              | inl k ↦ rw (b, a, d, k, handle) (published b k)
              | inr k ↦ rw (b, a, d, k, handle) (silent k)
            ]
      ]
    ]
  ]

Logs-Inv :
    {F : Type 0} (c c' : Cache F) (r : ExecutionReport F)
    → Logs c c' r
    → length c.executed + 1 < 2 ^ 64
    → Inv c
    → Inv c'
Logs-Inv c c' r (n, e, o) h v = record {
  counted = rw e (omega (arith, n, v.counted, length-append c.executed (r ∷ [])));
  numbered = λ j s at. elim (get_elem?-snoc c.executed r s j (rw e at at)) [
    | inl old ↦ v.numbered j s old
    | inr (last, same) ↦ rw (← same, o) (ap format_order_id (omega (arith, v.counted, last)))
  ];
}

handle_all-Inv :
    {F : Type 0} ⦃n : Float F⦄ (text : Text F) (cfg : Config F)
    (is : List (Bool × ApprovedTradeIntent F)) (e : Engine F)
    → Inv e.cache
    → length e.cache.executed + length is < 2 ^ 64
    → let c = (handle_all text cfg is e).cache in
      Inv c × (length c.executed ≤ length e.cache.executed + length is)
unfolding handle_all
handle_all-Inv text cfg [] e v h = (v, omega arith)
handle_all-Inv text cfg ((cancelled, i) ∷ is) e v h =
    let (c', r) = execute text cfg i e.cache in
    let logs = execute-Logs text cfg i e.cache in
    let after : Inv c' × (length c'.executed ≤ length e.cache.executed + 1) = (
      Logs-Inv e.cache c' r logs (omega arith) v,
      rw logs.1 (omega (arith, length-append e.cache.executed (r ∷ []))),
    ) in
    let (v', grows) =
      handle_cases text cfg i cancelled e
        (λ o. Inv o.0.cache × (length o.0.cache.executed ≤ length e.cache.executed + 1))
        (v, omega arith) (λ _ _. after) (λ _. after) in
    let (w, bound) =
      handle_all-Inv text cfg is (handle text cfg cancelled i e).0 v' (omega arith) in
    (w, omega arith)

-- Two orders of a session never carry the same identifier: places in the log whose reports have the
-- same order id are the same place. The session starts empty and sees fewer than 2^64 intents.
pub order_ids_distinct :
    {F : Type 0} ⦃n : Float F⦄ (text : Text F) (cfg : Config F)
    (is : List (Bool × ApprovedTradeIntent F)) (j k : ℕ) (r s : ExecutionReport F)
    → length is < 2 ^ 64
    → get_elem? (handle_all text cfg is new_engine).cache.executed j ≡ some r
    → get_elem? (handle_all text cfg is new_engine).cache.executed k ≡ some s
    → r.order_id ≡ s.order_id
    → j ≡ k
unfolding new_cache new_engine
order_ids_distinct text cfg is j k r s h at_j at_k e =
    let (v, bound) =
      handle_all-Inv text cfg is new_engine (record { counted = refl; numbered = λ i t a. cc })
        (omega arith) in
    let done = (handle_all text cfg is new_engine).cache.executed in
    let same =
      format-injective (j + 1) (k + 1) (omega (arith, length_of_get_elem? done j r at_j))
        (omega (arith, length_of_get_elem? done k s at_k))
        (sym (v.numbered j r at_j) ∙ e ∙ v.numbered k s at_k) in
    omega (arith, same)

-- What `drain` reads after the context is cancelled is lost: the events change nothing and no
-- report is published.
pub drained_orders_dropped :
    {F : Type 0} ⦃n : Float F⦄ (text : Text F) (cfg : Config F) (i : ApprovedTradeIntent F)
    (e : Engine F)
    → handle text cfg true i e ≡ (e, none)
unfolding handle
drained_orders_dropped text cfg i e = ground arith
