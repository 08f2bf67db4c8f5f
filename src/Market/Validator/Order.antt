-- ===== src/Market/Validator/Order.antt =====
-- What the validator lets through (validator.go).
use option_engine.Common.{
  ◌≤◌, ◌<◌, ◌≡◌, ◌≢◌, refl, sym, ap, ◌∙◌, inl, inr, false, Option, none, some, List, [], ◌∷◌, arith,
  ◌==◌, ==_iff, ==_refl, string_eq, Bool-cases, Option-cases, All, All-map,
}
use option_engine.Common.Dict.{get, put, get-put}
use option_engine.Common.Int.{pos, ◌≤ℤ◌}
use option_engine.Common.Float.{Float}
use option_engine.Domain.{Instant, Tick}
use option_engine.Market.Validator.{
  ErrorCode, Validator, has_negative_price, has_negative_quantity, check_tick, check_order,
  validate, accept_all,
}

module _ {F : Type 0} ⦃n : Float F⦄ where
  -- A price that is not below zero.
  abbrev pub IsPrice : F → Type 0
  IsPrice x = n.lt x (n.of_int (pos 0)) ≡ false

  -- What every accepted tick has: a symbol, a time, and no price or quantity below zero.
  pub record IsClean (t : Tick F) : Type 0 where
    pub named : t.symbol ≢ ""
    pub timed : 0 < t.provider_ts
    pub ltp : IsPrice t.ltp
    pub open_price : IsPrice t.open_price
    pub high : IsPrice t.high
    pub low : IsPrice t.low
    pub close_price : IsPrice t.close_price
    pub bid : IsPrice t.bid
    pub ask : IsPrice t.ask
    pub volume : pos 0 ≤ℤ t.volume
    pub bid_qty : pos 0 ≤ℤ t.bid_qty
    pub ask_qty : pos 0 ≤ℤ t.ask_qty
    pub oi : pos 0 ≤ℤ t.oi

  -- The guards that an accepted tick has passed.
  passed_guards :
      (v : Validator F) (t : Tick F) (now : Instant)
      → check_tick v t now ≡ none
      → ((t.symbol == "") ≡ false)
        × (has_negative_price t ≡ false)
        × (has_negative_quantity t ≡ false)
        × (0 < t.provider_ts)
  unfolding check_tick
  passed_guards v t now h =
      (ground (arith, h), ground (arith, h), ground (arith, h), ground (arith, h))

  pub check_tick-IsClean :
      (v : Validator F) (t : Tick F) (now : Instant) → check_tick v t now ≡ none → IsClean t
  check_tick-IsClean v t now h =
      let (symbol, prices, quantities, time) = passed_guards v t now h in
      record {
        named = λ e. cc (symbol, (==_iff t.symbol "").1 e);
        timed = time;
        ltp = ground (arith, prices);
        open_price = ground (arith, prices);
        high = ground (arith, prices);
        low = ground (arith, prices);
        close_price = ground (arith, prices);
        bid = ground (arith, prices);
        ask = ground (arith, prices);
        volume = ground (arith, quantities);
        bid_qty = ground (arith, quantities);
        ask_qty = ground (arith, quantities);
        oi = ground (arith, quantities);
      }

  pub check_order-after :
      (p t : Tick F) → check_order (some p) t ≡ none → p.provider_ts ≤ t.provider_ts
  unfolding check_order
  check_order-after p t h = ground (arith, h)

  -- A tick is refused, or it passes both checks and is remembered.
  pub validate_cases {ℓ} :
      (v : Validator F) (t : Tick F) (now : Instant) (P : Validator F × Option ErrorCode → Type ℓ)
      → ((e : ErrorCode) → P (v, some e))
      → (check_tick v t now ≡ none
          → check_order (get t.symbol v.last) t ≡ none
          → P (record v { last = put t.symbol t v.last }, none))
      → P (validate v t now)
  unfolding validate
  validate_cases v t now P refused passed = elim (Option-cases (check_tick v t now)) [
    | inr (e, c) ↦ rw (c, validate) (refused e)
    | inl c ↦ elim (Option-cases (check_order (get t.symbol v.last) t)) [
      | inr (e, d) ↦ rw (c, d, validate) (refused e)
      | inl d ↦ rw (c, d, validate) (passed c d)
    ]
  ]

  abbrev pub Follows : Validator F → Tick F → Type 0
  Follows v u = (p : Tick F) → get u.symbol v.last ≡ some p → p.provider_ts ≤ u.provider_ts

  -- Each tick is clean, and no later one of its symbol is from an earlier time.
  abbrev pub Chronicle : List (Tick F) → Type 0
  Chronicle [] = Unit {0}
  Chronicle (t ∷ ts) =
      IsClean t × All (λ u. u.symbol ≡ t.symbol → t.provider_ts ≤ u.provider_ts) ts × Chronicle ts

  -- After a tick is remembered, what follows it follows what came before it, too.
  Follows-put :
      (v : Validator F) (t u : Tick F)
      → Follows v t
      → Follows (record v { last = put t.symbol t v.last }) u
      → Follows v u × (u.symbol ≡ t.symbol → t.provider_ts ≤ u.provider_ts)
  Follows-put v t u before after = (
    λ p h. elim (Bool-cases (t.symbol == u.symbol)) [
      | inl y ↦
          let same : t.symbol ≡ u.symbol = (==_iff t.symbol u.symbol).0 y in
          let low = before p (ap (λ k. get k v.last) same ∙ h) in
          omega (arith, low, after t (ground (arith, get-put t.symbol u.symbol t v.last, y)))
      | inr d ↦ after p (ground (arith, get-put t.symbol u.symbol t v.last, d, h))
    ],
    λ e. after t (get-put t.symbol u.symbol t v.last ∙ rw (e, ==_refl t.symbol) refl),
  )

  accept_all-Chronicle :
      (ts : List (Tick F × Instant)) (v : Validator F)
      → Chronicle (accept_all ts v) × All (Follows v) (accept_all ts v)
  unfolding accept_all
  accept_all-Chronicle [] v = (tt, tt)
  accept_all-Chronicle ((t, now) ∷ ts) v =
      validate_cases v t now
        (λ o.
          let rest = accept_all ts o.0 in
          let out : List (Tick F) = elim o.1 [ none ↦ t ∷ rest | some c ↦ rest ] in
          Chronicle out × All (Follows v) out)
        (λ e. accept_all-Chronicle ts v)
        (λ fine later.
          let v' = record v { last = put t.symbol t v.last } in
          let (chronicle, follows) = accept_all-Chronicle ts v' in
          let first : Follows v t =
            λ p h. check_order-after p t (ap (λ o. check_order o t) (sym h) ∙ later) in
          (
            (
              check_tick-IsClean v t now fine,
              All-map (Follows v') _ (accept_all ts v') (λ u f. (Follows-put v t u first f).1)
                  follows,
              chronicle,
            ),
            (
              first,
              All-map (Follows v') _ (accept_all ts v') (λ u f. (Follows-put v t u first f).0)
                  follows,
            ),
          ))

-- Whatever ticks arrive, and whatever the clock says: those that the validator lets through have a
-- symbol, a time, and no price or quantity below zero, and among those of one symbol the times
-- never run backwards.
pub accepted_chronological :
    {F : Type 0} ⦃n : Float F⦄ (ts : List (Tick F × Instant)) (v : Validator F)
    → Chronicle (accept_all ts v)
accepted_chronological ts v = (accept_all-Chronicle ts v).0
