-- ===== src/Market/Registry/Mirror.antt =====
-- The registry's two maps are inverse to each other (registry.go).
use option_engine.Common.{
  ◌≡◌, ◌≢◌, sym, ap, subst, ◌∙◌, inl, inr, false, String, none, some, List, [], ◌∷◌, arith, ◌==◌,
  ==_iff, ==_refl, string_eq, Bool-cases, Option-cases,
}
use option_engine.Common.Dict.{Dict, get, put, has, get-put, get-put_self, get-put_ne, get-remove}
use option_engine.Market.Registry.{Instrument, Registry, enter, load_loop, drop_symbol, drop_token}

-- An instrument stands under a symbol exactly if that is its symbol and it stands under its token,
-- and the other way round.
pub record Mirror {F : Type 0} (r : Registry F) : Type 0 where
  pub symbols :
      (s : String) (i : Instrument F)
      → get s r.by_symbol ≡ some i
      → (i.symbol ≡ s) × (get i.token r.by_token ≡ some i)
  pub tokens :
      (t : String) (i : Instrument F)
      → get t r.by_token ≡ some i
      → (i.token ≡ t) × (get i.symbol r.by_symbol ≡ some i)

module _ {F : Type 0} where
  -- An instrument is entered where no other holds its symbol or its token in only one of the maps.
  pub enter-Mirror :
      (i : Instrument F) (r : Registry F)
      → ((s : String) (j : Instrument F)
          → (i.symbol == s) ≡ false
          → get s r.by_symbol ≡ some j
          → (j.symbol ≡ s) × (get j.token r.by_token ≡ some j) × (i.token ≢ j.token))
      → ((t : String) (j : Instrument F)
          → (i.token == t) ≡ false
          → get t r.by_token ≡ some j
          → (j.token ≡ t) × (get j.symbol r.by_symbol ≡ some j) × (i.symbol ≢ j.symbol))
      → Mirror (enter i r)
  unfolding enter
  enter-Mirror i r hs ht = record {
    symbols = λ s j h. elim (Bool-cases (i.symbol == s)) [
      | inl y ↦
          let same : i ≡ j = ground (arith, get-put i.symbol s i r.by_symbol, y, h) in
          subst
            (λ (x : Instrument F).
              (x.symbol ≡ s) × (get x.token (put i.token i r.by_token) ≡ some x))
            same ((==_iff i.symbol s).0 y, get-put_self i.token i r.by_token)
      | inr n ↦
          let (a, b, apart) = hs s j n (ground (arith, get-put i.symbol s i r.by_symbol, n, h)) in
          (a, get-put_ne i.token j.token i r.by_token apart ∙ b)
    ];
    tokens = λ t j h. elim (Bool-cases (i.token == t)) [
      | inl y ↦
          let same : i ≡ j = ground (arith, get-put i.token t i r.by_token, y, h) in
          subst
            (λ (x : Instrument F).
              (x.token ≡ t) × (get x.symbol (put i.symbol i r.by_symbol) ≡ some x))
            same ((==_iff i.token t).0 y, get-put_self i.symbol i r.by_symbol)
      | inr n ↦
          let (a, b, apart) = ht t j n (ground (arith, get-put i.token t i r.by_token, n, h)) in
          (a, get-put_ne i.symbol j.symbol i r.by_symbol apart ∙ b)
    ];
  }

  absent :
      (m : Dict String (Instrument F)) (k l : String) (j : Instrument F)
      → has k m ≡ false
      → get l m ≡ some j
      → k ≢ l
  absent m k l j missing found e = ground (arith, ap (λ x. get x m) e, found, missing)

  enter_new-Mirror :
      (i : Instrument F) (r : Registry F)
      → has i.symbol r.by_symbol ≡ false
      → has i.token r.by_token ≡ false
      → Mirror r
      → Mirror (enter i r)
  enter_new-Mirror i r no_symbol no_token m =
      enter-Mirror i r
        (λ s j n h.
          let (a, b) = m.symbols s j h in (a, b, absent r.by_token i.token j.token j no_token b))
        (λ t j n h.
          let (a, b) = m.tokens t j h in (a, b, absent r.by_symbol i.symbol j.symbol j no_symbol b))

  pub load_loop-Mirror :
      (is : List (Instrument F)) (r r' : Registry F)
      → load_loop is r ≡ inr r'
      → Mirror r
      → Mirror r'
  unfolding load_loop
  load_loop-Mirror [] r r' e m = subst Mirror (ground (arith, e)) m
  load_loop-Mirror (i ∷ is) r r' e m =
      load_loop-Mirror is (enter i r) r' (ground (arith, e))
        (enter_new-Mirror i r (ground (arith, e)) (ground (arith, e)) m)

  -- What dropping the holder of a symbol leaves under the tokens.
  pub drop_symbol_sub :
      (s t : String) (j : Instrument F) (r : Registry F)
      → get t (drop_symbol s r).by_token ≡ some j
      → get t r.by_token ≡ some j
  unfolding drop_symbol
  drop_symbol_sub s t j r h = elim (Option-cases (get s r.by_symbol)) [
    | inl e ↦ ground (arith, e, h)
    | inr (o, e) ↦ ground (arith, e, h, get-remove o.token t r.by_token)
  ]

  pub drop_symbol_keep :
      (s t : String) (j : Instrument F) (r : Registry F)
      → Mirror r
      → get t r.by_token ≡ some j
      → j.symbol ≢ s
      → get t (drop_symbol s r).by_token ≡ some j
  unfolding drop_symbol
  drop_symbol_keep s t j r m h apart = elim (Option-cases (get s r.by_symbol)) [
    | inl e ↦ ground (arith, e, h)
    | inr (o, e) ↦ elim (Bool-cases (o.token == t)) [
      | inr n ↦ ground (arith, e, h, n, get-remove o.token t r.by_token)
      | inl y ↦
          let (a, b) = m.symbols s o e in
          let same : o ≡ j = cc (b, ap (λ k. get k r.by_token) ((==_iff o.token t).0 y), h) in
          absurd (apart (sym (ap (λ (x : Instrument F). x.symbol) same) ∙ a))
    ]
  ]

  pub drop_symbol_apart :
      (s t : String) (j : Instrument F) (r : Registry F)
      → Mirror r
      → get t (drop_symbol s r).by_token ≡ some j
      → s ≢ j.symbol
  unfolding drop_symbol
  drop_symbol_apart s t j r m h e =
      let (a, b) = m.tokens t j (drop_symbol_sub s t j r h) in
      let here : get s r.by_symbol ≡ some j = ap (λ k. get k r.by_symbol) e ∙ b in
      let gone = get-remove j.token t r.by_token in
      ground (arith, here, h, gone, ==_iff j.token t, a)

  pub drop_token_sub :
      (t s : String) (j : Instrument F) (r : Registry F)
      → get s (drop_token t r).by_symbol ≡ some j
      → get s r.by_symbol ≡ some j
  unfolding drop_token
  drop_token_sub t s j r h = elim (Option-cases (get t r.by_token)) [
    | inl e ↦ ground (arith, e, h)
    | inr (o, e) ↦ ground (arith, e, h, get-remove o.symbol s r.by_symbol)
  ]

  pub drop_token_keep :
      (t s : String) (j : Instrument F) (r : Registry F)
      → ((o : Instrument F) → get t r.by_token ≡ some o → o.symbol ≢ s)
      → get s r.by_symbol ≡ some j
      → get s (drop_token t r).by_symbol ≡ some j
  unfolding drop_token
  drop_token_keep t s j r apart h = elim (Option-cases (get t r.by_token)) [
    | inl e ↦ ground (arith, e, h)
    | inr (o, e) ↦ elim (Bool-cases (o.symbol == s)) [
      | inl y ↦ absurd (apart o e ((==_iff o.symbol s).0 y))
      | inr n ↦ ground (arith, e, h, n, get-remove o.symbol s r.by_symbol)
    ]
  ]

  pub drop_token_gone :
      (t : String) (j : Instrument F) (r : Registry F)
      → get t r.by_token ≡ some j
      → get j.symbol (drop_token t r).by_symbol ≡ none
  unfolding drop_token
  drop_token_gone t j r e =
      ground (arith, e, get-remove j.symbol j.symbol r.by_symbol, ==_refl j.symbol)
