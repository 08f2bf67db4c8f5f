-- ===== src/Market/Registry/Inverse.antt =====
-- Every operation keeps the registry's two maps inverse to each other (registry.go).
use option_engine.Common.{
  ◌≡◌, ◌≢◌, refl, sym, ap, ◌∙◌, ◌⊎◌, inl, inr, ◌||◌, String, some, List, [], ◌∷◌, arith, ◌==◌,
  ==_iff, string_eq, Bool-cases,
}
use option_engine.Common.Dict.{get}
use option_engine.Market.Registry.{
  Instrument, Registry, new_registry, enter, load_loop, load, drop_symbol, drop_token, register,
}
use option_engine.Market.Registry.Mirror.{
  Mirror, enter-Mirror, load_loop-Mirror, drop_symbol_sub, drop_symbol_keep, drop_symbol_apart,
  drop_token_sub, drop_token_keep, drop_token_gone,
}

module _ {F : Type 0} where
  symbols-drop : (s : String) (r : Registry F) → (drop_symbol s r).by_symbol ≡ r.by_symbol
  unfolding drop_symbol
  symbols-drop s r = ground arith

  tokens-drop : (t : String) (r : Registry F) → (drop_token t r).by_token ≡ r.by_token
  unfolding drop_token
  tokens-drop t r = ground arith

  register_entered-Mirror :
      (i : Instrument F) (r : Registry F)
      → Mirror r
      → Mirror (enter i (drop_token i.token (drop_symbol i.symbol r)))
  register_entered-Mirror i r m =
      let r1 = drop_symbol i.symbol r in
      let r2 = drop_token i.token r1 in
      enter-Mirror i r2
        (λ s j n h.
          let in_r1 = drop_token_sub i.token s j r1 h in
          let (a, b) = m.symbols s j (ap (λ k. get s k) (sym (symbols-drop i.symbol r)) ∙ in_r1) in
          let apart : j.symbol ≢ i.symbol = λ e. ground (arith, n, ==_iff i.symbol s, sym e ∙ a) in
          let kept = drop_symbol_keep i.symbol j.token j r m b apart in
          let lost : i.token ≢ j.token = λ e.
            let gone = drop_token_gone i.token j r1 (ap (λ k. get k r1.by_token) e ∙ kept) in
            cc (gone, ap (λ k. get k r2.by_symbol) a, h) in
          (a, ap (λ k. get j.token k) (tokens-drop i.token r1) ∙ kept, lost))
        (λ t j n h.
          let in_r1 : get t r1.by_token ≡ some j =
            ap (λ k. get t k) (sym (tokens-drop i.token r1)) ∙ h in
          let in_r = drop_symbol_sub i.symbol t j r in_r1 in
          let (a, b) = m.tokens t j in_r in
          let other' : (o : Instrument F) → get i.token r1.by_token ≡ some o → o.symbol ≢ j.symbol =
            λ o f e.
              let (c, d) = m.tokens i.token o (drop_symbol_sub i.symbol i.token o r f) in
              let same : o ≡ j = cc (d, ap (λ k. get k r.by_symbol) e, b) in
              let tokens : i.token ≡ t = sym c ∙ ap (λ (x : Instrument F). x.token) same ∙ a in
              ground (arith, n, ==_iff i.token t, tokens) in
          (
            a,
            drop_token_keep i.token j.symbol j r1 other'
                (ap (λ k. get j.symbol k) (symbols-drop i.symbol r) ∙ b),
            drop_symbol_apart i.symbol t j r m in_r1,
          ))

sum_cases {ℓ κ} :
    {A : Type ℓ} {B : Type κ} (s : A ⊎ B) → ((a : A) × (s ≡ inl a)) ⊎ ((b : B) × (s ≡ inr b))
sum_cases (inl a) = inl (a, refl)
sum_cases (inr b) = inr (b, refl)

-- The operations of the registry.
pub data Operation (F : Type 0) : Type 0 where
  loads : List (Instrument F) → Operation F
  registers : Instrument F → Operation F

module _ {F : Type 0} where
  abbrev pub run : Operation F → Registry F → Registry F
  run (loads is) r = (load is r).0
  run (registers i) r = (register i r).0

  abbrev pub run_all : List (Operation F) → Registry F → Registry F
  run_all [] r = r
  run_all (o ∷ os) r = run_all os (run o r)

  new_registry-Mirror : Mirror (new_registry {F = F})
  unfolding new_registry
  new_registry-Mirror = record {
    symbols = λ s i h. unfold get in cc;
    tokens = λ t i h. unfold get in cc;
  }

  load-Mirror : (is : List (Instrument F)) (r : Registry F) → Mirror r → Mirror (load is r).0
  unfolding load
  load-Mirror is r m = elim (sum_cases (load_loop is new_registry)) [
    | inl (e, h) ↦ rw (h, load) m
    | inr (r', h) ↦ rw (h, load) (load_loop-Mirror is new_registry r' h new_registry-Mirror)
  ]

  register-Mirror : (i : Instrument F) (r : Registry F) → Mirror r → Mirror (register i r).0
  unfolding register
  register-Mirror i r m = elim (Bool-cases (i.symbol == "" || i.token == "")) [
    | inl bad ↦ rw (bad, register) m
    | inr good ↦ rw (good, register) (register_entered-Mirror i r m)
  ]

  run_all-Mirror : (os : List (Operation F)) (r : Registry F) → Mirror r → Mirror (run_all os r)
  run_all-Mirror [] r m = m
  run_all-Mirror (loads is ∷ os) r m = run_all-Mirror os (load is r).0 (load-Mirror is r m)
  run_all-Mirror (registers i ∷ os) r m = run_all-Mirror os (register i r).0 (register-Mirror i r m)

-- After any operations, loads and registrations that fail among them, on a registry that was new:
-- an instrument is found by a symbol exactly if that is its symbol and it is found by its token. So
-- no symbol and no token is left over from an instrument that was replaced.
pub registry-Mirror : {F : Type 0} (os : List (Operation F)) → Mirror (run_all os new_registry)
registry-Mirror os = run_all-Mirror os new_registry new_registry-Mirror
