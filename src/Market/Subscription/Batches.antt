-- ===== src/Market/Subscription/Batches.antt =====
-- What a provider gets to see (manager.go, `call`).
use option_engine.Common.{
  ℕ, zero, suc, ◌≤◌, ◌≡◌, refl, ap, ◌∙◌, ◌⊎◌, inl, inr, Bool, true, false, String, List, [], ◌∷◌,
  ◌++◌, arith, Bool-cases, length, take, drop, All, take-append-drop, length-drop,
}
use mathlib.Core.List.{append_assoc, append-nil}
use option_engine.Market.Subscription.{call_loop, call}

abbrev pub join : List (List String) → List String
join [] = []
join (b ∷ bs) = b ++ join bs

length-take_pos : (n : ℕ) (x : String) (xs : List String) → 1 ≤ n → 1 ≤ length (take n (x ∷ xs))
length-take_pos zero x xs h = absurd (omega arith)
length-take_pos (suc n) x xs h = omega arith

length-take_le : (n : ℕ) (xs : List String) → length (take n xs) ≤ n
length-take_le zero xs = omega arith
length-take_le (suc n) [] = omega arith
length-take_le (suc n) (x ∷ xs) = omega (arith, length-take_le n xs)

-- What the provider answers: each call but the last succeeds, and none follows one that fails; `ok`
-- says that no call failed.
abbrev pub Answered : (List String → Bool) → List (List String) → Bool → Type 0
Answered fails [] ok = ok ≡ true
Answered fails (b ∷ bs) ok =
    ((fails b ≡ true) × (bs ≡ []) × (ok ≡ false)) ⊎ ((fails b ≡ false) × Answered fails bs ok)

-- The batches have one symbol at least and `batch` at most, together they are the first symbols asked
-- for, the provider answered them, and unless it failed they are all of the symbols.
pub record Covers (fails : List String → Bool) (batch : ℕ) (ss : List String)
    (sent : List (List String)) (ok : Bool) : Type 0 where
  pub sized : All (λ b. (1 ≤ length b) × (length b ≤ batch)) sent
  pub rest : List String
  pub prefix : join sent ++ rest ≡ ss
  pub answered : Answered fails sent ok
  pub complete : (ok ≡ false) ⊎ (join sent ≡ ss)

call_loop-Covers :
    (f : ℕ) (fails : List String → Bool) (batch : ℕ) (ss : List String)
    → 1 ≤ batch
    → length ss ≤ f
    → let (sent, ok) = call_loop f fails batch ss in Covers fails batch ss sent ok
unfolding call_loop
call_loop-Covers zero fails batch [] h k = record {
  sized = tt;
  rest = [];
  prefix = refl;
  answered = refl;
  complete = inr refl;
}
call_loop-Covers zero fails batch (s ∷ ss) h k = absurd (omega (arith, k))
call_loop-Covers (suc f) fails batch [] h k = record {
  sized = tt;
  rest = [];
  prefix = refl;
  answered = refl;
  complete = inr refl;
}
call_loop-Covers (suc f) fails batch (s ∷ ss) h k =
    let all = s ∷ ss in
    let v =
      call_loop-Covers f fails batch (drop batch all) h
        (omega (arith, k, h, length-drop batch all)) in
    let few = length-take_pos batch s ss h in
    let small = length-take_le batch all in
    let split = take-append-drop batch all in
    elim (Bool-cases (fails (take batch all))) [
      | inl bad ↦
          rw (bad, call_loop)
            (record {
              sized = ((few, small), tt);
              rest = drop batch all;
              prefix = ap (λ x. x ++ drop batch all) (append-nil (take batch all)) ∙ split;
              answered = inl (bad, refl, refl);
              complete = inl refl;
            })
      | inr good ↦
          rw (good, call_loop)
            (record {
              sized = ((few, small), v.sized);
              rest = v.rest;
              prefix =
                  append_assoc (take batch all) _ v.rest
                  ∙ ap (λ x. take batch all ++ x) v.prefix
                  ∙ split;
              answered = inr (good, v.answered);
              complete = elim v.complete [
                | inl bad ↦ inl bad
                | inr e ↦ inr (ap (λ x. take batch all ++ x) e ∙ split)
              ];
            })
    ]

-- Each call to the provider has at least one symbol and at most a batch of them, and the calls are
-- the symbols asked for, in order and without repetition or gap. No call follows one that fails; if
-- none fails, `call` reports so and the calls are all of the symbols, and if one fails, `call`
-- reports that. A batch is at least one symbol, as `New` makes it.
pub call-Covers :
    (fails : List String → Bool) (batch : ℕ) (ss : List String)
    → 1 ≤ batch
    → let (sent, ok) = call fails batch ss in Covers fails batch ss sent ok
unfolding call
call-Covers fails batch ss h = call_loop-Covers (length ss) fails batch ss h (omega arith)
