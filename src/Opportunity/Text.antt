-- ===== src/Opportunity/Text.antt =====
-- The order of strings, by which internal/opportunity/ranking.go breaks ties, is a total order.
use Prim.Native.Nat.{ℕ, Ordering, compare as compare_ℕ}
use Prim.Native.Char.{Char, code}
use Prim.Native.String.{compare, then}
use Prim.Native.String.compare as clauses
use text.Mathlib.TextPositions.{compare_refl}
use text.Mathlib.TextEquality.{path_by_compare}
use option_engine.Common.{◌≡◌, refl, sym, ◌∙◌, ap, true, false, String, arith}
use option_engine.Opportunity.Ranking.{string_lt}

abbrev flip : Ordering → Ordering
flip Ordering.lt = Ordering.gt
flip Ordering.eq = Ordering.eq
flip Ordering.gt = Ordering.lt

flip-then : (o p : Ordering) → flip (then o p) ≡ then (flip o) (flip p)
flip-then Ordering.lt p = refl
flip-then Ordering.eq p = refl
flip-then Ordering.gt p = refl

nat_flip : (m n : ℕ) → compare_ℕ n m ≡ flip (compare_ℕ m n)
nat_flip m n = ground arith

nil_cons : (d : Char) (t : String) → compare String.[] (String.◌∷◌ d t) ≡ Ordering.lt
nil_cons d t = λ i. clauses.nil-cons d t i

cons_nil : (c : Char) (s : String) → compare (String.◌∷◌ c s) String.[] ≡ Ordering.gt
cons_nil c s = λ i. clauses.cons-nil c s i

cons_cons :
    (c d : Char) (s t : String)
    → compare (String.◌∷◌ c s) (String.◌∷◌ d t) ≡ then (compare_ℕ (code c) (code d)) (compare s t)
cons_cons c d s t = λ i. clauses.cons-cons c d s t i

compare-flip : (s t : String) → compare t s ≡ flip (compare s t)
compare-flip String.[] String.[] = refl
compare-flip String.[] (String.◌∷◌ d t) = cons_nil d t ∙ ap flip (sym (nil_cons d t))
compare-flip (String.◌∷◌ c s) String.[] = nil_cons c s ∙ ap flip (sym (cons_nil c s))
compare-flip (String.◌∷◌ c s) (String.◌∷◌ d t) =
    let down : compare (String.◌∷◌ d t) (String.◌∷◌ c s)
        ≡ then (compare_ℕ (code d) (code c)) (compare t s) =
      cons_cons d c t s in
    let here : then (compare_ℕ (code d) (code c)) (compare t s)
        ≡ then (flip (compare_ℕ (code c) (code d))) (flip (compare s t)) =
      λ i. then (nat_flip (code c) (code d) i) (compare-flip s t i) in
    down
    ∙ here
    ∙ sym (flip-then (compare_ℕ (code c) (code d)) (compare s t))
    ∙ ap flip (sym (cons_cons c d s t))

nat_then_trans :
    (l m n : ℕ) (o p q : Ordering)
    → (o ≡ Ordering.lt → p ≡ Ordering.lt → q ≡ Ordering.lt)
    → then (compare_ℕ l m) o ≡ Ordering.lt
    → then (compare_ℕ m n) p ≡ Ordering.lt
    → then (compare_ℕ l n) q ≡ Ordering.lt
nat_then_trans l m n o p q r h k = ground arith

compare_lt_trans :
    (s t u : String)
    → compare s t ≡ Ordering.lt
    → compare t u ≡ Ordering.lt
    → compare s u ≡ Ordering.lt
compare_lt_trans String.[] String.[] u h k = cc
compare_lt_trans String.[] (String.◌∷◌ d t) String.[] h k = cc (cons_nil d t)
compare_lt_trans String.[] (String.◌∷◌ d t) (String.◌∷◌ e u) h k = nil_cons e u
compare_lt_trans (String.◌∷◌ c s) String.[] u h k = cc (cons_nil c s)
compare_lt_trans (String.◌∷◌ c s) (String.◌∷◌ d t) String.[] h k = cc (cons_nil d t)
compare_lt_trans (String.◌∷◌ c s) (String.◌∷◌ d t) (String.◌∷◌ e u) h k =
    cons_cons c e s u
    ∙ nat_then_trans (code c) (code d) (code e) (compare s t) (compare t u) (compare s u)
        (compare_lt_trans s t u) (sym (cons_cons c d s t) ∙ h) (sym (cons_cons d e t u) ∙ k)

pub string_lt_irrefl : (s : String) → string_lt s s ≡ false
unfolding string_lt
string_lt_irrefl s = ground (arith, compare_refl s)

pub string_lt_trans :
    (s t u : String) → string_lt s t ≡ true → string_lt t u ≡ true → string_lt s u ≡ true
unfolding string_lt
string_lt_trans s t u h k = ground (arith, compare_lt_trans s t u)

-- Of two strings of which neither is less, each is the other.
pub string_lt_total : (s t : String) → string_lt s t ≡ false → string_lt t s ≡ false → s ≡ t
unfolding string_lt
string_lt_total s t h k = ground (arith, compare-flip s t, path_by_compare s t)
