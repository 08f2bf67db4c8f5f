-- ===== src/Indicator/Ring.antt =====
-- A slice that is overwritten in a circle holds the last elements of what was written.
use option_engine.Common.{
  ℕ, suc, ◌+◌, ◌-◌, ◌%◌, ◌≤◌, ◌<◌, ◌≡◌, refl, sym, ap, ◌∙◌, some, List, [], ◌∷◌, ◌++◌, arith,
  length, take, drop, get_elem?, length-append, Bool-cases, ltb, ltb→lt, inl, inr, ◌⊎◌,
}
use mathlib.Core.List.{append_assoc, append-nil}
use native.Mathlib.Nat.{mod-lt, mod-eq_of_lt, mod_self}
use option_engine.Common.Arrays.{
  set, repeat, length-repeat, length-set, drop_at, drop_all, take_all, take-set, drop-set,
  drop-snoc,
}

module _ {ℓ} {A : Type ℓ} where
  -- The last `p` elements.
  abbrev pub window : ℕ → List A → List A
  window p h = drop (length h - p) h

  -- Fewer than `p` elements so far, from the front.
  pub record IsFilling (p : ℕ) (buf : List A) (idx : ℕ) (h : List A) : Type ℓ where
    pub sized : length buf ≡ p
    pub at_start : idx ≡ 0
    pub short : length h ≤ p
    pub holds : take (length h) buf ≡ h

  -- The buffer read from `idx` round to `idx` is the window.
  pub record IsFull (p : ℕ) (buf : List A) (idx : ℕ) (h : List A) : Type ℓ where
    pub sized : length buf ≡ p
    pub enough : p ≤ length h
    pub inside : idx < p
    pub holds : drop idx buf ++ take idx buf ≡ window p h

  pub length-snoc : (h : List A) (x : A) → length (h ++ x ∷ []) ≡ suc (length h)
  length-snoc h x = omega (arith, length-append h (x ∷ []))

  pub repeat-IsFilling : (p : ℕ) (x : A) → IsFilling p (repeat p x) 0 []
  repeat-IsFilling p x = record {
    sized = length-repeat p x;
    at_start = refl;
    short = omega arith;
    holds = refl;
  }

  pub set-IsFilling :
      (p : ℕ) (buf : List A) (idx : ℕ) (h : List A) (x : A)
      → IsFilling p buf idx h
      → length h < p
      → IsFilling p (set buf (length h) x) idx (h ++ x ∷ [])
  set-IsFilling p buf idx h x r l = record {
    sized = length-set buf (length h) x ∙ r.sized;
    at_start = r.at_start;
    short = omega (arith, length-snoc h x);
    holds =
        rw (length-snoc h x)
          (take-set buf (length h) x (omega (arith, r.sized)) ∙ ap (λ l. l ++ x ∷ []) r.holds);
  }

  pub IsFilling-IsFull :
      (p : ℕ) (buf : List A) (idx : ℕ) (h : List A)
      → 0 < p
      → IsFilling p buf idx h
      → length h ≡ p
      → IsFull p buf idx h
  IsFilling-IsFull p buf idx h z r e = record {
    sized = r.sized;
    enough = omega (arith, e);
    inside = omega (arith, r.at_start);
    holds =
        let none_gone : length h - p ≡ 0 = omega (arith, e) in
        rw (r.at_start, none_gone, append-nil)
          (sym (take_all (length h) buf (omega (arith, r.sized, e))) ∙ r.holds);
  }

  abbrev tail : List A → List A
  tail [] = []
  tail (x ∷ xs) = xs

  -- The window moves on by one element.
  pub window-snoc :
      (p : ℕ) (h : List A) (x o : A) (w : List A)
      → 0 < p
      → p ≤ length h
      → window p h ≡ o ∷ w
      → window p (h ++ x ∷ []) ≡ w ++ x ∷ []
  window-snoc p h x o w z l e =
      let at = drop_at h (length h - p) (omega arith) in
      let rest : drop (suc (length h - p)) h ≡ w = ap tail (sym at.2 ∙ e) in
      let n : length (h ++ x ∷ []) - p ≡ suc (length h - p) = omega (arith, length-snoc h x) in
      rw n (drop-snoc (suc (length h - p)) h x (omega arith) ∙ ap (λ l. l ++ x ∷ []) rest)

  -- What the calculators keep of the ring, in either phase.
  abbrev pub Ring : ℕ → List A → ℕ → List A → Type ℓ
  Ring p buf idx h = (IsFilling p buf idx h × (length h < p)) ⊎ IsFull p buf idx h

  pub settle :
      (p : ℕ) (buf : List A) (idx : ℕ) (h : List A)
      → 0 < p
      → IsFilling p buf idx h
      → Ring p buf idx h
  settle p buf idx h z r = elim (Bool-cases (ltb (length h) p)) [
    | inl y ↦ inl (r, ltb→lt (length h) p y)
    | inr n ↦ inr (IsFilling-IsFull p buf idx h z r (ground (arith, n, r.short)))
  ]

  -- Reading round from `idx` after the element at `idx` is overwritten: the oldest one is gone, and
  -- the new one is last.
  turn :
      (p : ℕ) (buf : List A) (idx : ℕ) (x o : A) (w : List A)
      → length buf ≡ p
      → idx < p
      → drop idx buf ++ take idx buf ≡ o ∷ w
      → drop ((idx + 1) % p) (set buf idx x) ++ take ((idx + 1) % p) (set buf idx x) ≡ w ++ x ∷ []
  turn p buf idx x o w e i h =
      let at = drop_at buf idx (omega (arith, e)) in
      let rest : drop (suc idx) buf ++ take idx buf ≡ w =
        ap tail (sym (ap (λ l. l ++ take idx buf) at.2) ∙ h) in
      let written : take (suc idx) (set buf idx x) ≡ take idx buf ++ x ∷ [] =
        take-set buf idx x (omega (arith, e)) in
      elim (Bool-cases (ltb (idx + 1) p)) [
        | inl y ↦
            let m : (idx + 1) % p ≡ suc idx = omega (arith, mod-eq_of_lt (ltb→lt (idx + 1) p y)) in
            rw (m, drop-set buf idx x, written)
              (sym (append_assoc (drop (suc idx) buf) (take idx buf) (x ∷ []))
                ∙ ap (λ l. l ++ x ∷ []) rest)
        | inr n ↦
            let last : suc idx ≡ p = ground (arith, n) in
            let lasting : idx + 1 ≡ p = omega (arith, last) in
            let m : (idx + 1) % p ≡ 0 = rw lasting (mod_self p) in
            let whole : take (suc idx) (set buf idx x) ≡ set buf idx x =
              take_all (suc idx) (set buf idx x) (omega (arith, length-set buf idx x, e, last)) in
            let gone : drop (suc idx) buf ≡ [] = drop_all (suc idx) buf (omega (arith, e, last)) in
            rw m (
              append-nil (set buf idx x)
              ∙ sym whole
              ∙ written
              ∙ ap (λ l. l ++ x ∷ []) (rw gone at rest))
      ]

  -- The element at `idx` is the oldest of the window.
  pub oldest :
      (p : ℕ) (buf : List A) (idx : ℕ) (h : List A)
      → IsFull p buf idx h
      → (o : A) × (w : List A) × (get_elem? buf idx ≡ some o) × (window p h ≡ o ∷ w)
  oldest p buf idx h r =
      let at = drop_at buf idx (omega (arith, r.inside, r.sized)) in
      (
        at.0,
        drop (suc idx) buf ++ take idx buf,
        at.1,
        sym r.holds ∙ ap (λ l. l ++ take idx buf) at.2,
      )

  pub slide-IsFull :
      (p : ℕ) (buf : List A) (idx : ℕ) (h : List A) (x : A)
      → IsFull p buf idx h
      → IsFull p (set buf idx x) ((idx + 1) % p) (h ++ x ∷ [])
  slide-IsFull p buf idx h x r =
      let z : 0 < p = omega (arith, r.inside) in
      let first = oldest p buf idx h r in
      record {
        sized = length-set buf idx x ∙ r.sized;
        enough = omega (arith, length-snoc h x, r.enough);
        inside = mod-lt (idx + 1) z;
        holds =
            turn p buf idx x first.0 first.1 r.sized r.inside (r.holds ∙ first.3)
            ∙ sym (window-snoc p h x first.0 first.1 z r.enough first.3);
      }
