-- ===== src/Format.antt =====
-- Decimal formatting of counters: `formatOrderID` of internal/execution/paper/cache.go, which the
-- health reports repeat as `u64String`. A text is the list of its bytes.
use mathlib.Core.List.{reverse, reverse-cons, append_assoc, append-nil, foldl}
use native.Mathlib.Nat.{pow-suc}
use option_engine.Common.{
  ℕ, zero, suc, ◌+◌, ◌-◌, ◌*◌, ◌/◌, ◌%◌, ◌^◌, ◌<◌, ◌≡◌, refl, sym, ap, ◌∙◌, inl, inr, List, [], ◌∷◌,
  ◌++◌, arith, nat_beq, if◌then◌else◌, Bool-cases,
}

abbrev pub Bytes : Type 0
Bytes = List ℕ

-- `for n > 0 { buf = append(buf, '0'+n%10); n /= 10 }`; the fuel is the number of rounds allowed.
unfoldable pub emit : ℕ → ℕ → Bytes → Bytes
emit zero n buf = buf
emit (suc f) n buf =
    let rest = emit f (n / 10) (buf ++ ((b'0' + n % 10) ∷ [])) in if nat_beq n 0 then buf else rest

-- A uint64 has at most 20 digits. The loop that swaps the ends of `buf` reverses it.
unfoldable pub format_order_id : ℕ → Bytes
format_order_id n = if nat_beq n 0 then b'0' ∷ [] else reverse (emit 20 n [])

-- The number that a text of digits stands for, most significant digit first.
unfoldable pub read_decimal : Bytes → ℕ
read_decimal = foldl (λ acc d. acc * 10 + (d - b'0')) 0

format_runs : format_order_id 90210 ≡ b'9' ∷ b'0' ∷ b'2' ∷ b'1' ∷ b'0' ∷ []
unfolding format_order_id emit
format_runs = refl

-- The digits of a number, least significant first.
digits : ℕ → ℕ → Bytes
digits zero n = []
digits (suc f) n =
    let rest = digits f (n / 10) in if nat_beq n 0 then [] else (b'0' + n % 10) ∷ rest

emit-digits : (f n : ℕ) (buf : Bytes) → emit f n buf ≡ buf ++ digits f n
unfolding emit digits
emit-digits zero n buf = sym (append-nil buf)
emit-digits (suc f) n buf = elim (Bool-cases (nat_beq n 0)) [
  | inl z ↦ rw (z, append-nil)
  | inr s ↦ rw (s, emit-digits f (n / 10) (buf ++ ((b'0' + n % 10) ∷ [])), append_assoc)
]

low_value : Bytes → ℕ
low_value [] = 0
low_value (d ∷ ds) = low_value ds * 10 + (d - b'0')

read_from : ℕ → Bytes → ℕ
read_from = foldl (λ acc d. acc * 10 + (d - b'0'))

read_from-append :
    (acc : ℕ) (xs ys : Bytes) → read_from acc (xs ++ ys) ≡ read_from (read_from acc xs) ys
unfolding read_from
read_from-append acc [] ys = refl
read_from-append acc (x ∷ xs) ys = read_from-append (acc * 10 + (x - b'0')) xs ys

read_decimal-reverse : (ds : Bytes) → read_decimal (reverse ds) ≡ low_value ds
unfolding read_decimal low_value read_from
read_decimal-reverse [] = refl
read_decimal-reverse (d ∷ ds) = rw (reverse-cons d ds) (
    read_from-append 0 (reverse ds) (d ∷ [])
    ∙ ap (λ v. v * 10 + (d - b'0')) (read_decimal-reverse ds))

low_value-digits : (f n : ℕ) → n < 10 ^ f → low_value (digits f n) ≡ n
unfolding low_value digits
low_value-digits zero n h = omega arith
low_value-digits (suc f) n h =
    let h' : n < 10 ^ f * 10 = rw (← pow-suc 10 f) h in
    elim (Bool-cases (nat_beq n 0)) [
      | inl z ↦ rw z (ground (arith, z))
      | inr s ↦ rw s (omega (arith, low_value-digits f (n / 10) (omega (arith, h'))))
    ]

-- Every uint64 is read back from its decimal text.
pub read-format : (n : ℕ) → n < 2 ^ 64 → read_decimal (format_order_id n) ≡ n
unfolding format_order_id
read-format n h = elim (Bool-cases (nat_beq n 0)) [
  | inl z ↦ rw z (unfold read_decimal in ground (arith, z))
  | inr s ↦
      rw (s, emit-digits 20 n [])
        (read_decimal-reverse (digits 20 n) ∙ low_value-digits 20 n (omega arith))
]

-- So two different counters never print alike.
pub format-injective :
    (m n : ℕ) → m < 2 ^ 64 → n < 2 ^ 64 → format_order_id m ≡ format_order_id n → m ≡ n
format-injective m n h k e = sym (read-format m h) ∙ ap read_decimal e ∙ read-format n k
