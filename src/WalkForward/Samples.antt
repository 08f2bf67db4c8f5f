-- ===== src/WalkForward/Samples.antt =====
-- Windows over a few days, a day being an instant long.
use option_engine.Common.{
  refl, ℕ, ◌+◌, ltb, if◌then◌else◌, ◌≤◌, ◌<◌, ◌≡◌, ◌⊎◌, some, none, List, [], ◌∷◌, arith, get_elem?,
}
use option_engine.Common.Int.{pos, ◌<ℤ◌}
use option_engine.Domain.{Instant}
use option_engine.WalkForward.{Window, window_at, generate_windows}
use option_engine.WalkForward.Windows.{IsDayCount, generate_windows-IsAll}
use option_engine.WalkForward.Leakage.{windows_disjoint}

infix 50 ◌≡ℕ◌
abbrev ◌≡ℕ◌ : ℕ → ℕ → Type 0
a ≡ℕ b = a ≡ b

abbrev one_unit : Instant → ℕ → Instant
one_unit t n = t + n

one_unit-IsDayCount : IsDayCount one_unit
one_unit-IsDayCount = record {
  add_zero = λ t. omega arith;
  add_add = λ t m n. omega arith;
  add_later = λ t n h. omega arith;
}

abbrev window : ℕ → Instant → Window
window index start = record {
  index = index;
  walk_forward_id = "wf";
  train_start = start;
  train_end = start + 4;
  validation_start = start + 4;
  validation_end = start + 6;
}

abbrev two_windows : List Window
two_windows = window 0 10 ∷ window 1 12 ∷ []

made : generate_windows one_unit "new" "wf" 10 19 (pos 4) (pos 2) (pos 2) ≡ some two_windows
unfolding generate_windows option_engine.WalkForward.window_loop option_engine.WalkForward.window_at
made = refl

abbrev window_of : ℕ → Window
window_of j = window_at one_unit "wf" 10 4 2 2 j

generate_windows-IsAll_example :
    (ws : List Window) × (generate_windows one_unit "new" "wf" 10 19 (pos 4) (pos 2) (pos 2)
      ≡ some ws)
    × ((j : ℕ)
        → get_elem? ws j
          ≡ (if ltb 19 (window_of j).validation_end then none else some (window_of j)))
generate_windows-IsAll_example =
    generate_windows-IsAll one_unit one_unit-IsDayCount "new" "wf" 10 19 (pos 4) (pos 2) (pos 2)

windows_disjoint_example :
    (10 ≤ 10)
    × (10 < 14)
    × (14 ≡ℕ 14)
    × (14 < 16)
    × (16 ≤ 19)
    × ((0 ≡ℕ 1) ⊎ (pos 2 <ℤ pos 2) ⊎ (16 ≤ 16))
windows_disjoint_example =
    windows_disjoint one_unit one_unit-IsDayCount "new" "wf" 10 19 (pos 4) (pos 2) (pos 2)
      two_windows 0 1 (window 0 10) (window 1 12) made refl refl (omega arith)
