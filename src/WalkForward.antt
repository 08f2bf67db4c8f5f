-- ===== src/WalkForward.antt =====
-- Rolling windows: internal/walkforward/windows.go. `add_days` is `time.Time.AddDate(0, 0, n)` and
-- `fresh_id` a new identifier. A window number times the step is taken without overflow.
pub mod Windows
pub mod Leakage
pub mod Samples
use option_engine.Common.{
  ℕ, zero, suc, ◌+◌, ◌-◌, ◌*◌, ◌||◌, String, Option, none, some, List, [], ◌∷◌, ◌++◌, ltb, ◌==◌,
  string_eq, if◌then◌else◌,
}
use option_engine.Common.Int.{ℤ, pos, pos_part, ltb_ℤ}
use option_engine.Domain.{Instant}

pub record Period : Type 0 where
  pub start : Instant
  pub end : Instant

pub record Window : Type 0 where
  pub index : ℕ
  pub walk_forward_id : String
  pub train_start : Instant
  pub train_end : Instant
  pub validation_start : Instant
  pub validation_end : Instant

unfoldable pub train_period : Window → Period
train_period w = record { start = w.train_start; end = w.train_end }

unfoldable pub validation_period : Window → Period
validation_period w = record { start = w.validation_start; end = w.validation_end }

module _ (add_days : Instant → ℕ → Instant) where
  -- The window that the loop builds for an index.
  unfoldable pub window_at : String → Instant → ℕ → ℕ → ℕ → ℕ → Window
  window_at id data_start train validation step index =
      let train_start = add_days data_start (index * step) in
      let train_end = add_days train_start train in
      let validation_end = add_days train_end validation in
      record {
        index = index;
        walk_forward_id = id;
        train_start = train_start;
        train_end = train_end;
        validation_start = train_end;
        validation_end = validation_end;
      }

  -- The loop, from an index and with the windows so far; without fuel it has not ended.
  unfoldable pub window_loop :
      ℕ → String → Instant → Instant → ℕ → ℕ → ℕ → ℕ → List Window → Option (List Window)
  window_loop zero id data_start data_end train validation step index windows = none
  window_loop (suc fuel) id data_start data_end train validation step index windows =
      let w = window_at id data_start train validation step index in
      let rest =
        window_loop fuel id data_start data_end train validation step (index + 1)
          (windows ++ w ∷ []) in
      if ltb data_end w.validation_end then some windows else rest

  module _ (fresh_id : String) where
    -- `GenerateWindows`
    unfoldable pub generate_windows : String → Instant → Instant → ℤ → ℤ → ℤ → Option (List Window)
    generate_windows walk_forward_id data_start data_end train_days validation_days step_days =
        let id = if walk_forward_id == "" then fresh_id else walk_forward_id in
        if ltb_ℤ train_days (pos 1) || ltb_ℤ validation_days (pos 1) || ltb_ℤ step_days (pos 1)
        then some []
        else if ltb data_end data_start
        then some []
        else window_loop (data_end - data_start + 1) id data_start data_end (pos_part train_days)
            (pos_part validation_days) (pos_part step_days) 0 []
