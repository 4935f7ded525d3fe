-- ===== src/Control/Feedback.antt =====
-- `control_feedback_t` of board/src/control.c: the filter that holds back the refresh of the LUT.
use native.Mathlib.Nat.{add-zero}
use hispark_soc_china.Prelude.{
  ℕ, suc, ◌+◌, ◌-◌, ◌%◌, ◌^◌, ◌≤◌, ◌<◌, ◌≡◌, refl, Bool, true, false, Option, none, some, List, [],
  ◌∷◌, length, arith, leb, ltb, if◌then◌else◌,
}
use hispark_soc_china.Floats.{FloatOps}
use hispark_soc_china.Control.Decide.{LumaStats, control_should_refresh_lut}

abbrev pub feedback_confirm_polls : ℕ
feedback_confirm_polls = 3

abbrev pub feedback_cooldown_polls : ℕ
feedback_cooldown_polls = 10

module _ (fl : FloatOps) where
  open fl use {F, add, sub, mul, div, lit}

  pub record ControlFeedback : Type 0 where
    pub filtered : LumaStats fl
    pub committed : LumaStats fl
    pub ticks_since_commit : ℕ
    pub cooldown_remaining : ℕ
    pub change_streak : ℕ
    pub have_filtered : Bool
    pub have_committed : Bool

  -- `FEEDBACK_ALPHA_NUM` is 1 and `FEEDBACK_ALPHA_DEN` is 4.
  unfoldable pub lowpass : F → F → F
  lowpass previous current = add previous (div (mul (sub current previous) (lit 1 1)) (lit 4 1))

  abbrev zero_stats : LumaStats fl
  zero_stats = record { mean_luma = lit 0 1; clip_high_pct = lit 0 1; clip_low_pct = lit 0 1 }

  unfoldable pub control_feedback_init : ControlFeedback
  control_feedback_init = record {
    filtered = zero_stats;
    committed = zero_stats;
    ticks_since_commit = 0;
    cooldown_remaining = 0;
    change_streak = 0;
    have_filtered = false;
    have_committed = false;
  }

  unfoldable pub lowpass_stats : LumaStats fl → LumaStats fl → LumaStats fl
  lowpass_stats old raw = record {
    mean_luma = lowpass old.mean_luma raw.mean_luma;
    clip_high_pct = lowpass old.clip_high_pct raw.clip_high_pct;
    clip_low_pct = lowpass old.clip_low_pct raw.clip_low_pct;
  }

  -- The filtered statistics, and the tick that every observation counts. The counters are unsigned
  -- 32-bit words.
  unfoldable pub take_sample : ControlFeedback → LumaStats fl → ControlFeedback
  take_sample f raw = record f {
    filtered = if f.have_filtered then lowpass_stats f.filtered raw else raw;
    have_filtered = true;
    ticks_since_commit = (f.ticks_since_commit + 1) % 2 ^ 32;
  }

  -- What follows the tick: the new state and the answer.
  unfoldable pub judge : ControlFeedback → ControlFeedback × Bool
  judge f =
      if f.have_committed
      then if ltb 0 f.cooldown_remaining
        then (record f { cooldown_remaining = f.cooldown_remaining - 1; change_streak = 0 }, false)
        else if control_should_refresh_lut fl (some f.committed) (some f.filtered)
            f.ticks_since_commit
        then (
          record f { change_streak = (f.change_streak + 1) % 2 ^ 32 },
          leb feedback_confirm_polls ((f.change_streak + 1) % 2 ^ 32),
        )
        else (record f { change_streak = 0 }, false)
      else (f, true)

  -- The new state, the answer, and what is written through `filtered_out` (`none` for nothing). A
  -- NULL sample is `none`.
  unfoldable pub control_feedback_observe :
      ControlFeedback → Option (LumaStats fl) → ControlFeedback × Bool × Option (LumaStats fl)
  unfolding judge take_sample
  control_feedback_observe f none = (f, false, none)
  control_feedback_observe f (some raw) =
      let g = take_sample f raw in let r = judge g in (r.0, r.1, some g.filtered)

  unfoldable pub control_feedback_commit : ControlFeedback → ControlFeedback
  control_feedback_commit f =
      if f.have_filtered
      then record f {
        committed = f.filtered;
        have_committed = true;
        ticks_since_commit = 0;
        cooldown_remaining = feedback_cooldown_polls;
        change_streak = 0;
      }
      else f

  -- The state after a sequence of observations, with no commit between them.
  pub observe_all : ControlFeedback → List (LumaStats fl) → ControlFeedback
  observe_all f [] = f
  observe_all f (raw ∷ raws) = observe_all (control_feedback_observe f (some raw)).0 raws

  -- Where the counters stand after `n` observations that followed a commit, up to 62.
  record Since (n : ℕ) (f : ControlFeedback) : Type 0 where
    committed : f.have_committed ≡ true
    ticks : f.ticks_since_commit ≡ n
    cooldown : f.cooldown_remaining ≡ feedback_cooldown_polls - n
    streak : f.change_streak ≤ n - feedback_cooldown_polls
    overdue : n - 59 ≤ f.change_streak

  Since-commit :
      (f : ControlFeedback) → f.have_filtered ≡ true → Since 0 (control_feedback_commit f)
  unfolding control_feedback_commit
  Since-commit f h = ground arith

  Since-observe :
      (n : ℕ) (f : ControlFeedback) (raw : LumaStats fl)
      → n < 62
      → Since n f
      → Since (suc n) (control_feedback_observe f (some raw)).0
  unfolding control_feedback_observe control_should_refresh_lut
  Since-observe n f raw lt s = ground arith

  Since-observe_all :
      (n : ℕ) (f : ControlFeedback) (raws : List (LumaStats fl)) (m : ℕ)
      → n + length raws ≡ m
      → m ≤ 62
      → Since n f
      → Since m (observe_all f raws)
  unfolding observe_all
  Since-observe_all n f [] m e le s = rw (← e) (rw (add-zero n) s)
  Since-observe_all n f (raw ∷ raws) m e le s =
      Since-observe_all (suc n) (control_feedback_observe f (some raw)).0 raws m (omega arith) le
        (Since-observe n f raw (omega arith) s)

  Since-raws :
      (f : ControlFeedback) (raws : List (LumaStats fl))
      → f.have_filtered ≡ true
      → length raws ≤ 62
      → Since (length raws) (observe_all (control_feedback_commit f) raws)
  Since-raws f raws h le =
      Since-observe_all 0 (control_feedback_commit f) raws (length raws) (omega arith) le
        (Since-commit f h)

  Since-quiet :
      (n : ℕ) (f : ControlFeedback) (raw : LumaStats fl)
      → Since n f
      → n < 12
      → (control_feedback_observe f (some raw)).1 ≡ false
  unfolding control_feedback_observe
  Since-quiet n f raw s lt = ground arith

  Since-overdue :
      (f : ControlFeedback) (raw : LumaStats fl)
      → Since 61 f
      → (control_feedback_observe f (some raw)).1 ≡ true
  unfolding control_feedback_observe control_should_refresh_lut
  Since-overdue f raw s = ground arith

  -- Whatever is observed after a commit, none of the first 12 observations asks for a refresh.
  pub observe_all-quiet :
      (f : ControlFeedback) (raws : List (LumaStats fl)) (raw : LumaStats fl)
      → f.have_filtered ≡ true
      → length raws < 12
      → (control_feedback_observe (observe_all (control_feedback_commit f) raws) (some raw)).1
        ≡ false
  observe_all-quiet f raws raw h lt =
      Since-quiet (length raws) _ raw (Since-raws f raws h (omega arith)) lt

  -- Whatever is observed after a commit, the 62nd observation asks for a refresh, if no commit came
  -- before it.
  pub observe_all-overdue :
      (f : ControlFeedback) (raws : List (LumaStats fl)) (raw : LumaStats fl)
      → f.have_filtered ≡ true
      → length raws ≡ 61
      → (control_feedback_observe (observe_all (control_feedback_commit f) raws) (some raw)).1
        ≡ true
  observe_all-overdue f raws raw h e =
      Since-overdue _ raw (rw e at (Since-raws f raws h (omega arith)))

  uncommitted :
      (f : ControlFeedback) (raws : List (LumaStats fl)) (raw : LumaStats fl)
      → f.have_committed ≡ false
      → (control_feedback_observe (observe_all f raws) (some raw)).1 ≡ true
  unfolding observe_all control_feedback_observe
  uncommitted f [] raw h = ground arith
  uncommitted f (r ∷ raws) raw h =
      uncommitted (control_feedback_observe f (some r)).0 raws raw (ground arith)

  -- Until the first commit every observation asks for a refresh.
  pub observe_all-uncommitted :
      (raws : List (LumaStats fl)) (raw : LumaStats fl)
      → (control_feedback_observe (observe_all control_feedback_init raws) (some raw)).1 ≡ true
  unfolding control_feedback_init
  observe_all-uncommitted raws raw = uncommitted control_feedback_init raws raw refl
