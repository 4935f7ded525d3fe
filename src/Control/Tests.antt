-- ===== src/Control/Tests.antt =====
-- Runs of the models of board/src/control.c.
use hispark_soc_china.Prelude.{
  ◌≡◌, ◌↔◌, refl, Bool, true, false, some, List, [], ◌∷◌, replicate, arith,
}
use hispark_soc_china.Floats.Thousandths.{thousandths, thousandths-OrderLaws}
use hispark_soc_china.Control.Decide.{
  LumaStats, Harsher, control_decide, compress, brighten, control_decide_mono,
}
use hispark_soc_china.Control.Health.{
  control_health_init, record_all, HasStreak, record_all-degraded_iff,
}
use hispark_soc_china.Control.Feedback.{
  ControlFeedback, control_feedback_init, control_feedback_observe, control_feedback_commit,
  observe_all, observe_all-quiet, observe_all-overdue, observe_all-uncommitted,
}

abbrev dark_scene : LumaStats thousandths
dark_scene = record { mean_luma = 30000; clip_high_pct = 200; clip_low_pct = 12000 }

abbrev bright_scene : LumaStats thousandths
bright_scene = record { mean_luma = 120000; clip_high_pct = 9000; clip_low_pct = 100 }

control_decide_dark : control_decide thousandths (some dark_scene) ≡ brighten
unfolding control_decide
control_decide_dark = refl

control_decide_bright : control_decide thousandths (some bright_scene) ≡ compress
unfolding control_decide
control_decide_bright = refl

control_decide_mono_example :
    Harsher
      (control_decide thousandths (some dark_scene))
      (control_decide thousandths (some (record dark_scene { clip_high_pct = 4000 })))
control_decide_mono_example =
    control_decide_mono thousandths thousandths-OrderLaws dark_scene 4000 refl

abbrev outcomes : List Bool
outcomes = false ∷ true ∷ false ∷ false ∷ false ∷ true ∷ []

record_all-degraded_iff_example :
    ((record_all control_health_init outcomes 3).degraded ≡ true) ↔ HasStreak 3 outcomes
record_all-degraded_iff_example = record_all-degraded_iff outcomes 3 (omega arith)

-- A filter that has seen the dark scene.
abbrev warm : ControlFeedback thousandths
warm = record (control_feedback_init thousandths) { filtered = dark_scene; have_filtered = true }

observe_all-quiet_example :
    (control_feedback_observe thousandths
      (observe_all thousandths
        (control_feedback_commit thousandths warm)
        (replicate 11 bright_scene))
      (some bright_scene)).1
    ≡ false
observe_all-quiet_example =
    observe_all-quiet thousandths warm (replicate 11 bright_scene) bright_scene refl (omega arith)

observe_all-overdue_example :
    (control_feedback_observe thousandths
      (observe_all thousandths (control_feedback_commit thousandths warm) (replicate 61 dark_scene))
      (some dark_scene)).1
    ≡ true
observe_all-overdue_example =
    observe_all-overdue thousandths warm (replicate 61 dark_scene) dark_scene refl refl

observe_all-uncommitted_example :
    (control_feedback_observe thousandths
      (observe_all thousandths (control_feedback_init thousandths) (dark_scene ∷ bright_scene ∷ []))
      (some dark_scene)).1
    ≡ true
observe_all-uncommitted_example =
    observe_all-uncommitted thousandths (dark_scene ∷ bright_scene ∷ []) dark_scene
