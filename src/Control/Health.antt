-- ===== src/Control/Health.antt =====
-- `control_health_t` of board/src/control.c: the gate that degrades after repeated failures.
use native.Mathlib.Decide.{dec_lt}
use hispark_soc_china.Prelude.{
  ℕ, zero, suc, ◌+◌, ◌≤◌, ◌<◌, ◌≡◌, refl, ap, ◌∙◌, sym, Bool, true, false, List, [], ◌∷◌, ◌++◌,
  replicate, arith, leb, ltb, ◌==◌, if◌then◌else◌, ◌↔◌, append_assoc,
}

pub record ControlHealth : Type 0 where
  pub consecutive_failures : ℕ
  pub degraded : Bool

unfoldable pub control_health_init : ControlHealth
control_health_init = record { consecutive_failures = 0; degraded = false }

-- A failure that stays below the limit cannot wrap `consecutive_failures`.
count_failure : ControlHealth → ℕ → ControlHealth
count_failure h limit =
    if ltb h.consecutive_failures limit
    then record h { consecutive_failures = h.consecutive_failures + 1 }
    else h

degrade : ControlHealth → ℕ → ControlHealth
degrade h limit = if leb limit h.consecutive_failures then record h { degraded = true } else h

-- The new state and the answer.
unfoldable pub control_health_record : ControlHealth → Bool → ℕ → ControlHealth × Bool
unfolding count_failure degrade
control_health_record h success failure_limit =
    if failure_limit == 0
    then (h, false)
    else if success
    then (record h { consecutive_failures = 0 }, h.degraded)
    else let h' = degrade (count_failure h failure_limit) failure_limit in (h', h'.degraded)

-- A sequence of outcomes, the oldest first.
pub record_all : ControlHealth → List Bool → ℕ → ControlHealth
record_all h [] limit = h
record_all h (o ∷ os) limit = record_all (control_health_record h o limit).0 os limit

-- Once degraded, it stays so.
record_all-degraded :
    (h : ControlHealth) (os : List Bool) (limit : ℕ)
    → h.degraded ≡ true
    → (record_all h os limit).degraded ≡ true
unfolding record_all control_health_record
record_all-degraded h [] limit d = d
record_all-degraded h (o ∷ os) limit d =
    record_all-degraded (control_health_record h o limit).0 os limit (ground arith)

record_all-append :
    (h : ControlHealth) (xs ys : List Bool) (limit : ℕ)
    → record_all h (xs ++ ys) limit ≡ record_all (record_all h xs limit) ys limit
unfolding record_all
record_all-append h [] ys limit = refl
record_all-append h (x ∷ xs) ys limit =
    record_all-append (control_health_record h x limit).0 xs ys limit

-- Enough failures in a row degrade from any state.
failures-degrade :
    (h : ControlHealth) (k limit : ℕ)
    → 0 < limit
    → 0 < k
    → limit ≤ h.consecutive_failures + k
    → (record_all h (replicate k false) limit).degraded ≡ true
unfolding record_all control_health_record
failures-degrade h zero limit pos some_k le = absurd (omega arith)
failures-degrade h (suc zero) limit pos some_k le = ground arith
failures-degrade h (suc (suc k)) limit pos some_k le =
    failures-degrade (control_health_record h false limit).0 (suc k) limit pos (omega arith)
      (ground arith)

-- The outcomes hold `limit` failures in a row.
pub record HasStreak (limit : ℕ) (os : List Bool) : Type 0 where
  pub before : List Bool
  pub after : List Bool
  pub split : os ≡ before ++ (replicate limit false ++ after)

replicate-suc :
    (k : ℕ) (os : List Bool) → replicate k false ++ (false ∷ os) ≡ replicate (suc k) false ++ os
replicate-suc zero os = refl
replicate-suc (suc k) os = ap (λ t. false ∷ t) (replicate-suc k os)

HasStreak-prefix : (limit : ℕ) (xs os : List Bool) → HasStreak limit os → HasStreak limit (xs ++ os)
HasStreak-prefix limit xs os v = record {
  before = xs ++ v.before;
  after = v.after;
  split = ap (λ t. xs ++ t) v.split ∙ sym (append_assoc xs v.before _);
}

-- With the failures that are counted already in front, a state that degrades has a streak.
streak_of_degraded :
    (h : ControlHealth) (os : List Bool) (limit c : ℕ)
    → h.consecutive_failures ≡ c
    → c < limit
    → h.degraded ≡ false
    → (record_all h os limit).degraded ≡ true
    → HasStreak limit (replicate c false ++ os)
unfolding record_all control_health_record
streak_of_degraded h [] limit c e lt nd d = cc
streak_of_degraded h (true ∷ os) limit c e lt nd d =
    HasStreak-prefix limit (replicate c false) (true ∷ os) (
      HasStreak-prefix limit (true ∷ []) os (
        streak_of_degraded (control_health_record h true limit).0 os limit 0 (ground arith)
          (omega arith) (ground arith) d))
streak_of_degraded h (false ∷ os) limit c e lt nd d = elim (dec_lt (suc c) limit) [
  | yes more ↦ rw (replicate-suc c os) (
      streak_of_degraded (control_health_record h false limit).0 os limit (suc c) (ground arith)
        more (ground arith) d)
  | no last ↦ record {
    before = [];
    after = os;
    split = replicate-suc c os ∙ ap (λ k. replicate k false ++ os) {x = suc c} (omega arith);
  }
]

-- From the initial state the gate is degraded after a sequence of outcomes exactly if the sequence
-- holds `limit` failures in a row, for a limit that is not 0.
pub record_all-degraded_iff :
    (os : List Bool) (limit : ℕ)
    → 0 < limit
    → ((record_all control_health_init os limit).degraded ≡ true) ↔ HasStreak limit os
unfolding control_health_init
record_all-degraded_iff os limit pos = (
  λ d. streak_of_degraded control_health_init os limit 0 refl pos refl d,
  λ v.
      let h = record_all control_health_init v.before limit in
      rw
        (
          v.split,
          record_all-append control_health_init v.before (replicate limit false ++ v.after) limit,
          record_all-append h (replicate limit false) v.after limit,
        )
        (record_all-degraded _ v.after limit
          (failures-degrade h limit limit pos pos (omega arith))),
)

-- With a limit of 0 the gate never changes.
record_all-limit_zero : (h : ControlHealth) (os : List Bool) → record_all h os 0 ≡ h
unfolding record_all control_health_record
record_all-limit_zero h [] = refl
record_all-limit_zero h (o ∷ os) = record_all-limit_zero h os

-- What a failure does below the limit.
pub control_health_record-failure :
    (h : ControlHealth) (limit : ℕ)
    → h.consecutive_failures < limit
    → h.degraded ≡ false
    → ((control_health_record h false limit).0.consecutive_failures ≡ h.consecutive_failures + 1)
      × ((control_health_record h false limit).0.degraded ≡ leb limit (h.consecutive_failures + 1))
      × ((control_health_record h false limit).1 ≡ leb limit (h.consecutive_failures + 1))
unfolding control_health_record
control_health_record-failure h limit lt e = (ground arith, ground arith, ground arith)
