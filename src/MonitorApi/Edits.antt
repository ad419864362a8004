-- ===== src/MonitorApi/Edits.antt =====
-- Backend/src/controllers/monitor.controller.js: an edit beside the scheduler's own writes.
use devops_hackathon.Prelude.{
  ℕ, ◌≡◌, refl, ap, sym, ◌∙◌, Option, none, some, arith, inl, inr, Option-cases, max,
}
use devops_hackathon.Monitor.{Monitor}
use devops_hackathon.Check.{Update, with_update, failure_threshold_of}
use devops_hackathon.MonitorApi.{
  Tools, Body, Patch, edit_of, set_fields, clamp_threshold, clamped, encrypted,
}

-- The failure threshold of an edit, or what the body makes of it where there is no edit.
abbrev threshold_in : Body → Option Patch → Option ℕ
threshold_in b none = clamped b.failure_threshold
threshold_in b (some p) = p.failure_threshold

edit_of-threshold_in :
    (t : Tools) (b : Body) → threshold_in b (edit_of t b) ≡ clamped b.failure_threshold
unfolding edit_of
edit_of-threshold_in t b = elim (Option-cases (encrypted t b.auth_headers)) [
  | inl e ↦ rw (e, threshold_in) refl
  | inr (h, e) ↦ rw (e, threshold_in) refl
]

clamp_threshold-max : (n : ℕ) → max 1 (clamp_threshold n) ≡ max 1 n
unfolding clamp_threshold
clamp_threshold-max n = ground arith

-- An edit with a failure threshold, and the update of a check that runs meanwhile: the stored monitor
-- is the same whichever of the two is written first, and its next check compares with the threshold
-- of the edit, or with 1 where that is 0.
pub set_fields-with_update :
    (t : Tools) (b : Body) (p : Patch) (u : Update) (m : Monitor) (n : ℕ)
    → edit_of t b ≡ some p
    → b.failure_threshold ≡ some n
    → (with_update u (set_fields p m) ≡ set_fields p (with_update u m))
      × (failure_threshold_of (with_update u (set_fields p m)) ≡ max 1 n)
unfolding set_fields with_update
set_fields-with_update t b p u m n e h = (
  refl,
  rw (ap (λ o. threshold_in b o) (sym e) ∙ edit_of-threshold_in t b, h) (clamp_threshold-max n),
)
