-- ===== src/Check/Flapping.antt =====
-- Backend/src/jobs/scheduler.js, flap detection: what a history of checks makes of the confirmed
-- status. A history is a list of checks, newest first; each is written before the next one reads the
-- monitor.
use devops_hackathon.Prelude.{
  ℕ, suc, ◌+◌, ◌≡◌, refl, Bool, true, false, List, [], ◌∷◌, map, arith, leb, if◌then◌else◌,
  or_default, or_falsy,
}
use devops_hackathon.Config.{Config}
use devops_hackathon.Monitor.{Monitor, Status, up, down}
use devops_hackathon.Breaker.{Decision}
use devops_hackathon.Probe.{ProbeResult, is_up}
use devops_hackathon.Check.{assess, with_update, failure_threshold_of, success_threshold_of}

pub record Checked : Type 0 where
  pub decision : Decision
  pub result : ProbeResult
  pub now : ℕ

abbrev pub good : Checked → Bool
good k = is_up k.result.status

-- The stored monitor after one more check, and after a history.
unfoldable pub check_once : Config → Checked → Monitor → Monitor
check_once c k m = with_update (assess c m k.decision k.result k.now).update m

abbrev pub after : Config → List Checked → Monitor → Monitor
after c [] m = m
after c (k ∷ ks) m = check_once c k (after c ks m)

-- How many of the newest outcomes are all failures, and all successes.
abbrev pub failing_run : List Bool → ℕ
failing_run [] = 0
failing_run (true ∷ os) = 0
failing_run (false ∷ os) = suc (failing_run os)

abbrev pub passing_run : List Bool → ℕ
passing_run [] = 0
passing_run (false ∷ os) = 0
passing_run (true ∷ os) = suc (passing_run os)

-- The specification, which has no counters: DOWN once the newest n outcomes are failures, UP once
-- the newest k are successes, else as before.
abbrev pub confirmed_status : ℕ → ℕ → Status → List Bool → Status
confirmed_status n k start [] = start
confirmed_status n k start (true ∷ os) =
    if leb k (suc (passing_run os)) then up else confirmed_status n k start os
confirmed_status n k start (false ∷ os) =
    if leb n (suc (failing_run os)) then down else confirmed_status n k start os

-- No outcome has been counted yet.
pub record IsFresh (m : Monitor) : Type 0 where
  pub no_failures : or_falsy m.consecutive_failures 0 ≡ 0
  pub no_successes : or_falsy m.consecutive_successes 0 ≡ 0

abbrev pub status_of : Monitor → Status
status_of m = or_default m.status up

-- What a history keeps track of.
pub record Tracks (n k : ℕ) (start : Status) (os : List Bool) (m : Monitor) : Type 0 where
  pub failures : or_falsy m.consecutive_failures 0 ≡ failing_run os
  pub successes : or_falsy m.consecutive_successes 0 ≡ passing_run os
  pub same_failure_threshold : failure_threshold_of m ≡ n
  pub same_success_threshold : success_threshold_of m ≡ k
  pub status : status_of m ≡ confirmed_status n k start os

check_once-Tracks :
    (c : Config) (k : Checked) (n l : ℕ) (start : Status) (os : List Bool) (m : Monitor)
    → Tracks n l start os m
    → Tracks n l start (good k ∷ os) (check_once c k m)
unfolding check_once assess with_update
check_once-Tracks c k n l start os m t = ground arith

after-Tracks :
    (c : Config) (ks : List Checked) (m : Monitor)
    → IsFresh m
    → Tracks
        (failure_threshold_of m)
        (success_threshold_of m)
        (status_of m)
        (map good ks)
        (after c ks m)
after-Tracks c [] m f = record {
  failures = f.no_failures;
  successes = f.no_successes;
  same_failure_threshold = refl;
  same_success_threshold = refl;
  status = refl;
}
after-Tracks c (k ∷ ks) m f =
    check_once-Tracks c k _ _ _ (map good ks) (after c ks m) (after-Tracks c ks m f)

-- After any history of checks of a monitor whose counters stand at 0, at any times and with any
-- breaker decisions, the confirmed status is the one specified from the outcomes alone: DOWN from the
-- moment the newest `failureThreshold` outcomes are failures, UP from the moment the newest
-- `successThreshold` are successes, unchanged in between; each threshold counts as at least 1.
pub status-after :
    (c : Config) (ks : List Checked) (m : Monitor)
    → IsFresh m
    → status_of (after c ks m)
      ≡ confirmed_status
          (failure_threshold_of m)
          (success_threshold_of m)
          (status_of m)
          (map good ks)
status-after c ks m f = (after-Tracks c ks m f).status

-- How many of a history's checks called for an incident to be opened, and to be closed.
abbrev pub openings : Config → List Checked → Monitor → ℕ
openings c [] m = 0
openings c (k ∷ ks) m =
    (if (assess c (after c ks m) k.decision k.result k.now).should_open then 1 else 0)
    + openings c ks m

abbrev pub closings : Config → List Checked → Monitor → ℕ
closings c [] m = 0
closings c (k ∷ ks) m =
    (if (assess c (after c ks m) k.decision k.result k.now).should_close then 1 else 0)
    + closings c ks m

abbrev pub one_if_down : Status → ℕ
one_if_down up = 0
one_if_down down = 1

one_transition :
    (c : Config) (k : Checked) (m : Monitor)
    → let a = assess c m k.decision k.result k.now in
      (if a.should_open then 1 else 0) + one_if_down (status_of m)
      ≡ (if a.should_close then 1 else 0) + one_if_down (status_of (check_once c k m))
unfolding check_once assess with_update
one_transition c k m = ground arith

-- Transitions are edge-triggered: over any history the openings and closings alternate, so that
-- their numbers differ by exactly the change of the confirmed status.
pub transitions_alternate :
    (c : Config) (ks : List Checked) (m : Monitor)
    → openings c ks m + one_if_down (status_of m)
      ≡ closings c ks m + one_if_down (status_of (after c ks m))
transitions_alternate c [] m = refl
transitions_alternate c (k ∷ ks) m =
    omega (arith, transitions_alternate c ks m, one_transition c k (after c ks m))

-- A check that calls for an opening writes status DOWN, and then no failed check calls for one
-- again, whatever became of the incident.
pub opening_not_retried :
    (c : Config) (first second : Checked) (m : Monitor)
    → (assess c m first.decision first.result first.now).should_open ≡ true
    → (status_of (check_once c first m) ≡ down)
      × ((assess c (check_once c first m) second.decision second.result second.now).should_open
          ≡ false)
unfolding check_once assess with_update
opening_not_retried c first second m h = ground arith
