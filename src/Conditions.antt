-- ===== src/Conditions.antt =====
-- `ConditionDebouncer` of codex_monitor/conditions.py: a sample is selected once it has been stable
-- for a while, and stays a candidate until it is committed. Times and durations are whole
-- microseconds; a file that some other program wrote is left out.
use codex_monitor.Common.{
  ℕ, ◌+◌, Bool, true, false, not, ◌&&◌, ◌||◌, Option, none, some, is_some, eqb, leb, ltb,
  if◌then◌else◌, List, [], ◌∷◌,
}
pub mod Aged
pub mod Window
pub mod Restart
pub mod Samples

pub record Candidate {ℓ} (A : Type ℓ) : Type ℓ where
  pub sample : A
  pub first_seen : ℕ
  pub last_seen : ℕ
  pub pause_epoch : ℕ

-- The candidate in the file (a missing file has none), and `_observing` of the instance.
pub record Policy {ℓ} (A : Type ℓ) : Type ℓ where
  pub candidate : Option (Candidate A)
  pub observing : Bool

-- What `select` comes to: ConditionStateError, None, or the sample.
pub data Selection {ℓ} (A : Type ℓ) : Type ℓ where
  inconsistent : Selection A
  waiting : Selection A
  selected : A → Selection A

pub data Commit : Type 0 where
  nothing committed mismatched : Commit

-- `same` is `==` on samples.
module _ {ℓ} {A : Type ℓ} (same : A → A → Bool) (debounce_seconds : ℕ) where
  abbrev pub fresh_candidate : ℕ → ℕ → A → Candidate A
  fresh_candidate now pause_epoch sample = record {
    sample = sample;
    first_seen = now;
    last_seen = now;
    pause_epoch = pause_epoch;
  }

  abbrev pub observed : Candidate A → Policy A
  observed c = record { candidate = some c; observing = true }

  -- `sample if self.debounce_seconds == 0 else None`
  abbrev pub at_once : A → Selection A
  at_once sample = if eqb debounce_seconds 0 then selected sample else waiting

  -- The window of an older candidate starts again.
  abbrev pub must_restart : Bool → ℕ → ℕ → Candidate A → Bool
  must_restart observing now pause_epoch c =
      not observing || (not (eqb c.pause_epoch pause_epoch) || ltb now c.last_seen)

  abbrev pub aged : ℕ → Candidate A → A → Selection A
  aged now c sample = if leb (c.first_seen + debounce_seconds) now then selected sample else waiting

  -- A sample that equals the candidate's.
  abbrev pub select_again : Bool → ℕ → ℕ → A → Candidate A → Policy A × Selection A
  select_again observing now pause_epoch sample c =
      if must_restart observing now pause_epoch c
      then (
        observed (record c { first_seen = now; last_seen = now; pause_epoch = pause_epoch }),
        at_once sample,
      )
      else (observed (record c { last_seen = now }), aged now c sample)

  abbrev pub select_fresh : ℕ → ℕ → A → Policy A × Selection A
  select_fresh now pause_epoch sample =
      (observed (fresh_candidate now pause_epoch sample), at_once sample)

  -- A sample that differs from the baseline.
  abbrev pub select_changed : Bool → ℕ → ℕ → A → Option (Candidate A) → Policy A × Selection A
  select_changed observing now pause_epoch sample none = select_fresh now pause_epoch sample
  select_changed observing now pause_epoch sample (some c) =
      if same c.sample sample
      then select_again observing now pause_epoch sample c
      else select_fresh now pause_epoch sample

  abbrev pub select_first : A → Policy A → Option (Candidate A) → Policy A × Selection A
  select_first sample p none = (record { candidate = none; observing = true }, selected sample)
  select_first sample p (some c) = (p, inconsistent)

  unfoldable pub select : ℕ → ℕ → A → Option A → Policy A → Policy A × Selection A
  select now pause_epoch sample none p = select_first sample p p.candidate
  select now pause_epoch sample (some baseline) p =
      if same sample baseline
      then (record { candidate = none; observing = true }, waiting)
      else select_changed p.observing now pause_epoch sample p.candidate

  abbrev pub commit_of : A → Policy A → Option (Candidate A) → Policy A × Commit
  commit_of sample p none = (p, nothing)
  commit_of sample p (some c) =
      if same c.sample sample then (record p { candidate = none }, committed) else (p, mismatched)

  unfoldable pub commit : A → Policy A → Policy A × Commit
  commit sample p = commit_of sample p p.candidate

  -- The Boolean is the method's result.
  unfoldable pub reset : Policy A → Policy A × Bool
  reset p = (record p { candidate = none }, is_some p.candidate)

-- What happens to a policy: the calls, and a restart of the process, which keeps the file alone.
pub data Step {ℓ} (A : Type ℓ) : Type ℓ where
  -- the clock, the pause epoch, the sample, the baseline
  observes : ℕ → ℕ → A → Option A → Step A
  commits : A → Step A
  resets restarts : Step A

module _ {ℓ} {A : Type ℓ} (same : A → A → Bool) (debounce_seconds : ℕ) where
  unfoldable pub follow : Policy A → Step A → Policy A
  follow p (observes now pause_epoch sample baseline) =
      (select same debounce_seconds now pause_epoch sample baseline p).0
  follow p (commits sample) = (commit same debounce_seconds sample p).0
  follow p resets = (reset same debounce_seconds p).0
  follow p restarts = record p { observing = false }

  -- The policy after some steps, the latest first, from a file that an earlier process left.
  unfoldable pub after_steps : Option (Candidate A) → List (Step A) → Policy A
  unfolding follow
  after_steps left [] = record { candidate = left; observing = false }
  after_steps left (s ∷ steps) = follow (after_steps left steps) s
