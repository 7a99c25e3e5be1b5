-- ===== src/Conditions/Window.antt =====
-- A selected sample was stable for the whole window.
use codex_monitor.Common.{
  ℕ, ◌+◌, ◌≤◌, ◌≡◌, refl, subst, Bool, true, false, Option, none, some, List, [], ◌∷◌, arith, inl,
  inr, ◌⊎◌, Bool-cases,
}
use codex_monitor.Conditions.{
  Candidate, Policy, selected, select_first, commit_of, fresh_candidate, must_restart,
  select_changed, select_again, select, commit, reset, Step, observes, commits, resets, restarts,
  follow, after_steps,
}
use codex_monitor.Conditions.Aged.{select-IsAged}

module _ {ℓ} {A : Type ℓ} (same : A → A → Bool) where
  -- The latest steps (latest first) are observations of the candidate's sample, each of which
  -- differs from its baseline, in its pause epoch, by one process, with a clock that does not go
  -- back, from `first_seen` to `last_seen`. The first of them is the candidate's own sample, or
  -- equals the sample of an older candidate. Calls that raise stand for nothing between them.
  pub data IsWindow : Candidate A → List (Step A) → Type ℓ where
    opened :
        (c : Candidate A) (sample baseline : A) (steps : List (Step A))
        → c.last_seen ≡ c.first_seen
        → (c.sample ≡ sample) ⊎ (same c.sample sample ≡ true)
        → same sample baseline ≡ false
        → IsWindow c (observes c.first_seen c.pause_epoch sample (some baseline) ∷ steps)
    extended :
        (c : Candidate A) (now : ℕ) (sample baseline : A) (steps : List (Step A))
        → IsWindow c steps
        → c.last_seen ≤ now
        → same c.sample sample ≡ true
        → same sample baseline ≡ false
        → IsWindow
            (record c { last_seen = now })
            (observes now c.pause_epoch sample (some baseline) ∷ steps)
    raised :
        (c : Candidate A) (now pause_epoch : ℕ) (sample : A) (steps : List (Step A))
        → IsWindow c steps
        → IsWindow c (observes now pause_epoch sample none ∷ steps)
    refused :
        (c : Candidate A) (sample : A) (steps : List (Step A))
        → same c.sample sample ≡ false
        → IsWindow c steps
        → IsWindow c (commits sample ∷ steps)

  -- An observing process has a window for its candidate.
  abbrev pub HasWindow : Policy A → List (Step A) → Type ℓ
  HasWindow p steps =
      (c : Candidate A) → p.candidate ≡ some c → p.observing ≡ true → IsWindow c steps

  window_of :
      (c : Candidate A) (steps : List (Step A))
      → IsWindow c steps
      → HasWindow (record { candidate = some c; observing = true }) steps
  window_of c steps w d e o = let cd : c ≡ d = cc in subst (λ k. IsWindow k steps) cd w

  module _ (debounce_seconds : ℕ) where
    fresh_window :
        (now pause_epoch : ℕ) (sample baseline : A) (steps : List (Step A))
        → same sample baseline ≡ false
        → IsWindow
            (fresh_candidate same debounce_seconds now pause_epoch sample)
            (observes now pause_epoch sample (some baseline) ∷ steps)
    fresh_window now pause_epoch sample baseline steps differs =
        opened (fresh_candidate same debounce_seconds now pause_epoch sample) sample baseline steps
          refl (inl refl) differs

    again_window :
        (observing : Bool) (now pause_epoch : ℕ) (sample baseline : A) (c : Candidate A)
        (steps : List (Step A))
        → HasWindow (record { candidate = some c; observing = observing }) steps
        → same c.sample sample ≡ true
        → same sample baseline ≡ false
        → HasWindow
            (select_again same debounce_seconds observing now pause_epoch sample c).0
            (observes now pause_epoch sample (some baseline) ∷ steps)
    again_window observing now pause_epoch sample baseline c steps h t differs =
        elim (Bool-cases (must_restart same debounce_seconds observing now pause_epoch c)) [
          | inl r ↦
              let d : Candidate A = record c {
                first_seen = now;
                last_seen = now;
                pause_epoch = pause_epoch;
              } in
              rw r (
                window_of d (observes now pause_epoch sample (some baseline) ∷ steps)
                  (opened d sample baseline steps refl (inr t) differs))
          | inr r ↦
              let on : observing ≡ true = ground arith in
              let epoch : c.pause_epoch ≡ pause_epoch = ground arith in
              let later : c.last_seen ≤ now = ground arith in
              let steps' = observes now c.pause_epoch sample (some baseline) ∷ steps in
              let w = extended c now sample baseline steps (h c refl on) later t differs in
              rw r (
                subst
                  (λ e.
                    HasWindow
                      (record { candidate = some (record c { last_seen = now }); observing = true })
                      (observes now e sample (some baseline) ∷ steps))
                  epoch (window_of (record c { last_seen = now }) steps' w))
        ]

    changed_window :
        (observing : Bool) (now pause_epoch : ℕ) (sample baseline : A) (o : Option (Candidate A))
        (steps : List (Step A))
        → HasWindow (record { candidate = o; observing = observing }) steps
        → same sample baseline ≡ false
        → HasWindow
            (select_changed same debounce_seconds observing now pause_epoch sample o).0
            (observes now pause_epoch sample (some baseline) ∷ steps)
    changed_window observing now pause_epoch sample baseline none steps h differs =
        window_of _ _ (fresh_window now pause_epoch sample baseline steps differs)
    changed_window observing now pause_epoch sample baseline (some c) steps h differs =
        elim (Bool-cases (same c.sample sample)) [
          | inl t ↦
              rw t (again_window observing now pause_epoch sample baseline c steps h t differs)
          | inr t ↦
              rw t (window_of _ _ (fresh_window now pause_epoch sample baseline steps differs))
        ]

    first_window :
        (now pause_epoch : ℕ) (sample : A) (p : Policy A) (o : Option (Candidate A))
        (steps : List (Step A))
        → p.candidate ≡ o
        → HasWindow p steps
        → HasWindow
            (select_first same debounce_seconds sample p o).0
            (observes now pause_epoch sample none ∷ steps)
    first_window now pause_epoch sample p none steps f h = λ c e o. cc
    first_window now pause_epoch sample p (some d) steps f h =
        λ c e o. raised c now pause_epoch sample steps (h c e o)

    select_window :
        (now pause_epoch : ℕ) (sample : A) (baseline : Option A) (p : Policy A)
        (steps : List (Step A))
        → HasWindow p steps
        → HasWindow
            (select same debounce_seconds now pause_epoch sample baseline p).0
            (observes now pause_epoch sample baseline ∷ steps)
    unfolding select
    select_window now pause_epoch sample none p steps h =
        first_window now pause_epoch sample p p.candidate steps refl h
    select_window now pause_epoch sample (some baseline) p steps h =
        elim (Bool-cases (same sample baseline)) [
          | inl t ↦ rw t (λ c e o. cc)
          | inr t ↦
              rw t
                (changed_window p.observing now pause_epoch sample baseline p.candidate steps h t)
        ]

    commit_window :
        (sample : A) (p : Policy A) (o : Option (Candidate A)) (steps : List (Step A))
        → p.candidate ≡ o
        → HasWindow p steps
        → HasWindow (commit_of same debounce_seconds sample p o).0 (commits sample ∷ steps)
    commit_window sample p none steps f h = λ c e o. cc
    commit_window sample p (some d) steps f h = elim (Bool-cases (same d.sample sample)) [
      | inl t ↦ rw t (λ c e o. cc)
      | inr t ↦ rw t (λ c e o.
          let dc : d ≡ c = cc in
          refused c sample steps (subst (λ k. same k.sample sample ≡ false) dc t) (h c e o))
    ]

    follow_window :
        (p : Policy A) (s : Step A) (steps : List (Step A))
        → HasWindow p steps
        → HasWindow (follow same debounce_seconds p s) (s ∷ steps)
    unfolding follow commit reset
    follow_window p (observes now pause_epoch sample baseline) steps h =
        select_window now pause_epoch sample baseline p steps h
    follow_window p (commits sample) steps h = commit_window sample p p.candidate steps refl h
    follow_window p resets steps h = λ c e o. cc
    follow_window p restarts steps h = λ c e o. cc

    after_steps-HasWindow :
        (left : Option (Candidate A)) (steps : List (Step A))
        → HasWindow (after_steps same debounce_seconds left steps) steps
    unfolding after_steps
    after_steps-HasWindow left [] = λ c e o. cc
    after_steps-HasWindow left (s ∷ steps) =
        follow_window (after_steps same debounce_seconds left steps) s steps
          (after_steps-HasWindow left steps)

    -- A changed sample is selected only when it was stable: whatever happened since the process
    -- started (observations, commits, resets and restarts, the latest first), if `select` returns a
    -- sample, it is the one observed, and it is the latest of a window of observations of one
    -- candidate's sample, each different from the baseline of its call, in one pause epoch of one
    -- process, with a clock that does not go back, which is at least `debounce_seconds` long.
    pub selected_stable :
        (left : Option (Candidate A)) (steps : List (Step A)) (now pause_epoch : ℕ)
        (sample baseline result : A)
        → (select same debounce_seconds now pause_epoch sample
            (some baseline)
            (after_steps same debounce_seconds left steps)).1
          ≡ selected result
        → (sample ≡ result)
          × ((c : Candidate A) × IsWindow c
                (observes now pause_epoch sample (some baseline) ∷ steps)
              × (c.last_seen ≡ now)
              × (c.first_seen + debounce_seconds ≤ now))
    selected_stable left steps now pause_epoch sample baseline result e =
        let p = after_steps same debounce_seconds left steps in
        let (same_sample, old) =
          select-IsAged same debounce_seconds now pause_epoch sample baseline result p e in
        let window =
          select_window now pause_epoch sample (some baseline) p steps
            (after_steps-HasWindow left steps) in
        (
          same_sample,
          (old.candidate, window old.candidate old.kept old.observing, old.latest, old.age),
        )
