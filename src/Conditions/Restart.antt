-- ===== src/Conditions/Restart.antt =====
-- A candidate that was not committed survives the process.
use codex_monitor.Common.{
  ℕ, ◌+◌, ◌≤◌, ◌<◌, ◌≡◌, refl, Bool, true, false, some, arith, List, [], ◌∷◌, map, leb,
  if◌then◌else◌,
}
use codex_monitor.Conditions.{
  Candidate, Policy, Selection, waiting, selected, select, restarts, follow,
}

-- One call of `select`: the clock, the sample, the baseline.
pub record Poll {ℓ} (A : Type ℓ) : Type ℓ where
  pub at : ℕ
  pub sample : A
  pub baseline : A

module _ {ℓ} {A : Type ℓ} (same : A → A → Bool) (debounce_seconds : ℕ) where
  -- What `select` answers to observations in one pause epoch, with no other call between them.
  unfoldable pub answers : ℕ → Policy A → List (Poll A) → List (Selection A)
  answers pause_epoch p [] = []
  answers pause_epoch p (q ∷ qs) =
      let s = select same debounce_seconds q.at pause_epoch q.sample (some q.baseline) p in
      s.1 ∷ answers pause_epoch s.0 qs

  -- The observation is `debounce_seconds` behind the start of the window, or later.
  abbrev pub judged : ℕ → Poll A → Selection A
  judged start q = if leb (start + debounce_seconds) q.at then selected q.sample else waiting

  -- Observations of the candidate's sample while it differs from the baseline, with a clock that
  -- does not go back.
  abbrev pub IsSteady : Candidate A → ℕ → List (Poll A) → Type 0
  IsSteady c last [] = Unit
  IsSteady c last (q ∷ qs) =
      (last ≤ q.at)
      × (same c.sample q.sample ≡ true)
      × (same q.sample q.baseline ≡ false)
      × IsSteady c q.at qs

  -- The sample after a restart.
  restarted :
      (c : Candidate A) (t pause_epoch : ℕ) (sample baseline : A) (p : Policy A)
      → p.candidate ≡ some c
      → p.observing ≡ false
      → same c.sample sample ≡ true
      → same sample baseline ≡ false
      → 0 < debounce_seconds
      → select same debounce_seconds t pause_epoch sample (some baseline) p ≡ (
        record {
          candidate = some (record c { first_seen = t; last_seen = t; pause_epoch = pause_epoch });
          observing = true;
        },
        waiting,
      )
  unfolding select
  restarted c t pause_epoch sample baseline p kept off hit differs positive =
      rw differs (rw kept (rw hit (rw off (ground arith))))

  -- The window is open since `t`.
  observed_again :
      (c : Candidate A) (t last now pause_epoch : ℕ) (sample baseline : A)
      → last ≤ now
      → same c.sample sample ≡ true
      → same sample baseline ≡ false
      → select same debounce_seconds now pause_epoch sample (some baseline) (record {
        candidate = some (record c { first_seen = t; last_seen = last; pause_epoch = pause_epoch });
        observing = true;
      })
        ≡ (
          record {
            candidate =
                some (record c { first_seen = t; last_seen = now; pause_epoch = pause_epoch });
            observing = true;
          },
          judged t (record { at = now; sample = sample; baseline = baseline }),
        )
  unfolding select
  observed_again c t last now pause_epoch sample baseline later hit differs =
      rw differs (rw hit (ground arith))

  polled :
      (c : Candidate A) (t last pause_epoch : ℕ) (qs : List (Poll A))
      → IsSteady c last qs
      → answers pause_epoch
          (record {
            candidate =
                some (record c { first_seen = t; last_seen = last; pause_epoch = pause_epoch });
            observing = true;
          })
          qs
        ≡ map (judged t) qs
  unfolding answers
  polled c t last pause_epoch [] h = refl
  polled c t last pause_epoch (q ∷ qs) (later, hit, differs, rest) =
      rw (observed_again c t last q.at pause_epoch q.sample q.baseline later hit differs)
        (rw (polled c t q.at pause_epoch qs rest) refl)

  -- A candidate is not lost with the process, and gets no credit for the time that no process saw:
  -- after a restart, and where its sample is then observed any number of times, in one pause epoch,
  -- with a clock that does not go back, differing from the baseline each time and with no other
  -- call between, the first observation waits, and each later one is selected exactly if it comes
  -- `debounce_seconds` after that first one, or later (where the duration is positive).
  pub select_after_restart :
      (p : Policy A) (c : Candidate A) (pause_epoch : ℕ) (q : Poll A) (qs : List (Poll A))
      → p.candidate ≡ some c
      → 0 < debounce_seconds
      → IsSteady c q.at (q ∷ qs)
      → answers pause_epoch (follow same debounce_seconds p restarts) (q ∷ qs)
        ≡ waiting ∷ map (judged q.at) qs
  unfolding follow answers
  select_after_restart p c pause_epoch q qs kept positive (_, hit, differs, rest) =
      let first =
        restarted c q.at pause_epoch q.sample q.baseline (record p { observing = false }) kept refl
          hit differs positive in
      rw first (rw (polled c q.at q.at pause_epoch qs rest) refl)
