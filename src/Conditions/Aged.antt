-- ===== src/Conditions/Aged.antt =====
-- What a selection says of the candidate that it leaves: its window is long enough.
use codex_monitor.Common.{
  ℕ, ◌+◌, ◌≤◌, ◌≡◌, refl, Bool, true, Option, none, some, eqb, leb, arith, inl, inr, Bool-cases,
}
use codex_monitor.Conditions.{
  Candidate, Policy, selected, must_restart, at_once, aged, select_changed, select_again, select,
}

module _ {ℓ} {A : Type ℓ} (same : A → A → Bool) (debounce_seconds : ℕ) where
  -- What a selection says of the candidate that it leaves.
  pub record IsAged (now : ℕ) (p : Policy A) : Type ℓ where
    pub candidate : Candidate A
    pub kept : p.candidate ≡ some candidate
    pub observing : p.observing ≡ true
    pub latest : candidate.last_seen ≡ now
    pub age : candidate.first_seen + debounce_seconds ≤ now

  at_once-IsAged :
      (now : ℕ) (sample result : A) (c : Candidate A)
      → at_once same debounce_seconds sample ≡ selected result
      → c.first_seen ≡ now
      → c.last_seen ≡ now
      → (sample ≡ result) × IsAged now (record { candidate = some c; observing = true })
  at_once-IsAged now sample result c e first last = elim (Bool-cases (eqb debounce_seconds 0)) [
    | inl t ↦ (
      ground arith,
      record { candidate = c; kept = refl; observing = refl; latest = last; age = ground arith },
    )
    | inr t ↦ absurd (ground arith)
  ]

  again-IsAged :
      (observing : Bool) (now pause_epoch : ℕ) (sample result : A) (c : Candidate A)
      → (select_again same debounce_seconds observing now pause_epoch sample c).1 ≡ selected result
      → (sample ≡ result)
        × IsAged now (select_again same debounce_seconds observing now pause_epoch sample c).0
  again-IsAged observing now pause_epoch sample result c e =
      elim (Bool-cases (must_restart same debounce_seconds observing now pause_epoch c)) [
        | inl r ↦
            let e1 : at_once same debounce_seconds sample ≡ selected result = rw r at e in
            rw r (
              at_once-IsAged now sample result
                (record c { first_seen = now; last_seen = now; pause_epoch = pause_epoch }) e1 refl
                refl)
        | inr r ↦
            let e1 : aged same debounce_seconds now c sample ≡ selected result = rw r at e in
            elim (Bool-cases (leb (c.first_seen + debounce_seconds) now)) [
              | inl t ↦ rw r (
                ground arith,
                record {
                  candidate = record c { last_seen = now };
                  kept = refl;
                  observing = refl;
                  latest = refl;
                  age = ground arith;
                },
              )
              | inr t ↦ absurd (ground arith)
            ]
      ]

  changed-IsAged :
      (observing : Bool) (now pause_epoch : ℕ) (sample result : A) (o : Option (Candidate A))
      → (select_changed same debounce_seconds observing now pause_epoch sample o).1
        ≡ selected result
      → (sample ≡ result)
        × IsAged now (select_changed same debounce_seconds observing now pause_epoch sample o).0
  changed-IsAged observing now pause_epoch sample result none e =
      at_once-IsAged now sample result _ e refl refl
  changed-IsAged observing now pause_epoch sample result (some c) e =
      elim (Bool-cases (same c.sample sample)) [
        | inl t ↦
            let e1 : (select_again same debounce_seconds observing now pause_epoch sample c).1
                ≡ selected result =
              rw t at e in
            rw t (again-IsAged observing now pause_epoch sample result c e1)
        | inr t ↦
            let e1 : at_once same debounce_seconds sample ≡ selected result = rw t at e in
            rw t (at_once-IsAged now sample result _ e1 refl refl)
      ]

  pub select-IsAged :
      (now pause_epoch : ℕ) (sample baseline result : A) (p : Policy A)
      → (select same debounce_seconds now pause_epoch sample (some baseline) p).1 ≡ selected result
      → (sample ≡ result)
        × IsAged now (select same debounce_seconds now pause_epoch sample (some baseline) p).0
  unfolding select
  select-IsAged now pause_epoch sample baseline result p e =
      elim (Bool-cases (same sample baseline)) [
        | inl t ↦ absurd (ground arith)
        | inr t ↦
            let e1 : (select_changed same debounce_seconds p.observing now pause_epoch sample
                  p.candidate).1
                ≡ selected result =
              rw t at e in
            rw t (changed-IsAged p.observing now pause_epoch sample result p.candidate e1)
      ]
