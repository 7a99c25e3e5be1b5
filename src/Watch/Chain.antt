-- ===== src/Watch/Chain.antt =====
-- The changes that a watcher emits fit together, and one that fails is emitted again as it was.
use codex_monitor.Common.{
  ◌≡◌, refl, sym, ap, subst, String, Bool, true, Option, none, some, List, [], ◌∷◌, ◌++◌, arith,
  Bool-cases, inl, inr,
}
use codex_monitor.Watch.{
  Emission, Checkpoint, Checked, emitted, compare_sample, resume, check, Round, watch, deliveries,
}

module _ {ℓ} {A : Type ℓ} where
  -- From `a`, each change begins where the one before ended, and the last one ends in `b`.
  pub data IsChain : A → List (Emission A) → A → Type ℓ where
    unmoved : {a b : A} → a ≡ b → IsChain a [] b
    change :
        {a b : A} (p : Emission A) {ps : List (Emission A)}
        → p.previous ≡ a
        → IsChain p.current ps b
        → IsChain a (p ∷ ps) b

  -- A pending change begins at the last sample.
  abbrev pub PendingFits : A → Option (Emission A) → Type ℓ
  PendingFits last none = Unit
  PendingFits last (some p) = p.previous ≡ last

  abbrev pub IsAt : A → Option (Checkpoint A) → Type ℓ
  IsAt a none = Unit
  IsAt a (some c) = (c.last ≡ a) × PendingFits c.last c.pending

  IsChain-append :
      (ps qs : List (Emission A)) {a b c : A}
      → IsChain a ps b
      → IsChain b qs c
      → IsChain a (ps ++ qs) c
  IsChain-append [] qs {c = c} (unmoved e) k = subst (λ x. IsChain x qs c) (sym e) k
  IsChain-append (p ∷ ps) qs (change _ e h) k = change p e (IsChain-append ps qs h k)

-- What a check leaves of a file that stood at `a`.
record Follows {ℓ} {A : Type ℓ} (a : A) (c : Checked A) : Type ℓ where
  next : Checkpoint A
  saved : c.file ≡ some next
  chain : IsChain a c.taken next.last
  fits : PendingFits next.last next.pending

module _ {ℓ} {A : Type ℓ} (same : A → A → Bool) (emit : Emission A → Bool) (fresh : String)
    (sample : A) where
  emitted-Follows :
      (a : A) (taken : List (Emission A)) (p : Emission A)
      → IsChain a taken p.previous
      → Follows a (emitted same emit taken p)
  emitted-Follows a taken p h = elim (Bool-cases (emit p)) [
    | inl t ↦ rw t (record {
      next = record { last = p.current; pending = none };
      saved = refl;
      chain = IsChain-append taken (p ∷ []) h (change p refl (unmoved refl));
      fits = tt;
    })
    | inr t ↦ rw t (record {
      next = record { last = p.previous; pending = some p };
      saved = refl;
      chain = h;
      fits = refl;
    })
  ]

  compare-Follows :
      (a last : A) (taken : List (Emission A))
      → IsChain a taken last
      → Follows a (compare_sample same emit fresh sample last taken)
  compare-Follows a last taken h = elim (Bool-cases (same sample last)) [
    | inl t ↦ rw t (record {
      next = record { last = last; pending = none };
      saved = refl;
      chain = h;
      fits = tt;
    })
    | inr t ↦
        rw t (emitted-Follows a taken (record { id = fresh; previous = last; current = sample }) h)
  ]

  resume-Follows :
      (last : A) (o : Option (Emission A))
      → PendingFits last o
      → Follows last (resume same emit fresh sample last o)
  resume-Follows last none fits = compare-Follows last last [] (unmoved refl)
  resume-Follows last (some p) fits = elim (Bool-cases (emit p)) [
    | inl t ↦ rw t (compare-Follows last p.current (p ∷ []) (change p fits (unmoved refl)))
    | inr t ↦ rw t (record {
      next = record { last = last; pending = some p };
      saved = refl;
      chain = unmoved refl;
      fits = fits;
    })
  ]

  check-Follows :
      (c : Checkpoint A)
      → PendingFits c.last c.pending
      → Follows c.last (check same emit fresh sample (some c))
  unfolding check
  check-Follows c fits = resume-Follows c.last c.pending fits

-- The changes that go through in any row of checks fit together, failures, crashes and restarts
-- included: each begins at the sample at which the one before ended, from the file's last sample to
-- the last sample of the file that is left. (A pending change is to begin at the last sample, as
-- it does in every file that a check leaves.)
pub watch-IsChain {ℓ} :
    {A : Type ℓ} (same : A → A → Bool) (c : Checkpoint A) (rounds : List (Round A))
    → PendingFits c.last c.pending
    → (end : Checkpoint A) × (watch same (some c) rounds ≡ some end)
      × IsChain c.last (deliveries same (some c) rounds) end.last
      × PendingFits end.last end.pending
unfolding watch deliveries
watch-IsChain same c [] fits = (c, refl, unmoved refl, fits)
watch-IsChain same c (r ∷ rs) fits =
    let one = check-Follows same r.emit r.fresh r.sample c fits in
    let (end, reached, chain, last_fits) = watch-IsChain same one.next rs one.fits in
    (
      end,
      rw (one.saved) reached,
      rw (one.saved) (
          IsChain-append (check same r.emit r.fresh r.sample (some c)).taken
            (deliveries same (some one.next) rs) one.chain chain),
      last_fits,
    )

module _ {ℓ} {A : Type ℓ} (same : A → A → Bool) (emit : Emission A → Bool) (fresh : String)
    (sample : A) where
  -- Where an emission failed, the file keeps it.
  failed_emitted :
      (taken : List (Emission A)) (p q : Emission A)
      → (emitted same emit taken p).failed ≡ some q
      → (c : Checkpoint A) × ((emitted same emit taken p).file ≡ some c) × (c.pending ≡ some q)
  failed_emitted taken p q e = elim (Bool-cases (emit p)) [
    | inl t ↦ absurd (ground arith)
    | inr t ↦
        let pq : p ≡ q = ground arith in
        rw t (record { last = p.previous; pending = some p }, refl, ap some pq)
  ]

  failed_compare :
      (last : A) (taken : List (Emission A)) (q : Emission A)
      → (compare_sample same emit fresh sample last taken).failed ≡ some q
      → (c : Checkpoint A) × ((compare_sample same emit fresh sample last taken).file ≡ some c)
        × (c.pending ≡ some q)
  failed_compare last taken q e = elim (Bool-cases (same sample last)) [
    | inl t ↦ absurd (ground arith)
    | inr t ↦
        let e1 : (emitted same emit taken
              (record { id = fresh; previous = last; current = sample })).failed
            ≡ some q =
          rw t at e in
        rw t (failed_emitted taken (record { id = fresh; previous = last; current = sample }) q e1)
  ]

  failed_resume :
      (last : A) (o : Option (Emission A)) (q : Emission A)
      → (resume same emit fresh sample last o).failed ≡ some q
      → (d : Checkpoint A) × ((resume same emit fresh sample last o).file ≡ some d)
        × (d.pending ≡ some q)
  failed_resume last none q e = failed_compare last [] q e
  failed_resume last (some p) q e = elim (Bool-cases (emit p)) [
    | inl t ↦
        let e1 : (compare_sample same emit fresh sample p.current (p ∷ [])).failed ≡ some q =
          rw t at e in
        rw t (failed_compare p.current (p ∷ []) q e1)
    | inr t ↦
        let e1 : some p ≡ some q = rw t at e in
        rw t (record { last = last; pending = some p }, refl, e1)
  ]

  compare_first :
      (last : A) (q : Emission A)
      → (rest : List (Emission A)) × ((compare_sample same emit fresh sample last (q ∷ [])).taken
          ≡ q ∷ rest)
  compare_first last q = elim (Bool-cases (same sample last)) [
    | inl t ↦ rw t ([], refl)
    | inr t ↦
        let p : Emission A = record { id = fresh; previous = last; current = sample } in
        elim (Bool-cases (emit p)) [
          | inl k ↦ rw t (rw k (p ∷ [], refl))
          | inr k ↦ rw t (rw k ([], refl))
        ]
  ]

  resume_first :
      (last : A) (o : Option (Emission A)) (q : Emission A)
      → o ≡ some q
      → emit q ≡ true
      → (rest : List (Emission A)) × ((resume same emit fresh sample last o).taken ≡ q ∷ rest)
  resume_first last none q h t = cc
  resume_first last (some p) q h t =
      let pq : p ≡ q = ground arith in rw pq (rw t (compare_first q.current q))

-- An emission that failed, or that the process did not survive, is not lost and not renamed: the
-- next check emits the same event, with its id, before all others, whatever it samples.
pub check-retries {ℓ} :
    {A : Type ℓ} (same : A → A → Bool) (emit later : Emission A → Bool) (fresh later_fresh : String)
    (sample later_sample : A) (c : Checkpoint A) (q : Emission A)
    → (check same emit fresh sample (some c)).failed ≡ some q
    → later q ≡ true
    → (rest : List (Emission A)) × ((check same later later_fresh later_sample
          (check same emit fresh sample (some c)).file).taken
        ≡ q ∷ rest)
unfolding check
check-retries same emit later fresh later_fresh sample later_sample c q failed accepted =
    let (d, saved, pending) = failed_resume same emit fresh sample c.last c.pending q failed in
    rw saved (resume_first same later later_fresh later_sample d.last d.pending q pending accepted)
