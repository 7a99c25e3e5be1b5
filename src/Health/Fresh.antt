-- ===== src/Health/Fresh.antt =====
-- What the cache of observations promises.
use codex_monitor.Common.{
  ℕ, ◌+◌, ◌≤◌, ◌<◌, ◌≡◌, refl, ap, String, Bool, not, Option, none, some, List, [], ◌∷◌, ltb,
  find_row, select_rows, length, arith, Bool-cases, inl, inr, All, All-append, All-mono,
  All-select_rows, All-find_row, length-append_one, find_row-hit, eq_iff, ◌∙◌,
}
use codex_monitor.Health.Cache.{
  Probed, gave, malformed, broke, Entry, Cached, keyed, at_end, trim, entry_for, probed, looked_up,
  get, Look, after_looks, shown, IsProbed, now_probed, earlier,
}

module _ {ℓ} {A : Type ℓ} where
  length-select_le : (p : A → Bool) (rs : List A) → length (select_rows p rs) ≤ length rs
  unfolding select_rows
  length-select_le p [] = omega arith
  length-select_le p (r ∷ rs) = elim (Bool-cases (p r)) [
    | inl t ↦ rw t (omega (arith, length-select_le p rs))
    | inr t ↦ rw t (omega (arith, length-select_le p rs))
  ]

  length-select_found :
      (p : A → Bool) (rs : List A) (r : A)
      → find_row p rs ≡ some r
      → length (select_rows (λ a. not (p a)) rs) < length rs
  unfolding find_row select_rows
  length-select_found p [] r e = cc
  length-select_found p (x ∷ rs) r e = elim (Bool-cases (p x)) [
    | inl t ↦ rw t (omega (arith, length-select_le (λ a. not (p a)) rs))
    | inr t ↦ rw t (omega (arith, length-select_found p rs r (ground (arith, t, e))))
  ]

module _ {ℓ} {V : Type ℓ} (c : Cached V) where
  length-trim : (n : ℕ) (items : List (Entry V)) → length (trim n items) ≤ n
  unfolding trim
  length-trim n [] = omega arith
  length-trim n (e ∷ es) = elim (Bool-cases (ltb n (length (e ∷ es)))) [
    | inl t ↦ rw t (length-trim n es)
    | inr t ↦ rw t (ground (arith, t))
  ]

  abbrev Within : List (Entry V) → Type 0
  Within items = length items ≤ c.max_entries

  probed-Within :
      (now : ℕ) (endpoint thread : String) (items : List (Entry V)) (p : Probed V)
      → Within items
      → Within (probed c now endpoint thread items p).0
  probed-Within now endpoint thread items (gave v) h = length-trim c.max_entries _
  probed-Within now endpoint thread items malformed h = length-trim c.max_entries _
  probed-Within now endpoint thread items broke h = h

  found-Within :
      (endpoint thread : String) (items : List (Entry V)) (e : Entry V)
      → find_row (keyed endpoint thread) items ≡ some e
      → Within items
      → Within (at_end endpoint thread e items)
  found-Within endpoint thread items e found h =
      let shorter = length-select_found (keyed endpoint thread) items e found in
      let one = length-append_one (select_rows (λ i. not (keyed endpoint thread i)) items) e in
      rw one (omega (arith, shorter, h))

  get-Within :
      (now : ℕ) (endpoint thread : String) (items : List (Entry V))
      → Within items
      → Within (get c now endpoint thread items).0
  unfolding get
  get-Within now endpoint thread items h = go (find_row (keyed endpoint thread) items) refl
    where
      go :
          (o : Option (Entry V))
          → find_row (keyed endpoint thread) items ≡ o
          → Within (looked_up c now endpoint thread items o).0
      go none e = probed-Within now endpoint thread items (c.probe now endpoint thread) h
      go (some x) e = elim (Bool-cases (ltb now x.expires)) [
        | inl t ↦ rw t (found-Within endpoint thread items x e h)
        | inr t ↦ rw t (probed-Within now endpoint thread items (c.probe now endpoint thread) h)
      ]

  -- The cache never has more entries than it may, whatever is looked up and whatever the probe does.
  pub looks_within : (looks : List Look) → length (after_looks c looks) ≤ c.max_entries
  unfolding after_looks
  looks_within [] = omega arith
  looks_within (l ∷ looks) =
      get-Within l.at_time l.endpoint l.thread (after_looks c looks) (looks_within looks)

  abbrev IsKnown : List Look → Entry V → Type ℓ
  IsKnown looks e = IsProbed c e.endpoint e.thread e.value e.expires looks

  known_trim :
      (n : ℕ) (P : Entry V → Type ℓ) (items : List (Entry V)) → All P items → All P (trim n items)
  unfolding trim
  known_trim n P [] h = tt
  known_trim n P (e ∷ es) h = elim (Bool-cases (ltb n (length (e ∷ es)))) [
    | inl t ↦ rw t (known_trim n P es h.1)
    | inr t ↦ rw t h
  ]

  known_end :
      (P : Entry V → Type ℓ) (endpoint thread : String) (e : Entry V) (items : List (Entry V))
      → All P items
      → P e
      → All P (at_end endpoint thread e items)
  known_end P endpoint thread e items h p =
      All-append P (select_rows (λ i. not (keyed endpoint thread i)) items) e
        (All-mono _ P (λ a q. q.0) _
          (All-select_rows P (λ i. not (keyed endpoint thread i)) items h))
        p

  module _ (looks : List Look) (l : Look) (items : List (Entry V))
      (known : All (IsKnown (l ∷ looks)) items) where
    probed-IsKnown :
        (p : Probed V)
        → c.probe l.at_time l.endpoint l.thread ≡ p
        → All (IsKnown (l ∷ looks)) (probed c l.at_time l.endpoint l.thread items p).0
    probed-IsKnown (gave v) e = known_trim c.max_entries _ _ (
        known_end _ l.endpoint l.thread (entry_for c l.at_time l.endpoint l.thread v) items known
          (now_probed l looks (ap (shown c l.endpoint l.thread) e) refl))
    probed-IsKnown malformed e = known_trim c.max_entries _ _ (
        known_end _ l.endpoint l.thread
          (entry_for c l.at_time l.endpoint l.thread (c.invalid l.endpoint l.thread)) items known
          (now_probed l looks (ap (shown c l.endpoint l.thread) e) refl))
    probed-IsKnown broke e = known

    looked_up-IsKnown :
        (o : Option (Entry V))
        → ((e : Entry V) → o ≡ some e → IsKnown (l ∷ looks) e)
        → All (IsKnown (l ∷ looks)) (looked_up c l.at_time l.endpoint l.thread items o).0
    looked_up-IsKnown none f = probed-IsKnown (c.probe l.at_time l.endpoint l.thread) refl
    looked_up-IsKnown (some e) f = elim (Bool-cases (ltb l.at_time e.expires)) [
      | inl t ↦ rw t (known_end _ l.endpoint l.thread e items known (f e refl))
      | inr t ↦ rw t (probed-IsKnown (c.probe l.at_time l.endpoint l.thread) refl)
    ]

  looks-IsKnown : (looks : List Look) → All (IsKnown looks) (after_looks c looks)
  unfolding after_looks get
  looks-IsKnown [] = tt
  looks-IsKnown (l ∷ looks) =
      let items = after_looks c looks in
      let older =
        All-mono (IsKnown looks) (IsKnown (l ∷ looks)) (λ e h. earlier l looks h) items
          (looks-IsKnown looks) in
      looked_up-IsKnown looks l items older (find_row (keyed l.endpoint l.thread) items)
        (λ e f. All-find_row (IsKnown (l ∷ looks)) (keyed l.endpoint l.thread) items older f)

  some_value : (a b : V) → some a ≡ some b → a ≡ b
  some_value a b e = cc

  -- A value for the key `endpoint`, `thread` that is not older than the ttl.
  abbrev pub IsFresh : List Look → Look → V → Type ℓ
  IsFresh looks l v =
      (expires : ℕ) × (l.at_time < expires) × IsProbed c l.endpoint l.thread v expires (l ∷ looks)

  probed-IsFresh :
      (looks : List Look) (l : Look) (items : List (Entry V)) (v : V) (p : Probed V)
      → 1 ≤ c.ttl
      → c.probe l.at_time l.endpoint l.thread ≡ p
      → (probed c l.at_time l.endpoint l.thread items p).1 ≡ some v
      → IsFresh looks l v
  probed-IsFresh looks l items v (gave w) pos e h = (
    l.at_time + c.ttl,
    omega (arith, pos),
    now_probed l looks (ap (shown c l.endpoint l.thread) e ∙ h) refl,
  )
  probed-IsFresh looks l items v malformed pos e h = (
    l.at_time + c.ttl,
    omega (arith, pos),
    now_probed l looks (ap (shown c l.endpoint l.thread) e ∙ h) refl,
  )
  probed-IsFresh looks l items v broke pos e h = ground arith

  -- What `get` returns is what a probe of the same endpoint and thread gave, at this call or at an
  -- earlier one, less than the ttl ago by the clock's readings, whatever calls came before.
  pub get-IsFresh :
      (looks : List Look) (l : Look) (v : V)
      → 1 ≤ c.ttl
      → (get c l.at_time l.endpoint l.thread (after_looks c looks)).1 ≡ some v
      → IsFresh looks l v
  unfolding get
  get-IsFresh looks l v pos e =
      go (find_row (keyed l.endpoint l.thread) (after_looks c looks)) refl e
    where
      go :
          (o : Option (Entry V))
          → find_row (keyed l.endpoint l.thread) (after_looks c looks) ≡ o
          → (looked_up c l.at_time l.endpoint l.thread (after_looks c looks) o).1 ≡ some v
          → IsFresh looks l v
      go none f h =
          probed-IsFresh looks l (after_looks c looks) v (c.probe l.at_time l.endpoint l.thread) pos
            refl h
      go (some x) f h = elim (Bool-cases (ltb l.at_time x.expires)) [
        | inr t ↦
            probed-IsFresh looks l (after_looks c looks) v (c.probe l.at_time l.endpoint l.thread)
              pos refl (rw t at h)
        | inl t ↦
            let known =
              All-find_row (IsKnown looks) (keyed l.endpoint l.thread) (after_looks c looks)
                (looks-IsKnown looks) f in
            let hit = find_row-hit (keyed l.endpoint l.thread) (after_looks c looks) f in
            let same : x.value ≡ v = some_value x.value v (rw t at h) in
            let e1 : x.endpoint ≡ l.endpoint = ground (arith, hit, eq_iff x.endpoint l.endpoint) in
            let e2 : x.thread ≡ l.thread = ground (arith, hit, eq_iff x.thread l.thread) in
            (
              x.expires,
              ground (arith, t),
              earlier l looks
                  (coe 0 1 (i. IsProbed c (e1 i) (e2 i) (same i) x.expires looks) known),
            )
      ]
