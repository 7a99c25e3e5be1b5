-- ===== src/Health/Cache.antt =====
-- `OwnerHealthCache`: the observations of the last probes, for a while and up to a number of them.
use codex_monitor.Common.{
  ℕ, ◌+◌, ◌≡◌, String, Bool, not, ◌&&◌, Option, none, some, List, [], ◌∷◌, ◌++◌, ltb, if◌then◌else◌,
  find_row, select_rows, length, ◌==◌,
}

-- What a call of the probe comes to: a dict, anything else, or an exception.
pub data Probed {ℓ} (V : Type ℓ) : Type ℓ where
  gave : V → Probed V
  malformed : Probed V
  broke : Probed V

pub record Entry {ℓ} (V : Type ℓ) : Type ℓ where
  pub endpoint : String
  pub thread : String
  pub expires : ℕ
  pub value : V

-- The probe by the clock's reading at its call; `invalid` is what stands for malformed data.
pub record Cached {ℓ} (V : Type ℓ) : Type ℓ where
  pub ttl : ℕ
  pub max_entries : ℕ
  pub probe : ℕ → String → String → Probed V
  pub invalid : String → String → V

module _ {ℓ} {V : Type ℓ} where
  abbrev pub keyed : String → String → Entry V → Bool
  keyed endpoint thread e = e.endpoint == endpoint && e.thread == thread

  -- `move_to_end`, and a write at the end
  abbrev pub at_end : String → String → Entry V → List (Entry V) → List (Entry V)
  at_end endpoint thread e items = select_rows (λ i. not (keyed endpoint thread i)) items ++ e ∷ []

  -- `while len(self._items) > self.max_entries: self._items.popitem(last=False)`
  unfoldable pub trim : ℕ → List (Entry V) → List (Entry V)
  trim n [] = []
  trim n (e ∷ es) = let rest = trim n es in if ltb n (length (e ∷ es)) then rest else e ∷ es

  abbrev pub entry_for : Cached V → ℕ → String → String → V → Entry V
  entry_for c now endpoint thread v = record {
    endpoint = endpoint;
    thread = thread;
    expires = now + c.ttl;
    value = v;
  }

  abbrev pub remember :
      Cached V → ℕ → String → String → List (Entry V) → V → List (Entry V) × Option V
  remember c now endpoint thread items v = (
    trim c.max_entries (at_end endpoint thread (entry_for c now endpoint thread v) items),
    some v,
  )

  -- The Option is none where the probe raises.
  abbrev pub probed :
      Cached V → ℕ → String → String → List (Entry V) → Probed V → List (Entry V) × Option V
  probed c now endpoint thread items (gave v) = remember c now endpoint thread items v
  probed c now endpoint thread items malformed =
      remember c now endpoint thread items (c.invalid endpoint thread)
  probed c now endpoint thread items broke = (items, none)

  abbrev pub looked_up :
      Cached V → ℕ → String → String → List (Entry V) → Option (Entry V) → List (Entry V) × Option V
  looked_up c now endpoint thread items none =
      probed c now endpoint thread items (c.probe now endpoint thread)
  looked_up c now endpoint thread items (some e) =
      if ltb now e.expires
      then (at_end endpoint thread e items, some e.value)
      else probed c now endpoint thread items (c.probe now endpoint thread)

  unfoldable pub get : Cached V → ℕ → String → String → List (Entry V) → List (Entry V) × Option V
  unfolding trim
  get c now endpoint thread items =
      looked_up c now endpoint thread items (find_row (keyed endpoint thread) items)

-- A call of `get`: the clock, the endpoint, the thread.
pub record Look : Type 0 where
  pub at_time : ℕ
  pub endpoint : String
  pub thread : String

-- The cache after some calls, the latest first.
unfoldable pub after_looks {ℓ} : {V : Type ℓ} → Cached V → List Look → List (Entry V)
unfolding get
after_looks c [] = []
after_looks c (l ∷ looks) = (get c l.at_time l.endpoint l.thread (after_looks c looks)).0

-- What a probe gives, as the cache hands it on.
abbrev pub shown {ℓ} : {V : Type ℓ} → Cached V → String → String → Probed V → Option V
shown c endpoint thread (gave v) = some v
shown c endpoint thread malformed = some (c.invalid endpoint thread)
shown c endpoint thread broke = none

-- The value comes from a probe of that key at one of the times, and expires a ttl later.
pub data IsProbed {ℓ} {V : Type ℓ} (c : Cached V) (endpoint thread : String) (v : V) (expires : ℕ)
    : List Look → Type ℓ where
  now_probed :
      (l : Look) (looks : List Look)
      → shown c endpoint thread (c.probe l.at_time endpoint thread) ≡ some v
      → expires ≡ l.at_time + c.ttl
      → IsProbed c endpoint thread v expires (l ∷ looks)
  earlier :
      (l : Look) (looks : List Look)
      → IsProbed c endpoint thread v expires looks
      → IsProbed c endpoint thread v expires (l ∷ looks)
