-- ===== src/Watch.antt =====
-- `ChangeWatcher` of codex_monitor/watch.py: samples that differ are emitted as changes, through a
-- checkpoint that survives the process.
use codex_monitor.Common.{
  String, Bool, true, false, Option, none, some, List, [], ◌∷◌, ◌++◌, if◌then◌else◌,
}
pub mod Chain
pub mod Samples

-- The event that is built for a change.
pub record Emission {ℓ} (A : Type ℓ) : Type ℓ where
  pub id : String
  pub previous : A
  pub current : A

-- The file of the watcher.
pub record Checkpoint {ℓ} (A : Type ℓ) : Type ℓ where
  pub last : A
  pub pending : Option (Emission A)

-- What a check leaves: the file, the emissions that went through, the one that did not, and the
-- method's result (`none` where it raised).
pub record Checked {ℓ} (A : Type ℓ) : Type ℓ where
  pub file : Option (Checkpoint A)
  pub taken : List (Emission A)
  pub failed : Option (Emission A)
  pub changed : Option Bool

-- `same` is `==` on samples. `emit` tells whether an emission returns; where it does not, it raised,
-- or the process died in it or before the next write of the checkpoint.
module _ {ℓ} {A : Type ℓ} (same : A → A → Bool) (emit : Emission A → Bool) where
  abbrev pub emitted : List (Emission A) → Emission A → Checked A
  emitted taken p =
      if emit p
      then record {
        file = some (record { last = p.current; pending = none });
        taken = taken ++ p ∷ [];
        failed = none;
        changed = some true;
      }
      else record {
        file = some (record { last = p.previous; pending = some p });
        taken = taken;
        failed = some p;
        changed = none;
      }

  -- The part of `check` behind the delivery of a pending event.
  abbrev pub compare_sample : String → A → A → List (Emission A) → Checked A
  compare_sample fresh sample last taken =
      if same sample last
      then record {
        file = some (record { last = last; pending = none });
        taken = taken;
        failed = none;
        changed = some false;
      }
      else emitted taken (record { id = fresh; previous = last; current = sample })

  abbrev pub resume : String → A → A → Option (Emission A) → Checked A
  resume fresh sample last none = compare_sample fresh sample last []
  resume fresh sample last (some p) =
      if emit p then compare_sample fresh sample p.current (p ∷ []) else record {
        file = some (record { last = last; pending = some p });
        taken = [];
        failed = some p;
        changed = none;
      }

  unfoldable pub check : String → A → Option (Checkpoint A) → Checked A
  check fresh sample none = record {
    file = some (record { last = sample; pending = none });
    taken = [];
    failed = none;
    changed = some false;
  }
  check fresh sample (some c) = resume fresh sample c.last c.pending

-- One check in a row of them: the uuid that it would draw, its sample, and how its emissions end.
pub record Round {ℓ} (A : Type ℓ) : Type ℓ where
  pub fresh : String
  pub sample : A
  pub emit : Emission A → Bool

module _ {ℓ} {A : Type ℓ} (same : A → A → Bool) where
  unfoldable pub watch : Option (Checkpoint A) → List (Round A) → Option (Checkpoint A)
  unfolding check
  watch file [] = file
  watch file (r ∷ rs) = watch (check same r.emit r.fresh r.sample file).file rs

  -- The emissions that went through in a row of checks.
  unfoldable pub deliveries : Option (Checkpoint A) → List (Round A) → List (Emission A)
  unfolding check
  deliveries file [] = []
  deliveries file (r ∷ rs) =
      let c = check same r.emit r.fresh r.sample file in c.taken ++ deliveries c.file rs
