-- ===== src/Requests/Machine.antt =====
-- The store as a whole: one step for each method that writes.
use codex_monitor.Common.{ℕ, String, Bool, Option, List, [], ◌∷◌, Result, ok, err}
use codex_monitor.Json.{Value}
use codex_monitor.Requests.State.{Store, Capacity, Encoding}
use codex_monitor.Requests.Lifecycle.{create, transition, expire_due}
use codex_monitor.Requests.Outbox.{notification_accepted, notification_error, notification_deferred}

pub data Op : Type 0 where
  -- the uuid drawn, the clock, conversation, source, key, delivery, binding, payload, expiry
  creates :
      String → ℕ → String → String → String → String → String → Value → Option ℕ → Option ℕ → Op
  -- the clock, conversation, source, key, update id, target, expected revision, summary
  transitions : ℕ → String → String → String → String → String → ℕ → Option Value → Op
  expires : ℕ → ℕ → Op
  accepts : ℕ → String → String → Op
  fails : ℕ → String → String → Option ℕ → Op
  defers : ℕ → String → String → ℕ → Op

pub record Setup : Type 0 where
  pub encoding : Encoding
  pub capacity : Capacity
  pub blank : String → Bool

abbrev pub after_pair {ℓ} : {A : Type ℓ} → Store → Result (Store × A) → Store
after_pair db (ok (db', r)) = db'
after_pair db (err c m) = db

abbrev pub after : Store → Result Store → Store
after db (ok db') = db'
after db (err c m) = db

unfoldable pub step : Setup → Store → Op → Store
step u db (creates fresh now conversation source key delivery binding payload at within) =
    after_pair db (
      create u.encoding u.capacity fresh now conversation source key delivery binding payload at
        within db)
step u db (transitions now conversation source key update_id target expected summary) =
    after_pair db (
      transition u.encoding u.capacity now conversation source key update_id target expected summary
        db)
step u db (expires now limit) = after_pair db (expire_due u.encoding u.capacity now limit db)
step u db (accepts now id delivery) = after_pair db (notification_accepted now id delivery db)
step u db (fails now id message retry_after) =
    after db (notification_error u.blank now id message retry_after db)
step u db (defers now id reason retry_after) =
    after db (notification_deferred u.blank now id reason retry_after db)

unfoldable pub run : Setup → Store → List Op → Store
unfolding step
run u db [] = db
run u db (op ∷ ops) = run u (step u db op) ops
