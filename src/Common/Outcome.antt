-- ===== src/Common/Outcome.antt =====
-- The result of code that may raise: `err status message` is errors.py's IngressError. A database
-- transaction that raises is rolled back, so a failed method returns no new state.
use Prim.Native.Nat.{ℕ}
use Prim.Native.String.{String}
use mathlib.Core.Path.{refl, ◌≡◌}
use mathlib.Core.Logic.{◌⊎◌, inl, inr}
use mathlib.Core.Bool.{true, false, Bool}

pub data Result {ℓ} (X : Type ℓ) : Type ℓ where
  err : (status : ℕ) → (message : String) → Result X
  ok : X → Result X

infixl 5 ◌>>=◌ ◌>>◌
abbrev pub ◌>>=◌ {ℓ κ} : {X : Type ℓ} {Y : Type κ} → Result X → (X → Result Y) → Result Y
err c m >>= next = err c m
ok x >>= next = next x

abbrev pub ◌>>◌ {ℓ} : {Y : Type ℓ} → Result (Unit {0}) → Result Y → Result Y
check >> next = check >>= λ passed. next

-- `if not test: raise IngressError(message, status)`.
abbrev pub require : Bool → ℕ → String → Result (Unit {0})
require true c m = ok tt
require false c m = err c m

-- `if test: raise IngressError(message, status)`.
abbrev pub refuse_if : Bool → ℕ → String → Result (Unit {0})
refuse_if true c m = err c m
refuse_if false c m = ok tt

-- A chain that succeeds succeeded in its first part.
pub bind_ok {ℓ κ} :
    {X : Type ℓ} {Y : Type κ} {y : Y} (first : Result X) (next : X → Result Y)
    → (first >>= next) ≡ ok y
    → (x : X) × (first ≡ ok x) × (next x ≡ ok y)
bind_ok (err c m) next e = cc
bind_ok (ok x) next e = (x, refl, e)

pub refuse_if_ok {ℓ} :
    {B : Type ℓ} (t : Bool) (c : ℕ) (m : String) (k : Result B) {b : B}
    → (refuse_if t c m >> k) ≡ ok b
    → (t ≡ false) × (k ≡ ok b)
refuse_if_ok true c m k h = cc
refuse_if_ok false c m k h = (refl, h)

pub require_ok {ℓ} :
    {B : Type ℓ} (t : Bool) (c : ℕ) (m : String) (k : Result B) {b : B}
    → (require t c m >> k) ≡ ok b
    → (t ≡ true) × (k ≡ ok b)
require_ok true c m k h = (refl, h)
require_ok false c m k h = cc

-- A chain that fails fails in its first part, or that part succeeded.
pub bind_err {ℓ κ} :
    {X : Type ℓ} {Y : Type κ} {c : ℕ} {m : String} (first : Result X) (next : X → Result Y)
    → (first >>= next) ≡ err c m
    → (first ≡ err c m) ⊎ ((x : X) × (first ≡ ok x) × (next x ≡ err c m))
bind_err (err c m) next e = inl cc
bind_err (ok x) next e = inr (x, refl, e)

pub refuse_if_err {ℓ} :
    {Y : Type ℓ} {c : ℕ} {m : String} (t : Bool) (status : ℕ) (message : String) (next : Result Y)
    → (refuse_if t status message >> next) ≡ err c m
    → ((t ≡ true) × (status ≡ c)) ⊎ ((t ≡ false) × (next ≡ err c m))
refuse_if_err true status message next e = inl (refl, cc)
refuse_if_err false status message next e = inr (refl, e)

pub require_err {ℓ} :
    {Y : Type ℓ} {c : ℕ} {m : String} (t : Bool) (status : ℕ) (message : String) (next : Result Y)
    → (require t status message >> next) ≡ err c m
    → ((t ≡ false) × (status ≡ c)) ⊎ ((t ≡ true) × (next ≡ err c m))
require_err false status message next e = inl (refl, cc)
require_err true status message next e = inr (refl, e)
