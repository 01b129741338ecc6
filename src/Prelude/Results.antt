-- ===== src/Prelude/Results.antt =====
-- Go functions that return `(T, error)`.
use mathlib.Core.Path.{◌≡◌, refl}
use mathlib.Core.Bool.{Bool, true, false, not}
use mathlib.Core.Logic.{◌⊎◌, ◌↔◌, inl, inr}
use funcbox.Prelude.Tests.{if◌then◌else◌}

pub data Result {ℓ κ} (E : Type ℓ) (A : Type κ) : Type (ℓ ⊔ κ) where
  ok : A → Result E A
  err : E → Result E A

infixl 5 ◌>>=◌ ◌>>◌
abbrev pub ◌>>=◌ : {E A B : Type 0} → Result E A → (A → Result E B) → Result E B
ok a >>= f = f a
err e >>= f = err e

abbrev pub ◌>>◌ : {E A B : Type 0} → Result E A → Result E B → Result E B
m >> k = m >>= λ _. k

-- `if cond { return err }` before the rest.
abbrev pub reject_if : {E : Type 0} → Bool → E → Result E (Unit {0})
reject_if true e = err e
reject_if false e = ok tt

pub Result-cases :
    {E A : Type 0} (r : Result E A) → ((a : A) × (r ≡ ok a)) ⊎ ((e : E) × (r ≡ err e))
Result-cases (ok a) = inl (a, refl)
Result-cases (err e) = inr (e, refl)

-- A chain of two calls returns a value only if both do.
pub >>=-eq-ok :
    {E A B : Type 0} (first : Result E A) (rest : A → Result E B) {result : B}
    → (first >>= rest) ≡ ok result
    → (value : A) × (first ≡ ok value) × (rest value ≡ ok result)
>>=-eq-ok (err problem) rest eq = cc
>>=-eq-ok (ok value) rest eq = (value, refl, eq)

-- What an early return of an error means for a success.
pub if_err_iff :
    {E A : Type 0} (b : Bool) (e : E) (r : Result E A) {a : A}
    → ((if b then err e else r) ≡ ok a) ↔ ((b ≡ false) × (r ≡ ok a))
if_err_iff true e r = (λ h. cc, λ h. cc (h.0))
if_err_iff false e r = (λ h. (refl, h), λ h. h.1)

pub >>-eq-ok_iff :
    {E A : Type 0} (m : Result E (Unit {0})) (k : Result E A) {a : A}
    → ((m >> k) ≡ ok a) ↔ ((m ≡ ok tt) × (k ≡ ok a))
>>-eq-ok_iff (ok u) k = (λ h. (refl, h), λ h. h.1)
>>-eq-ok_iff (err e) k = (λ h. cc, λ h. cc (h.0))

pub reject_if_iff : {E : Type 0} (b : Bool) (e : E) → (reject_if b e ≡ ok tt) ↔ (b ≡ false)
reject_if_iff true e = (λ h. cc, λ h. cc)
reject_if_iff false e = (λ h. refl, λ h. refl)

pub not-false_iff : (b : Bool) → (not b ≡ false) ↔ (b ≡ true)
not-false_iff true = (λ h. refl, λ h. refl)
not-false_iff false = (λ h. cc, λ h. cc)

pub ok-injective : {E A : Type 0} {a b : A} → ◌≡◌ {A = Result E A} (ok a) (ok b) → a ≡ b
ok-injective h = cc
