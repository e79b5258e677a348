-- ===== src/Prelude/Result.antt =====
-- Python code that may raise: a result or the exception, chained by `do`.
use mathlib.Core.Path.{◌≡◌, refl, subst}
use mathlib.Core.Logic.{◌⊎◌, inl, inr, ◌↔◌}
use mathlib.Core.Bool.{Bool, true, false}
use mathlib.Core.Option.{Option, none, some}

pub data Result {ℓ κ} (E : Type ℓ) (A : Type κ) : Type (ℓ ⊔ κ) where
  ok : A → Result E A
  err : E → Result E A

infixl 5 ◌>>=◌ ◌>>◌
abbrev pub ◌>>=◌ {ℓ κ ν} :
    {E : Type ℓ} {A : Type κ} {B : Type ν} → Result E A → (A → Result E B) → Result E B
ok a >>= f = f a
err e >>= f = err e

abbrev pub ◌>>◌ {ℓ ν} : {E : Type ℓ} {B : Type ν} → Result E (Unit {0}) → Result E B → Result E B
m >> k = m >>= λ _. k

-- `if not test: raise e`
abbrev pub guard {ℓ} : {E : Type ℓ} → Bool → E → Result E (Unit {0})
guard true e = ok tt
guard false e = err e

-- an exception in place of a missing value
abbrev pub required {ℓ κ} : {E : Type ℓ} {A : Type κ} → Option A → E → Result E A
required none e = err e
required (some a) e = ok a

pub Result-cases {ℓ κ} :
    {E : Type ℓ} {A : Type κ} (r : Result E A) → ((e : E) × (r ≡ err e)) ⊎ ((a : A) × (r ≡ ok a))
Result-cases (ok a) = inr (a, refl)
Result-cases (err e) = inl (e, refl)

pub bind-ok {ℓ κ ν} :
    {E : Type ℓ} {A : Type κ} {B : Type ν} (m : Result E A) (f : A → Result E B) {b : B}
    → (m >>= f) ≡ ok b
    → (a : A) × (m ≡ ok a) × (f a ≡ ok b)
bind-ok (ok a) f h = (a, refl, h)
bind-ok (err e) f h = cc

pub guard-ok {ℓ ν} :
    {E : Type ℓ} {B : Type ν} (b : Bool) (e : E) (k : Result E B) {r : B}
    → (guard b e >> k) ≡ ok r
    → (b ≡ true) × (k ≡ ok r)
guard-ok true e k h = (refl, h)
guard-ok false e k h = cc

pub required-ok {ℓ κ ν} :
    {E : Type ℓ} {A : Type κ} {B : Type ν} (o : Option A) (e : E) (f : A → Result E B) {b : B}
    → (required o e >>= f) ≡ ok b
    → (a : A) × (o ≡ some a) × (f a ≡ ok b)
required-ok none e f h = cc
required-ok (some a) e f h = (a, refl, h)

pub guard_iff {ℓ} : {E : Type ℓ} (b : Bool) (e : E) → (guard b e ≡ ok tt) ↔ (b ≡ true)
guard_iff true e = (λ h. refl, λ h. refl)
guard_iff false e = (λ h. cc, λ h. cc)

pub then_iff {ℓ} :
    {E : Type ℓ} (m k : Result E (Unit {0})) → ((m >> k) ≡ ok tt) ↔ ((m ≡ ok tt) × (k ≡ ok tt))
then_iff (ok u) k = (λ h. (refl, h), λ h. h.1)
then_iff (err e) k = (λ h. cc, λ h. cc)

-- What holds of the result, where there is one.
module _ {ℓ κ} {E : Type ℓ} {A : Type κ} (P : A → Type 0) where
  abbrev pub Holds : Result E A → Type 0
  Holds (ok a) = P a
  Holds (err e) = Unit

  pub Holds-ok : (r : Result E A) {a : A} → Holds r → r ≡ ok a → P a
  Holds-ok r p h = subst Holds h p

  pub Holds-guard :
      (b : Bool) (e : E) (k : Result E A) → (b ≡ true → Holds k) → Holds (guard b e >> k)
  Holds-guard true e k h = h refl
  Holds-guard false e k h = tt

  pub Holds-bind {ν} :
      {B : Type ν} (m : Result E B) (f : B → Result E A)
      → ((b : B) → m ≡ ok b → Holds (f b))
      → Holds (m >>= f)
  Holds-bind (ok b) f h = h b refl
  Holds-bind (err e) f h = tt
