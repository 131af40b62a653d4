-- ===== src/Base/Result.antt =====
-- What a function returns or throws, with `do` blocks.
use mathlib.Core.Bool.{Bool, true, false}
use mathlib.Core.Option.{Option, none, some}
use mathlib.Core.Path.{◌≡◌, refl}
use native.Mathlib.Omega.{arith}

pub data Result {ℓ κ} (E : Type ℓ) (A : Type κ) : Type (ℓ ⊔ κ) where
  ok : A → Result E A
  err : E → Result E A

infixl 5 ◌>>=◌ ◌>>◌
abbrev pub ◌>>=◌ {ℓ κ μ} :
    {E : Type ℓ} {A : Type κ} {B : Type μ} → Result E A → (A → Result E B) → Result E B
ok a >>= f = f a
err e >>= f = err e

abbrev pub ◌>>◌ {ℓ κ} : {E : Type ℓ} {B : Type κ} → Result E (Unit {0}) → Result E B → Result E B
m >> k = m >>= λ _. k

-- `if (!test) throw error`
abbrev pub guard {ℓ} : {E : Type ℓ} → Bool → E → Result E (Unit {0})
guard true e = ok tt
guard false e = err e

-- `undefined` where something is wanted.
abbrev pub from_option {ℓ κ} : {E : Type ℓ} {A : Type κ} → Option A → E → Result E A
from_option none e = err e
from_option (some a) e = ok a

-- `try` with a `catch` that throws another error.
abbrev pub rethrow {ℓ κ} : {E : Type ℓ} {A : Type κ} → Result E A → E → Result E A
rethrow (ok a) e = ok a
rethrow (err x) e = err e

pub guard-ok {ℓ} : {E : Type ℓ} (b : Bool) (e : E) {u : Unit {0}} → guard b e ≡ ok u → b ≡ true
guard-ok true e h = refl
guard-ok false e h = cc

-- What a bind that returned has gone through.
pub bind-eq-ok {ℓ κ μ} :
    {E : Type ℓ} {A : Type κ} {B : Type μ} (m : Result E A) (f : A → Result E B) {b : B}
    → (m >>= f) ≡ ok b
    → (a : A) × (m ≡ ok a) × (f a ≡ ok b)
bind-eq-ok (ok a) f h = (a, refl, h)
bind-eq-ok (err e) f h = cc

pub guard-eq-ok {ℓ κ} :
    {E : Type ℓ} {B : Type κ} (b : Bool) (e : E) (next : Result E B) {r : B}
    → (guard b e >> next) ≡ ok r
    → (b ≡ true) × (next ≡ ok r)
guard-eq-ok true e next h = (refl, h)
guard-eq-ok false e next h = cc

pub from_option-eq-ok {ℓ κ} :
    {E : Type ℓ} {A : Type κ} (o : Option A) (e : E) {a : A} → from_option o e ≡ ok a → o ≡ some a
from_option-eq-ok none e h = cc
from_option-eq-ok (some a) e h = ground (arith, h)

pub ok_injective {ℓ κ} :
    {E : Type ℓ} {A : Type κ} {a b : A} → ◌≡◌ {A = Result E A} (ok a) (ok b) → a ≡ b
ok_injective h = ground (arith, h)
