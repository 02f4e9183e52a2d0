-- ===== src/Common/Results.antt =====
-- `Result<T, E>` with the `?` operator as its bind.
use mathlib.Core.Path.{◌≡◌, refl, ap}
use mathlib.Core.Bool.{Bool, true, false}
use mathlib.Core.Option.{Option, none, some}
use mathlib.Core.Logic.{◌⊎◌, inl, inr}

pub data Result {ℓ κ} (E : Type κ) (A : Type ℓ) : Type (ℓ ⊔ κ) where
  ok : A → Result E A
  err : E → Result E A

infixl 5 ◌>>=◌ ◌>>◌
abbrev pub ◌>>=◌ {ℓ κ μ} :
    {E : Type κ} {A : Type ℓ} {B : Type μ} → Result E A → (A → Result E B) → Result E B
ok a >>= f = f a
err e >>= f = err e

abbrev pub ◌>>◌ {κ μ} : {E : Type κ} {B : Type μ} → Result E (Unit {0}) → Result E B → Result E B
m >> k = m >>= λ _. k

-- An early `return Err(e)` unless the test holds.
abbrev pub guard {κ} : {E : Type κ} → Bool → E → Result E (Unit {0})
guard true e = ok tt
guard false e = err e

-- `Option::ok_or`.
abbrev pub ok_or {ℓ κ} : {E : Type κ} {A : Type ℓ} → Option A → E → Result E A
ok_or none e = err e
ok_or (some a) e = ok a

abbrev pub is_ok {ℓ κ} : {E : Type κ} {A : Type ℓ} → Result E A → Bool
is_ok (ok a) = true
is_ok (err e) = false

pub Result-cases {ℓ κ} :
    {E : Type κ} {A : Type ℓ} (r : Result E A) → ((a : A) × (r ≡ ok a)) ⊎ ((e : E) × (r ≡ err e))
Result-cases (ok a) = inl (a, refl)
Result-cases (err e) = inr (e, refl)

pub ok-injective {ℓ κ} :
    {E : Type κ} {A : Type ℓ} {a b : A} → ◌≡◌ {A = Result E A} (ok a) (ok b) → a ≡ b
ok-injective h = cc

-- A bind that succeeds has a first part that does.
pub bind-ok {ℓ κ μ} :
    {E : Type κ} {A : Type ℓ} {B : Type μ} (m : Result E A) (f : A → Result E B) {b : B}
    → (m >>= f) ≡ ok b
    → (a : A) × (m ≡ ok a) × (f a ≡ ok b)
bind-ok (ok a) f h = (a, refl, h)
bind-ok (err e) f h = cc

pub guard-ok {κ} : {E : Type κ} (b : Bool) (e : E) {u : Unit {0}} → guard b e ≡ ok u → b ≡ true
guard-ok true e h = refl
guard-ok false e h = cc

pub ok_or-ok {ℓ κ} :
    {E : Type κ} {A : Type ℓ} (o : Option A) (e : E) {a : A} → ok_or o e ≡ ok a → o ≡ some a
ok_or-ok none e h = cc
ok_or-ok (some a) e h = ap some (ok-injective h)

-- What a chain that succeeds says of its first step, for a proof that goes on from there.
pub guard-use {ℓ κ μ} :
    {E : Type κ} {A : Type ℓ} {C : Type μ} (b : Bool) (e : E) (m : Result E A) {a : A}
    → (guard b e >> m) ≡ ok a
    → (b ≡ true → m ≡ ok a → C)
    → C
guard-use true e m h k = k refl h
guard-use false e m h k = cc

pub ok_or-use {ℓ κ μ ν} :
    {E : Type κ} {A : Type ℓ} {B : Type μ} {C : Type ν} (o : Option A) (e : E) (f : A → Result E B)
    {b : B}
    → (ok_or o e >>= f) ≡ ok b
    → ((a : A) → o ≡ some a → f a ≡ ok b → C)
    → C
ok_or-use none e f h k = cc
ok_or-use (some a) e f h k = k a refl h

pub bind-use {ℓ κ μ ν} :
    {E : Type κ} {A : Type ℓ} {B : Type μ} {C : Type ν} (m : Result E A) (f : A → Result E B)
    {b : B}
    → (m >>= f) ≡ ok b
    → ((a : A) → m ≡ ok a → f a ≡ ok b → C)
    → C
bind-use (ok a) f h k = k a refl h
bind-use (err e) f h k = cc

pub some-injective {ℓ} : {A : Type ℓ} {a b : A} → ◌≡◌ {A = Option A} (some a) (some b) → a ≡ b
some-injective h = cc

-- A property of a chain's result, from its first step.
pub guard-case {ℓ κ μ} :
    {E : Type κ} {A : Type ℓ} (Q : Result E A → Type μ) (b : Bool) (e : E) (m : Result E A)
    → (b ≡ false → Q (err e))
    → (b ≡ true → Q m)
    → Q (guard b e >> m)
guard-case Q true e m x k = k refl
guard-case Q false e m x k = x refl

pub bind-case {ℓ κ μ ν} :
    {E : Type κ} {A : Type ℓ} {B : Type μ} (Q : Result E B → Type ν) (m : Result E A)
    (f : A → Result E B)
    → ((e : E) → m ≡ err e → Q (err e))
    → ((a : A) → m ≡ ok a → Q (f a))
    → Q (m >>= f)
bind-case Q (ok a) f x k = k a refl
bind-case Q (err e) f x k = x e refl
