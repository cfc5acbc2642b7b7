-- ===== src/Base/Result.antt =====
-- The outcome of code that may panic. A panic ends the call: nothing after it runs.
use mathlib.Core.Path.{◌≡◌, refl}
use std.Path.{subst}
use mathlib.Core.Bool.{Bool, true, false}
use async_fcgi.Base.Tests.{if◌then◌else◌}
use mathlib.Core.Logic.{◌⊎◌, inl, inr}

pub data Res {ℓ} (A : Type ℓ) : Type ℓ where
  ok : A → Res A
  panic : Res A

infixl 5 ◌>>=◌
abbrev pub ◌>>=◌ {ℓ κ} : {A : Type ℓ} {B : Type κ} → Res A → (A → Res B) → Res B
ok a >>= f = f a
panic >>= f = panic

pub Res-cases {ℓ} : {A : Type ℓ} (m : Res A) → (m ≡ panic) ⊎ ((a : A) × (m ≡ ok a))
Res-cases (ok a) = inr (a, refl)
Res-cases panic = inl refl

pub ok-inj {ℓ} : {A : Type ℓ} {a b : A} → ok a ≡ ok b → a ≡ b
ok-inj e = cc

-- What holds of the result on both branches of a test.
pub if-ok {ℓ κ} :
    {A : Type ℓ} (P : A → Type κ) (c : Bool) {x y a : A}
    → (if c then ok x else ok y) ≡ ok a
    → P x
    → P y
    → P a
if-ok P true e px py = subst P (ok-inj e) px
if-ok P false e px py = subst P (ok-inj e) py

pub if-of {ℓ κ} :
    {A : Type ℓ} (P : A → Type κ) (c : Bool) {x y : A} → P x → P y → P (if c then x else y)
if-of P true px py = px
if-of P false px py = py
