-- ===== src/Base/Results.antt =====
-- Predicates on the result of a step that may fail, or that may not end.
use mathlib.Core.Path.{◌≡◌, refl, subst}
use mathlib.Core.Bool.{Bool, true, false}
use mathlib.Core.Option.{Option, none, some}
use mq_cplusplus.Base.Tests.{if◌then◌else◌}
use mq_cplusplus.Base.Monad.{◌>>=◌}

-- What holds of a result, if there is one.
abbrev pub Every {ℓ κ} : {A : Type ℓ} → (A → Type κ) → Option A → Type κ
Every P none = Unit
Every P (some x) = P x

pub Every-bind {ℓ ℓ' κ} :
    {A : Type ℓ}
    → {B : Type ℓ'} → (Q : B → Type κ) → (o : Option A) → (f : A → Option B)
    → ((x : A) → o ≡ some x → Every Q (f x))
    → Every Q (o >>= f)
Every-bind Q none f h = tt
Every-bind Q (some x) f h = h x refl

pub Every-of {ℓ κ} :
    {A : Type ℓ} → (P : A → Type κ) → (o : Option A) → (x : A) → Every P o → o ≡ some x → P x
Every-of P none x h e = absurd (cc)
Every-of P (some y) x h e = subst P (some_injective e) h
  where
    some_injective : some y ≡ some x → y ≡ x
    some_injective e = cc

pub Every-if {ℓ κ} :
    {A : Type ℓ}
    → (P : A → Type κ) → (b : Bool) → (x y : Option A) → Every P x
    → Every P y
    → Every P (if b then x else y)
Every-if P true x y h k = h
Every-if P false x y h k = k
