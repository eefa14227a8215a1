-- ===== src/Base/Names.antt =====
-- `std::string` as its bytes, its comparison, and the C string that a byte array holds.
use Prim.Native.Nat.{ℕ, ◌<◌}
use mathlib.Core.Path.{◌≡◌, refl}
use mathlib.Core.Logic.{◌↔◌}
use mathlib.Core.Bool.{Bool, true, false, ◌&&◌}
use mathlib.Core.List.{List, [], ◌∷◌, ◌++◌}
use mathlib.Core.Option
use mathlib.Core.Option.{Option, none, some}
use native.Mathlib.Omega.{arith}
use mq_cplusplus.Base.Tests.{◌==◌, if◌then◌else◌}
use mq_cplusplus.Base.Lists.{All}

abbrev pub Bytes : Type 0
Bytes = List ℕ

unfoldable pub name_eq : Bytes → Bytes → Bool
name_eq [] [] = true
name_eq [] (b ∷ bs) = false
name_eq (a ∷ as') [] = false
name_eq (a ∷ as') (b ∷ bs) = (a == b) && name_eq as' bs

pub name_eq→eq : (s t : Bytes) → name_eq s t ≡ true → s ≡ t
unfolding name_eq
name_eq→eq [] [] h = refl
name_eq→eq [] (b ∷ bs) h = ground arith
name_eq→eq (a ∷ s) [] h = ground arith
name_eq→eq (a ∷ s) (b ∷ t) h = ground (arith, name_eq→eq s t)

pub name_eq_self : (s : Bytes) → name_eq s s ≡ true
unfolding name_eq
name_eq_self [] = refl
name_eq_self (a ∷ s) = ground (arith, name_eq_self s)

pub name_eq_iff : (s t : Bytes) → (name_eq s t ≡ true) ↔ (s ≡ t)
name_eq_iff s t = (name_eq→eq s t, λ e. rw e (name_eq_self t))

-- `string(p)`: the bytes up to the first zero; `none` if the array holds no terminator, where the
-- source would read past its end.
unfoldable pub c_string : Bytes → Option Bytes
c_string [] = none
c_string (b ∷ bs) = if b == 0 then some [] else Option.map (◌∷◌ b) (c_string bs)

-- No byte of a name is the terminator.
abbrev pub IsName : Bytes → Type 0
IsName s = All (λ b. 0 < b) s

pub c_string-append : (s rest : Bytes) → IsName s → c_string (s ++ 0 ∷ rest) ≡ some s
unfolding c_string
c_string-append [] rest h = refl
c_string-append (b ∷ s) rest h = ground (arith, c_string-append s rest h.1)

pub name_eq_sym : (s t : Bytes) → name_eq s t ≡ name_eq t s
unfolding name_eq
name_eq_sym [] [] = refl
name_eq_sym [] (b ∷ t) = refl
name_eq_sym (a ∷ s) [] = refl
name_eq_sym (a ∷ s) (b ∷ t) = ground (arith, name_eq_sym s t)
