-- ===== src/Base/Text.antt =====
-- Byte strings: Go's `[]byte` and `string`. And what a call returns that may fail.
use Prim.Native.Nat.{ℕ}
use Prim.Native.Char.{code}
use Prim.Native.String.{String}
use mathlib.Core.Path.{◌≡◌, refl}
use mathlib.Core.Logic.{◌↔◌}
use mathlib.Core.Bool.{Bool, true, false, ◌&&◌, ◌||◌}
use mathlib.Core.List.{List, [], ◌∷◌, ◌++◌}
use native.Mathlib.Omega.{arith}
use launcher.Base.Tests.{nat_eq}

abbrev pub Bytes : Type 0
Bytes = List ℕ

-- the bytes of an ASCII text
abbrev pub codes : String → Bytes
codes String.[] = []
codes (String.◌∷◌ c s) = code c ∷ codes s

infix 50 ◌==◌
unfoldable pub ◌==◌ : Bytes → Bytes → Bool
[] == [] = true
[] == (y ∷ ys) = false
(x ∷ xs) == [] = false
(x ∷ xs) == (y ∷ ys) = nat_eq x y && xs == ys

pub eq_refl : (x : Bytes) → (x == x) ≡ true
unfolding ◌==◌
eq_refl [] = refl
eq_refl (x ∷ xs) = ground (arith, eq_refl xs)

pub eq_sound : (x y : Bytes) → (x == y) ≡ true → x ≡ y
unfolding ◌==◌
eq_sound [] [] h = refl
eq_sound [] (y ∷ ys) h = cc
eq_sound (x ∷ xs) [] h = cc
eq_sound (x ∷ xs) (y ∷ ys) h = ground (arith, eq_sound xs ys)

pub eq_iff : (x y : Bytes) → ((x == y) ≡ true) ↔ (x ≡ y)
eq_iff x y = (eq_sound x y, λ p. rw p (eq_refl y))

pub data Result (E A : Type 0) : Type 0 where
  ok : A → Result E A
  err : E → Result E A

unfoldable pub contains : Bytes → List Bytes → Bool
contains j [] = false
contains j (k ∷ ks) = k == j || contains j ks

pub contains-append :
    (j k : Bytes) (ks : List Bytes) → contains j (ks ++ k ∷ []) ≡ (contains j ks || k == j)
unfolding contains
contains-append j k [] = ground arith
contains-append j k (i ∷ ks) = ground (arith, contains-append j k ks)
