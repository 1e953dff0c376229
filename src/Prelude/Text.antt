-- ===== src/Prelude/Text.antt =====
-- Text as a list of character codes.
use net_node_gateway.Prelude.Tests.{◌==◌, ltb, if◌then◌else◌, Bool-cases}
use net_node_gateway.Prelude.Lists.{length}
use Prim.Native.Nat.{ℕ, zero, suc, ◌+◌, ◌/◌, ◌%◌, ◌<◌, ◌≤◌}
use Prim.Native.String.{String}
use Prim.Native.Char.{code}
use mathlib.Core.Path.{◌≡◌, refl}
use mathlib.Core.Logic.{◌↔◌, inl, inr}
use mathlib.Core.Bool.{Bool, true, false, ◌&&◌}
use mathlib.Core.List.{List, [], ◌∷◌}
use native.Mathlib.Omega.{arith}

-- The bytes of a text: its code points, as every literal of the program is ASCII.
abbrev pub codes : String → List ℕ
codes String.[] = []
codes (String.◌∷◌ c s) = code c ∷ codes s

-- `std::string::operator==`
unfoldable pub text_eq : List ℕ → List ℕ → Bool
text_eq [] [] = true
text_eq (x ∷ xs) (y ∷ ys) = (x == y) && text_eq xs ys
text_eq _ _ = false

pub text_eq_iff : (xs ys : List ℕ) → (text_eq xs ys ≡ true) ↔ (xs ≡ ys)
unfolding text_eq
text_eq_iff [] [] = ground arith
text_eq_iff (x ∷ xs) (y ∷ ys) = ground (arith, text_eq_iff xs ys)
text_eq_iff [] (y ∷ ys) = ground arith
text_eq_iff (x ∷ xs) [] = ground arith

pub text_eq_refl : (xs : List ℕ) → text_eq xs xs ≡ true
text_eq_refl xs = (text_eq_iff xs xs).1 refl

-- `std::to_string` of an unsigned number below 10 ^ 20, which 64 bits never reach.
decimal_loop : ℕ → ℕ → List ℕ → List ℕ
decimal_loop zero n acc = acc
decimal_loop (suc fuel) n acc =
    let digit = n % 10 + 48 in
    let rest = decimal_loop fuel (n / 10) (digit ∷ acc) in if ltb n 10 then digit ∷ acc else rest

unfoldable pub decimal : ℕ → List ℕ
unfolding decimal_loop
decimal n = decimal_loop 20 n []

decimal_example : decimal 4095 ≡ codes "4095"
unfolding decimal
decimal_example = refl

one_digit :
    (fuel n : ℕ) (acc : List ℕ) → n < 10 → length (decimal_loop (suc fuel) n acc) ≡ suc (length acc)
unfolding decimal_loop
one_digit fuel n acc h = ground arith

two_digits :
    (fuel n : ℕ) (acc : List ℕ)
    → n < 100
    → length (decimal_loop (suc (suc fuel)) n acc) ≤ 2 + length acc
unfolding decimal_loop
two_digits fuel n acc h = elim (Bool-cases (ltb n 10)) [
  | inl e ↦ ground arith
  | inr e ↦ ground (arith, one_digit fuel (n / 10) ((n % 10 + 48) ∷ acc) (omega arith))
]

-- A number below 1000 has at most three digits.
pub length-decimal : (n : ℕ) → n < 1000 → length (decimal n) ≤ 3
unfolding decimal decimal_loop
length-decimal n h = elim (Bool-cases (ltb n 10)) [
  | inl e ↦ ground arith
  | inr e ↦ ground (arith, two_digits 17 (n / 10) ((n % 10 + 48) ∷ []) (omega arith))
]
