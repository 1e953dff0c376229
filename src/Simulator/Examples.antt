-- ===== src/Simulator/Examples.antt =====
-- The simulator over whole numbers in place of `double`, and over a list of draws in place of the random
-- engine.
mod Runs
mod Parts
mod Scenarios
use net_node_gateway.Prelude.{
  ℕ, zero, suc, ◌+◌, ◌-◌, ◌*◌, ◌/◌, ◌%◌, ◌^◌, min, ◌≤◌, ◌<◌, ◌≡◌, refl, Bool, true, false, List, [],
  ◌∷◌, ltb, leb, if◌then◌else◌, arith,
}
use native.Mathlib.Nat.{mod-lt}
use net_node_gateway.Simulator.Machine.{Arithmetic, Random}

-- A number n stands for n - 1000; results below that are cut off.
abbrev pub signed : (ℕ → ℕ → ℕ) → ℕ → ℕ → ℕ
signed f x y =
    if leb 1000 x
    then (if leb 1000 y then 1000 + f (x - 1000) (y - 1000) else 1000 - f (x - 1000) (1000 - y))
    else (if leb 1000 y then 1000 - f (1000 - x) (y - 1000) else 1000 + f (1000 - x) (1000 - y))

pub pow-positive : (w : ℕ) → 0 < 256 ^ w
pow-positive zero = omega arith
pow-positive (suc w) = omega (arith, pow-positive w)

abbrev pub whole : Arithmetic ℕ
whole = record {
  literal = λ m k. 1000 + m / 10 ^ k;
  add = λ x y. x + y - 1000;
  sub = λ x y. x + 1000 - y;
  mul = signed (λ x y. x * y);
  div = signed (λ x y. x / y);
  neg = λ x. 2000 - x;
  cos = λ x. 1000;
  sin = λ x. 999;
  pow = λ x y. 1000 + (x - 1000) ^ (y - 1000);
  lt = ltb;
  le = leb;
  of_unsigned = λ n. 1000 + n;
  bits = λ w x. (x + 1000 * 256 ^ w - 1000) % 256 ^ w;
  bits_lt = λ w x. mod-lt (x + 1000 * 256 ^ w - 1000) (pow-positive w);
}

-- The next draw, or the lower end when there is none.
abbrev pub next : ℕ → ℕ → List ℕ → ℕ × List ℕ
next lo hi [] = (lo, [])
next lo hi (d ∷ draws) = (min (lo + d) hi, draws)

pub next-lower : (lo hi : ℕ) (draws : List ℕ) → lo ≤ hi → lo ≤ (next lo hi draws).0
next-lower lo hi [] h = omega arith
next-lower lo hi (d ∷ draws) h = omega arith

pub next-upper : (lo hi : ℕ) (draws : List ℕ) → lo ≤ hi → (next lo hi draws).0 ≤ hi
next-upper lo hi [] h = h
next-upper lo hi (d ∷ draws) h = omega arith

abbrev pub drawn : Random ℕ (List ℕ) ℕ
drawn = record {
  uniform_real = next;
  uniform_int = next;
  normal = λ mean deviation. mean;
  draw = λ mean draws. let (x, rest) = next mean (mean + 10) draws in (x, (mean, rest));
  uniform_int-lower = next-lower;
  uniform_int-upper = next-upper;
}
