-- ===== src/Simulator/Machine.antt =====
-- What the simulator uses of the C++ library: `double` and the random engine. Nothing is said of
-- their values but the ranges that the library documents.
use net_node_gateway.Prelude.{ℕ, ◌^◌, ◌≤◌, ◌<◌, Bool, if◌then◌else◌}

-- `double`, with the functions of <cmath>. `literal m k` is the literal for m / 10 ^ k. `bits w x` is
-- the image in memory of x converted to an integer of w bytes.
pub record Arithmetic (D : Type 0) : Type 0 where
  pub literal : ℕ → ℕ → D
  pub add : D → D → D
  pub sub : D → D → D
  pub mul : D → D → D
  pub div : D → D → D
  pub neg : D → D
  pub cos : D → D
  pub sin : D → D
  pub pow : D → D → D
  pub lt : D → D → Bool
  pub le : D → D → Bool
  pub of_unsigned : ℕ → D
  pub bits : ℕ → D → ℕ
  pub bits_lt : (w : ℕ) (x : D) → bits w x < 256 ^ w

-- `std::mt19937` and the distributions. A normal distribution keeps a state between its draws.
pub record Random (D R N : Type 0) : Type 0 where
  pub uniform_real : D → D → R → D × R
  pub uniform_int : ℕ → ℕ → R → ℕ × R
  pub normal : D → D → N
  pub draw : N → R → D × (N × R)
  pub uniform_int-lower : (lo hi : ℕ) (r : R) → lo ≤ hi → lo ≤ (uniform_int lo hi r).0
  pub uniform_int-upper : (lo hi : ℕ) (r : R) → lo ≤ hi → (uniform_int lo hi r).0 ≤ hi

module _ {D : Type 0} (a : Arithmetic D) where
  -- `std::max`
  abbrev pub max_real : D → D → D
  max_real x y = if a.lt x y then y else x

  -- `std::clamp`
  abbrev pub clamp_real : D → D → D → D
  clamp_real x lo hi = if a.lt x lo then lo else if a.lt hi x then hi else x
