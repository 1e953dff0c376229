-- ===== src/Prelude/Bits.antt =====
-- Laws of `bit_xor` at every width, from one equation for the lowest digit.
use Prim.Native.Nat.{
  ℕ, zero, suc, ◌+◌, ◌-◌, ◌*◌, ◌/◌, ◌%◌, ◌^◌, ◌≤◌, ◌<◌, min, bit_xor, bit_and, digits, bitwise,
  bit_xor-bitwise, bit_and-bitwise, differ,
}
use mathlib.Core.Path.{◌≡◌, refl, sym, ◌∙◌, ap, ap₂}
use native.Mathlib.Nat.{le_refl, pow-suc, div-div-eq-div-mul}
use native.Mathlib.Omega.{arith}

module _ (default : ℕ → ℕ) (combine : ℕ → ℕ → ℕ) where
  fold : ℕ → ℕ → ℕ → ℕ
  fold fuel x y = digits default combine fuel x y

  -- A round that is not needed changes nothing.
  fold-suc : (fuel x y : ℕ) → x ≤ fuel → fold (suc fuel) x y ≡ fold fuel x y
  unfolding fold
  fold-suc zero zero y h = refl
  fold-suc (suc fuel) zero y h = refl
  fold-suc zero (suc x) y h = absurd (omega arith)
  fold-suc (suc fuel) (suc x) y h = omega (arith, fold-suc fuel (suc x / 2) (y / 2) (omega arith))

  spare : (unused fuel x y : ℕ) → x ≤ fuel → fold (unused + fuel) x y ≡ fold fuel x y
  spare zero fuel x y h = ap (λ n. fold n x y) (omega arith)
  spare (suc unused) fuel x y h =
      ap (λ n. fold n x y) (omega arith)
      ∙ fold-suc (unused + fuel) x y (omega arith)
      ∙ spare unused fuel x y h

  -- The lowest digit of the result, and the others.
  bitwise-low_digit :
      (x y : ℕ)
      → bitwise default combine (suc x) y
        ≡ combine (suc x % 2) (y % 2) + 2 * bitwise default combine (suc x / 2) (y / 2)
  unfolding fold
  bitwise-low_digit x y =
      let half = suc x / 2 in
      omega (
        arith,
        ap (λ n. fold n half (y / 2)) (enough x),
        spare (x - half) half half (y / 2) (omega arith),
      )
    where
      enough : (x : ℕ) → x ≡ (x - suc x / 2) + suc x / 2
      enough x = omega arith

differ_lem : (a b : ℕ) → a < 2 → b < 2 → differ a b ≡ (a + b) % 2
differ_lem zero zero h k = refl
differ_lem zero (suc zero) h k = refl
differ_lem (suc zero) zero h k = refl
differ_lem (suc zero) (suc zero) h k = refl
differ_lem (suc (suc a)) b h k = absurd (omega arith)
differ_lem zero (suc (suc b)) h k = absurd (omega arith)
differ_lem (suc zero) (suc (suc b)) h k = absurd (omega arith)

zero-bit_xor : (b : ℕ) → bit_xor 0 b ≡ b
zero-bit_xor b = bit_xor-bitwise 0 b

pub bit_xor_step : (a b : ℕ) → bit_xor a b ≡ bit_xor (a / 2) (b / 2) * 2 + (a % 2 + b % 2) % 2
bit_xor_step zero b = omega (arith, zero-bit_xor b, zero-bit_xor (b / 2))
bit_xor_step (suc a) b = omega (
  arith,
  bit_xor-bitwise (suc a) b,
  bit_xor-bitwise (suc a / 2) (b / 2),
  bitwise-low_digit (λ y. y) differ a b,
  differ_lem (suc a % 2) (b % 2) (omega arith) (omega arith),
)

-- Nothing is left under a mask with no bits.
masked_out : (fuel x : ℕ) → x ≤ fuel → digits (λ _. 0) min fuel x 0 ≡ 0
masked_out zero zero h = refl
masked_out (suc fuel) zero h = refl
masked_out zero (suc x) h = absurd (omega arith)
masked_out (suc fuel) (suc x) h = omega (arith, masked_out fuel (suc x / 2) (omega arith))

pub bit_and-one : (a : ℕ) → bit_and a 1 ≡ a % 2
bit_and-one zero = bit_and-bitwise zero 1
bit_and-one (suc x) =
    let half = suc x / 2 in
    omega (
      arith,
      masked_out half half (le_refl half),
      bitwise-low_digit (λ _. 0) min x 1,
      bit_and-bitwise (suc x) 1,
    )

pub bit_xor-half : (a b : ℕ) → bit_xor a b / 2 ≡ bit_xor (a / 2) (b / 2)
bit_xor-half a b = omega (arith, bit_xor_step a b)

pub bit_xor_parity : (a b : ℕ) → bit_xor a b % 2 ≡ (a % 2 + b % 2) % 2
bit_xor_parity a b = omega (arith, bit_xor_step a b)

-- Two numbers with the same lowest digit and the same half are equal.
pub eq_of_half : (a b : ℕ) → a / 2 ≡ b / 2 → a % 2 ≡ b % 2 → a ≡ b
eq_of_half a b h k = omega arith

comm_fuel : (n a b : ℕ) → a ≤ n → b ≤ n → bit_xor a b ≡ bit_xor b a
comm_fuel zero zero zero h k = refl
comm_fuel zero (suc a) b h k = absurd (omega arith)
comm_fuel zero zero (suc b) h k = absurd (omega arith)
comm_fuel (suc n) a b h k = omega (
  arith,
  bit_xor_step a b,
  bit_xor_step b a,
  comm_fuel n (a / 2) (b / 2) (omega arith) (omega arith),
)

pub bit_xor_comm : (a b : ℕ) → bit_xor a b ≡ bit_xor b a
bit_xor_comm a b = comm_fuel (a + b) a b (omega arith) (omega arith)

assoc_fuel :
    (n a b c : ℕ) → a ≤ n → b ≤ n → c ≤ n → bit_xor (bit_xor a b) c ≡ bit_xor a (bit_xor b c)
assoc_fuel zero zero zero zero h k l = refl
assoc_fuel zero (suc a) b c h k l = absurd (omega arith)
assoc_fuel zero zero (suc b) c h k l = absurd (omega arith)
assoc_fuel zero zero zero (suc c) h k l = absurd (omega arith)
assoc_fuel (suc n) a b c h k l =
    eq_of_half _ _
      (rw
        (
          bit_xor-half (bit_xor a b) c,
          bit_xor-half a (bit_xor b c),
          bit_xor-half a b,
          bit_xor-half b c,
        )
        (assoc_fuel n (a / 2) (b / 2) (c / 2) (omega arith) (omega arith) (omega arith)))
      (omega (
        arith,
        bit_xor_parity (bit_xor a b) c,
        bit_xor_parity a (bit_xor b c),
        bit_xor_parity a b,
        bit_xor_parity b c,
      ))

pub bit_xor_assoc : (a b c : ℕ) → bit_xor (bit_xor a b) c ≡ bit_xor a (bit_xor b c)
bit_xor_assoc a b c = assoc_fuel (a + b + c) a b c (omega arith) (omega arith) (omega arith)

self_fuel : (n a : ℕ) → a ≤ n → bit_xor a a ≡ 0
self_fuel zero zero h = refl
self_fuel zero (suc a) h = absurd (omega arith)
self_fuel (suc n) a h = omega (arith, bit_xor_step a a, self_fuel n (a / 2) (omega arith))

pub bit_xor_self : (a : ℕ) → bit_xor a a ≡ 0
bit_xor_self a = self_fuel a a (le_refl _)

pub bit_xor-zero : (a : ℕ) → bit_xor a 0 ≡ a
bit_xor-zero a = bit_xor_comm a 0 ∙ zero-bit_xor a

-- Exclusive or twice with the same word gives the word back.
pub bit_xor_cancel : (a b : ℕ) → bit_xor (bit_xor a b) b ≡ a
bit_xor_cancel a b = rw (bit_xor_assoc a b b, bit_xor_self b) (bit_xor-zero a)

pub bit_xor_injective : (a b c : ℕ) → bit_xor a c ≡ bit_xor b c → a ≡ b
bit_xor_injective a b c e =
    sym (bit_xor_cancel a c) ∙ ap (λ (t : ℕ). bit_xor t c) e ∙ bit_xor_cancel b c

div-two-pow-suc : (a k : ℕ) → a / 2 ^ suc k ≡ a / 2 / 2 ^ k
div-two-pow-suc a k =
    rw (div-div-eq-div-mul a 2 (2 ^ k)) (ap (λ (t : ℕ). a / t) (omega (arith, pow-suc 2 k)))

div-one : (a : ℕ) → a / 1 ≡ a
div-one a = omega arith

-- The high digits of an exclusive or are those of the high digits.
pub bit_xor-high : (k a b : ℕ) → bit_xor a b / 2 ^ k ≡ bit_xor (a / 2 ^ k) (b / 2 ^ k)
bit_xor-high zero a b = omega (arith, ap₂ bit_xor (div-one a) (div-one b))
bit_xor-high (suc k) a b =
    rw (div-two-pow-suc a k, div-two-pow-suc b k, div-two-pow-suc (bit_xor a b) k, bit_xor-half a b)
      (bit_xor-high k (a / 2) (b / 2))

zero_of_lt_one : (a : ℕ) → a < 2 ^ 0 → a ≡ 0
zero_of_lt_one a h = omega arith

half_lt : (k a : ℕ) → a < 2 ^ suc k → a / 2 < 2 ^ k
half_lt k a h = omega (arith, pow-suc 2 k)

pub mul-two-pow-suc : (m e : ℕ) → m * 2 ^ suc e ≡ 2 * (m * 2 ^ e)
mul-two-pow-suc m e = omega (arith, ap (◌*◌ m) (pow-suc 2 e))

-- Words of k bits are closed under exclusive or.
pub bit_xor_lt : (k a b : ℕ) → a < 2 ^ k → b < 2 ^ k → bit_xor a b < 2 ^ k
bit_xor_lt zero a b h l =
    omega (arith, ap₂ bit_xor (zero_of_lt_one a h) (zero_of_lt_one b l), zero-bit_xor 0)
bit_xor_lt (suc k) a b h l = omega (
  arith,
  bit_xor_step a b,
  pow-suc 2 k,
  bit_xor_lt k (a / 2) (b / 2) (half_lt k a h) (half_lt k b l),
)

halved : (q k : ℕ) → q * 2 ^ suc k / 2 ≡ q * 2 ^ k
halved q k = omega (arith, mul-two-pow-suc q k)

-- Disjoint fields add up.
pub bit_xor_fields : (k q r : ℕ) → r < 2 ^ k → bit_xor (q * 2 ^ k) r ≡ q * 2 ^ k + r
bit_xor_fields zero q r h =
    omega (arith, ap (bit_xor (q * 2 ^ 0)) (zero_of_lt_one r h), bit_xor-zero (q * 2 ^ 0))
bit_xor_fields (suc k) q r h = omega (
  arith,
  bit_xor_step (q * 2 ^ suc k) r,
  mul-two-pow-suc q k,
  ap (λ (t : ℕ). bit_xor t (r / 2)) (halved q k),
  bit_xor_fields k q (r / 2) (half_lt k r h),
)
