-- ===== src/Prelude/Lists.antt =====
-- Lists measured and indexed by native numbers, under the library's names.
use Prim.Native.Nat.{ℕ, zero, suc, ◌+◌, ◌-◌, ◌≤◌, min}
use mathlib.Core.Path.{◌≡◌, refl, ap}
use mathlib.Core.Bool.{Bool, true, false}
use mathlib.Core.List.{Memᴰ, List, [], ◌∷◌, ◌++◌}
use native.Mathlib.Omega.{arith}

module _ {ℓ} {A : Type ℓ} where
  abbrev pub is_empty : List A → Bool
  is_empty [] = true
  is_empty (x ∷ xs) = false

  abbrev pub length : List A → ℕ
  length [] = 0
  length (x ∷ xs) = suc (length xs)

  abbrev pub get_or : List A → ℕ → A → A
  get_or [] i d = d
  get_or (x ∷ xs) zero d = x
  get_or (x ∷ xs) (suc i) d = get_or xs i d

  abbrev pub take : ℕ → List A → List A
  take zero xs = []
  take (suc n) [] = []
  take (suc n) (x ∷ xs) = x ∷ take n xs

  abbrev pub drop : ℕ → List A → List A
  drop zero xs = xs
  drop (suc n) [] = []
  drop (suc n) (x ∷ xs) = drop n xs

  -- A write out of bounds changes nothing.
  abbrev pub set : List A → ℕ → A → List A
  set [] i v = []
  set (x ∷ xs) zero v = v ∷ xs
  set (x ∷ xs) (suc i) v = x ∷ set xs i v

  pub length-append : (xs ys : List A) → length (xs ++ ys) ≡ length xs + length ys
  length-append [] ys = omega arith
  length-append (x ∷ xs) ys = omega (arith, length-append xs ys)

  pub length-take : (n : ℕ) (xs : List A) → length (take n xs) ≡ min n (length xs)
  length-take zero xs = omega arith
  length-take (suc n) [] = omega arith
  length-take (suc n) (x ∷ xs) = omega (arith, length-take n xs)

  pub length-drop : (n : ℕ) (xs : List A) → length (drop n xs) ≡ length xs - n
  length-drop zero xs = omega arith
  length-drop (suc n) [] = omega arith
  length-drop (suc n) (x ∷ xs) = omega (arith, length-drop n xs)

  pub length-set : (xs : List A) (i : ℕ) (v : A) → length (set xs i v) ≡ length xs
  length-set [] i v = refl
  length-set (x ∷ xs) zero v = refl
  length-set (x ∷ xs) (suc i) v = ap suc (length-set xs i v)

  pub take-append-drop : (n : ℕ) (xs : List A) → take n xs ++ drop n xs ≡ xs
  take-append-drop zero xs = refl
  take-append-drop (suc n) [] = refl
  take-append-drop (suc n) (x ∷ xs) = rw (take-append-drop n xs)

  pub take-append_self : (n : ℕ) (xs ys : List A) → length xs ≡ n → take n (xs ++ ys) ≡ xs
  take-append_self zero [] ys e = refl
  take-append_self (suc n) [] ys e = absurd (omega arith)
  take-append_self zero (x ∷ xs) ys e = absurd (omega arith)
  take-append_self (suc n) (x ∷ xs) ys e = ap (◌∷◌ x) (take-append_self n xs ys (omega arith))

  pub drop-append_self : (n : ℕ) (xs ys : List A) → length xs ≡ n → drop n (xs ++ ys) ≡ ys
  drop-append_self zero [] ys e = refl
  drop-append_self (suc n) [] ys e = absurd (omega arith)
  drop-append_self zero (x ∷ xs) ys e = absurd (omega arith)
  drop-append_self (suc n) (x ∷ xs) ys e = drop-append_self n xs ys (omega arith)

  pub take_all : (n : ℕ) (xs : List A) → length xs ≤ n → take n xs ≡ xs
  take_all zero [] h = refl
  take_all (suc n) [] h = refl
  take_all zero (x ∷ xs) h = absurd (omega arith)
  take_all (suc n) (x ∷ xs) h = ap (◌∷◌ x) (take_all n xs (omega arith))

  abbrev pub All {κ} : (A → Type κ) → List A → Type κ
  All P [] = Unit {κ}
  All P (x ∷ xs) = P x × All P xs

  pub All-append {κ} : (P : A → Type κ) (xs ys : List A) → All P xs → All P ys → All P (xs ++ ys)
  All-append P [] ys h k = k
  All-append P (x ∷ xs) ys (p, h) k = (p, All-append P xs ys h k)

  pub All-take {κ} : (P : A → Type κ) (n : ℕ) (xs : List A) → All P xs → All P (take n xs)
  All-take P zero xs h = tt
  All-take P (suc n) [] h = tt
  All-take P (suc n) (x ∷ xs) (p, h) = (p, All-take P n xs h)

  pub All-drop {κ} : (P : A → Type κ) (n : ℕ) (xs : List A) → All P xs → All P (drop n xs)
  All-drop P zero xs h = h
  All-drop P (suc n) [] h = tt
  All-drop P (suc n) (x ∷ xs) (p, h) = All-drop P n xs h

  pub All-append_right {κ} : (P : A → Type κ) (xs ys : List A) → All P (xs ++ ys) → All P ys
  All-append_right P [] ys h = h
  All-append_right P (x ∷ xs) ys (p, h) = All-append_right P xs ys h

  abbrev pub repeat : ℕ → A → List A
  repeat zero x = []
  repeat (suc n) x = x ∷ repeat n x

  pub length-repeat : (n : ℕ) (x : A) → length (repeat n x) ≡ n
  length-repeat zero x = refl
  length-repeat (suc n) x = ap suc (length-repeat n x)

  pub mem-onto :
      (y x : A) (xs ys : List A) → (Memᴰ x xs → Memᴰ x ys) → Memᴰ x (y ∷ xs) → Memᴰ x (y ∷ ys)
  mem-onto y x xs ys f (Memᴰ.head e) = Memᴰ.head e
  mem-onto y x xs ys f (Memᴰ.tail m) = Memᴰ.tail (f m)
