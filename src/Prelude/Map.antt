-- ===== src/Prelude/Map.antt =====
-- `std::unordered_map` with integer keys, as an association list: one entry for each key, the
-- newest key last. The order stands for no property of the C++ container.
use net_node_gateway.Prelude.Tests.{◌==◌, if◌then◌else◌}
use net_node_gateway.Prelude.Lists.{length}
use Prim.Native.Nat.{ℕ, suc}
use mathlib.Core.Path.{◌≡◌, refl}
use mathlib.Core.Logic.{◌≢◌}
use mathlib.Core.Option.{Option, none, some}
use mathlib.Core.List.{List, [], ◌∷◌}
use native.Mathlib.Omega.{arith}

module _ {ℓ} {V : Type ℓ} where
  unfoldable pub find : ℕ → List (ℕ × V) → Option V
  find k [] = none
  find k ((j, v) ∷ m) = if j == k then some v else find k m

  unfoldable pub insert : ℕ → V → List (ℕ × V) → List (ℕ × V)
  insert k v [] = (k, v) ∷ []
  insert k v ((j, w) ∷ m) = if j == k then (k, v) ∷ m else (j, w) ∷ insert k v m

  unfoldable pub erase : ℕ → List (ℕ × V) → List (ℕ × V)
  erase k [] = []
  erase k ((j, w) ∷ m) = if j == k then erase k m else (j, w) ∷ erase k m

  pub find-insert :
      (k j : ℕ) (v : V) (m : List (ℕ × V))
      → find j (insert k v m) ≡ (if k == j then some v else find j m)
  unfolding find insert
  find-insert k j v [] = refl
  find-insert k j v ((i, w) ∷ m) = ground (arith, find-insert k j v m)

  pub find-insert_self : (k : ℕ) (v : V) (m : List (ℕ × V)) → find k (insert k v m) ≡ some v
  find-insert_self k v m = ground (arith, find-insert k k v m)

  pub find-insert_ne :
      (k j : ℕ) (v : V) (m : List (ℕ × V)) → k ≢ j → find j (insert k v m) ≡ find j m
  find-insert_ne k j v m h = ground (arith, find-insert k j v m)

  pub find-erase :
      (k j : ℕ) (m : List (ℕ × V)) → find j (erase k m) ≡ (if k == j then none else find j m)
  unfolding find erase
  find-erase k j [] = ground arith
  find-erase k j ((i, w) ∷ m) = ground (arith, find-erase k j m)

  pub length-insert :
      (k : ℕ) (v : V) (m : List (ℕ × V))
      → length (insert k v m) ≡ (elim (find k m) [ none ↦ suc (length m) | some w ↦ length m ])
  unfolding find insert
  length-insert k v [] = refl
  length-insert k v ((i, w) ∷ m) = ground (arith, length-insert k v m)
