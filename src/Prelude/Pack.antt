-- ===== src/Prelude/Pack.antt =====
-- The memory image of a packed struct on a little-endian machine: its fields' bytes one after the
-- other, lowest byte first. A layout is the list of the fields' widths in bytes.
use net_node_gateway.Prelude.Lists.{
  length, take, drop, All, length-append, take-append_self, drop-append_self, length-drop,
  length-take, All-append, All-take, All-drop,
}
use Prim.Native.Nat.{ℕ, zero, suc, ◌+◌, ◌*◌, ◌/◌, ◌%◌, ◌^◌, ◌≤◌, ◌<◌}
use Prim.Native.Nat.add
use mathlib.Core.Path.{◌≡◌, refl, sym, ap, ap₂, ◌∙◌}
use mathlib.Core.List.{List, [], ◌∷◌, ◌++◌, append_assoc}
use native.Mathlib.Nat.{pow-suc}
use native.Mathlib.Omega.{arith}

abbrev pub IsByte : ℕ → Type 0
IsByte b = b < 256

unfoldable pub pack_word : ℕ → ℕ → List ℕ
pack_word zero v = []
pack_word (suc w) v = v % 256 ∷ pack_word w (v / 256)

unfoldable pub unpack_word : List ℕ → ℕ
unpack_word [] = 0
unpack_word (b ∷ bs) = b + 256 * unpack_word bs

unfoldable pub pack : List ℕ → List ℕ → List ℕ
unfolding pack_word
pack (w ∷ ws) (v ∷ vs) = pack_word w v ++ pack ws vs
pack _ _ = []

unfoldable pub unpack : List ℕ → List ℕ → List ℕ
unfolding unpack_word
unpack [] buf = []
unpack (w ∷ ws) buf = unpack_word (take w buf) ∷ unpack ws (drop w buf)

abbrev pub total : List ℕ → ℕ
total [] = 0
total (w ∷ ws) = w + total ws

-- Each value fits the width of its field.
abbrev pub Fits : List ℕ → List ℕ → Type 0
Fits [] [] = Unit {0}
Fits (w ∷ ws) (v ∷ vs) = (v < 256 ^ w) × Fits ws vs
Fits _ _ = ⊥

pub length-pack_word : (w v : ℕ) → length (pack_word w v) ≡ w
unfolding pack_word
length-pack_word zero v = refl
length-pack_word (suc w) v = ap suc (length-pack_word w (v / 256))

pub pack_word-IsByte : (w v : ℕ) → All IsByte (pack_word w v)
unfolding pack_word
pack_word-IsByte zero v = tt
pack_word-IsByte (suc w) v = (omega arith, pack_word-IsByte w (v / 256))

div-pow : (w v : ℕ) → v < 256 ^ suc w → v / 256 < 256 ^ w
div-pow w v h = omega (arith, pow-suc 256 w)

pub unpack_word-pack_word : (w v : ℕ) → v < 256 ^ w → unpack_word (pack_word w v) ≡ v
unfolding pack_word unpack_word
unpack_word-pack_word zero v h = omega arith
unpack_word-pack_word (suc w) v h = omega (arith, unpack_word-pack_word w (v / 256) (div-pow w v h))

pub pack_word-unpack_word :
    (w : ℕ) (bs : List ℕ) → All IsByte bs → length bs ≡ w → pack_word w (unpack_word bs) ≡ bs
unfolding pack_word unpack_word
pack_word-unpack_word zero [] h e = refl
pack_word-unpack_word zero (b ∷ bs) h e = absurd (omega arith)
pack_word-unpack_word (suc w) [] h e = absurd (omega arith)
pack_word-unpack_word (suc w) (b ∷ bs) (p, h) e =
    ap₂ ◌∷◌ (omega arith)
      (ap (pack_word w) (omega arith) ∙ pack_word-unpack_word w bs h (omega arith))

pub unpack_word_lt : (bs : List ℕ) → All IsByte bs → unpack_word bs < 256 ^ length bs
unfolding unpack_word
unpack_word_lt [] h = omega arith
unpack_word_lt (b ∷ bs) (p, h) = omega (arith, unpack_word_lt bs h, pow-suc 256 (length bs))

-- Reading back what was stored gives every field, whatever follows in memory.
pub unpack-pack : (ws vs rest : List ℕ) → Fits ws vs → unpack ws (pack ws vs ++ rest) ≡ vs
unfolding pack unpack
unpack-pack [] [] rest h = refl
unpack-pack [] (v ∷ vs) rest h = elim h [ ]
unpack-pack (w ∷ ws) [] rest h = elim h [ ]
unpack-pack (w ∷ ws) (v ∷ vs) rest (p, h) = rw (
  append_assoc (pack_word w v) (pack ws vs) rest,
  take-append_self w (pack_word w v) (pack ws vs ++ rest) (length-pack_word w v),
  drop-append_self w (pack_word w v) (pack ws vs ++ rest) (length-pack_word w v),
  unpack_word-pack_word w v p,
  unpack-pack ws vs rest h,
)

pub length-pack : (ws vs : List ℕ) → Fits ws vs → length (pack ws vs) ≡ total ws
unfolding pack
length-pack [] [] h = refl
length-pack [] (v ∷ vs) h = elim h [ ]
length-pack (w ∷ ws) [] h = elim h [ ]
length-pack (w ∷ ws) (v ∷ vs) (p, h) =
    omega
      (arith, length-append (pack_word w v) (pack ws vs), length-pack_word w v, length-pack ws vs h)

pub pack-IsByte : (ws vs : List ℕ) → All IsByte (pack ws vs)
unfolding pack
pack-IsByte (w ∷ ws) (v ∷ vs) =
    All-append IsByte (pack_word w v) (pack ws vs) (pack_word-IsByte w v) (pack-IsByte ws vs)
pack-IsByte [] vs = tt
pack-IsByte (w ∷ ws) [] = tt

pub take-nil : (n : ℕ) → take {A = ℕ} n [] ≡ []
take-nil zero = refl
take-nil (suc n) = refl

pub take-add : (m n : ℕ) (xs : List ℕ) → take (m + n) xs ≡ take m xs ++ take n (drop m xs)
take-add zero n xs = rw (add.zero n)
take-add (suc m) n [] = rw (add.suc m n, take-nil n)
take-add (suc m) n (x ∷ xs) = rw (add.suc m n, take-add m n xs)

-- Storing what was read gives the bytes back.
pub pack-unpack :
    (ws buf : List ℕ)
    → All IsByte buf
    → total ws ≤ length buf
    → pack ws (unpack ws buf) ≡ take (total ws) buf
unfolding pack unpack
pack-unpack [] buf h l = refl
pack-unpack (w ∷ ws) buf h l =
    rw
      (
        pack_word-unpack_word w (take w buf) (All-take IsByte w buf h)
            (omega (arith, length-take w buf)),
        pack-unpack ws (drop w buf) (All-drop IsByte w buf h) (omega (arith, length-drop w buf)),
      )
      (sym (take-add w (total ws) buf))
