-- ===== src/Crc32/Detect.antt =====
-- src/common/crc32.cpp: which errors the checksum finds.
use net_node_gateway.Prelude.{
  ℕ, zero, suc, ◌+◌, ◌*◌, ◌/◌, ◌%◌, ◌^◌, ◌≤◌, ◌<◌, ◌≡◌, ◌≢◌, refl, sym, ap, ◌∙◌, List, [], ◌∷◌,
  ◌++◌, All, bit_xor, length, arith,
}
use net_node_gateway.Prelude.Bits.{
  bit_xor_comm, bit_xor_assoc, bit_xor-high, bit_xor_fields, bit_xor_lt, bit_xor_injective,
  eq_of_half, bit_xor-zero,
}
use net_node_gateway.Prelude.Pack.{
  IsByte, unpack_word, pack_word, pack_word-unpack_word, unpack_word_lt,
}
use net_node_gateway.Crc32.{crc_bit, crc_bits, crc_byte, crc_loop, crc32}
use net_node_gateway.Crc32.Bitwise.{
  crc_bit_lem, poly_if, crc_bit_lt, crc_bits-xor, crc_bits-shift, crc_bits-add, crc_bits_lt,
  crc_byte-bits, crc_loop-append,
}
use native.Mathlib.Nat.{pow-le-pow_right}

-- The top digit of a step tells which digit was shifted out.
top_digit : (d y : ℕ) → d < 2 → y < 2 ^ 31 → bit_xor y (poly_if d) / 2 ^ 31 ≡ d
top_digit d y h l = bit_xor-high 31 y (poly_if d) ∙ rw small (tops d h)
  where
    small : y / 2 ^ 31 ≡ 0
    small = omega arith

    tops : (d : ℕ) → d < 2 → bit_xor 0 (poly_if d / 2 ^ 31) ≡ d
    tops zero h = refl
    tops (suc zero) h = refl
    tops (suc (suc d)) h = absurd (omega arith)

-- A step forgets nothing.
crc_bit_injective : (x y : ℕ) → x < 2 ^ 32 → y < 2 ^ 32 → crc_bit x ≡ crc_bit y → x ≡ y
crc_bit_injective x y hx hy e = eq_of_half x y halves digits
  where
    e' : bit_xor (x / 2) (poly_if (x % 2)) ≡ bit_xor (y / 2) (poly_if (y % 2))
    e' = sym (crc_bit_lem x) ∙ e ∙ crc_bit_lem y

    digits : x % 2 ≡ y % 2
    digits =
        sym (top_digit (x % 2) (x / 2) (omega arith) (omega arith))
        ∙ ap (λ (t : ℕ). t / 2 ^ 31) e'
        ∙ top_digit (y % 2) (y / 2) (omega arith) (omega arith)

    halves : x / 2 ≡ y / 2
    halves =
        bit_xor_injective (x / 2) (y / 2) (poly_if (x % 2))
          (e' ∙ ap (λ (d : ℕ). bit_xor (y / 2) (poly_if d)) (sym digits))

pub crc_bits_injective : (n x y : ℕ) → x < 2 ^ 32 → y < 2 ^ 32 → crc_bits n x ≡ crc_bits n y → x ≡ y
unfolding crc_bits
crc_bits_injective zero x y hx hy e = e
crc_bits_injective (suc n) x y hx hy e =
    crc_bit_injective x y hx hy
      (crc_bits_injective n (crc_bit x) (crc_bit y) (crc_bit_lt x hx) (crc_bit_lt y hy) e)

crc_byte_lt : (crc b : ℕ) → IsByte b → crc < 2 ^ 32 → crc_byte crc b < 2 ^ 32
crc_byte_lt crc b p l =
    rw (crc_byte-bits crc b p) (crc_bits_lt 8 (bit_xor crc b) (bit_xor_lt 32 crc b l (omega arith)))

crc_byte_injective :
    (x y b : ℕ) → IsByte b → x < 2 ^ 32 → y < 2 ^ 32 → crc_byte x b ≡ crc_byte y b → x ≡ y
crc_byte_injective x y b p hx hy e = bit_xor_injective x y b (
    crc_bits_injective 8 (bit_xor x b) (bit_xor y b) (bit_xor_lt 32 x b hx (omega arith))
      (bit_xor_lt 32 y b hy (omega arith)) (sym (crc_byte-bits x b p) ∙ e ∙ crc_byte-bits y b p))

pub crc_loop_lt :
    (crc : ℕ) (bytes : List ℕ) → All IsByte bytes → crc < 2 ^ 32 → crc_loop crc bytes < 2 ^ 32
unfolding crc_loop
crc_loop_lt crc [] h l = l
crc_loop_lt crc (byte ∷ rest) (p, h) l =
    crc_loop_lt (crc_byte crc byte) rest h (crc_byte_lt crc byte p l)

-- A run of bytes acts on the register as one word added to it, followed by its steps.
crc_loop-word :
    (crc : ℕ) (bytes : List ℕ)
    → All IsByte bytes
    → crc_loop crc bytes ≡ crc_bits (8 * length bytes) (bit_xor crc (unpack_word bytes))
unfolding crc_loop unpack_word
crc_loop-word crc [] h = unfold crc_bits in sym (bit_xor-zero crc)
crc_loop-word crc (byte ∷ rest) (p, h) =
    crc_loop-word (crc_byte crc byte) rest h
    ∙ ap (crc_bits (8 * length rest)) joined
    ∙ sym (crc_bits-add 8 (8 * length rest) (bit_xor crc (byte + 256 * unpack_word rest)))
    ∙ ap (λ (k : ℕ). crc_bits k (bit_xor crc (byte + 256 * unpack_word rest))) (omega arith)
  where
    word : bit_xor byte (unpack_word rest * 2 ^ 8) ≡ byte + 256 * unpack_word rest
    word =
        bit_xor_comm byte (unpack_word rest * 2 ^ 8)
        ∙ bit_xor_fields 8 (unpack_word rest) byte p
        ∙ omega arith

    joined :
        bit_xor (crc_byte crc byte) (unpack_word rest)
        ≡ crc_bits 8 (bit_xor crc (byte + 256 * unpack_word rest))
    joined = rw (crc_byte-bits crc byte p) (
        ap (bit_xor (crc_bits 8 (bit_xor crc byte))) (sym (crc_bits-shift 8 (unpack_word rest)))
        ∙ sym (crc_bits-xor 8 (bit_xor crc byte) (unpack_word rest * 2 ^ 8))
        ∙ ap (crc_bits 8)
            (bit_xor_assoc crc byte (unpack_word rest * 2 ^ 8) ∙ ap (bit_xor crc) word))

unpack_word-IsU32 : (bs : List ℕ) → All IsByte bs → length bs ≤ 4 → unpack_word bs < 2 ^ 32
unpack_word-IsU32 bs h l =
    omega (
      arith,
      unpack_word_lt bs h,
      pow-le-pow_right {n = 256} (omega arith) {i = length bs} {j = 4} l,
    )

-- Up to four bytes can be read off the register that they lead to.
words_injective :
    (crc : ℕ) (us vs : List ℕ)
    → All IsByte us
    → All IsByte vs
    → length us ≡ length vs
    → length us ≤ 4
    → crc < 2 ^ 32
    → crc_loop crc us ≡ crc_loop crc vs
    → us ≡ vs
words_injective crc us vs hu hv e l h eq =
    sym (pack_word-unpack_word (length us) us hu refl)
    ∙ ap (pack_word (length us)) words
    ∙ pack_word-unpack_word (length us) vs hv (sym e)
  where
    steps :
        crc_bits (8 * length us) (bit_xor crc (unpack_word us))
        ≡ crc_bits (8 * length us) (bit_xor crc (unpack_word vs))
    steps =
        sym (crc_loop-word crc us hu)
        ∙ eq
        ∙ crc_loop-word crc vs hv
        ∙ ap (λ (n : ℕ). crc_bits (8 * n) (bit_xor crc (unpack_word vs))) (sym e)

    sums : bit_xor crc (unpack_word us) ≡ bit_xor crc (unpack_word vs)
    sums =
        crc_bits_injective (8 * length us) _ _
          (bit_xor_lt 32 crc (unpack_word us) h (unpack_word-IsU32 us hu l))
          (bit_xor_lt 32 crc (unpack_word vs) h (unpack_word-IsU32 vs hv (omega arith))) steps

    words : unpack_word us ≡ unpack_word vs
    words =
        bit_xor_injective (unpack_word us) (unpack_word vs) crc
          (bit_xor_comm (unpack_word us) crc ∙ sums ∙ bit_xor_comm crc (unpack_word vs))

pub crc_loop_injective :
    (x y : ℕ) (bytes : List ℕ)
    → All IsByte bytes
    → x < 2 ^ 32
    → y < 2 ^ 32
    → crc_loop x bytes ≡ crc_loop y bytes
    → x ≡ y
unfolding crc_loop
crc_loop_injective x y [] h hx hy e = e
crc_loop_injective x y (b ∷ bytes) (p, h) hx hy e = crc_byte_injective x y b p hx hy (
    crc_loop_injective (crc_byte x b) (crc_byte y b) bytes h (crc_byte_lt x b p hx)
      (crc_byte_lt y b p hy) e)

-- The checksum is a 32-bit word.
pub crc32_lt : (bytes : List ℕ) → All IsByte bytes → crc32 bytes < 2 ^ 32
unfolding crc32
crc32_lt bytes h =
    bit_xor_lt 32 (crc_loop 0xFFFFFFFF bytes) 0xFFFFFFFF
      (crc_loop_lt 0xFFFFFFFF bytes h (omega arith)) (omega arith)

-- An error burst of at most four bytes is always found: two buffers of the same length that differ
-- only within four consecutive bytes have different checksums.
pub crc32_detects_burst :
    (xs us vs ys : List ℕ)
    → All IsByte xs
    → All IsByte us
    → All IsByte vs
    → All IsByte ys
    → length us ≡ length vs
    → length us ≤ 4
    → us ≢ vs
    → crc32 (xs ++ us ++ ys) ≢ crc32 (xs ++ vs ++ ys)
unfolding crc32
crc32_detects_burst xs us vs ys hx hu hv hy e l ne same =
    ne (words_injective start us vs hu hv e l start_lt registers)
  where
    start : ℕ
    start = crc_loop 0xFFFFFFFF xs

    start_lt : start < 2 ^ 32
    start_lt = crc_loop_lt 0xFFFFFFFF xs hx (omega arith)

    loops : crc_loop 0xFFFFFFFF (xs ++ us ++ ys) ≡ crc_loop 0xFFFFFFFF (xs ++ vs ++ ys)
    loops = bit_xor_injective _ _ 0xFFFFFFFF same

    split : (ws : List ℕ) → crc_loop 0xFFFFFFFF (xs ++ ws ++ ys) ≡ crc_loop (crc_loop start ws) ys
    split ws =
        crc_loop-append 0xFFFFFFFF (xs ++ ws) ys
        ∙ ap (λ (t : ℕ). crc_loop t ys) (crc_loop-append 0xFFFFFFFF xs ws)

    registers : crc_loop start us ≡ crc_loop start vs
    registers =
        crc_loop_injective _ _ ys hy (crc_loop_lt start us hu start_lt)
          (crc_loop_lt start vs hv start_lt) (sym (split us) ∙ loops ∙ split vs)
