-- ===== src/Crc32/Bitwise.antt =====
-- src/common/crc32.cpp: one lookup in the table is eight steps of the bit-by-bit division.
use Prim.Native.Nat.add
use net_node_gateway.Prelude.{
  ℕ, zero, suc, ◌+◌, ◌*◌, ◌/◌, ◌%◌, ◌^◌, ◌<◌, ◌≡◌, refl, sym, ap, ◌∙◌, List, [], ◌∷◌, ◌++◌, All,
  bit_xor, bit_and, get_or, arith,
}
use net_node_gateway.Prelude.Bits.{
  bit_and-one, bit_xor-half, bit_xor_parity, bit_xor_comm, bit_xor_assoc, bit_xor-zero,
  bit_xor-high, bit_xor_fields, bit_xor_lt, bit_xor_cancel, mul-two-pow-suc,
}
use net_node_gateway.Prelude.Pack.{IsByte}
use net_node_gateway.Crc32.{
  polynomial, crc_bit, crc_bits, make_crc_entry, fill_table, table, complement, crc_byte, crc_loop,
  crc32_update, crc32,
}

-- what a step adds for the digit that it shifts out
abbrev pub poly_if : ℕ → ℕ
poly_if zero = 0
poly_if (suc n) = polynomial

pub crc_bit_lem : (x : ℕ) → crc_bit x ≡ bit_xor (x / 2) (poly_if (x % 2))
unfolding crc_bit
crc_bit_lem x = split (x % 2) (omega arith) (bit_and-one x)
  where
    split : (d : ℕ) → d < 2 → bit_and x 1 ≡ d → crc_bit x ≡ bit_xor (x / 2) (poly_if d)
    split zero h e = rw e (sym (bit_xor-zero (x / 2)))
    split (suc zero) h e = rw e
    split (suc (suc d)) h e = absurd (omega arith)

poly_if-parity : (a b : ℕ) → a < 2 → b < 2 → poly_if ((a + b) % 2) ≡ bit_xor (poly_if a) (poly_if b)
poly_if-parity zero zero h k = refl
poly_if-parity zero (suc zero) h k = refl
poly_if-parity (suc zero) zero h k = refl
poly_if-parity (suc zero) (suc zero) h k = refl
poly_if-parity (suc (suc a)) b h k = absurd (omega arith)
poly_if-parity zero (suc (suc b)) h k = absurd (omega arith)
poly_if-parity (suc zero) (suc (suc b)) h k = absurd (omega arith)

bit_xor_interchange :
    (a b c d : ℕ) → bit_xor (bit_xor a b) (bit_xor c d) ≡ bit_xor (bit_xor a c) (bit_xor b d)
bit_xor_interchange a b c d =
    bit_xor_assoc a b (bit_xor c d)
    ∙ ap (bit_xor a) (
        sym (bit_xor_assoc b c d)
        ∙ ap (λ (t : ℕ). bit_xor t d) (bit_xor_comm b c)
        ∙ bit_xor_assoc c b d)
    ∙ sym (bit_xor_assoc a c (bit_xor b d))

-- A step is linear.
crc_bit-xor : (a b : ℕ) → crc_bit (bit_xor a b) ≡ bit_xor (crc_bit a) (crc_bit b)
crc_bit-xor a b =
    rw
      (
        crc_bit_lem (bit_xor a b),
        crc_bit_lem a,
        crc_bit_lem b,
        bit_xor-half a b,
        bit_xor_parity a b,
        poly_if-parity (a % 2) (b % 2) (omega arith) (omega arith),
      )
      (bit_xor_interchange (a / 2) (b / 2) (poly_if (a % 2)) (poly_if (b % 2)))

pub crc_bits-xor : (n a b : ℕ) → crc_bits n (bit_xor a b) ≡ bit_xor (crc_bits n a) (crc_bits n b)
unfolding crc_bits
crc_bits-xor zero a b = refl
crc_bits-xor (suc n) a b = rw (crc_bit-xor a b) (crc_bits-xor n (crc_bit a) (crc_bit b))

crc_bit-double : (a : ℕ) → crc_bit (2 * a) ≡ a
crc_bit-double a = rw (crc_bit_lem (2 * a), even, half, bit_xor-zero a)
  where
    even : 2 * a % 2 ≡ 0
    even = omega arith

    half : 2 * a / 2 ≡ a
    half = omega arith

-- Zero digits below are shifted out.
pub crc_bits-shift : (n q : ℕ) → crc_bits n (q * 2 ^ n) ≡ q
unfolding crc_bits
crc_bits-shift zero q = omega arith
crc_bits-shift (suc n) q = rw (mul-two-pow-suc q n, crc_bit-double (q * 2 ^ n)) (crc_bits-shift n q)

pub crc_bits-add : (k n x : ℕ) → crc_bits (k + n) x ≡ crc_bits n (crc_bits k x)
unfolding crc_bits
crc_bits-add zero n x = rw (add.zero n)
crc_bits-add (suc k) n x = rw (add.suc k n) (crc_bits-add k n (crc_bit x))

pub crc_bit_lt : (x : ℕ) → x < 2 ^ 32 → crc_bit x < 2 ^ 32
crc_bit_lt x h =
    rw (crc_bit_lem x) (bit_xor_lt 32 (x / 2) (poly_if (x % 2)) (omega arith) (bound (x % 2)))
  where
    bound : (d : ℕ) → poly_if d < 2 ^ 32
    bound zero = omega arith
    bound (suc d) = omega arith

pub crc_bits_lt : (n x : ℕ) → x < 2 ^ 32 → crc_bits n x < 2 ^ 32
unfolding crc_bits
crc_bits_lt zero x h = h
crc_bits_lt (suc n) x h = crc_bits_lt n (crc_bit x) (crc_bit_lt x h)

get_or-fill_table : (n i k : ℕ) → k < n → get_or (fill_table n i) k 0 ≡ make_crc_entry (i + k)
unfolding fill_table
get_or-fill_table zero i k h = absurd (omega arith)
get_or-fill_table (suc n) i zero h = ap make_crc_entry (omega arith)
get_or-fill_table (suc n) i (suc k) h =
    get_or-fill_table n (i + 1) k (omega arith) ∙ ap make_crc_entry (omega arith)

-- The table holds the entry of each byte at its index.
pub get_or-table : (k : ℕ) → k < 256 → get_or table k 0 ≡ crc_bits 8 k
unfolding table make_crc_entry
get_or-table k h = get_or-fill_table 256 0 k h ∙ ap make_crc_entry (add.zero k)

-- One round of the table-driven loop is eight single steps.
pub crc_byte-bits : (crc byte : ℕ) → IsByte byte → crc_byte crc byte ≡ crc_bits 8 (bit_xor crc byte)
unfolding crc_byte
crc_byte-bits crc byte h =
    rw (get_or-table (x % 256) (omega arith), high, ← crc_bits-shift 8 (x / 256))
      (sym (crc_bits-xor 8 (x / 256 * 2 ^ 8) (x % 256)) ∙ ap (crc_bits 8) whole)
  where
    x : ℕ
    x = bit_xor crc byte

    small : byte / 2 ^ 8 ≡ 0
    small = omega arith

    high : crc / 2 ^ 8 ≡ x / 256
    high = sym (bit_xor-high 8 crc byte ∙ rw small (bit_xor-zero (crc / 2 ^ 8)))

    whole : bit_xor (x / 256 * 2 ^ 8) (x % 256) ≡ x
    whole = omega (arith, bit_xor_fields 8 (x / 256) (x % 256) (omega arith))

-- The textbook algorithm: each byte is added to the register, which then takes eight steps.
unfoldable pub bitwise_crc : ℕ → List ℕ → ℕ
bitwise_crc crc [] = crc
bitwise_crc crc (byte ∷ rest) = bitwise_crc (crc_bits 8 (bit_xor crc byte)) rest

crc_loop-bitwise :
    (crc : ℕ) (bytes : List ℕ) → All IsByte bytes → crc_loop crc bytes ≡ bitwise_crc crc bytes
unfolding crc_loop bitwise_crc
crc_loop-bitwise crc [] h = refl
crc_loop-bitwise crc (byte ∷ rest) (p, h) =
    rw (crc_byte-bits crc byte p) (crc_loop-bitwise (crc_bits 8 (bit_xor crc byte)) rest h)

-- On every list of bytes the table-driven checksum is that of the bit-by-bit algorithm, started
-- with and followed by a complement.
pub crc32-bitwise :
    (bytes : List ℕ) → All IsByte bytes → crc32 bytes ≡ complement (bitwise_crc 0xFFFFFFFF bytes)
unfolding crc32 crc_loop
crc32-bitwise bytes h = ap complement (crc_loop-bitwise 0xFFFFFFFF bytes h)

pub crc_loop-append :
    (crc : ℕ) (xs ys : List ℕ) → crc_loop crc (xs ++ ys) ≡ crc_loop (crc_loop crc xs) ys
unfolding crc_loop
crc_loop-append crc [] ys = refl
crc_loop-append crc (x ∷ xs) ys = crc_loop-append (crc_byte crc x) xs ys

-- Feeding a buffer in two chunks, the second from the result of the first, gives the checksum of
-- the whole buffer.
pub crc32-append : (xs ys : List ℕ) → crc32 (xs ++ ys) ≡ crc32_update (crc32 xs) ys
unfolding crc32
crc32-append xs ys =
    rw (crc_loop-append 0xFFFFFFFF xs ys, bit_xor_cancel (crc_loop 0xFFFFFFFF xs) 0xFFFFFFFF)
