-- ===== src/Crc32.antt =====
-- src/common/crc32.cpp: the table-driven CRC-32. Words are native numbers below 2 ^ 32.
pub mod Bitwise
pub mod Detect
mod Examples
use net_node_gateway.Prelude.{
  ℕ, zero, suc, ◌+◌, ◌/◌, ◌%◌, ◌^◌, List, [], ◌∷◌, ◌++◌, bit_xor, bit_and, get_or, ◌==◌,
  if◌then◌else◌,
}

abbrev pub polynomial : ℕ
polynomial = 0xEDB88320

-- one round of the loop of `make_crc_entry`
unfoldable pub crc_bit : ℕ → ℕ
crc_bit crc = if bit_and crc 1 == 0 then crc / 2 else bit_xor (crc / 2) polynomial

unfoldable pub crc_bits : ℕ → ℕ → ℕ
unfolding crc_bit
crc_bits zero crc = crc
crc_bits (suc n) crc = crc_bits n (crc_bit crc)

unfoldable pub make_crc_entry : ℕ → ℕ
unfolding crc_bits
make_crc_entry idx = crc_bits 8 idx

-- The loop of the constructor of `CrcTable`, from index `i` on for `n` rounds.
unfoldable pub fill_table : ℕ → ℕ → List ℕ
unfolding make_crc_entry
fill_table zero i = []
fill_table (suc n) i = make_crc_entry i ∷ fill_table n (i + 1)

unfoldable pub table : List ℕ
table = fill_table 256 0

-- `~crc` on 32 bits
abbrev pub complement : ℕ → ℕ
complement crc = bit_xor crc 0xFFFFFFFF

-- One round of the loop of `crc32_update`; a test that runs it unfolds `table` and
-- `fill_table` too.
unfoldable pub crc_byte : ℕ → ℕ → ℕ
crc_byte crc byte = bit_xor (crc / 2 ^ 8) (get_or table (bit_xor crc byte % 256) 0)

unfoldable pub crc_loop : ℕ → List ℕ → ℕ
crc_loop crc [] = crc
crc_loop crc (byte ∷ rest) = crc_loop (crc_byte crc byte) rest

unfoldable pub crc32_update : ℕ → List ℕ → ℕ
unfolding crc_loop
crc32_update crc bytes = complement (crc_loop (complement crc) bytes)

unfoldable pub crc32 : List ℕ → ℕ
unfolding crc32_update
crc32 bytes = crc32_update 0 bytes
