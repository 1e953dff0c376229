-- ===== src/Crc32/Examples.antt =====
-- Known values of the checksum, and its properties at concrete values.
use net_node_gateway.Prelude.{ℕ, ◌≡◌, refl, List, [], ◌∷◌, arith}
use net_node_gateway.Prelude.Text.{codes}
use net_node_gateway.Crc32.{crc32, complement, crc_byte, make_crc_entry, table, fill_table}
use net_node_gateway.Crc32.Bitwise.{bitwise_crc, crc32-bitwise}

crc32_check : crc32 (codes "123456789") ≡ 0xCBF43926
unfolding crc32 crc_byte table fill_table
crc32_check = refl

entry_255 : make_crc_entry 255 ≡ 0x2D02EF8D
unfolding make_crc_entry
entry_255 = refl

abbrev some_bytes : List ℕ
some_bytes = 1 ∷ 0 ∷ 255 ∷ []

crc32-bitwise_example : crc32 some_bytes ≡ complement (bitwise_crc 0xFFFFFFFF some_bytes)
crc32-bitwise_example = crc32-bitwise some_bytes (ground arith)
