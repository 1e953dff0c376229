-- ===== src/Parser/Accepts/Verdict.antt =====
-- src/gateway/telemetry_parser.cpp: what a frame that is accepted has passed.
use net_node_gateway.Prelude.{
  ℕ, ◌+◌, ◌^◌, ◌≤◌, ◌<◌, ◌≡◌, refl, Bool, true, false, some, List, [], All, length, take, drop,
  if◌then◌else◌, arith, subst, ◌∷◌, length-take, length-drop, All-take, All-drop,
}
use net_node_gateway.Prelude.Pack.{IsByte, unpack_word, unpack, total, Fits, unpack_word_lt}
use net_node_gateway.Protocol.{TelemetryHeader, deserialize_header}
use net_node_gateway.Crc32.{crc32}
use net_node_gateway.Parser.{ParsedFrame, ok, parse_frame}

-- The conditions under which a buffer is accepted.
pub record Accepted (buf : List ℕ) (crc_enabled : Bool) (h : TelemetryHeader) : Type 0 where
  pub long_enough : 18 + h.payload_len + (if crc_enabled then 4 else 0) ≤ length buf
  pub version : h.version ≡ 1
  pub known_type : (1 ≤ h.msg_type) × (h.msg_type ≤ 4)
  pub payload_fits : h.payload_len ≤ 1024
  pub checksum :
      crc_enabled ≡ true
      → crc32 (take (18 + h.payload_len) buf) ≡ unpack_word (take 4 (drop (18 + h.payload_len) buf))

pub parse_frame-Accepted :
    (buf : List ℕ) (crc_enabled : Bool) (out : ParsedFrame)
    → (parse_frame buf crc_enabled out).0 ≡ ok
    → Accepted buf crc_enabled (deserialize_header buf)
unfolding parse_frame
parse_frame-Accepted buf true out e = ground arith
parse_frame-Accepted buf false out e = ground arith

abbrev pub parsed : List ℕ → Bool → ParsedFrame
parsed buf crc_enabled = record {
  header = deserialize_header buf;
  payload_ptr = some (drop 18 buf);
  crc =
      if crc_enabled
      then unpack_word (take 4 (drop (18 + (deserialize_header buf).payload_len) buf))
      else 0;
  has_crc = crc_enabled;
}

pub Accepted-parse_frame :
    (buf : List ℕ) (crc_enabled : Bool) (out : ParsedFrame)
    → Accepted buf crc_enabled (deserialize_header buf)
    → parse_frame buf crc_enabled out ≡ (ok, parsed buf crc_enabled)
unfolding parse_frame
Accepted-parse_frame buf true out a = ground (arith, a.checksum refl)
Accepted-parse_frame buf false out a = ground arith

pub unpack-Fits :
    (ws buf : List ℕ) → All IsByte buf → total ws ≤ length buf → Fits ws (unpack ws buf)
unfolding unpack
unpack-Fits [] buf h l = tt
unpack-Fits (w ∷ ws) buf h l = (
  subst (λ n. unpack_word (take w buf) < 256 ^ n) (omega (arith, length-take w buf))
      (unpack_word_lt (take w buf) (All-take IsByte w buf h)),
  unpack-Fits ws (drop w buf) (All-drop IsByte w buf h) (omega (arith, length-drop w buf)),
)
