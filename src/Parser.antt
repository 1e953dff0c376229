-- ===== src/Parser.antt =====
-- src/gateway/telemetry_parser.cpp and telemetry_parser.h: validation of one datagram. The buffer
-- is the list of its `len` bytes.
pub mod Frames
pub mod Accepts
pub mod Corruption
mod Examples
use net_node_gateway.Prelude.{
  ℕ, ◌+◌, Bool, true, false, not, ◌||◌, Option, none, some, List, take, drop, length, ltb, ◌==◌,
  if◌then◌else◌,
}
use net_node_gateway.Prelude.Pack.{unpack_word}
use net_node_gateway.Types.{
  protocol_version, msg_type_value, plot, engagement, frame_header_size, frame_crc_size,
  max_payload_size,
}
use net_node_gateway.Protocol.{TelemetryHeader, deserialize_header}
use net_node_gateway.Crc32.{crc32}

pub data ParseError : Type 0 where
  ok too_short bad_version bad_msg_type payload_too_long truncated crc_mismatch : ParseError

-- `payload_ptr` holds the bytes from the pointer to the end of the buffer; `none` is `nullptr`.
pub record ParsedFrame : Type 0 where
  pub header : TelemetryHeader
  pub payload_ptr : Option (List ℕ)
  pub crc : ℕ
  pub has_crc : Bool

-- The last part of `parse_frame`, once `len` is known to be enough.
unfoldable pub check_crc : List ℕ → Bool → ParsedFrame → ParseError × ParsedFrame
check_crc buf crc_enabled out =
    let crc_offset = frame_header_size + out.header.payload_len in
    let out' = record out {
      payload_ptr = some (drop frame_header_size buf);
      has_crc = crc_enabled;
      crc = if crc_enabled then unpack_word (take frame_crc_size (drop crc_offset buf)) else 0;
    } in
    if crc_enabled
    then (if crc32 (take crc_offset buf) == out'.crc then (ok, out') else (crc_mismatch, out'))
    else (ok, out')

-- The out parameter is the last argument and the second component of the result.
unfoldable pub parse_frame : List ℕ → Bool → ParsedFrame → ParseError × ParsedFrame
unfolding check_crc
parse_frame buf crc_enabled out =
    if ltb (length buf) frame_header_size
    then (too_short, out)
    else (let h = deserialize_header buf in
        let out' = record out { header = h } in
        let expected =
          frame_header_size + h.payload_len + (if crc_enabled then frame_crc_size else 0) in
        if not (h.version == protocol_version)
        then (bad_version, out')
        else if ltb h.msg_type (msg_type_value plot) || ltb (msg_type_value engagement) h.msg_type
        then (bad_msg_type, out')
        else if ltb max_payload_size h.payload_len
        then (payload_too_long, out')
        else if ltb (length buf) expected
        then (truncated, out')
        else check_crc buf crc_enabled out')
