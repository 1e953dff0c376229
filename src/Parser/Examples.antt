-- ===== src/Parser/Examples.antt =====
-- Frames that the parser accepts, and one that it refuses.
use net_node_gateway.Prelude.{
  ℕ, ◌≡◌, ◌≢◌, refl, true, false, none, some, List, [], ◌∷◌, ◌++◌, if◌then◌else◌, arith,
}
use net_node_gateway.Prelude.Pack.{unpack, unpack_word}
use net_node_gateway.Protocol.{TelemetryHeader, deserialize_header}
use net_node_gateway.Protocol.Layout.{load}
use net_node_gateway.Crc32.{crc32, crc_byte, table, fill_table}
use net_node_gateway.Parser.{ok, ParsedFrame, parse_frame}
use net_node_gateway.Parser.Frames.{IsFrame, frame_body, frame_trailer, frame_bytes}
use net_node_gateway.Parser.Accepts.{parse_frame-frame_bytes, parse_frame_sound}
use net_node_gateway.Parser.Corruption.{parse_frame_detects_burst}

abbrev header_2 : TelemetryHeader
header_2 = record { version = 1; msg_type = 3; src_id = 7; seq = 300; ts_ns = 5; payload_len = 2 }

abbrev payload_2 : List ℕ
payload_2 = 10 ∷ 20 ∷ []

abbrev empty_frame : ParsedFrame
empty_frame = record { header = header_2; payload_ptr = none; crc = 0; has_crc = false }

header_2-IsFrame : IsFrame header_2 payload_2
header_2-IsFrame = record {
  storable = ground arith;
  version = refl;
  known_type = (omega arith, omega arith);
  payload_fits = omega arith;
  payload_length = refl;
  payload_bytes = ground arith;
}

parse_frame-frame_bytes_example :
    parse_frame (frame_bytes header_2 payload_2 true ++ (99 ∷ [])) true empty_frame ≡ (
      ok,
      record {
        header = header_2;
        payload_ptr = some (payload_2 ++ (frame_trailer header_2 payload_2 true ++ (99 ∷ [])));
        crc = if true then crc32 (frame_body header_2 payload_2) else 0;
        has_crc = true;
      },
    )
parse_frame-frame_bytes_example =
    parse_frame-frame_bytes header_2 payload_2 (99 ∷ []) header_2-IsFrame true empty_frame

-- a frame of two payload bytes, with its checksum and without
abbrev plain_bytes : List ℕ
plain_bytes = 1 ∷ 3 ∷ 7 ∷ 0 ∷ 44 ∷ 1 ∷ 0 ∷ 0 ∷ 5 ∷ 0 ∷ 0 ∷ 0 ∷ 0 ∷ 0 ∷ 0 ∷ 0 ∷ 2 ∷ 0 ∷ 10 ∷ 20 ∷ []

parse_frame_sound_example :
    (payload : List ℕ) × (rest : List ℕ) × IsFrame
      (parse_frame plain_bytes false empty_frame).1.header
      payload
    × (plain_bytes
        ≡ frame_bytes (parse_frame plain_bytes false empty_frame).1.header payload false ++ rest)
parse_frame_sound_example =
    parse_frame_sound plain_bytes false empty_frame (ground arith)
      (unfold parse_frame deserialize_header load unpack unpack_word in refl)

-- the same frame behind its header, with its checksum, and a change of the last payload byte
abbrev head_bytes : List ℕ
head_bytes = 1 ∷ 3 ∷ 7 ∷ 0 ∷ 44 ∷ 1 ∷ 0 ∷ 0 ∷ 5 ∷ 0 ∷ 0 ∷ 0 ∷ 0 ∷ 0 ∷ 0 ∷ 0 ∷ 2 ∷ 0 ∷ 10 ∷ []

abbrev crc_bytes : List ℕ
crc_bytes = 55 ∷ 220 ∷ 179 ∷ 243 ∷ []

parse_frame_detects_burst_example :
    (parse_frame (head_bytes ++ (21 ∷ []) ++ crc_bytes) true empty_frame).0 ≢ ok
parse_frame_detects_burst_example =
    parse_frame_detects_burst head_bytes (20 ∷ []) (21 ∷ []) crc_bytes empty_frame empty_frame
      (ground arith) (ground arith) (ground arith) (ground arith) refl (omega arith)
      (λ e. ground arith) (unfold deserialize_header load unpack unpack_word in refl)
      (unfold deserialize_header load unpack unpack_word in omega arith)
      (unfold parse_frame deserialize_header load unpack unpack_word crc32 crc_byte table
          fill_table in
        refl)
