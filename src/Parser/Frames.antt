-- ===== src/Parser/Frames.antt =====
-- What a frame on the wire is, said without the parser: header, payload and, if enabled, the
-- checksum of both, lowest byte first.
use net_node_gateway.Prelude.{ℕ, ◌≤◌, ◌≡◌, Bool, List, [], ◌++◌, All, length, if◌then◌else◌}
use net_node_gateway.Prelude.Pack.{IsByte, pack_word}
use net_node_gateway.Protocol.{TelemetryHeader, header_struct}
use net_node_gateway.Protocol.Layout.{store, IsStorable}
use net_node_gateway.Crc32.{crc32}

-- the bytes that the checksum covers
abbrev pub frame_body : TelemetryHeader → List ℕ → List ℕ
frame_body h payload = store header_struct h ++ payload

abbrev pub frame_trailer : TelemetryHeader → List ℕ → Bool → List ℕ
frame_trailer h payload crc_enabled =
    if crc_enabled then pack_word 4 (crc32 (frame_body h payload)) else []

abbrev pub frame_bytes : TelemetryHeader → List ℕ → Bool → List ℕ
frame_bytes h payload crc_enabled = frame_body h payload ++ frame_trailer h payload crc_enabled

-- The header and the payload belong together and follow the protocol.
pub record IsFrame (h : TelemetryHeader) (payload : List ℕ) : Type 0 where
  pub storable : IsStorable header_struct h
  pub version : h.version ≡ 1
  pub known_type : (1 ≤ h.msg_type) × (h.msg_type ≤ 4)
  pub payload_fits : h.payload_len ≤ 1024
  pub payload_length : length payload ≡ h.payload_len
  pub payload_bytes : All IsByte payload
