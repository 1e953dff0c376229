-- ===== src/Recorder.antt =====
-- src/gateway/frame_recorder.cpp and frame_recorder.h: the recording of frames to a file.
-- `std::ofstream` is modelled by what the recorder uses of it: a stream is open or not, is good until
-- a write fails, and holds the bytes written. A write fails when the device, with room for `room`
-- more bytes, is full. That the library may notice a full device only at a later flush is left out.
pub mod Behaviour
mod Examples
use net_node_gateway.Prelude.{
  ℕ, zero, ◌+◌, ◌-◌, ◌%◌, ◌^◌, Bool, true, false, not, ◌&&◌, List, [], ◌++◌, length, take, ltb, leb,
  if◌then◌else◌,
}
use net_node_gateway.Prelude.Pack.{pack_word}

pub record OutStream : Type 0 where
  pub is_open : Bool
  pub good : Bool
  pub room : ℕ
  pub bytes : List ℕ

abbrev pub write : OutStream → List ℕ → OutStream
write o data_bytes =
    if o.good
    then (if leb (length data_bytes) o.room
        then record o { room = o.room - length data_bytes; bytes = o.bytes ++ data_bytes }
        else record o { good = false; room = 0; bytes = o.bytes ++ take o.room data_bytes })
    else o

pub record FrameRecorder : Type 0 where
  pub file : OutStream
  pub frame_count : ℕ

-- A stream that has not been opened is good, and nothing can be written to it yet.
abbrev pub new_recorder : FrameRecorder
new_recorder = record {
  file = record { is_open = false; good = true; room = 0; bytes = [] };
  frame_count = 0;
}

unfoldable pub close : FrameRecorder → FrameRecorder
close r = if r.file.is_open then record r { file = record r.file { is_open = false } } else r

-- `can_open` and `room` are what the operating system answers: whether the file can be opened, and
-- how many bytes the device takes. The open truncates the file.
unfoldable pub open_file : FrameRecorder → Bool → ℕ → FrameRecorder × Bool
unfolding close
open_file r can_open room =
    let r' = close r in
    if can_open
    then (
      record {
        file = record { is_open = true; good = true; room = room; bytes = [] };
        frame_count = 0;
      },
      true,
    )
    else (record r' { file = record r'.file { good = false } }, false)

-- The bytes of one entry: timestamp, length and frame.
abbrev pub entry : ℕ → List ℕ → List ℕ
entry rx_timestamp_ns frame =
    pack_word 8 rx_timestamp_ns ++ pack_word 4 (length frame % 2 ^ 32) ++ frame

-- `frame_data` is not null where `frame_len` is not 0: both are of one vector at every call.
unfoldable pub record_frame : FrameRecorder → ℕ → List ℕ → FrameRecorder × Bool
record_frame r rx_timestamp_ns frame =
    if not r.file.is_open
    then (r, false)
    else (let o = write r.file (pack_word 8 rx_timestamp_ns) in
        let o' = write o (pack_word 4 (length frame % 2 ^ 32)) in
        let o'' = if ltb 0 (length frame) then write o' frame else o' in
        if not o''.good
        then (record r { file = o'' }, false)
        else (record { file = o''; frame_count = (r.frame_count + 1) % 2 ^ 64 }, true))
