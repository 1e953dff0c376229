-- ===== src/Framer.antt =====
-- src/control_node/tcp_framer.cpp and tcp_framer.h: frames with a big-endian length prefix. A
-- payload, a `std::string` in the source, is the list of its bytes.
pub mod Extract
pub mod Stream
mod Examples
use net_node_gateway.Prelude.{
  is_empty, ℕ, zero, suc, ◌+◌, ◌*◌, ◌/◌, ◌%◌, ◌^◌, Bool, true, false, List, [], ◌∷◌, ◌++◌, length,
  take, drop, get_or, ltb, if◌then◌else◌,
}

pub record TcpFramer : Type 0 where
  pub buffer : List ℕ
  pub ready_frames : List (List ℕ)

abbrev pub new_framer : TcpFramer
new_framer = record { buffer = []; ready_frames = [] }

-- The four bytes of `be_len`, highest first.
abbrev pub prefix_bytes : ℕ → List ℕ
prefix_bytes be_len =
    (be_len / 2 ^ 24 % 256) ∷ (be_len / 2 ^ 16 % 256) ∷ (be_len / 2 ^ 8 % 256) ∷ (be_len % 256) ∷ []

unfoldable pub encode : List ℕ → List ℕ
encode payload = prefix_bytes (length payload % 2 ^ 32) ++ payload

abbrev pub max_frame : ℕ
max_frame = 10 * 1024 * 1024

-- The four bytes joined by `|`; they are disjoint fields, so the sum is the same.
abbrev pub frame_length : List ℕ → ℕ
frame_length buffer =
    get_or buffer 0 0 * 2 ^ 24
    + get_or buffer 1 0 * 2 ^ 16
    + get_or buffer 2 0 * 2 ^ 8
    + get_or buffer 3 0

-- The loop of `try_extract_frames`. Each round takes 4 bytes at least, so as many rounds as there
-- are bytes are enough.
unfoldable pub extract_loop : ℕ → TcpFramer → TcpFramer
extract_loop zero f = f
extract_loop (suc fuel) f =
    let frame_len = frame_length f.buffer in
    let again = extract_loop fuel (record {
      buffer = drop (4 + frame_len) f.buffer;
      ready_frames = f.ready_frames ++ (take frame_len (drop 4 f.buffer) ∷ []);
    }) in
    if ltb (length f.buffer) 4
    then f
    else if ltb max_frame frame_len
    then record f { buffer = [] }
    else if ltb (length f.buffer) (4 + frame_len)
    then f
    else again

unfoldable pub try_extract_frames : TcpFramer → TcpFramer
try_extract_frames f = extract_loop (length f.buffer) f

unfoldable pub feed : TcpFramer → List ℕ → TcpFramer
unfolding try_extract_frames
feed f received = try_extract_frames (record f { buffer = f.buffer ++ received })

unfoldable pub has_frame : TcpFramer → Bool
has_frame f = if is_empty f.ready_frames then false else true

abbrev pub pop : TcpFramer → List (List ℕ) → List ℕ × TcpFramer
pop f [] = ([], f)
pop f (frame ∷ frames) = (frame, record f { ready_frames = frames })

unfoldable pub pop_frame : TcpFramer → List ℕ × TcpFramer
pop_frame f = pop f f.ready_frames

unfoldable pub reset : TcpFramer → TcpFramer
reset f = new_framer

unfoldable pub buffered_bytes : TcpFramer → ℕ
buffered_bytes f = length f.buffer
