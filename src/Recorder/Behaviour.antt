-- ===== src/Recorder/Behaviour.antt =====
-- src/gateway/frame_recorder.cpp: what a recording holds.
use net_node_gateway.Prelude.{
  ℕ, ◌+◌, ◌-◌, ◌%◌, ◌^◌, ◌≤◌, ◌≡◌, refl, sym, ap, ◌∙◌, true, false, List, [], ◌∷◌, ◌++◌, length,
  arith, length-append, append_assoc, append-nil,
}
use net_node_gateway.Prelude.Pack.{pack_word, length-pack_word}
use net_node_gateway.Recorder.{OutStream, FrameRecorder, entry, record_frame, open_file}

unfoldable pub entries : List (ℕ × List ℕ) → List ℕ
entries [] = []
entries ((ts, frame) ∷ fs) = entry ts frame ++ entries fs

unfoldable pub record_all : FrameRecorder → List (ℕ × List ℕ) → FrameRecorder
record_all r [] = r
record_all r ((ts, frame) ∷ fs) = record_all (record_frame r ts frame).0 fs

-- A call on an open and good file with room for the entry appends exactly the entry and counts one
-- frame. On a closed file nothing changes and the answer is false.
pub record_frame_lem :
    (r : FrameRecorder) (ts : ℕ) (frame : List ℕ)
    → r.file.good ≡ true
    → 12 + length frame ≤ r.file.room
    → let (r', done) = record_frame r ts frame in
      (r.file.is_open ≡ true
        → (done ≡ true)
          × (r'.file ≡ record r.file {
            room = r.file.room - (12 + length frame);
            bytes = r.file.bytes ++ entry ts frame;
          })
          × (r'.frame_count ≡ (r.frame_count + 1) % 2 ^ 64))
      × (r.file.is_open ≡ false → (done ≡ false) × (r' ≡ r))
unfolding record_frame
record_frame_lem r ts [] g h =
    let stamp = pack_word 8 ts in
    let count = pack_word 4 (length {A = ℕ} [] % 2 ^ 32) in
    ground (
      arith,
      length-pack_word 8 ts,
      length-pack_word 4 (length {A = ℕ} [] % 2 ^ 32),
      append_assoc r.file.bytes stamp count,
      append-nil (stamp ++ count),
    )
record_frame_lem r ts (b ∷ frame) g h =
    let stamp = pack_word 8 ts in
    let count = pack_word 4 (length (b ∷ frame) % 2 ^ 32) in
    ground (
      arith,
      length-pack_word 8 ts,
      length-pack_word 4 (length (b ∷ frame) % 2 ^ 32),
      append_assoc r.file.bytes stamp count,
      append_assoc r.file.bytes (stamp ++ count) (b ∷ frame),
    )

pub entries-length : (ts : ℕ) (frame : List ℕ) → length (entry ts frame) ≡ 12 + length frame
entries-length ts frame =
    let stamp = pack_word 8 ts in
    let count = pack_word 4 (length frame % 2 ^ 32) in
    omega (
      arith,
      length-append (stamp ++ count) frame,
      length-append stamp count,
      length-pack_word 8 ts,
      length-pack_word 4 (length frame % 2 ^ 32),
    )

record_all-bytes :
    (fs : List (ℕ × List ℕ)) (r : FrameRecorder)
    → r.file.is_open ≡ true
    → r.file.good ≡ true
    → length (entries fs) ≤ r.file.room
    → let r' = record_all r fs in
      (r'.file.bytes ≡ r.file.bytes ++ entries fs)
      × (r'.frame_count % 2 ^ 64 ≡ (r.frame_count + length fs) % 2 ^ 64)
unfolding record_all entries
record_all-bytes [] r o g h = (sym (append-nil r.file.bytes), omega arith)
record_all-bytes ((ts, frame) ∷ fs) r o g h =
    let sizes : length (entry ts frame) + length (entries fs) ≤ r.file.room =
      omega (arith, length-append (entry ts frame) (entries fs)) in
    let step = (record_frame_lem r ts frame g (omega (arith, entries-length ts frame))).0 o in
    let rest =
      record_all-bytes fs (record_frame r ts frame).0 (ap (λ (f : OutStream). f.is_open) step.1 ∙ o)
        (ap (λ (f : OutStream). f.good) step.1 ∙ g)
        (rw (step.1) (omega (arith, entries-length ts frame))) in
    (
      rest.0
          ∙ ap (λ (f : OutStream). f.bytes ++ entries fs) step.1
          ∙ append_assoc r.file.bytes (entry ts frame) (entries fs),
      omega (arith, rest.1, step.2),
    )

-- A recording made from a fresh file, on a device with room for it, holds the entries of the
-- frames in their order, and the recorder has counted them modulo 2 ^ 64.
pub record_all-entries :
    (fs : List (ℕ × List ℕ)) (r : FrameRecorder) (room : ℕ)
    → length (entries fs) ≤ room
    → let r' = record_all (open_file r true room).0 fs in
      (r'.file.bytes ≡ entries fs) × (r'.frame_count % 2 ^ 64 ≡ length fs % 2 ^ 64)
unfolding open_file
record_all-entries fs r room h =
    let done = record_all-bytes fs (open_file r true room).0 refl refl h in ground (arith, done)
