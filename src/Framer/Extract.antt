-- ===== src/Framer/Extract.antt =====
-- src/control_node/tcp_framer.cpp: the loop of `try_extract_frames` runs to its end, and what it
-- leaves in the buffer is bounded.
use net_node_gateway.Prelude.{
  ℕ, zero, suc, ◌+◌, ◌≤◌, ◌<◌, ◌≡◌, ◌⊎◌, inl, inr, List, [], ◌∷◌, ◌++◌, length, take, drop, arith,
  length-drop,
}
use net_node_gateway.Framer.{
  TcpFramer, extract_loop, try_extract_frames, feed, frame_length, max_frame, buffered_bytes,
}

-- The loop has ended by one of its tests: fewer than four bytes, or an incomplete frame of a
-- length within the limit.
abbrev pub IsDone : TcpFramer → Type 0
IsDone f =
    (length f.buffer < 4)
    ⊎ ((frame_length f.buffer ≤ max_frame) × (length f.buffer < 4 + frame_length f.buffer))

extract_loop-IsDone :
    (fuel : ℕ) (f : TcpFramer) → length f.buffer ≤ fuel → IsDone (extract_loop fuel f)
unfolding extract_loop
extract_loop-IsDone zero f h = inl (omega arith)
extract_loop-IsDone (suc fuel) f h = ground (
  arith,
  length-drop (4 + frame_length f.buffer) f.buffer,
  extract_loop-IsDone fuel (record {
    buffer = drop (4 + frame_length f.buffer) f.buffer;
    ready_frames = f.ready_frames ++ (take (frame_length f.buffer) (drop 4 f.buffer) ∷ []);
  }),
)

IsDone-bound : (f : TcpFramer) → IsDone f → length f.buffer ≤ max_frame + 3
IsDone-bound f (inl h) = omega arith
IsDone-bound f (inr h) = omega arith

oversized :
    (fuel : ℕ) (f : TcpFramer)
    → length f.buffer ≤ fuel
    → 4 ≤ length f.buffer
    → max_frame < frame_length f.buffer
    → extract_loop fuel f ≡ record f { buffer = [] }
unfolding extract_loop
oversized zero f e h l = absurd (omega arith)
oversized (suc fuel) f e h l = ground arith

-- After `feed` no complete frame is left in the buffer, and the buffer holds fewer than four bytes
-- or an incomplete frame within the limit: at most 10 MiB and 3 bytes, whatever was sent.
pub feed-IsDone :
    (f : TcpFramer) (received : List ℕ)
    → IsDone (feed f received) × (buffered_bytes (feed f received) ≤ max_frame + 3)
unfolding feed buffered_bytes try_extract_frames
feed-IsDone f received =
    let start : TcpFramer = record f { buffer = f.buffer ++ received } in
    let done = extract_loop-IsDone (length start.buffer) start (omega arith) in
    (done, IsDone-bound (extract_loop (length start.buffer) start) done)

-- A complete prefix above the limit makes `feed` drop all that is buffered, the rest of the stream
-- included, and no frame is added.
pub feed_oversized :
    (f : TcpFramer) (received : List ℕ)
    → 4 ≤ length (f.buffer ++ received)
    → max_frame < frame_length (f.buffer ++ received)
    → feed f received ≡ record f { buffer = [] }
unfolding feed try_extract_frames
feed_oversized f received h l =
    oversized (length (f.buffer ++ received)) (record f { buffer = f.buffer ++ received })
      (omega arith) h l
