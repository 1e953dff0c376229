-- ===== src/Tracker/Window.antt =====
-- src/gateway/sequence_tracker.cpp: what the sliding window remembers, and what it does not.
use net_node_gateway.Prelude.{
  ℕ, zero, suc, ◌+◌, ◌-◌, ◌^◌, ◌≤◌, ◌<◌, ◌≡◌, refl, true, false, arith, ◌==◌, ltb, ◌&&◌,
  if◌then◌else◌,
}
use net_node_gateway.Tracker.{ok, gap, reorder, duplicate, SourceState, track_source, fresh_source}

-- A frame that was in order or behind a gap, sent a second time at once, is reported as a
-- duplicate, and the state stays as it was.
pub track_source_twice :
    (src_id seq : ℕ) (s : SourceState)
    → s.initialized ≡ true
    → seq + 1 < 2 ^ 32
    → s.next_expected ≤ seq
    → let s' = (track_source src_id seq s).1 in
      ((track_source src_id seq s').0.result ≡ duplicate) × ((track_source src_id seq s').1 ≡ s')
unfolding track_source
track_source_twice src_id seq s i h l = ground arith

-- After `count` further frames in order behind the first frame `start`.
unfoldable pub in_order_stream : ℕ → ℕ → ℕ → SourceState
unfolding track_source
in_order_stream src_id start zero = (track_source src_id start fresh_source).1
in_order_stream src_id start (suc count) =
    (track_source src_id (start + suc count) (in_order_stream src_id start count)).1

record InOrder (start count : ℕ) (s : SourceState) : Type 0 where
  known : s.initialized ≡ true
  next : s.next_expected ≡ start + count + 1
  newest : 0 < count → s.seen_window 63 ≡ true
  nothing_else : (i : ℕ) → i < 63 → s.seen_window i ≡ false
  none_at_first : count ≡ 0 → s.seen_window 63 ≡ false

stream_step :
    (src_id start count : ℕ)
    → InOrder start
        (suc count)
        (track_source src_id (start + suc count) (in_order_stream src_id start count)).1
    → InOrder start (suc count) (in_order_stream src_id start (suc count))
unfolding in_order_stream
stream_step src_id start count o = o

first-InOrder :
    (src_id start : ℕ)
    → start + 1 < 2 ^ 32
    → InOrder start 0 (track_source src_id start fresh_source).1
unfolding track_source
first-InOrder src_id start h = record {
  known = refl;
  next = ground arith;
  newest = λ l. absurd (omega arith);
  nothing_else = λ i l. refl;
  none_at_first = λ e. refl;
}

next-InOrder :
    (src_id start count : ℕ) (s : SourceState)
    → start + suc count + 1 < 2 ^ 32
    → InOrder start count s
    → InOrder start (suc count) (track_source src_id (start + suc count) s).1
unfolding track_source
next-InOrder src_id start count s h o = record {
  known = ground (arith, o.known, o.next);
  next = ground (arith, o.known, o.next);
  newest = λ l. ground (arith, o.known, o.next);
  nothing_else = λ i l. ground (arith, o.known, o.next, o.nothing_else (i - 1));
  none_at_first = λ e. absurd (omega arith);
}

in_order_stream-InOrder :
    (src_id start count : ℕ)
    → start + count + 1 < 2 ^ 32
    → InOrder start count (in_order_stream src_id start count)
in_order_stream-InOrder src_id start zero h =
    unfold in_order_stream in first-InOrder src_id start (omega arith)
in_order_stream-InOrder src_id start (suc count) h = stream_step src_id start count (
    next-InOrder src_id start count (in_order_stream src_id start count) h
      (in_order_stream-InOrder src_id start count (omega arith)))

repeat_result :
    (src_id start count back : ℕ) (s : SourceState)
    → InOrder start count s
    → back ≤ count
    → (track_source src_id (start + (count - back)) s).0.result
      ≡ (if back == 0 && ltb 0 count then duplicate else reorder)
unfolding track_source
repeat_result src_id start count back s o l =
    ground (arith, o.known, o.next, o.newest, o.none_at_first, o.nothing_else (63 - back))

-- In a stream with no loss, behind its first frame and `count` more, a frame that arrives a second
-- time is reported as a duplicate only if it is the newest one and not the first. Every other
-- repetition, of the first frame too, is reported as a reorder.
pub repeat_in_order_stream :
    (src_id start count back : ℕ)
    → start + count + 1 < 2 ^ 32
    → back ≤ count
    → (track_source src_id (start + (count - back)) (in_order_stream src_id start count)).0.result
      ≡ (if back == 0 && ltb 0 count then duplicate else reorder)
repeat_in_order_stream src_id start count back h l =
    repeat_result src_id start count back (in_order_stream src_id start count)
      (in_order_stream-InOrder src_id start count h) l

-- The number 2 ^ 32 - 1 in order is accepted and the next number expected wraps to 0; the same
-- frame once more is then reported as a gap of 2 ^ 32 - 1 frames.
pub repeat_at_wrap :
    (src_id : ℕ) (s : SourceState)
    → s.initialized ≡ true
    → s.next_expected ≡ 2 ^ 32 - 1
    → let (ev, s') = track_source src_id (2 ^ 32 - 1) s in
      let again = (track_source src_id (2 ^ 32 - 1) s').0 in
      (ev.result ≡ ok)
      × (s'.next_expected ≡ 0)
      × (again.result ≡ gap)
      × (again.gap_size ≡ 2 ^ 32 - 1)
unfolding track_source
repeat_at_wrap src_id s i e = ground arith
