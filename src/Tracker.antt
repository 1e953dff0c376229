-- ===== src/Tracker.antt =====
-- src/gateway/sequence_tracker.cpp and sequence_tracker.h: the sequence state of each source. A
-- sequence number is a native number below 2 ^ 32; sums of `uint32_t` wrap.
pub mod Step
pub mod Run
pub mod Window
mod Examples
use net_node_gateway.Prelude.{
  ℕ, ◌+◌, ◌-◌, ◌%◌, ◌^◌, Bool, true, false, ◌&&◌, ◌||◌, Option, none, some, List, [], length, ltb,
  leb, ◌==◌, if◌then◌else◌,
}
use net_node_gateway.Prelude.Map

pub data SeqResult : Type 0 where
  first ok gap reorder duplicate : SeqResult

pub record SeqEvent : Type 0 where
  pub result : SeqResult
  pub src_id : ℕ
  pub expected_seq : ℕ
  pub actual_seq : ℕ
  pub gap_size : ℕ

abbrev pub window_size : ℕ
window_size = 64

-- `std::bitset<WINDOW_SIZE>`: the bit at each index below 64.
abbrev pub Bitset : Type 0
Bitset = ℕ → Bool

unfoldable pub no_bits : Bitset
no_bits i = false

-- `<<=` moves the bit at i to i + n, and drops what passes the end.
unfoldable pub shift_left : ℕ → Bitset → Bitset
shift_left n bits i = if ltb i window_size && leb n i then bits (i - n) else false

unfoldable pub set_bit : ℕ → Bitset → Bitset
set_bit n bits i = i == n || bits i

pub record SourceState : Type 0 where
  pub next_expected : ℕ
  pub initialized : Bool
  pub seen_window : Bitset

abbrev pub fresh_source : SourceState
fresh_source = record { next_expected = 0; initialized = false; seen_window = no_bits }

abbrev pub add_u32 : ℕ → ℕ → ℕ
add_u32 a b = (a + b) % 2 ^ 32

abbrev event : SeqResult → ℕ → ℕ → ℕ → ℕ → SeqEvent
event result src_id expected_seq actual_seq gap_size = record {
  result = result;
  src_id = src_id;
  expected_seq = expected_seq;
  actual_seq = actual_seq;
  gap_size = gap_size;
}

-- The branch for `seq > s.next_expected`. `gap + 1` is a `uint32_t`, so it wraps as well.
unfoldable pub track_gap : ℕ → ℕ → SourceState → SeqEvent × SourceState
unfolding shift_left set_bit no_bits
track_gap src_id seq s =
    let gap_size = seq - s.next_expected in
    let shifted =
      if leb window_size (add_u32 gap_size 1)
      then no_bits
      else shift_left (add_u32 gap_size 1) s.seen_window in
    (
      event gap src_id (seq - gap_size) seq gap_size,
      record s { next_expected = add_u32 seq 1; seen_window = set_bit (window_size - 1) shifted },
    )

-- The branch for `seq < s.next_expected`.
unfoldable pub track_late : ℕ → ℕ → SourceState → SeqEvent × SourceState
unfolding set_bit
track_late src_id seq s =
    let age = s.next_expected - seq in
    let bit_idx = window_size - age in
    if leb age window_size
    then (if s.seen_window bit_idx then (event duplicate src_id s.next_expected seq 0, s) else (
      event reorder src_id s.next_expected seq 0,
      record s { seen_window = set_bit bit_idx s.seen_window },
    ))
    else (event reorder src_id s.next_expected seq 0, s)

-- `track` on the state of the source.
unfoldable pub track_source : ℕ → ℕ → SourceState → SeqEvent × SourceState
unfolding track_gap track_late no_bits shift_left set_bit
track_source src_id seq s =
    if s.initialized
    then (if seq == s.next_expected
        then (
          event ok src_id seq seq 0,
          record s {
            next_expected = add_u32 seq 1;
            seen_window = set_bit (window_size - 1) (shift_left 1 s.seen_window);
          },
        )
        else if ltb s.next_expected seq
        then track_gap src_id seq s
        else track_late src_id seq s)
    else (
      event first src_id 0 seq 0,
      record { next_expected = add_u32 seq 1; initialized = true; seen_window = no_bits },
    )

-- `sources_`
abbrev pub SequenceTracker : Type 0
SequenceTracker = List (ℕ × SourceState)

abbrev pub empty_tracker : SequenceTracker
empty_tracker = []

abbrev pub or_fresh : Option SourceState → SourceState
or_fresh none = fresh_source
or_fresh (some s) = s

-- `sources_[src_id]`
abbrev pub source_state : SequenceTracker → ℕ → SourceState
source_state t src_id = or_fresh (Map.find src_id t)

unfoldable pub track : SequenceTracker → ℕ → ℕ → SeqEvent × SequenceTracker
track t src_id seq =
    let (ev, s) = track_source src_id seq (source_state t src_id) in (ev, Map.insert src_id s t)

unfoldable pub reset : SequenceTracker → ℕ → SequenceTracker
reset t src_id = Map.erase src_id t

unfoldable pub reset_all : SequenceTracker → SequenceTracker
reset_all t = empty_tracker

unfoldable pub source_count : SequenceTracker → ℕ
source_count t = length t
