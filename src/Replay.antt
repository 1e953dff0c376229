-- ===== src/Replay.antt =====
-- src/replay/replay_engine.cpp and replay_engine.h: frames read back from a recording.
-- `std::ifstream` is modelled by what is used of it: whether it is open, whether a read has failed,
-- and the bytes not read yet. A read of n bytes takes them all, or takes what is left and fails.
pub mod Drain
mod Examples
use net_node_gateway.Prelude.{
  ℕ, zero, suc, ◌+◌, ◌-◌, ◌%◌, ◌^◌, Bool, true, false, not, ◌&&◌, ◌||◌, Option, none, some, List,
  [], ◌∷◌, length, take, drop, ltb, leb, ◌==◌, if◌then◌else◌,
}
use net_node_gateway.Prelude.Pack.{unpack_word}

pub record InStream : Type 0 where
  pub is_open : Bool
  pub good : Bool
  pub rest : List ℕ

abbrev pub read : InStream → ℕ → List ℕ × InStream
read f n =
    if f.good && leb n (length f.rest)
    then (take n f.rest, record f { rest = drop n f.rest })
    else (f.rest, record f { good = false; rest = [] })

-- A playback speed: whether the multiplier is above 0, and the division of an offset in nanoseconds
-- by it, which the source does in floating point.
pub record Speed : Type 0 where
  pub positive : Bool
  pub divide : ℕ → ℕ

pub record ReplayFrameSource : Type 0 where
  pub file : InStream
  pub speed_multiplier : Speed
  pub frames_replayed : ℕ
  pub done : Bool
  pub first_frame : Bool
  pub first_frame_ts_ns : ℕ
  pub replay_start_time : ℕ

-- `content` is what the operating system finds under the path, `none` where it cannot be opened.
unfoldable pub open_file : ReplayFrameSource → Option (List ℕ) → ReplayFrameSource × Bool
open_file s none =
    (record s { file = record s.file { is_open = false; good = false }; done = true }, false)
open_file s (some content) = (
  record s {
    file = record { is_open = true; good = true; rest = content };
    frames_replayed = 0;
    done = false;
    first_frame = true;
  },
  true,
)

unfoldable pub set_speed : ReplayFrameSource → Speed → ReplayFrameSource
set_speed s multiplier = record s { speed_multiplier = multiplier }

-- The pacing block of `receive`: the new state, and how long the thread sleeps. `now` is the
-- steady clock in nanoseconds. Durations are signed 64-bit numbers: an offset from 2 ^ 63 on is a
-- negative one, and a wait that would be negative does not sleep.
unfoldable pub pace : ReplayFrameSource → ℕ → ℕ → ReplayFrameSource × Option ℕ
pace s ts_ns now =
    if s.speed_multiplier.positive
    then (if s.first_frame
        then (
          record s { first_frame = false; first_frame_ts_ns = ts_ns; replay_start_time = now },
          none,
        )
        else (let frame_offset_ns = (ts_ns + 2 ^ 64 - s.first_frame_ts_ns) % 2 ^ 64 in
            let target_offset = s.speed_multiplier.divide frame_offset_ns % 2 ^ 64 in
            let elapsed = now - s.replay_start_time in
            (
              s,
              if ltb target_offset (2 ^ 63) && ltb elapsed target_offset
                  then some (target_offset - elapsed)
                  else none,
            )))
    else (s, none)

-- What `receive` returns: whether there is a frame, the frame, and the sleep before it.
pub record Received : Type 0 where
  pub found : Bool
  pub buf : List ℕ
  pub sleep : Option ℕ

abbrev nothing : Received
nothing = record { found = false; buf = []; sleep = none }

-- The end of `receive`, once the frame has been read.
unfoldable pub deliver : ReplayFrameSource → ℕ → List ℕ → ℕ → Received × ReplayFrameSource
unfolding pace
deliver s ts_ns buf now =
    let (s', sleep) = pace s ts_ns now in
    (
      record { found = true; buf = buf; sleep = sleep },
      record s' {
        frames_replayed = (s'.frames_replayed + 1) % 2 ^ 64;
        done = length s'.file.rest == 0;
      },
    )

abbrev stop : ReplayFrameSource → InStream → Received × ReplayFrameSource
stop s f = (nothing, record s { file = f; done = true })

unfoldable pub receive : ReplayFrameSource → ℕ → Received × ReplayFrameSource
unfolding deliver
receive s now =
    if not s.file.is_open || s.done
    then (nothing, s)
    else (let (stamp, f) = read s.file 8 in
        if not f.good
        then stop s f
        else (let (count, f') = read f 4 in
            if not f'.good
            then stop s f'
            else (let len = unpack_word count in
                if ltb 0 len
                then (let (buf, f'') = read f' len in
                    if not f''.good
                    then stop s f''
                    else deliver (record s { file = f'' }) (unpack_word stamp) buf now)
                else deliver (record s { file = f' }) (unpack_word stamp) [] now)))

unfoldable pub close : ReplayFrameSource → ReplayFrameSource
close s =
    if s.file.is_open
    then record s { file = record s.file { is_open = false }; done = true }
    else record s { done = true }
