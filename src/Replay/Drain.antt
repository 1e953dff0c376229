-- ===== src/Replay/Drain.antt =====
-- src/replay/replay_engine.cpp: the frames that a recording gives back.
pub mod Entry
use net_node_gateway.Prelude.{
  ℕ, zero, suc, ◌+◌, ◌%◌, ◌^◌, ◌≤◌, ◌<◌, ◌≡◌, ◌≢◌, refl, sym, ap, ap₂, ◌∙◌, true, false, some, List,
  [], ◌∷◌, ◌++◌, map, length, take, drop, ◌==◌, if◌then◌else◌, arith, length-append, length-drop,
  append_assoc, take-append_self, drop-append_self, All, Bool-cases, inl, inr,
}
use net_node_gateway.Prelude.Pack.{pack_word, unpack_word, length-pack_word, unpack_word-pack_word}
use net_node_gateway.Recorder.{entry}
use net_node_gateway.Recorder.Behaviour.{entries, entries-length}
use net_node_gateway.Replay.{ReplayFrameSource, receive, open_file, pace}
unfoldable pub use net_node_gateway.Replay.Drain.Entry.{drain}
pub use net_node_gateway.Replay.Drain.Entry.{IsRecordable, IsCut}
use net_node_gateway.Replay.Drain.Entry.{Reads, receive_cut, receive-entry}

module _ (fuel : ℕ) (clock : ℕ → ℕ) (s : ReplayFrameSource) where
  drain-frame :
      s.done ≡ false
      → (receive s (clock fuel)).0.found ≡ true
      → drain (suc fuel) clock s ≡ (
        (receive s (clock fuel)).0.buf ∷ (drain fuel clock (receive s (clock fuel)).1).0,
        (drain fuel clock (receive s (clock fuel)).1).1,
      )
  unfolding drain
  drain-frame d f = simp (d, f)

  drain-stop :
      s.done ≡ false
      → (receive s (clock fuel)).0.found ≡ false
      → drain (suc fuel) clock s ≡ ([], (receive s (clock fuel)).1)
  unfolding drain
  drain-stop d f = simp (d, f)

  drain-done : s.done ≡ true → drain (suc fuel) clock s ≡ ([], s)
  unfolding drain
  drain-done d = simp d

-- What draining leaves of a source that holds the entries of `fs` and a broken entry behind them.
abbrev Drained : List (ℕ × List ℕ) → ReplayFrameSource → List (List ℕ) × ReplayFrameSource → Type 0
Drained fs s r =
    (r.0 ≡ map (λ f. f.1) fs)
    × (r.1.done ≡ true)
    × (r.1.frames_replayed % 2 ^ 64 ≡ (s.frames_replayed + length fs) % 2 ^ 64)

nil_of_length : (xs : List ℕ) → (length xs == 0) ≡ true → xs ≡ []
nil_of_length [] e = refl
nil_of_length (x ∷ xs) e = ground arith

regroup :
    (ts : ℕ) (frame : List ℕ) (fs : List (ℕ × List ℕ)) (cut : List ℕ)
    → entries ((ts, frame) ∷ fs) ++ cut ≡ entry ts frame ++ (entries fs ++ cut)
unfolding entries
regroup ts frame fs cut = append_assoc (entry ts frame) (entries fs) cut

not_empty :
    (ts : ℕ) (frame : List ℕ) (fs : List (ℕ × List ℕ)) (cut : List ℕ)
    → entries ((ts, frame) ∷ fs) ++ cut ≢ []
not_empty ts frame fs cut e = omega (
  arith,
  ap length (sym (regroup ts frame fs cut) ∙ e),
  length-append (entry ts frame) (entries fs ++ cut),
  entries-length ts frame,
)

drain-entries :
    (fs : List (ℕ × List ℕ)) (cut : List ℕ) (clock : ℕ → ℕ) (s : ReplayFrameSource)
    → All IsRecordable fs
    → IsCut cut
    → Reads s (entries fs ++ cut)
    → (s.done ≡ true → entries fs ++ cut ≡ [])
    → Drained fs s (drain (suc (length fs)) clock s)
drain-entries [] cut clock s ok c h d = elim (Bool-cases s.done) [
  | inl e ↦ rw (drain-done 0 clock s e) (refl, e, omega arith)
  | inr e ↦
      let stop = receive_cut s (clock 0) cut c (unfold entries in h) e in
      rw (drain-stop 0 clock s e stop.0) (refl, stop.1, omega (arith, stop.2))
]
drain-entries ((ts, frame) ∷ fs) cut clock s (p, ok) c h d = elim (Bool-cases s.done) [
  | inl e ↦ absurd (not_empty ts frame fs cut (d e))
  | inr e ↦
      let now = clock (suc (length fs)) in
      let one =
        receive-entry ts frame (entries fs ++ cut) p s now
          (record { opened = h.opened; good = h.good; rest = h.rest ∙ regroup ts frame fs cut })
          e in
      let rest =
        drain-entries fs cut clock (receive s now).1 ok c one.2
          (λ q. nil_of_length _ (sym one.3 ∙ q)) in
      rw (drain-frame (suc (length fs)) clock s e one.0)
        (ap₂ ◌∷◌ one.1 rest.0, rest.1, omega (arith, rest.2, one.4))
]

-- What was recorded is replayed: a file that holds the entries of frames, with 64-bit timestamps
-- and 32-bit lengths, gives exactly these frames in their order, at any speed, then says that it is
-- done, and has counted them. So it is too if the file is broken off inside one more entry.
pub drain-open_file :
    (fs : List (ℕ × List ℕ)) (cut : List ℕ) (clock : ℕ → ℕ) (s : ReplayFrameSource)
    → All IsRecordable fs
    → IsCut cut
    → let (frames, s') = drain (suc (length fs)) clock (open_file s (some (entries fs ++ cut))).0 in
      (frames ≡ map (λ f. f.1) fs)
      × (s'.done ≡ true)
      × (s'.frames_replayed % 2 ^ 64 ≡ length fs % 2 ^ 64)
unfolding open_file
drain-open_file fs cut clock s ok c =
    let done =
      drain-entries fs cut clock (open_file s (some (entries fs ++ cut))).0 ok c
        (record { opened = refl; good = refl; rest = refl }) (λ e. cc) in
    (done.0, done.1, omega (arith, done.2))
