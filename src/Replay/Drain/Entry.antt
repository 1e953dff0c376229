-- ===== src/Replay/Drain/Entry.antt =====
-- src/replay/replay_engine.cpp: what one call of `receive` reads from a recording.
use net_node_gateway.Prelude.{
  ℕ, zero, suc, ◌+◌, ◌%◌, ◌^◌, ◌≤◌, ◌<◌, ◌≡◌, refl, sym, ap, ◌∙◌, true, false, List, [], ◌∷◌, ◌++◌,
  length, take, drop, ◌==◌, if◌then◌else◌, arith, length-append, length-drop, append_assoc,
  take-append_self, drop-append_self,
}
use net_node_gateway.Prelude.Pack.{pack_word, unpack_word, length-pack_word, unpack_word-pack_word}
use net_node_gateway.Recorder.{entry}
use net_node_gateway.Recorder.Behaviour.{entries-length}
use net_node_gateway.Replay.{ReplayFrameSource, receive, pace}

-- The loop of the replay tool: `while (!is_done()) { if (!receive(buf)) break; … }`, with the
-- clock that each call reads. It gives the frames, and the source as the loop leaves it.
unfoldable pub drain : ℕ → (ℕ → ℕ) → ReplayFrameSource → List (List ℕ) × ReplayFrameSource
drain zero clock s = ([], s)
drain (suc fuel) clock s =
    let (r, s') = receive s (clock fuel) in
    let after = drain fuel clock s' in
    if s.done then ([], s) else if r.found then (r.buf ∷ after.0, after.1) else ([], s')

-- What the file holds, and that more may be read.
pub record Reads (s : ReplayFrameSource) (bytes : List ℕ) : Type 0 where
  pub opened : s.file.is_open ≡ true
  pub good : s.file.good ≡ true
  pub rest : s.file.rest ≡ bytes

pace-file :
    (s : ReplayFrameSource) (ts now : ℕ)
    → ((pace s ts now).0.file ≡ s.file) × ((pace s ts now).0.frames_replayed ≡ s.frames_replayed)
unfolding pace
pace-file s ts now = ground arith

abbrev pub IsRecordable : ℕ × List ℕ → Type 0
IsRecordable f = (f.0 < 2 ^ 64) × (length f.1 < 2 ^ 32)

module _ (ts : ℕ) (frame more : List ℕ) (fits : IsRecordable (ts, frame)) where
  stamp : List ℕ
  stamp = pack_word 8 ts

  count : List ℕ
  count = pack_word 4 (length frame % 2 ^ 32)

  split : entry ts frame ++ more ≡ stamp ++ (count ++ (frame ++ more))
  unfolding stamp count
  split =
      append_assoc (pack_word 8 ts ++ pack_word 4 (length frame % 2 ^ 32)) frame more
      ∙ append_assoc (pack_word 8 ts) (pack_word 4 (length frame % 2 ^ 32)) (frame ++ more)

  length-stamp : length stamp ≡ 8
  unfolding stamp
  length-stamp = length-pack_word 8 ts

  length-count : length count ≡ 4
  unfolding count
  length-count = length-pack_word 4 _

  unpack-count : unpack_word count ≡ length frame
  unfolding count
  unpack-count =
      unpack_word-pack_word 4 (length frame % 2 ^ 32) (omega arith) ∙ omega (arith, fits.1)

  pub receive-entry :
      (s : ReplayFrameSource) (now : ℕ)
      → Reads s (entry ts frame ++ more)
      → s.done ≡ false
      → let (r, s') = receive s now in
        (r.found ≡ true)
        × (r.buf ≡ frame)
        × Reads s' more
        × (s'.done ≡ (length more == 0))
        × (s'.frames_replayed ≡ (s.frames_replayed + 1) % 2 ^ 64)
  unfolding receive
  receive-entry s now h d = ground (
    arith,
    h.rest ∙ split,
    length-stamp,
    length-count,
    unpack-count,
    length-append stamp (count ++ (frame ++ more)),
    length-append count (frame ++ more),
    length-append frame more,
    take-append_self 8 stamp (count ++ (frame ++ more)) length-stamp,
    drop-append_self 8 stamp (count ++ (frame ++ more)) length-stamp,
    take-append_self 4 count (frame ++ more) length-count,
    drop-append_self 4 count (frame ++ more) length-count,
    take-append_self (length frame) frame more refl,
    drop-append_self (length frame) frame more refl,
  )

take-append_le : (n : ℕ) (xs ys : List ℕ) → n ≤ length xs → take n (xs ++ ys) ≡ take n xs
take-append_le zero xs ys h = refl
take-append_le (suc n) [] ys h = absurd (omega arith)
take-append_le (suc n) (x ∷ xs) ys h = ap (◌∷◌ x) (take-append_le n xs ys (omega arith))

drop-append_le : (n : ℕ) (xs ys : List ℕ) → n ≤ length xs → drop n (xs ++ ys) ≡ drop n xs ++ ys
drop-append_le zero xs ys h = refl
drop-append_le (suc n) [] ys h = absurd (omega arith)
drop-append_le (suc n) (x ∷ xs) ys h = drop-append_le n xs ys (omega arith)

-- The entry of a frame, broken off before the byte `x`.
abbrev pub IsCut : List ℕ → Type 0
IsCut cut =
    (ts : ℕ) × (frame : List ℕ) × (x : ℕ) × (back : List ℕ) × IsRecordable (ts, frame)
    × (entry ts frame ≡ cut ++ (x ∷ back))

cut_count :
    (ts : ℕ) (frame cut : List ℕ) (x : ℕ) (back : List ℕ)
    → IsRecordable (ts, frame)
    → entry ts frame ≡ cut ++ (x ∷ back)
    → 12 ≤ length cut
    → (unpack_word (take 4 (drop 8 cut)) ≡ length frame) × (length cut < 12 + length frame)
cut_count ts frame cut x back fits e l = (
  ap unpack_word (sym inside ∙ ap (λ (bs : List ℕ). take 4 (drop 8 bs)) (sym e) ∙ whole)
      ∙ unpack-count ts frame [] fits,
  omega (arith, sizes, length-append cut (x ∷ back), ap length e),
)
  where
    inside : take 4 (drop 8 (cut ++ (x ∷ back))) ≡ take 4 (drop 8 cut)
    inside =
        ap (take 4) (drop-append_le 8 cut (x ∷ back) (omega arith))
        ∙ take-append_le 4 (drop 8 cut) (x ∷ back) (omega (arith, length-drop 8 cut))

    pieces : entry ts frame ≡ stamp ts frame [] fits ++ (count ts frame [] fits ++ frame)
    pieces =
        unfold stamp count in
        append_assoc (pack_word 8 ts) (pack_word 4 (length frame % 2 ^ 32)) frame

    back_nil : drop 8 (entry ts frame) ≡ count ts frame [] fits ++ frame
    back_nil =
        ap (drop 8) pieces
        ∙ drop-append_self 8 (stamp ts frame [] fits) _ (length-stamp ts frame [] fits)

    whole : take 4 (drop 8 (entry ts frame)) ≡ count ts frame [] fits
    whole =
        rw (back_nil)
          (take-append_self 4 (count ts frame [] fits) frame (length-count ts frame [] fits))

    sizes : length (entry ts frame) ≡ 12 + length frame
    sizes = entries-length ts frame

pub receive_cut :
    (s : ReplayFrameSource) (now : ℕ) (cut : List ℕ)
    → IsCut cut
    → Reads s cut
    → s.done ≡ false
    → let (r, s') = receive s now in
      (r.found ≡ false) × (s'.done ≡ true) × (s'.frames_replayed ≡ s.frames_replayed)
unfolding receive
receive_cut s now cut (ts, frame, x, back, fits, e) h d = ground (
  arith,
  h.rest,
  cut_count ts frame cut x back fits e,
  length-drop 8 cut,
  length-drop 4 (drop 8 cut),
)
