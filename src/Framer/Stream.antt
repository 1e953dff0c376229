-- ===== src/Framer/Stream.antt =====
-- src/control_node/tcp_framer.cpp: a stream of encoded messages, however it is cut into pieces.
pub mod Prefix
use net_node_gateway.Prelude.{
  ℕ, zero, suc, ◌+◌, ◌%◌, ◌^◌, ◌≤◌, ◌<◌, ◌≡◌, ◌⊎◌, inl, inr, refl, sym, ap, subst, All-append_right,
  ◌∙◌, false, List, [], ◌∷◌, ◌++◌, All, length, take, drop, ltb, arith, length-append, append_assoc,
  append-nil, ltb→lt, take-append_self, drop-append_self, Bool-cases,
}
use mathlib.Core.List.{flatten}
use net_node_gateway.Framer.{
  TcpFramer, new_framer, encode, prefix_bytes, extract_loop, feed, frame_length, max_frame,
}
unfoldable pub use net_node_gateway.Framer.Stream.Prefix.{encodings, feed_all}
pub use net_node_gateway.Framer.Stream.Prefix.{IsMessage, length-encode}
use net_node_gateway.Framer.Stream.Prefix.{
  frame_length-encode, extract_whole, extract_part, split_append, frame_length-append,
}

-- What the loop makes of a buffer `b` that is followed by `r` in a stream of messages.
pub record Extracted (ms : List (List ℕ)) (r : List ℕ) (ready : List (List ℕ)) (f : TcpFramer)
    : Type 0 where
  pub taken : List (List ℕ)
  pub left : List (List ℕ)
  pub messages : ms ≡ taken ++ left
  pub frames : f.ready_frames ≡ ready ++ taken
  pub bytes : f.buffer ++ r ≡ encodings left
  pub complete : r ≡ [] → left ≡ []

pub nothing_left : (b r : List ℕ) → b ++ r ≡ [] → b ≡ []
nothing_left [] r e = refl
nothing_left (x ∷ b) r e = cc

stays :
    (m : List ℕ) (ms : List (List ℕ)) (fuel : ℕ) (b r : List ℕ) (ready : List (List ℕ))
    → IsMessage m
    → b ++ r ≡ encodings (m ∷ ms)
    → length b < 4 + length m
    → Extracted (m ∷ ms) r ready (extract_loop fuel (record { buffer = b; ready_frames = ready }))
unfolding encodings
stays m ms fuel b r ready p e short =
    rw (extract_part fuel (record { buffer = b; ready_frames = ready }) part) (record {
      taken = [];
      left = m ∷ ms;
      messages = refl;
      frames = sym (append-nil ready);
      bytes = e;
      complete = λ q. absurd (
          omega (
            arith,
            ap length e,
            ap length q,
            length-append b r,
            length-append (encode m) (encodings ms),
            length-encode m,
          ));
    })
  where
    stated : 4 ≤ length b → frame_length b ≡ length m
    stated h =
        sym (frame_length-append b r h) ∙ ap frame_length e ∙ frame_length-encode m (encodings ms) p

    part : 4 ≤ length b → (frame_length b ≤ max_frame) × (length b < 4 + frame_length b)
    part h = omega (arith, stated h)

moves :
    (m : List ℕ) (ms : List (List ℕ)) (r : List ℕ) (ready : List (List ℕ)) (f : TcpFramer)
    → Extracted ms r (ready ++ (m ∷ [])) f
    → Extracted (m ∷ ms) r ready f
moves m ms r ready f x = record {
  taken = m ∷ x.taken;
  left = x.left;
  messages = ap (◌∷◌ m) x.messages;
  frames = x.frames ∙ append_assoc ready (m ∷ []) x.taken;
  bytes = x.bytes;
  complete = x.complete;
}

ltb-false : (a b : ℕ) → ltb a b ≡ false → b ≤ a
ltb-false a b h = ground arith

whole_or_part :
    (m : List ℕ) (ms : List (List ℕ)) (b r : List ℕ)
    → b ++ r ≡ encodings (m ∷ ms)
    → (length b < 4 + length m)
      ⊎ ((rest : List ℕ) × (b ≡ encode m ++ rest) × (rest ++ r ≡ encodings ms))
unfolding encodings
whole_or_part m ms b r e = elim (Bool-cases (ltb (length b) (4 + length m))) [
  | inl short ↦ inl (ltb→lt _ _ short)
  | inr long ↦ inr (
      split_append (encode m) (encodings ms) b r e
        (omega (arith, ltb-false (length b) (4 + length m) long, length-encode m)))
]

extract_stream :
    (ms : List (List ℕ)) (fuel : ℕ) (b r : List ℕ) (ready : List (List ℕ))
    → All IsMessage ms
    → b ++ r ≡ encodings ms
    → length b ≤ fuel
    → Extracted ms r ready (extract_loop fuel (record { buffer = b; ready_frames = ready }))
extract_stream [] fuel b r ready ok e h =
    let none_left = nothing_left b r (unfold encodings in e) in
    rw
      (extract_part fuel (record { buffer = b; ready_frames = ready })
        (λ l. absurd (omega (arith, ap length none_left))))
      (record {
        taken = [];
        left = [];
        messages = refl;
        frames = sym (append-nil ready);
        bytes = e;
        complete = λ q. refl;
      })
extract_stream (m ∷ ms) zero b r ready (p, ok) e h = stays m ms zero b r ready p e (omega arith)
extract_stream (m ∷ ms) (suc fuel) b r ready (p, ok) e h = elim (whole_or_part m ms b r e) [
  | inl short ↦ stays m ms (suc fuel) b r ready p e short
  | inr (rest, here, behind) ↦
      rw (here, extract_whole fuel m rest ready p)
        (moves m ms r ready _ (
          extract_stream ms fuel rest r (ready ++ (m ∷ [])) ok behind
            (omega (arith, ap length here, length-append (encode m) rest, length-encode m))))
]

pub feed-Extracted :
    (f : TcpFramer) (piece r : List ℕ) (ms : List (List ℕ))
    → All IsMessage ms
    → f.buffer ++ (piece ++ r) ≡ encodings ms
    → Extracted ms r f.ready_frames (feed f piece)
unfolding feed
feed-Extracted f piece r ms ok e =
    extract_stream ms (length (f.buffer ++ piece)) (f.buffer ++ piece) r f.ready_frames ok
      (append_assoc f.buffer piece r ∙ e) (omega arith)

feed_all_stream :
    (pieces : List (List ℕ)) (ms : List (List ℕ)) (f : TcpFramer)
    → All IsMessage ms
    → f.buffer ++ flatten pieces ≡ encodings ms
    → (flatten pieces ≡ [] → ms ≡ [])
    → feed_all f pieces ≡ record { buffer = []; ready_frames = f.ready_frames ++ ms }
unfolding feed_all flatten
feed_all_stream [] ms f ok e last = rw (last refl) (
    ground (
      arith,
      append-nil f.ready_frames,
      nothing_left f.buffer [] (e ∙ ap encodings (last refl) ∙ unfold encodings in refl),
    ))
feed_all_stream (piece ∷ pieces) ms f ok e last =
    let x = feed-Extracted f piece (flatten pieces) ms ok e in
    feed_all_stream pieces x.left (feed f piece)
      (All-append_right IsMessage x.taken x.left (subst (All IsMessage) x.messages ok)) x.bytes
      x.complete
    ∙ rw x.frames (
        ap (λ (r : List (List ℕ)). record { buffer = []; ready_frames = r })
          (append_assoc f.ready_frames x.taken x.left ∙ ap (◌++◌ f.ready_frames) (sym x.messages)))

pub no_message : (ms : List (List ℕ)) → encodings ms ≡ [] → ms ≡ []
unfolding encodings
no_message [] e = refl
no_message (m ∷ ms) e =
    absurd (omega (arith, ap length e, length-append (encode m) (encodings ms), length-encode m))

-- Messages of at most 10 MiB, encoded one after the other and cut into pieces at any places, come
-- out of a new framer as they went in, in their order, and nothing is left in its buffer.
pub feed_all-encodings :
    (pieces : List (List ℕ)) (ms : List (List ℕ))
    → All IsMessage ms
    → flatten pieces ≡ encodings ms
    → feed_all new_framer pieces ≡ record { buffer = []; ready_frames = ms }
feed_all-encodings pieces ms ok e =
    feed_all_stream pieces ms new_framer ok e (λ q. no_message ms (sym e ∙ q))
