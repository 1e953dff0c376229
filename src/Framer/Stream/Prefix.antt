-- ===== src/Framer/Stream/Prefix.antt =====
-- src/control_node/tcp_framer.cpp: the message at the front of a buffer.
use net_node_gateway.Prelude.{
  ℕ, zero, suc, ◌+◌, ◌%◌, ◌^◌, ◌≤◌, ◌<◌, ◌≡◌, refl, ◌∙◌, List, [], ◌∷◌, ◌++◌, length, take, drop,
  arith, length-append, take-append_self, drop-append_self,
}
use net_node_gateway.Framer.{
  TcpFramer, encode, prefix_bytes, extract_loop, feed, frame_length, max_frame,
}

abbrev pub IsMessage : List ℕ → Type 0
IsMessage message = length message ≤ max_frame

unfoldable pub encodings : List (List ℕ) → List ℕ
encodings [] = []
encodings (m ∷ ms) = encode m ++ encodings ms

unfoldable pub feed_all : TcpFramer → List (List ℕ) → TcpFramer
feed_all f [] = f
feed_all f (piece ∷ pieces) = feed_all (feed f piece) pieces

frame_length-prefix :
    (n : ℕ) (rest : List ℕ) → n < 2 ^ 32 → frame_length (prefix_bytes n ++ rest) ≡ n
frame_length-prefix n rest h = omega arith

pub frame_length-encode :
    (m rest : List ℕ) → IsMessage m → frame_length (encode m ++ rest) ≡ length m
unfolding encode
frame_length-encode m rest h =
    frame_length-prefix (length m % 2 ^ 32) (m ++ rest) (omega arith) ∙ omega arith

pub length-encode : (m : List ℕ) → length (encode m) ≡ 4 + length m
unfolding encode
length-encode m = omega arith

whole_body :
    (m rest : List ℕ)
    → (take (length m) (drop 4 (encode m ++ rest)) ≡ m)
      × (drop (4 + length m) (encode m ++ rest) ≡ rest)
whole_body m rest = (
  unfold encode in take-append_self (length m) m rest refl,
  drop-append_self (4 + length m) (encode m) rest (length-encode m),
)

-- One round on a buffer that starts with a whole message.
pub extract_whole :
    (fuel : ℕ) (m rest : List ℕ) (ready : List (List ℕ))
    → IsMessage m
    → extract_loop (suc fuel) (record { buffer = encode m ++ rest; ready_frames = ready })
      ≡ extract_loop fuel (record { buffer = rest; ready_frames = ready ++ (m ∷ []) })
unfolding extract_loop
extract_whole fuel m rest ready h =
    let (body, behind) = whole_body m rest in
    ground (
      arith,
      frame_length-encode m rest h,
      length-append (encode m) rest,
      length-encode m,
      body,
      behind,
    )

-- A buffer that ends inside a message is left as it is.
pub extract_part :
    (fuel : ℕ) (f : TcpFramer)
    → (4 ≤ length f.buffer
        → (frame_length f.buffer ≤ max_frame) × (length f.buffer < 4 + frame_length f.buffer))
    → extract_loop fuel f ≡ f
unfolding extract_loop
extract_part zero f h = refl
extract_part (suc fuel) f h = ground arith

pub split_append :
    (us vs xs ys : List ℕ)
    → xs ++ ys ≡ us ++ vs
    → length us ≤ length xs
    → (zs : List ℕ) × (xs ≡ us ++ zs) × (zs ++ ys ≡ vs)
split_append [] vs xs ys e h = (xs, refl, e)
split_append (u ∷ us) vs [] ys e h = absurd (omega arith)
split_append (u ∷ us) vs (x ∷ xs) ys e h =
    let (zs, p, q) = split_append us vs xs ys (ground arith) (omega arith) in (zs, ground arith, q)

pub frame_length-append : (b r : List ℕ) → 4 ≤ length b → frame_length (b ++ r) ≡ frame_length b
frame_length-append (b0 ∷ b1 ∷ b2 ∷ b3 ∷ b) r h = refl
frame_length-append (b0 ∷ b1 ∷ b2 ∷ []) r h = absurd (omega arith)
frame_length-append (b0 ∷ b1 ∷ []) r h = absurd (omega arith)
frame_length-append (b0 ∷ []) r h = absurd (omega arith)
frame_length-append [] r h = absurd (omega arith)
