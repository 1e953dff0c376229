-- ===== src/Session/Answers.antt =====
-- src/control_node/control_node.cpp: every request gets its response, in order.
use net_node_gateway.Prelude.{
  ℕ, ◌≡◌, refl, sym, ap, subst, ◌∙◌, true, List, [], ◌∷◌, ◌++◌, All, All-append_right, length,
}
use net_node_gateway.Framer.{TcpFramer, encode, feed, has_frame, pop_frame, new_framer}
use net_node_gateway.Framer.Stream.{IsMessage, encodings, feed-Extracted, no_message, nothing_left}
use net_node_gateway.Commands.{CommandHandler, handle}
use net_node_gateway.Session.{
  Link, Session, Input, received, timeout, hang_up, answer, answer_loop, serve, client_loop,
}

-- the bytes that the inputs bring
abbrev pub bytes_of : List Input → List ℕ
bytes_of [] = []
bytes_of (received bytes ∷ inputs) = bytes ++ bytes_of inputs
bytes_of (_ ∷ inputs) = bytes_of inputs

abbrev pub StaysOpen : List Input → Type 0
StaysOpen [] = Unit
StaysOpen (hang_up ∷ inputs) = ⊥
StaysOpen (_ ∷ inputs) = StaysOpen inputs

module _ {ℓ} {W : Type ℓ} (k : Link W) where
  abbrev pub AlwaysSends : Type ℓ
  AlwaysSends = (bytes : List ℕ) (w : W) → (k.send bytes w).0 ≡ true

  -- The specification: the requests handled one after the other, each response encoded and sent.
  unfoldable pub respond_all : CommandHandler × W → List (List ℕ) → CommandHandler × W
  respond_all (h, w) [] = (h, w)
  respond_all (h, w) (request ∷ requests) =
      let (response, h') = handle (k.stats_now w) h request in
      respond_all (h', (k.send (encode response) w).1) requests

  abbrev pub answered : CommandHandler × W → TcpFramer → Session W
  answered (h, w) framer = record { framer = framer; handler = h; world = w }

  answer_loop-all :
      (always : AlwaysSends) (requests : List (List ℕ)) (buffer : List ℕ) (h : CommandHandler)
      (w : W)
      → answer_loop k (length requests) (record {
        framer = record { buffer = buffer; ready_frames = requests };
        handler = h;
        world = w;
      })
        ≡ answered (respond_all (h, w) requests) (record { buffer = buffer; ready_frames = [] })
  unfolding answer_loop answer respond_all has_frame pop_frame
  answer_loop-all always [] buffer h w = refl
  answer_loop-all always (request ∷ requests) buffer h w =
      let done = handle (k.stats_now w) h request in
      simp (always (encode done.0) w)
        (answer_loop-all always requests buffer done.1 (k.send (encode done.0) w).1)

  respond_all-append :
      (xs ys : List (List ℕ)) (h : CommandHandler) (w : W)
      → respond_all (h, w) (xs ++ ys) ≡ respond_all (respond_all (h, w) xs) ys
  unfolding respond_all
  respond_all-append [] ys h w = refl
  respond_all-append (x ∷ xs) ys h w = respond_all-append xs ys _ _

  serve-all :
      (always : AlwaysSends) (f : TcpFramer) (bytes : List ℕ) (h : CommandHandler) (w : W)
      → serve k (answered (h, w) f) bytes
        ≡ answered
            (respond_all (h, w) (feed f bytes).ready_frames)
            (record { buffer = (feed f bytes).buffer; ready_frames = [] })
  unfolding serve
  serve-all always f bytes h w =
      answer_loop-all always (feed f bytes).ready_frames (feed f bytes).buffer h w

  client_loop-stream :
      (always : AlwaysSends) (inputs : List Input) (requests : List (List ℕ)) (buffer : List ℕ)
      (h : CommandHandler) (w : W)
      → All IsMessage requests
      → buffer ++ bytes_of inputs ≡ encodings requests
      → (bytes_of inputs ≡ [] → requests ≡ [])
      → StaysOpen inputs
      → client_loop k (answered (h, w) (record { buffer = buffer; ready_frames = [] })) inputs
        ≡ answered (respond_all (h, w) requests) new_framer
  unfolding client_loop respond_all
  client_loop-stream always [] requests buffer h w ok e last stays =
      let empty =
        nothing_left buffer [] (e ∙ ap encodings (last refl) ∙ unfold encodings in refl) in
      ap (λ b. answered (h, w) (record { buffer = b; ready_frames = [] })) empty
      ∙ ap (λ rs. answered (respond_all (h, w) rs) new_framer) (sym (last refl))
  client_loop-stream always (timeout ∷ inputs) requests buffer h w ok e last stays =
      client_loop-stream always inputs requests buffer h w ok e last stays
  client_loop-stream always (hang_up ∷ inputs) requests buffer h w ok e last stays = elim stays [ ]
  client_loop-stream always (received bytes ∷ inputs) requests buffer h w ok e last stays =
      let f : TcpFramer = record { buffer = buffer; ready_frames = [] } in
      let x = feed-Extracted f bytes (bytes_of inputs) requests ok e in
      let (h', w') = respond_all (h, w) x.taken in
      ap (λ s. client_loop k s inputs)
        (serve-all always f bytes h w
          ∙ ap
              (λ rs.
                answered (respond_all (h, w) rs)
                  (record { buffer = (feed f bytes).buffer; ready_frames = [] }))
              x.frames)
      ∙ client_loop-stream always inputs x.left (feed f bytes).buffer h' w'
          (All-append_right IsMessage x.taken x.left (subst (All IsMessage) x.messages ok)) x.bytes
          x.complete stays
      ∙ ap (λ hw. answered hw new_framer) (sym (respond_all-append x.taken x.left h w))
      ∙ ap (λ rs. answered (respond_all (h, w) rs) new_framer) (sym x.messages)

  -- A client sends requests of at most 10 MiB, encoded one after the other. However the connection
  -- cuts them into pieces, and with any idle rounds between, each request is handled once and in order
  -- and its encoded response is sent, provided that every `send` succeeds and the connection does not
  -- fail; the framer is left empty.
  pub client_loop-requests :
      (always : AlwaysSends) (inputs : List Input) (requests : List (List ℕ)) (h : CommandHandler)
      (w : W)
      → All IsMessage requests
      → bytes_of inputs ≡ encodings requests
      → StaysOpen inputs
      → client_loop k (answered (h, w) new_framer) inputs
        ≡ answered (respond_all (h, w) requests) new_framer
  client_loop-requests always inputs requests h w ok e stays =
      client_loop-stream always inputs requests [] h w ok e (λ q. no_message requests (sym e ∙ q))
        stays
