-- ===== src/Client/Response.antt =====
-- src/cli/cli_client.cpp: the answer that a command gets.
use net_node_gateway.Prelude.{
  is_empty, ℕ, zero, suc, ◌≤◌, ◌≡◌, ◌≢◌, refl, sym, ap, ap₂, ◌∙◌, ◌⊎◌, inl, inr, true, false, some,
  List, [], ◌∷◌, ◌++◌, append-nil, length, arith, ==_refl, if◌then◌else◌,
}
use mathlib.Core.List.{flatten}
use net_node_gateway.Framer.{TcpFramer, new_framer, encode, feed, has_frame, pop_frame}
use net_node_gateway.Framer.Stream.{IsMessage, encodings, length-encode, feed-Extracted}
use net_node_gateway.Sockets.{System, ready, all_sent}
use net_node_gateway.Client.{
  CliClient, await, on_events, taken_in, after_round, send_command, command_over,
}

List-cases :
    (xs : List (List ℕ)) → (xs ≡ []) ⊎ ((y : List ℕ) × (ys : List (List ℕ)) × (xs ≡ y ∷ ys))
List-cases [] = inl refl
List-cases (y ∷ ys) = inr (y, ys, refl)

-- What a connection does that delivers pieces: it takes every command whole, and as long as a piece
-- is left, `poll` reports it and `recv` gives it.
pub record Delivers {ℓ} {W : Type ℓ} (k : System W) (fd : ℕ) (left : W → List (List ℕ))
    : Type ℓ where
  pub takes : (bytes : List ℕ) (w : W) → (k.send_bytes fd bytes w).0 ≡ some (length bytes)
  pub reports :
      (piece : List ℕ) (pieces : List (List ℕ)) (w : W)
      → left w ≡ piece ∷ pieces
      → (w' : W) × (k.poll fd 5000 w ≡ (ready false true, w')) × (left w' ≡ piece ∷ pieces)
  pub gives :
      (piece : List ℕ) (pieces : List (List ℕ)) (w : W)
      → left w ≡ piece ∷ pieces
      → (w' : W) × (k.recv fd 4096 w ≡ (some piece, w')) × (left w' ≡ pieces)

no-frame : (f : TcpFramer) → f.ready_frames ≡ [] → has_frame f ≡ false
unfolding has_frame
no-frame f e = ap (λ (r : List (List ℕ)). if is_empty r then false else true) e

module _ {ℓ} {W : Type ℓ} {k : System W} {fd : ℕ} {left : W → List (List ℕ)}
    (d : Delivers k fd left) where
  await-takes :
      (fuel : ℕ) (framer : TcpFramer) (piece : List ℕ) (pieces : List (List ℕ)) (w : W)
      → framer.ready_frames ≡ []
      → left w ≡ piece ∷ pieces
      → (w' : W) × (left w' ≡ pieces)
        × (await k (suc fuel) fd framer w ≡ await k fuel fd (feed framer piece) w')
  unfolding await
  await-takes fuel framer piece pieces w e h =
      let (w1, reported, still) = d.reports piece pieces w h in
      let (w2, given, rest) = d.gives piece pieces w1 still in
      let go = after_round k (await k fuel fd) framer in
      (
        w2,
        rest,
        rw (no-frame framer e) (
            ap (λ r. go (on_events k fd framer r)) reported
            ∙ ap (λ r. go (taken_in k framer r)) given),
      )

  -- A framer that holds a frame ends the loop.
  await-frame :
      (fuel : ℕ) (framer : TcpFramer) (w : W) (message : List ℕ) (more : List (List ℕ))
      → framer.ready_frames ≡ message ∷ more
      → (await k fuel fd framer w).0 ≡ some message
  unfolding await has_frame pop_frame
  await-frame zero framer w message more e = rw (e, has_frame, pop_frame) refl
  await-frame (suc fuel) framer w message more e = rw (e, has_frame, pop_frame) refl

  -- The loop gives the message whose encoding the buffer and the pieces are together.
  await-encode :
      (fuel : ℕ) (framer : TcpFramer) (pieces : List (List ℕ)) (w : W) (message : List ℕ)
      → IsMessage message
      → framer.ready_frames ≡ []
      → framer.buffer ++ flatten pieces ≡ encodings (message ∷ [])
      → flatten pieces ≢ []
      → left w ≡ pieces
      → length pieces ≤ fuel
      → (await k fuel fd framer w).0 ≡ some message
  unfolding flatten
  await-encode fuel framer [] w message ok e bytes more h few = absurd (more refl)
  await-encode zero framer (piece ∷ pieces) w message ok e bytes more h few = absurd (omega arith)
  await-encode (suc fuel) framer (piece ∷ pieces) w message ok e bytes more h few =
      let (w', rest, step) = await-takes fuel framer piece pieces w e h in
      let x = feed-Extracted framer piece (flatten pieces) (message ∷ []) (ok, tt) bytes in
      ap (λ p. p.0) step ∙ elim (List-cases x.taken) [
        | inl none_yet ↦
            (let still : x.left ≡ message ∷ [] =
                sym (x.messages ∙ ap (λ (ms : List (List ℕ)). ms ++ x.left) none_yet) in
              await-encode fuel (feed framer piece) pieces w' message ok
                (x.frames ∙ ap₂ (λ (xs ys : List (List ℕ)). xs ++ ys) e none_yet)
                (x.bytes ∙ ap encodings still)
                (λ q. let gone = x.complete q in absurd (cc (sym still ∙ gone))) rest
                (omega (arith, few)))
        | inr (t, ts, some_taken) ↦
            (let same : message ∷ [] ≡ t ∷ (ts ++ x.left) =
                x.messages ∙ ap (λ (ms : List (List ℕ)). ms ++ x.left) some_taken in
              await-frame fuel (feed framer piece) w' message ts (
                x.frames
                ∙ ap₂ (λ (xs ys : List (List ℕ)). xs ++ ys) e some_taken
                ∙ ap (λ m. m ∷ ts) (sym (cc same))))
      ]

  -- A command over a connection that takes it whole and delivers the encoding of a message of at most
  -- 10 MiB, cut into pieces at any places, has that message for its answer, and the loop that waits
  -- ends, with as many rounds as there are pieces.
  pub send_command-encode :
      (fuel : ℕ) (cmd message : List ℕ) (c : CliClient) (w : W)
      → IsMessage message
      → c.sockfd ≡ some fd
      → flatten (left (k.send_bytes fd (encode cmd) w).1) ≡ encode message
      → length (left (k.send_bytes fd (encode cmd) w).1) ≤ fuel
      → (send_command k fuel c cmd w).0 ≡ some message
  unfolding send_command
  send_command-encode fuel cmd message c w ok connected bytes few =
      let w' = (k.send_bytes fd (encode cmd) w).1 in
      let whole : all_sent k (k.send_bytes fd (encode cmd) w).0 (encode cmd) ≡ true =
        ap (λ n. all_sent k n (encode cmd)) (d.takes (encode cmd) w)
        ∙ ==_refl (length (encode cmd)) in
      let answer =
        await-encode fuel new_framer (left w') w' message ok refl
          (bytes ∙ unfold encodings in sym (append-nil (encode message)))
          (λ q. absurd (omega (arith, ap length (sym bytes ∙ q), length-encode message))) refl
          few in
      ap (λ s. (command_over k fuel s cmd w).0) connected
      ∙ ap (λ b. (if b then await k fuel fd new_framer w' else (some [], w')).0) whole
      ∙ answer
