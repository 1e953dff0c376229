-- ===== src/Client/Exchange.antt =====
-- src/cli/cli_client.cpp and src/control_node/control_node.cpp: a client and the thread that serves it,
-- over one connection.
use net_node_gateway.Prelude.{
  ℕ, zero, suc, ◌≤◌, ◌≡◌, refl, sym, ap, ◌∙◌, Bool, true, false, Option, none, some, List, [], ◌∷◌,
  ◌++◌, append-nil, length, if◌then◌else◌, ==_refl,
}
use mathlib.Core.List.{flatten}
use net_node_gateway.Stats.{StatsManager}
use net_node_gateway.Framer.{TcpFramer, new_framer, encode, has_frame, pop_frame}
use net_node_gateway.Framer.Stream.{IsMessage, encodings}
use net_node_gateway.Commands.{CommandHandler, handle}
use net_node_gateway.Sockets.{System, Events, nothing, ready, all_sent}
use net_node_gateway.Session.{Link, Session, Input, client_loop}
use net_node_gateway.Session.Answers.{
  bytes_of, StaysOpen, answered, respond_all, client_loop-requests,
}
use net_node_gateway.Client.{
  CliClient, Round, gives_up, again, fed, await, on_events, taken_in, after_round, send_command,
  command_over,
}
use net_node_gateway.Client.Response.{Delivers, send_command-encode}

-- The server's end: what it sends is kept, and the statistics are `stats` meanwhile.
abbrev pub outbox : StatsManager → Link (List ℕ)
outbox stats = record { send = λ bytes sent. (true, sent ++ bytes); stats_now = λ sent. stats }

-- What a connection does that joins a client to the session that serves it: the bytes that the client
-- sends reach the session in some pieces, with idle rounds between, and what the session sends back
-- is what is left to be received. Waiting and receiving change nothing at the server.
pub record Joins {ℓ} {W : Type ℓ} (k : System W) (fd : ℕ) (stats : StatsManager)
    (left : W → List (List ℕ)) (served : W → Session (List ℕ)) : Type ℓ where
  pub delivers : Delivers k fd left
  pub carries :
      (bytes : List ℕ) (w : W)
      → let w' = (k.send_bytes fd bytes w).1 in
        (inputs : List Input) × (bytes_of inputs ≡ bytes)
        × StaysOpen inputs
        × (served w' ≡ client_loop (outbox stats) (record (served w) { world = [] }) inputs)
        × (flatten (left w') ≡ (served w').world)
  pub by_poll : (timeout : ℕ) (w : W) → served (k.poll fd timeout w).1 ≡ served w
  pub by_recv : (size : ℕ) (w : W) → served (k.recv fd size w).1 ≡ served w

module _ {ℓ} {W : Type ℓ} {k : System W} {fd : ℕ} {stats : StatsManager} {left : W → List (List ℕ)}
    {served : W → Session (List ℕ)} (j : Joins k fd stats left served) where
  served-taken_in :
      (framer : TcpFramer) (r : Option (List ℕ) × W) → served (taken_in k framer r).1 ≡ served r.1
  served-taken_in framer (none, w) = refl
  served-taken_in framer (some bytes, w) = refl

  served-on_events :
      (framer : TcpFramer) (e : Events × W) → served (on_events k fd framer e).1 ≡ served e.1
  served-on_events framer (nothing, w) = refl
  served-on_events framer (ready true input, w) = refl
  served-on_events framer (ready false false, w) = refl
  served-on_events framer (ready false true, w) =
      served-taken_in framer (k.recv fd 4096 w) ∙ j.by_recv 4096 w

  served-after_round :
      (go : TcpFramer → W → Option (List ℕ) × W) (framer : TcpFramer) (r : Round × W)
      → ((f : TcpFramer) (w : W) → served (go f w).1 ≡ served w)
      → served (after_round k go framer r).1 ≡ served r.1
  served-after_round go framer (gives_up, w) h = refl
  served-after_round go framer (again, w) h = h framer w
  served-after_round go framer (fed framer', w) h = h framer' w

  served-if :
      (b : Bool) (x y : Option (List ℕ) × W) (w : W)
      → served x.1 ≡ served w
      → served y.1 ≡ served w
      → served (if b then x else y).1 ≡ served w
  served-if true x y w p q = p
  served-if false x y w p q = q

  served-await :
      (fuel : ℕ) (framer : TcpFramer) (w : W) → served (await k fuel fd framer w).1 ≡ served w
  unfolding await
  served-await zero framer w =
      let found : Option (List ℕ) × W = (some (pop_frame framer).0, w) in
      let waits : Option (List ℕ) × W = (none, w) in
      served-if (has_frame framer) found waits w refl refl
  served-await (suc fuel) framer w =
      let ih = served-await fuel in
      let found : Option (List ℕ) × W = (some (pop_frame framer).0, w) in
      let next =
        after_round k (await k fuel fd) framer (on_events k fd framer (k.poll fd 5000 w)) in
      served-if (has_frame framer) found next w refl (
        served-after_round (await k fuel fd) framer (on_events k fd framer (k.poll fd 5000 w)) ih
        ∙ served-on_events framer (k.poll fd 5000 w)
        ∙ j.by_poll 5000 w)

  -- What has become of the server when a command has reached it.
  served-send_bytes :
      (cmd : List ℕ) (h : CommandHandler) (sent : List ℕ) (w : W)
      → IsMessage cmd
      → served w ≡ answered (outbox stats) (h, sent) new_framer
      → let (response, h') = handle stats h cmd in
        served (k.send_bytes fd (encode cmd) w).1
        ≡ answered (outbox stats) (h', encode response) new_framer
  unfolding respond_all encodings
  served-send_bytes cmd h sent w ok e =
      let (inputs, whole, stays, runs, back) = j.carries (encode cmd) w in
      runs
      ∙ ap (λ s. client_loop (outbox stats) (record s { world = [] }) inputs) e
      ∙ client_loop-requests (outbox stats) (λ bytes w. refl) inputs (cmd ∷ []) h [] (ok, tt)
          (whole ∙ sym (append-nil (encode cmd))) stays

  -- A command to a server that waits for one, over a connection that joins them: its answer is the
  -- response of the handler, whatever pieces both ways are cut into, and the server waits again with the
  -- handler that the command leaves, if the command and the response have at most 10 MiB and the
  -- client waits for as many rounds as there are pieces.
  pub send_command-handle :
      (fuel : ℕ) (cmd sent : List ℕ) (c : CliClient) (h : CommandHandler) (w : W)
      → IsMessage cmd
      → IsMessage (handle stats h cmd).0
      → c.sockfd ≡ some fd
      → served w ≡ answered (outbox stats) (h, sent) new_framer
      → length (left (k.send_bytes fd (encode cmd) w).1) ≤ fuel
      → let (answer, w') = send_command k fuel c cmd w in
        let (response, h') = handle stats h cmd in
        (answer ≡ some response)
        × (served w' ≡ answered (outbox stats) (h', encode response) new_framer)
  unfolding send_command
  send_command-handle fuel cmd sent c h w ok fits connected waits few =
      let w1 = (k.send_bytes fd (encode cmd) w).1 in
      let reached = served-send_bytes cmd h sent w ok waits in
      let back = (j.carries (encode cmd) w).4 in
      let whole : all_sent k (k.send_bytes fd (encode cmd) w).0 (encode cmd) ≡ true =
        ap (λ n. all_sent k n (encode cmd)) (j.delivers.takes (encode cmd) w)
        ∙ ==_refl (length (encode cmd)) in
      (
        send_command-encode j.delivers fuel cmd (handle stats h cmd).0 c w fits connected
            (back ∙ ap (λ (s : Session (List ℕ)). s.world) reached) few,
        ap (λ s. served (command_over k fuel s cmd w).1) connected
            ∙ ap (λ b. served (if b then await k fuel fd new_framer w1 else (some [], w1)).1) whole
            ∙ served-await fuel new_framer w1
            ∙ reached,
      )
