-- ===== src/Server/Open/Starting.antt =====
-- src/control_node/control_node.cpp: what `start` and a round of `accept_loop` leave open, whichever of
-- their calls fails.
use net_node_gateway.Prelude.{
  ℕ, ◌≡◌, refl, subst, sym, ap, ◌∙◌, Bool, true, false, Option, none, some, [], ◌∷◌, ◌++◌,
  append_assoc, append-nil, ◌==◌, arith, Bool-cases, inl, inr, if◌then◌else◌,
}
use net_node_gateway.Sockets.{Events, nothing, ready, stream}
use net_node_gateway.Sockets.Held.{Opens}
use net_node_gateway.Server.{
  Listening, ControlNode, Node, Stage, not_called, give_up, begin_listening, listen_bound,
  start_socket, start, accepted, on_listen, accept_from, accept_round,
}
use net_node_gateway.Server.Open.{
  holds, Distinct, holds-append, Distinct-append, serving_fds, listed, owned, is_cleared,
  is_stopping, TracksOpen,
}
use net_node_gateway.Server.Open.Kept.{Serves, Serves-world}

-- A server that has nothing to close but a descriptor on which it does not listen yet.
record IsStarting (now : ℕ → Bool) (fd : ℕ) (node : ControlNode) : Type 0 where
  exact : (y : ℕ) → now y ≡ y == fd
  rest : serving_fds node.client_threads ++ listed node.pending ≡ []
  level : node.stage ≡ not_called
  stopped : node.running ≡ false

module _ {ℓ} {W : Type ℓ} {k : Listening W} {is_open : W → ℕ → Bool}
    (t : TracksOpen k is_open) where
  IsStarting-world :
      (fd : ℕ) (node : ControlNode) (w w' : W)
      → ((y : ℕ) → is_open w' y ≡ is_open w y)
      → IsStarting (is_open w) fd node
      → IsStarting (is_open w') fd node
  IsStarting-world fd node w w' same s = record {
    exact = λ y. same y ∙ s.exact y;
    rest = s.rest;
    level = s.level;
    stopped = s.stopped;
  }

  -- nothing is open and nobody has anything to close
  at_rest :
      (node : ControlNode) (w : W)
      → ((y : ℕ) → is_open w y ≡ false)
      → serving_fds node.client_threads ++ listed node.pending ≡ []
      → node.stage ≡ not_called
      → Serves t (record node { listen_fd = none }, w)
  at_rest node w gone rest level = record {
    covered = λ y e. absurd (cc (gone y, e));
    exact = λ c y. gone y ∙ ap (holds y) (sym rest);
    distinct = λ c. subst Distinct (sym rest) tt;
    deaf = λ c. refl;
    idle = λ c. (refl, rest, level);
  }

  give_up-Serves :
      (fd : ℕ) (node : ControlNode) (w : W)
      → IsStarting (is_open w) fd node
      → Serves t (give_up k fd (node, w)).1
  give_up-Serves fd node w s =
      at_rest node (k.system.close_fd fd w) (λ y. ground (arith, t.by_close fd w y, s.exact y))
        s.rest s.level

  begin_listening-Serves :
      (fd : ℕ) (node : ControlNode) (r : Bool × W)
      → IsStarting (is_open r.1) fd node
      → Serves t (begin_listening k fd node r).1
  begin_listening-Serves fd node (false, w) s = give_up-Serves fd node w s
  begin_listening-Serves fd node (true, w) s =
      let one : fd ∷ (serving_fds node.client_threads ++ listed node.pending) ≡ fd ∷ [] =
        ap (λ fds. fd ∷ fds) s.rest in
      let now : (y : ℕ)
          → is_open w y ≡ holds y (fd ∷ (serving_fds node.client_threads ++ listed node.pending)) =
        λ y. s.exact y ∙ ground arith ∙ ap (holds y) (sym one) in
      record {
        covered = λ y e. sym (now y) ∙ e;
        exact = λ c. now;
        distinct = λ c. subst Distinct (sym one) (refl, tt);
        deaf = λ c. absurd (cc (ap is_stopping s.level, c));
        idle = λ c. absurd cc;
      }

  listen_bound-Serves :
      (fd : ℕ) (node : ControlNode) (r : Bool × W)
      → IsStarting (is_open r.1) fd node
      → Serves t (listen_bound k fd node r).1
  listen_bound-Serves fd node (false, w) s = give_up-Serves fd node w s
  listen_bound-Serves fd node (true, w) s =
      begin_listening-Serves fd node (k.listen_on fd w)
        (IsStarting-world fd node w (k.listen_on fd w).1 (t.by_listen fd w) s)

  start_socket-Serves :
      (node : ControlNode) (w : W) (r : Option ℕ × W)
      → node.running ≡ false
      → Opens (is_open w) (is_open r.1) r.0
      → Serves t (node, w)
      → Serves t (start_socket k node r).1
  start_socket-Serves node w r stopped o s =
      let (listen, nobody, level) = s.idle stopped in
      let rest : serving_fds node.client_threads ++ listed node.pending ≡ [] =
        ap (λ l. listed l ++ (serving_fds node.client_threads ++ listed node.pending)) (sym listen)
        ∙ nobody in
      let gone : (y : ℕ) → is_open w y ≡ false =
        λ y. s.exact (ap is_cleared level) y ∙ ap (holds y) nobody in
      opened r o rest gone level
    where
      opened :
          (r : Option ℕ × W)
          → Opens (is_open w) (is_open r.1) r.0
          → serving_fds node.client_threads ++ listed node.pending ≡ []
          → ((y : ℕ) → is_open w y ≡ false)
          → node.stage ≡ not_called
          → Serves t (start_socket k node r).1
      opened (none, w') o rest gone level = at_rest node w' (λ y. o y ∙ gone y) rest level
      opened (some fd, w') (new, more) rest gone level =
          let reused = k.system.allow_reuse fd w' in
          let r = k.system.bind_to fd node.port reused in
          listen_bound-Serves fd node r (
            IsStarting-world fd node w' r.1
              (λ y. t.by_bind fd node.port reused y ∙ t.by_reuse fd w' y)
              (record {
                exact = λ y. ground (arith, more y, gone y);
                rest = rest;
                level = level;
                stopped = stopped;
              }))

  if_started : Bool → ControlNode → W → Bool × Node k
  if_started b node w =
      if b then (true, (node, w)) else start_socket k node (k.system.socket stream w)

  pub start-Serves :
      (node : ControlNode) (w : W) → Serves t (node, w) → Serves t (start k (node, w)).1
  unfolding start if_started
  start-Serves node w s = elim (Bool-cases node.running) [
    | inl e ↦ subst (λ b. Serves t (if_started b node w).1) (sym e) s
    | inr e ↦
        subst (λ b. Serves t (if_started b node w).1) (sym e)
          (start_socket-Serves node w (k.system.socket stream w) e (t.by_socket w) s)
  ]

  -- A server that listens runs and is not being stopped.
  calm :
      (node : ControlNode) (w : W) (l : ℕ)
      → node.listen_fd ≡ some l
      → Serves t (node, w)
      → (is_stopping node.stage ≡ false) × (node.running ≡ true)
  calm node w l e s = (stage, runs)
    where
      stage : is_stopping node.stage ≡ false
      stage = elim (Bool-cases (is_stopping node.stage)) [
        | inl c ↦ absurd (cc (s.deaf c, e))
        | inr c ↦ c
      ]

      runs : node.running ≡ true
      runs = elim (Bool-cases node.running) [ inl c ↦ c | inr c ↦ absurd (cc ((s.idle c).0, e)) ]

  cleared_stopping : (stage : Stage) → is_stopping stage ≡ false → is_cleared stage ≡ false
  cleared_stopping not_called e = refl
  cleared_stopping Stage.listener_closed e = refl
  cleared_stopping Stage.clients_closed e = absurd cc
  cleared_stopping Stage.joining e = absurd cc

  accepted-Serves :
      (l : ℕ) (node : ControlNode) (w : W) (r : Option ℕ × W)
      → node.listen_fd ≡ some l
      → node.pending ≡ none
      → Opens (is_open w) (is_open r.1) r.0
      → Serves t (node, w)
      → Serves t (accepted k node r)
  accepted-Serves l node w (none, w') e free o s =
      subst (λ p. Serves t (record node { pending = p }, w')) free (Serves-world t node w w' o s)
  accepted-Serves l node w (some fd, w') e free (new, more) s =
      let (level, on) = calm node w l e s in
      let c = cleared_stopping node.stage level in
      let base = listed node.listen_fd ++ serving_fds node.client_threads in
      let was : owned node ≡ base =
        ap (λ p. listed node.listen_fd ++ (serving_fds node.client_threads ++ listed p)) free
        ∙ ap (λ fds. listed node.listen_fd ++ fds) (append-nil (serving_fds node.client_threads)) in
      let is : owned (record node { pending = some fd }) ≡ base ++ fd ∷ [] =
        sym (append_assoc (listed node.listen_fd) (serving_fds node.client_threads) (fd ∷ [])) in
      let before : (y : ℕ) → is_open w y ≡ holds y base = λ y. s.exact c y ∙ ap (holds y) was in
      let now : (y : ℕ) → is_open w' y ≡ holds y (owned (record node { pending = some fd })) = λ y.
        ground (arith, more y, before y, holds-append y base (fd ∷ [])) ∙ ap (holds y) (sym is) in
      record {
        covered = λ y p. sym (now y) ∙ p;
        exact = λ q. now;
        distinct = λ q.
            subst Distinct (sym is)
              (Distinct-append fd base (subst Distinct was (s.distinct c)) (sym (before fd) ∙ new));
        deaf = s.deaf;
        idle = λ q. absurd (cc (on, q));
      }

  on_listen-Serves :
      (l : ℕ) (node : ControlNode) (r : Events × W)
      → node.listen_fd ≡ some l
      → node.pending ≡ none
      → Serves t (node, r.1)
      → Serves t (on_listen k l node r)
  on_listen-Serves l node (nothing, w) e free s = s
  on_listen-Serves l node (ready bad false, w) e free s = s
  on_listen-Serves l node (ready bad true, w) e free s =
      accepted-Serves l node w (k.accept_on l w) e free (t.by_accept l w) s

  accept_from-Serves :
      (listen : Option ℕ) (node : ControlNode) (w : W)
      → node.listen_fd ≡ listen
      → node.pending ≡ none
      → Serves t (node, w)
      → Serves t (accept_from k listen (node, w))
  accept_from-Serves none node w e free s = s
  accept_from-Serves (some l) node w e free s =
      on_listen-Serves l node (k.system.poll l 100 w) e free
        (Serves-world t node w (k.system.poll l 100 w).1 (t.by_poll l 100 w) s)

  pub accept_round-Serves :
      (node : ControlNode) (w : W)
      → node.pending ≡ none
      → Serves t (node, w)
      → Serves t (accept_round k (node, w))
  unfolding accept_round
  accept_round-Serves node w free s =
      let next = accept_from k node.listen_fd (node, w) in
      elim node.should_stop as (λ b. Serves t (if b then (node, w) else next)) [
        | true ↦ s
        | false ↦ accept_from-Serves node.listen_fd node w refl free s
      ]
