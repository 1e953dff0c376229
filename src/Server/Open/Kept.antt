-- ===== src/Server/Open/Kept.antt =====
-- src/control_node/control_node.cpp: what each step of a server does to the descriptors that are open.
use net_node_gateway.Prelude.{
  ℕ, ◌≡◌, refl, sym, ap, subst, ◌∙◌, Bool, true, false, not, ◌&&◌, Option, none, some, List, [],
  ◌∷◌, ◌++◌, append_assoc, append-nil, ==_refl, ◌==◌, arith,
}
use net_node_gateway.Server.{
  Listening, ControlNode, Node, ClientThread, serving, closed, ended, not_called, listener_closed,
  clients_closed, joining, add_client, close_client, forget_client, close_listener, close_clients,
  begin_stop, clear_clients, begin_joining, finish_stop,
}
use net_node_gateway.Server.Open.{
  is_stopping, holds, Distinct, holds-append, holds-middle, Distinct-middle, serving_fds,
  serving_fds-append, listed, owned, is_cleared, TracksOpen, IsServing,
}

-- What is left of the descriptors to close when a thread closes its own.
owned-middle :
    (node : ControlNode) (before after : List ClientThread) (fd : ℕ)
    → node.client_threads ≡ before ++ record { fd = fd; phase = serving } ∷ after
    → (xs : List ℕ) × (ys : List ℕ) × (owned node ≡ xs ++ fd ∷ ys)
      × (owned
            (record node { client_threads = before ++ record { fd = fd; phase = closed } ∷ after })
          ≡ xs ++ ys)
owned-middle node before after fd e =
    let l = listed node.listen_fd in
    let p = listed node.pending in
    let a = serving_fds before in
    let b = serving_fds after in
    (
      l ++ a,
      b ++ p,
      ap (λ ts. l ++ (serving_fds ts ++ p)) e
          ∙ ap (λ fds. l ++ (fds ++ p))
              (serving_fds-append before (record { fd = fd; phase = serving } ∷ after))
          ∙ ap (λ fds. l ++ fds) (append_assoc a (fd ∷ b) p)
          ∙ sym (append_assoc l a (fd ∷ (b ++ p))),
      ap (λ fds. l ++ (fds ++ p))
            (serving_fds-append before (record { fd = fd; phase = closed } ∷ after))
          ∙ ap (λ fds. l ++ fds) (append_assoc a b p)
          ∙ sym (append_assoc l a (b ++ p)),
    )

module _ {ℓ} {W : Type ℓ} {k : Listening W} {is_open : W → ℕ → Bool}
    (t : TracksOpen k is_open) where
  abbrev pub Serves : Node k → Type 0
  Serves n = IsServing (is_open n.1) n.0

  -- Another node with the same descriptors to close and another world with the same ones open.
  moved :
      (node node' : ControlNode) (w w' : W)
      → owned node' ≡ owned node
      → is_cleared node'.stage ≡ is_cleared node.stage
      → ((y : ℕ) → is_open w' y ≡ is_open w y)
      → (is_stopping node'.stage ≡ true → node'.listen_fd ≡ none)
      → (node'.running ≡ false
          → (node'.listen_fd ≡ none) × (owned node ≡ []) × (node'.stage ≡ not_called))
      → Serves (node, w)
      → Serves (node', w')
  moved node node' w w' same stage opened deaf idle s = record {
    covered = λ y e. ap (holds y) same ∙ s.covered y (sym (opened y) ∙ e);
    exact = λ e y. opened y ∙ s.exact (sym stage ∙ e) y ∙ ap (holds y) (sym same);
    distinct = λ e. subst Distinct (sym same) (s.distinct (sym stage ∙ e));
    deaf = deaf;
    idle = λ e. let (listen, nobody, level) = idle e in (listen, same ∙ nobody, level);
  }

  pub Serves-world :
      (node : ControlNode) (w w' : W)
      → ((y : ℕ) → is_open w' y ≡ is_open w y)
      → Serves (node, w)
      → Serves (node, w')
  Serves-world node w w' opened s = moved node node w w' refl refl opened s.deaf s.idle s

  not-nil : (xs ys : List ℕ) (fd : ℕ) → xs ++ fd ∷ ys ≡ [] → ⊥
  not-nil xs ys fd e = ground (arith, holds-append fd xs (fd ∷ ys), ap (holds fd) e, ==_refl fd)

  pub close_client-Serves :
      (before after : List ClientThread) (fd : ℕ) (node : ControlNode) (w : W)
      → node.client_threads ≡ before ++ record { fd = fd; phase = serving } ∷ after
      → Serves (node, w)
      → Serves (close_client k before fd after (node, w))
  unfolding close_client
  close_client-Serves before after fd node w e s =
      let (xs, ys, was, is) = owned-middle node before after fd e in
      record {
        covered = λ y o.
            ap (holds y) is
            ∙ ground (
              arith,
              t.by_close fd w y,
              o,
              λ (p : is_open w y ≡ true). sym (ap (holds y) was) ∙ s.covered y p,
              holds-append y xs (fd ∷ ys),
              holds-append y xs ys,
            );
        exact = λ c y.
            t.by_close fd w y
            ∙ ap (λ b. not (y == fd) && b) (s.exact c y ∙ ap (holds y) was)
            ∙ sym (holds-middle fd y xs ys (subst Distinct was (s.distinct c)))
            ∙ ap (holds y) (sym is);
        distinct = λ c.
            subst Distinct (sym is) (Distinct-middle fd xs ys (subst Distinct was (s.distinct c)));
        deaf = s.deaf;
        idle = λ c. absurd (not-nil xs ys fd (sym was ∙ (s.idle c).1));
      }

  pub forget_client-Serves :
      (before after : List ClientThread) (fd : ℕ) (node : ControlNode) (w : W)
      → node.client_threads ≡ before ++ record { fd = fd; phase = closed } ∷ after
      → Serves (node, w)
      → Serves (forget_client k before fd after (node, w))
  unfolding forget_client
  forget_client-Serves before after fd node w e s =
      let of = λ (ts : List ClientThread).
        listed node.listen_fd ++ (serving_fds ts ++ listed node.pending) in
      let over = λ (fds : List ℕ). listed node.listen_fd ++ (fds ++ listed node.pending) in
      let same =
        ap over (serving_fds-append before (record { fd = fd; phase = ended } ∷ after))
        ∙ sym (ap over (serving_fds-append before (record { fd = fd; phase = closed } ∷ after)))
        ∙ sym (ap of e) in
      moved node (forget_client k before fd after (node, w)).0 w w same refl (λ y. refl) s.deaf
        s.idle s

  pub add_client-Serves :
      (fd : ℕ) (node : ControlNode) (w : W)
      → node.pending ≡ some fd
      → Serves (node, w)
      → Serves (add_client k fd (node, w))
  unfolding add_client
  add_client-Serves fd node w e s =
      let l = listed node.listen_fd in
      let a = serving_fds node.client_threads in
      let new : List ClientThread = record { fd = fd; phase = serving } ∷ [] in
      let same =
        ap (λ fds. l ++ fds)
          (append-nil (serving_fds (node.client_threads ++ new))
            ∙ serving_fds-append node.client_threads new
            ∙ ap (λ o. a ++ listed o) (sym e)) in
      moved node (add_client k fd (node, w)).0 w w same refl (λ y. refl) s.deaf s.idle s

  -- The listener is closed, and the rest is left.
  close_listener-rest :
      (listen : Option ℕ) (rest : List ℕ) (w : W)
      → ((y : ℕ) → is_open w y ≡ holds y (listed listen ++ rest))
      → Distinct (listed listen ++ rest)
      → ((y : ℕ) → is_open (close_listener k listen w) y ≡ holds y rest) × Distinct rest
  close_listener-rest none rest w h d = (h, d)
  close_listener-rest (some fd) rest w h d = (
    λ y.
        t.by_close fd (k.shut_down fd w) y
        ∙ ap (λ b. not (y == fd) && b) (t.by_shutdown fd w y ∙ h y)
        ∙ sym (holds-middle fd y [] rest d),
    d.1,
  )

  pub begin_stop-Serves :
      (node : ControlNode) (w : W)
      → node.running ≡ true
      → node.stage ≡ not_called
      → Serves (node, w)
      → Serves (begin_stop k (node, w))
  unfolding begin_stop
  begin_stop-Serves node w on level s =
      let calm = ap is_cleared level in
      let rest = serving_fds node.client_threads ++ listed node.pending in
      let (left, different) =
        close_listener-rest node.listen_fd rest w (s.exact calm) (s.distinct calm) in
      record {
        covered = λ y e. sym (left y) ∙ e;
        exact = λ c. left;
        distinct = λ c. different;
        deaf = λ c. refl;
        idle = λ c. absurd (cc (on, c));
      }

  close_clients-open :
      (fds : List ℕ) (w : W) (y : ℕ)
      → is_open (close_clients k fds w) y ≡ (not (holds y fds) && is_open w y)
  unfolding close_clients
  close_clients-open [] w y = refl
  close_clients-open (fd ∷ fds) w y =
      let cut = k.shut_down fd w in
      ground (
        arith,
        close_clients-open fds (k.system.close_fd fd cut) y,
        t.by_close fd cut y,
        t.by_shutdown fd w y,
      )

  stopping_runs :
      (node : ControlNode) (w : W)
      → Serves (node, w)
      → is_stopping node.stage ≡ true
      → node.running ≡ false
      → ⊥
  stopping_runs node w s level e = cc (ap is_stopping (s.idle e).2, level)

  pub clear_clients-Serves :
      (node : ControlNode) (w : W)
      → node.stage ≡ listener_closed
      → Serves (node, w)
      → Serves (clear_clients k (node, w))
  unfolding clear_clients
  clear_clients-Serves node w level s = record {
    covered = λ y e. s.covered y (ground (arith, close_clients-open node.client_fds w y, e));
    exact = λ c. absurd cc;
    distinct = λ c. absurd cc;
    deaf = λ c. s.deaf (ap is_stopping level);
    idle = λ c. absurd (stopping_runs node w s (ap is_stopping level) c);
  }

  pub begin_joining-Serves :
      (node : ControlNode) (w : W)
      → node.stage ≡ clients_closed
      → Serves (node, w)
      → Serves (begin_joining k (node, w))
  unfolding begin_joining
  begin_joining-Serves node w level s =
      moved node (begin_joining k (node, w)).0 w w refl (sym (ap is_cleared level)) (λ y. refl)
        (λ c. s.deaf (ap is_stopping level))
        (λ c. absurd (stopping_runs node w s (ap is_stopping level) c)) s

  pub finish_stop-Serves :
      (node : ControlNode) (w : W)
      → node.stage ≡ joining
      → node.pending ≡ none
      → serving_fds node.client_threads ≡ []
      → Serves (node, w)
      → Serves (finish_stop k (node, w)) × ((y : ℕ) → is_open w y ≡ false)
  unfolding finish_stop
  finish_stop-Serves node w level idle nobody s =
      let listen = s.deaf (ap is_stopping level) in
      let none_left : owned node ≡ [] = rw (listen, idle, nobody) refl in
      let gone : (y : ℕ) → is_open w y ≡ false =
        λ y. ground (arith, s.covered y, ap (holds y) none_left) in
      let empty : listed node.listen_fd ++ ([] ++ listed node.pending) ≡ [] =
        rw (listen, idle) refl in
      (
        record {
          covered = λ y e. absurd (cc (gone y, e));
          exact = λ c y. gone y ∙ ap (holds y) (sym empty);
          distinct = λ c. subst Distinct (sym empty) tt;
          deaf = λ c. absurd cc;
          idle = λ c. (listen, empty, refl);
        },
        gone,
      )
