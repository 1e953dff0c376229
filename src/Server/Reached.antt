-- ===== src/Server/Reached.antt =====
-- src/control_node/control_node.cpp: a server in whatever state the steps of its threads bring it to.
use net_node_gateway.Prelude.{
  ℕ, ◌≡◌, refl, sym, ap, subst, ◌∙◌, Bool, true, false, ◌&&◌, none, some, List, [], ◌∷◌, ◌++◌,
  arith, if◌then◌else◌,
}
use net_node_gateway.Server.{
  Listening, ControlNode, Node, ClientThread, Phase, serving, closed, ended, Stage, not_called,
  listener_closed, clients_closed, joining, new_node, start, accept_from, accept_round, add_client,
  close_client, forget_client, begin_stop, clear_clients, begin_joining, finish_stop,
}
use net_node_gateway.Server.Open.{
  holds, serving_fds, if_serving, is_cleared, is_stopping, TracksOpen, IsServing,
}
use net_node_gateway.Server.Open.Kept.{
  Serves, close_client-Serves, forget_client-Serves, add_client-Serves, begin_stop-Serves,
  clear_clients-Serves, begin_joining-Serves, finish_stop-Serves,
}
use net_node_gateway.Server.Open.Starting.{start-Serves, accept_round-Serves}

abbrev pub is_ended : Phase → Bool
is_ended ended = true
is_ended phase = false

abbrev pub all_ended : List ClientThread → Bool
all_ended [] = true
all_ended (t ∷ threads) = is_ended t.phase && all_ended threads

abbrev pub is_joining : Stage → Bool
is_joining joining = true
is_joining stage = false

-- The steps of the caller, of the accepting thread, of the threads of the clients and of `stop`, in any
-- order. `accept` comes when nothing is pending, a thread takes the mutex when `stop` does not hold it,
-- the accepting thread is joined with nothing pending, and `stop` waits until every thread has ended.
pub data Step {ℓ} {W : Type ℓ} (k : Listening W) : Node k → Node k → Type ℓ where
  starts : (n : Node k) → Step k n (start k n).1
  accepts : (n : Node k) → n.0.pending ≡ none → Step k n (accept_round k n)
  adds :
      (n : Node k) (fd : ℕ)
      → n.0.pending ≡ some fd
      → is_joining n.0.stage ≡ false
      → Step k n (add_client k fd n)
  closes :
      (n : Node k) (before after : List ClientThread) (fd : ℕ)
      → n.0.client_threads ≡ before ++ record { fd = fd; phase = serving } ∷ after
      → Step k n (close_client k before fd after n)
  forgets :
      (n : Node k) (before after : List ClientThread) (fd : ℕ)
      → n.0.client_threads ≡ before ++ record { fd = fd; phase = closed } ∷ after
      → is_joining n.0.stage ≡ false
      → Step k n (forget_client k before fd after n)
  tells : (n : Node k) → n.0.running ≡ true → n.0.stage ≡ not_called → Step k n (begin_stop k n)
  clears : (n : Node k) → n.0.stage ≡ listener_closed → Step k n (clear_clients k n)
  joins :
      (n : Node k) → n.0.stage ≡ clients_closed → n.0.pending ≡ none → Step k n (begin_joining k n)
  finishes :
      (n : Node k)
      → n.0.stage ≡ joining
      → n.0.pending ≡ none
      → all_ended n.0.client_threads ≡ true
      → Step k n (finish_stop k n)

pub data Reaches {ℓ} {W : Type ℓ} (k : Listening W) (n : Node k) : Node k → Type ℓ where
  here : Reaches k n n
  next : {m l : Node k} → Reaches k n m → Step k m l → Reaches k n l

serving_fds-all_ended :
    (threads : List ClientThread) → all_ended threads ≡ true → serving_fds threads ≡ []
serving_fds-all_ended [] e = refl
serving_fds-all_ended (t ∷ threads) e = one t.phase (serving_fds-all_ended threads) e
  where
    one :
        (p : Phase)
        → (all_ended threads ≡ true → serving_fds threads ≡ [])
        → (is_ended p && all_ended threads) ≡ true
        → if_serving p t.fd (serving_fds threads) ≡ []
    one serving ih e = absurd cc
    one closed ih e = absurd cc
    one ended ih e = ih e

all_ended-middle :
    (before after : List ClientThread) (t : ClientThread)
    → is_ended t.phase ≡ false
    → all_ended (before ++ t ∷ after) ≡ false
all_ended-middle [] after t e = ground arith
all_ended-middle (x ∷ before) after t e = ground (arith, all_ended-middle before after t e)

module _ {ℓ} {W : Type ℓ} {k : Listening W} {is_open : W → ℕ → Bool}
    (t : TracksOpen k is_open) where
  Step-Serves : {n m : Node k} → Step k n m → Serves t n → Serves t m
  Step-Serves (starts (node, w)) s = start-Serves t node w s
  Step-Serves (accepts (node, w) free) s = accept_round-Serves t node w free s
  Step-Serves (adds (node, w) fd e free) s = add_client-Serves t fd node w e s
  Step-Serves (closes (node, w) before after fd e) s =
      close_client-Serves t before after fd node w e s
  Step-Serves (forgets (node, w) before after fd e free) s =
      forget_client-Serves t before after fd node w e s
  Step-Serves (tells (node, w) on level) s = begin_stop-Serves t node w on level s
  Step-Serves (clears (node, w) level) s = clear_clients-Serves t node w level s
  Step-Serves (joins (node, w) level free) s = begin_joining-Serves t node w level s
  Step-Serves (finishes (node, w) level free all) s =
      (finish_stop-Serves t node w level free (serving_fds-all_ended node.client_threads all) s).0

  new_node-Serves :
      (port : ℕ) (w : W) → ((y : ℕ) → is_open w y ≡ false) → Serves t (new_node port, w)
  new_node-Serves port w none_open = record {
    covered = λ y e. absurd (cc (none_open y, e));
    exact = λ c. none_open;
    distinct = λ c. tt;
    deaf = λ c. absurd cc;
    idle = λ c. (refl, refl, refl);
  }

  Reaches-Serves :
      (port : ℕ) (w : W) {n : Node k}
      → ((y : ℕ) → is_open w y ≡ false)
      → Reaches k (new_node port, w) n
      → Serves t n
  Reaches-Serves port w none_open here = new_node-Serves port w none_open
  Reaches-Serves port w none_open (next r s) = Step-Serves s (Reaches-Serves port w none_open r)

  -- In whatever order the threads of a new server make their steps, while it is started and stopped,
  -- accepts clients and loses them, and whatever calls fail: every descriptor that it has open is that of
  -- the listener, of a thread that still serves its client, or one just accepted. Until `stop` has closed
  -- the clients, all of these are open and different from each other. A server that is being stopped does
  -- not listen, and one that does not run has nothing open. The system is taken to give out no descriptor
  -- that the server has open, and to close one when it is told to.
  pub Reaches-IsServing :
      (port : ℕ) (w : W) {n : Node k}
      → ((y : ℕ) → is_open w y ≡ false)
      → Reaches k (new_node port, w) n
      → IsServing (is_open n.1) n.0 × (n.0.running ≡ false → (y : ℕ) → is_open n.1 y ≡ false)
  Reaches-IsServing port w {n} none_open r =
      let s = Reaches-Serves port w none_open r in
      (
        s,
        λ off y.
            let (listen, nobody, level) = s.idle off in
            s.exact (ap is_cleared level) y ∙ ap (holds y) nobody,
      )

-- `stop` holds the mutex and waits, and a thread has not ended.
pub record IsStuck (node : ControlNode) : Type 0 where
  pub level : node.stage ≡ joining
  pub on : node.running ≡ true
  pub deaf : node.listen_fd ≡ none
  pub free : node.pending ≡ none
  pub unfinished : all_ended node.client_threads ≡ false

module _ {ℓ} {W : Type ℓ} (k : Listening W) where
  start-running :
      (node : ControlNode) (w : W) → node.running ≡ true → (start k (node, w)).1 ≡ (node, w)
  unfolding start
  start-running node w e = rw e refl

  accept_round-deaf :
      (node : ControlNode) (w : W) → node.listen_fd ≡ none → accept_round k (node, w) ≡ (node, w)
  unfolding accept_round
  accept_round-deaf node w e =
      ap (λ l. if node.should_stop then (node, w) else accept_from k l (node, w)) e
      ∙ same node.should_stop
    where
      same : (b : Bool) → ◌≡◌ {A = Node k} (if b then (node, w) else (node, w)) (node, w)
      same true = refl
      same false = refl

  close_client-IsStuck :
      (before after : List ClientThread) (fd : ℕ) (node : ControlNode) (w : W)
      → IsStuck node
      → IsStuck (close_client k before fd after (node, w)).0
  unfolding close_client
  close_client-IsStuck before after fd node w s = record {
    level = s.level;
    on = s.on;
    deaf = s.deaf;
    free = s.free;
    unfinished = all_ended-middle before after (record { fd = fd; phase = closed }) refl;
  }

  Step-IsStuck : {n m : Node k} → Step k n m → IsStuck n.0 → IsStuck m.0
  Step-IsStuck (starts (node, w)) s =
      subst (λ (n : Node k). IsStuck n.0) (sym (start-running node w s.on)) s
  Step-IsStuck (accepts (node, w) free) s =
      subst (λ (n : Node k). IsStuck n.0) (sym (accept_round-deaf node w s.deaf)) s
  Step-IsStuck (adds (node, w) fd e open_lock) s = absurd (cc (e, s.free))
  Step-IsStuck (closes (node, w) before after fd e) s =
      close_client-IsStuck before after fd node w s
  Step-IsStuck (forgets (node, w) before after fd e open_lock) s =
      absurd (cc (open_lock, ap is_joining s.level))
  Step-IsStuck (tells (node, w) on level) s = absurd (cc (level, s.level))
  Step-IsStuck (clears (node, w) level) s = absurd (cc (level, s.level))
  Step-IsStuck (joins (node, w) level free) s = absurd (cc (level, s.level))
  Step-IsStuck (finishes (node, w) level free all) s = absurd (cc (all, s.unfinished))

  Reaches-IsStuck : {n m : Node k} → IsStuck n.0 → Reaches k n m → IsStuck m.0
  Reaches-IsStuck s here = s
  Reaches-IsStuck s (next r st) = Step-IsStuck st (Reaches-IsStuck s r)

  -- If the thread of a client has not yet removed its descriptor from the list when `stop`, which holds
  -- the mutex from then on, starts to wait for the threads, `stop` never returns: in every state that any
  -- steps lead to from there, it still waits, the server still counts as running, and a thread has not
  -- ended. The state is one that a new server reaches, with nothing pending.
  pub Reaches-joining :
      {is_open : W → ℕ → Bool} {n m : Node k}
      → TracksOpen k is_open
      → (port : ℕ) (w : W) → ((y : ℕ) → is_open w y ≡ false)
      → Reaches k (new_node port, w) n
      → n.0.stage ≡ joining
      → n.0.running ≡ true
      → n.0.pending ≡ none
      → all_ended n.0.client_threads ≡ false
      → Reaches k n m
      → (m.0.stage ≡ joining) × (m.0.running ≡ true) × (all_ended m.0.client_threads ≡ false)
  Reaches-joining t port w none_open r level on free unfinished later =
      let deaf = (Reaches-Serves t port w none_open r).deaf (ap is_stopping level) in
      let s =
        Reaches-IsStuck
          (record { level = level; on = on; deaf = deaf; free = free; unfinished = unfinished })
          later in
      (s.level, s.on, s.unfinished)
