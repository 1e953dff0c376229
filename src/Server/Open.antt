-- ===== src/Server/Open.antt =====
-- src/control_node/control_node.cpp: which descriptors a server has open.
pub mod Kept
pub mod Starting
use net_node_gateway.Prelude.{
  ℕ, ◌≡◌, refl, sym, ap, ◌∙◌, Bool, true, false, not, ◌&&◌, ◌||◌, Option, none, some, List, [], ◌∷◌,
  ◌++◌, append_assoc, ◌==◌, ==_iff, arith, if◌then◌else◌,
}
use net_node_gateway.Sockets.{stream}
use net_node_gateway.Sockets.Held.{Opens}
use net_node_gateway.Server.{
  Listening, ControlNode, ClientThread, Phase, serving, closed, ended, Stage, clients_closed,
  joining, not_called, erase_fd,
}

-- whether a descriptor is in a list
abbrev pub holds : ℕ → List ℕ → Bool
holds y [] = false
holds y (x ∷ xs) = y == x || holds y xs

abbrev pub Distinct : List ℕ → Type 0
Distinct [] = Unit
Distinct (x ∷ xs) = (holds x xs ≡ false) × Distinct xs

pub holds-erase_fd :
    (x y : ℕ) (xs : List ℕ) → holds y (erase_fd x xs) ≡ (not (y == x) && holds y xs)
unfolding erase_fd
holds-erase_fd x y [] = ground arith
holds-erase_fd x y (z ∷ xs) = ground (arith, holds-erase_fd x y xs)

pub holds-append : (y : ℕ) (xs ys : List ℕ) → holds y (xs ++ ys) ≡ (holds y xs || holds y ys)
holds-append y [] ys = refl
holds-append y (z ∷ xs) ys = ground (arith, holds-append y xs ys)

pub Distinct-append :
    (x : ℕ) (xs : List ℕ) → Distinct xs → holds x xs ≡ false → Distinct (xs ++ x ∷ [])
Distinct-append x [] d h = (refl, tt)
Distinct-append x (z ∷ xs) (d, ds) h =
    (ground (arith, holds-append z xs (x ∷ [])), Distinct-append x xs ds (ground arith))

-- one of a list of different descriptors is taken out
pub holds-middle :
    (x y : ℕ) (xs ys : List ℕ)
    → Distinct (xs ++ x ∷ ys)
    → holds y (xs ++ ys) ≡ (not (y == x) && holds y (xs ++ x ∷ ys))
holds-middle x y [] ys (d, ds) = ground (arith, ==_iff y x, same_holds x y ys)
  where
    same_holds : (x y : ℕ) (ys : List ℕ) → y ≡ x → holds y ys ≡ holds x ys
    same_holds x y ys e = ap (λ z. holds z ys) e
holds-middle x y (z ∷ xs) ys (d, ds) =
    ground (arith, ==_iff y x, ==_iff z x, holds-middle x y xs ys ds, holds-append z xs (x ∷ ys))

pub Distinct-middle : (x : ℕ) (xs ys : List ℕ) → Distinct (xs ++ x ∷ ys) → Distinct (xs ++ ys)
Distinct-middle x [] ys (d, ds) = ds
Distinct-middle x (z ∷ xs) ys (d, ds) =
    (ground (arith, holds-append z xs (x ∷ ys), holds-append z xs ys), Distinct-middle x xs ys ds)

-- the descriptor of a thread that serves a client, before those of others
abbrev pub if_serving : Phase → ℕ → List ℕ → List ℕ
if_serving serving fd fds = fd ∷ fds
if_serving closed fd fds = fds
if_serving ended fd fds = fds

-- the descriptors of the threads that serve a client
abbrev pub serving_fds : List ClientThread → List ℕ
serving_fds [] = []
serving_fds (t ∷ threads) = if_serving t.phase t.fd (serving_fds threads)

if_serving-append :
    (p : Phase) (fd : ℕ) (xs ys : List ℕ) → if_serving p fd (xs ++ ys) ≡ if_serving p fd xs ++ ys
if_serving-append serving fd xs ys = refl
if_serving-append closed fd xs ys = refl
if_serving-append ended fd xs ys = refl

pub serving_fds-append :
    (xs ys : List ClientThread) → serving_fds (xs ++ ys) ≡ serving_fds xs ++ serving_fds ys
serving_fds-append [] ys = refl
serving_fds-append (t ∷ xs) ys =
    ap (if_serving t.phase t.fd) (serving_fds-append xs ys)
    ∙ if_serving-append t.phase t.fd (serving_fds xs) (serving_fds ys)

abbrev pub listed : Option ℕ → List ℕ
listed none = []
listed (some fd) = fd ∷ []

-- the descriptors that the listener, the threads and the accepting thread have to close
abbrev pub owned : ControlNode → List ℕ
owned node = listed node.listen_fd ++ (serving_fds node.client_threads ++ listed node.pending)

-- `stop` has closed the clients.
abbrev pub is_cleared : Stage → Bool
is_cleared clients_closed = true
is_cleared joining = true
is_cleared stage = false

-- `is_open` is the set of the descriptors that the server has open: a new one was not open.
pub record TracksOpen {ℓ} {W : Type ℓ} (k : Listening W) (is_open : W → ℕ → Bool) : Type ℓ where
  pub by_socket :
      (w : W) → let (fd, w') = k.system.socket stream w in Opens (is_open w) (is_open w') fd
  pub by_accept :
      (fd : ℕ) (w : W) → let (c, w') = k.accept_on fd w in Opens (is_open w) (is_open w') c
  pub by_close :
      (fd : ℕ) (w : W) (y : ℕ) → is_open (k.system.close_fd fd w) y ≡ (not (y == fd) && is_open w y)
  pub by_reuse : (fd : ℕ) (w : W) (y : ℕ) → is_open (k.system.allow_reuse fd w) y ≡ is_open w y
  pub by_bind :
      (fd port : ℕ) (w : W) (y : ℕ) → is_open (k.system.bind_to fd port w).1 y ≡ is_open w y
  pub by_listen : (fd : ℕ) (w : W) (y : ℕ) → is_open (k.listen_on fd w).1 y ≡ is_open w y
  pub by_shutdown : (fd : ℕ) (w : W) (y : ℕ) → is_open (k.shut_down fd w) y ≡ is_open w y
  pub by_poll :
      (fd timeout : ℕ) (w : W) (y : ℕ) → is_open (k.system.poll fd timeout w).1 y ≡ is_open w y

-- `stop` has been called and has not returned.
abbrev pub is_stopping : Stage → Bool
is_stopping not_called = false
is_stopping stage = true

-- The open descriptors are among those that someone has to close. Until `stop` has closed the clients
-- they are exactly these, and each is one's alone. A server that is being stopped does not listen, and one
-- that does not run has nothing open.
pub record IsServing (is_open : ℕ → Bool) (node : ControlNode) : Type 0 where
  pub covered : (y : ℕ) → is_open y ≡ true → holds y (owned node) ≡ true
  pub exact : is_cleared node.stage ≡ false → (y : ℕ) → is_open y ≡ holds y (owned node)
  pub distinct : is_cleared node.stage ≡ false → Distinct (owned node)
  pub deaf : is_stopping node.stage ≡ true → node.listen_fd ≡ none
  pub idle :
      node.running ≡ false → (node.listen_fd ≡ none) × (owned node ≡ []) × (node.stage ≡ not_called)
