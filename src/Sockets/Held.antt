-- ===== src/Sockets/Held.antt =====
-- src/gateway/udp_socket.cpp: the open descriptors, and what opening and closing one does to them.
use net_node_gateway.Prelude.{
  ℕ, ◌≡◌, sym, subst, ◌∙◌, Bool, true, false, not, ◌&&◌, ◌||◌, Option, none, some, List, ◌==◌,
  arith, ==_iff, Bool-cases, inl, inr,
}
use net_node_gateway.Sockets.{
  Kind, datagram, System, release, open_bound, open_connected, keep_or_close, bind_fd, connect_fd,
}

-- whether a descriptor is the one that is held
abbrev pub listens : Option ℕ → ℕ → Bool
listens none y = false
listens (some l) y = y == l

-- What a call that may open a descriptor does to the set of the open ones: a new one was not open.
abbrev pub Opens : (ℕ → Bool) → (ℕ → Bool) → Option ℕ → Type 0
Opens was is none = (y : ℕ) → is y ≡ was y
Opens was is (some x) = (was x ≡ false) × ((y : ℕ) → is y ≡ (y == x || was y))

-- `is_open` is the set of the open descriptors: `socket` adds one that was not open, `close` removes the
-- one that it is given, and no other call changes the set.
pub record TracksSockets {ℓ} {W : Type ℓ} (k : System W) (is_open : W → ℕ → Bool) : Type ℓ where
  pub by_socket :
      (kind : Kind) (w : W) → let (fd, w') = k.socket kind w in Opens (is_open w) (is_open w') fd
  pub by_reuse : (fd : ℕ) (w : W) (y : ℕ) → is_open (k.allow_reuse fd w) y ≡ is_open w y
  pub by_bind : (fd port : ℕ) (w : W) (y : ℕ) → is_open (k.bind_to fd port w).1 y ≡ is_open w y
  pub by_connect :
      (fd address port : ℕ) (w : W) (y : ℕ)
      → is_open (k.connect_to fd address port w).1 y ≡ is_open w y
  pub by_poll : (fd timeout : ℕ) (w : W) (y : ℕ) → is_open (k.poll fd timeout w).1 y ≡ is_open w y
  pub by_recv : (fd size : ℕ) (w : W) (y : ℕ) → is_open (k.recv fd size w).1 y ≡ is_open w y
  pub by_send :
      (fd : ℕ) (bytes : List ℕ) (w : W) (y : ℕ)
      → is_open (k.send_bytes fd bytes w).1 y ≡ is_open w y
  pub by_close :
      (fd : ℕ) (w : W) (y : ℕ) → is_open (k.close_fd fd w) y ≡ (not (y == fd) && is_open w y)

-- The open descriptors are the one that is held, if any, and the others, and it is not one of them.
pub record Holds (sockfd : Option ℕ) (others now : ℕ → Bool) : Type 0 where
  pub exact : (y : ℕ) → now y ≡ (listens sockfd y || others y)
  pub apart : (y : ℕ) → listens sockfd y ≡ true → others y ≡ false

module _ {ℓ} {W : Type ℓ} {k : System W} {is_open : W → ℕ → Bool}
    (c : TracksSockets k is_open) where
  Holds-world :
      (sockfd : Option ℕ) (others : ℕ → Bool) (w w' : W)
      → ((y : ℕ) → is_open w' y ≡ is_open w y)
      → Holds sockfd others (is_open w)
      → Holds sockfd others (is_open w')
  Holds-world sockfd others w w' same h = record {
    exact = λ y. same y ∙ h.exact y;
    apart = h.apart;
  }

  closed-Holds :
      (fd : ℕ) (others : ℕ → Bool) (w : W)
      → Holds (some fd) others (is_open w)
      → (y : ℕ) → is_open (k.close_fd fd w) y ≡ others y
  closed-Holds fd others w h y = elim (Bool-cases (y == fd)) [
    | inl e ↦ (let gone = h.apart y e in ground (arith, c.by_close fd w y))
    | inr e ↦ ground (arith, c.by_close fd w y, h.exact y)
  ]

  keep_or_close-Holds :
      (fd : ℕ) (others : ℕ → Bool) (r : Bool × W)
      → Holds (some fd) others (is_open r.1)
      → Holds (keep_or_close k fd r).0 others (is_open (keep_or_close k fd r).1)
  keep_or_close-Holds fd others (true, w) h = h
  keep_or_close-Holds fd others (false, w) h = record {
    exact = closed-Holds fd others w h;
    apart = λ y e. absurd cc;
  }

  opened-Holds :
      (others : ℕ → Bool) (w : W) (r : Option ℕ × W)
      → ((y : ℕ) → is_open w y ≡ others y)
      → Opens (is_open w) (is_open r.1) r.0
      → Holds r.0 others (is_open r.1)
  opened-Holds others w (none, w') h o = record { exact = λ y. o y ∙ h y; apart = λ y e. absurd cc }
  opened-Holds others w (some fd, w') h (new, more) = record {
    exact = λ y. ground (arith, more y, h y);
    apart = λ y e. subst (λ z. others z ≡ false) (sym ((==_iff y fd).0 e)) (sym (h fd) ∙ new);
  }

  bind_fd-Holds :
      (port : ℕ) (others : ℕ → Bool) (r : Option ℕ × W)
      → Holds r.0 others (is_open r.1)
      → Holds (bind_fd k port r).0 others (is_open (bind_fd k port r).1)
  bind_fd-Holds port others (none, w) h = h
  bind_fd-Holds port others (some fd, w) h =
      let reused = k.allow_reuse fd w in
      keep_or_close-Holds fd others (k.bind_to fd port reused) (
        Holds-world (some fd) others w (k.bind_to fd port reused).1
          (λ y. c.by_bind fd port reused y ∙ c.by_reuse fd w y) h)

  connect_fd-Holds :
      (address : Option ℕ) (port : ℕ) (others : ℕ → Bool) (r : Option ℕ × W)
      → Holds r.0 others (is_open r.1)
      → Holds (connect_fd k address port r).0 others (is_open (connect_fd k address port r).1)
  connect_fd-Holds address port others (none, w) h = h
  connect_fd-Holds none port others (some fd, w) h = record {
    exact = closed-Holds fd others w h;
    apart = λ y e. absurd cc;
  }
  connect_fd-Holds (some address) port others (some fd, w) h =
      keep_or_close-Holds fd others (k.connect_to fd address port w) (
        Holds-world (some fd) others w (k.connect_to fd address port w).1
          (c.by_connect fd address port w) h)

  pub release-Holds :
      (sockfd : Option ℕ) (others : ℕ → Bool) (w : W)
      → Holds sockfd others (is_open w)
      → (y : ℕ) → is_open (release k sockfd w) y ≡ others y
  unfolding release
  release-Holds none others w h = h.exact
  release-Holds (some fd) others w h = closed-Holds fd others w h

  pub open_connected-Holds :
      (kind : Kind) (host : List ℕ) (port : ℕ) (others : ℕ → Bool) (w : W)
      → ((y : ℕ) → is_open w y ≡ others y)
      → let (sockfd, w') = open_connected k kind host port w in Holds sockfd others (is_open w')
  unfolding open_connected
  open_connected-Holds kind host port others w h =
      connect_fd-Holds (k.parse_address host) port others (k.socket kind w)
        (opened-Holds others w (k.socket kind w) h (c.by_socket kind w))

  pub open_bound-Holds :
      (port : ℕ) (others : ℕ → Bool) (w : W)
      → ((y : ℕ) → is_open w y ≡ others y)
      → let (sockfd, w') = open_bound k port w in Holds sockfd others (is_open w')
  unfolding open_bound
  open_bound-Holds port others w h =
      bind_fd-Holds port others (k.socket datagram w)
        (opened-Holds others w (k.socket datagram w) h (c.by_socket datagram w))
