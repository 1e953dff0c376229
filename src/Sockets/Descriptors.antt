-- ===== src/Sockets/Descriptors.antt =====
-- src/gateway/udp_socket.cpp: which descriptors are open.
use net_node_gateway.Prelude.{
  ℕ, ◌≡◌, refl, ◌∙◌, Bool, true, false, ◌||◌, Option, none, some, List, [], ◌∷◌, arith,
}
use net_node_gateway.Sockets.{
  datagram, System, Events, UdpFrameSource, UdpFrameSink, release, open_bound, open_connected, bind,
  connect, receive, send, receive_on, receive_from, send_over, nothing, ready, close_source,
  close_sink,
}
use net_node_gateway.Sockets.Held.{
  listens, TracksSockets, Holds, release-Holds, open_bound-Holds, open_connected-Holds,
}

-- What may be done with the two sockets.
pub data Call : Type 0 where
  bind_source : ℕ → Call
  receive_one close_the_source close_the_sink : Call
  connect_sink : List ℕ → ℕ → Call
  send_one : List ℕ → Call

pub record Pair {ℓ} (W : Type ℓ) : Type ℓ where
  pub source : UdpFrameSource
  pub sink : UdpFrameSink
  pub world : W

module _ {ℓ} {W : Type ℓ} (k : System W) where
  unfoldable pub perform : Call → Pair W → Pair W
  unfolding bind receive send connect close_source close_sink
  perform (bind_source port) p =
      let (done, (source, w)) = bind k p.source port p.world in
      record p { source = source; world = w }
  perform receive_one p = record p { world = (receive k p.source p.world).1 }
  perform close_the_source p =
      let (source, w) = close_source k p.source p.world in record p { source = source; world = w }
  perform (connect_sink host port) p =
      let (done, (sink, w)) = connect k p.sink host port p.world in
      record p { sink = sink; world = w }
  perform (send_one buf) p = record p { world = (send k p.sink buf p.world).1 }
  perform close_the_sink p =
      let (sink, w) = close_sink k p.sink p.world in record p { sink = sink; world = w }

  unfoldable pub perform_all : List Call → Pair W → Pair W
  unfolding perform
  perform_all [] p = p
  perform_all (call ∷ calls) p = perform_all calls (perform call p)

  -- The open descriptors are the ones that the two sockets hold and the others, all of them different.
  pub record HoldsBoth (is_open : W → ℕ → Bool) (others : ℕ → Bool) (p : Pair W) : Type 0 where
    pub exact :
        (y : ℕ)
        → is_open p.world y ≡ (listens p.source.sockfd y || (listens p.sink.sockfd y || others y))
    pub source_apart :
        (y : ℕ) → listens p.source.sockfd y ≡ true → (listens p.sink.sockfd y || others y) ≡ false
    pub sink_apart : (y : ℕ) → listens p.sink.sockfd y ≡ true → others y ≡ false

  module _ {is_open : W → ℕ → Bool} (c : TracksSockets k is_open) where
    receive_on-open :
        (fd : ℕ) (r : Events × W) (y : ℕ) → is_open (receive_on k fd r).1 y ≡ is_open r.1 y
    receive_on-open fd (nothing, w) y = refl
    receive_on-open fd (ready bad false, w) y = refl
    receive_on-open fd (ready bad true, w) y = c.by_recv fd 65536 w y

    receive_from-open :
        (sockfd : Option ℕ) (timeout : ℕ) (w : W) (y : ℕ)
        → is_open (receive_from k sockfd timeout w).1 y ≡ is_open w y
    receive_from-open none timeout w y = refl
    receive_from-open (some fd) timeout w y =
        receive_on-open fd (k.poll fd timeout w) y ∙ c.by_poll fd timeout w y

    send_over-open :
        (sockfd : Option ℕ) (buf : List ℕ) (w : W) (y : ℕ)
        → is_open (send_over k sockfd buf w).1 y ≡ is_open w y
    send_over-open none buf w y = refl
    send_over-open (some fd) [] w y = refl
    send_over-open (some fd) (b ∷ bs) w y = c.by_send fd (b ∷ bs) w y

    HoldsBoth-world :
        (others : ℕ → Bool) (p : Pair W) (w : W)
        → ((y : ℕ) → is_open w y ≡ is_open p.world y)
        → HoldsBoth is_open others p
        → HoldsBoth is_open others (record p { world = w })
    HoldsBoth-world others p w same h = record {
      exact = λ y. same y ∙ h.exact y;
      source_apart = h.source_apart;
      sink_apart = h.sink_apart;
    }

    -- what the sink and the others make up beside the source, and the other way round
    beside_source : (ℕ → Bool) → Pair W → ℕ → Bool
    beside_source others p y = listens p.sink.sockfd y || others y

    beside_sink : (ℕ → Bool) → Pair W → ℕ → Bool
    beside_sink others p y = listens p.source.sockfd y || others y

    source-Holds :
        (others : ℕ → Bool) (p : Pair W)
        → HoldsBoth is_open others p
        → Holds p.source.sockfd (beside_source others p) (is_open p.world)
    unfolding beside_source
    source-Holds others p h = record { exact = h.exact; apart = h.source_apart }

    sink-Holds :
        (others : ℕ → Bool) (p : Pair W)
        → HoldsBoth is_open others p
        → Holds p.sink.sockfd (beside_sink others p) (is_open p.world)
    unfolding beside_sink
    sink-Holds others p h = record {
      exact = λ y. ground (arith, h.exact y);
      apart = λ y e. ground (arith, h.source_apart y, h.sink_apart y e);
    }

    with_source-HoldsBoth :
        (others : ℕ → Bool) (p : Pair W) (source : UdpFrameSource) (w : W)
        → HoldsBoth is_open others p
        → Holds source.sockfd (beside_source others p) (is_open w)
        → HoldsBoth is_open others (record p { source = source; world = w })
    unfolding beside_source
    with_source-HoldsBoth others p source w h s = record {
      exact = s.exact;
      source_apart = s.apart;
      sink_apart = h.sink_apart;
    }

    with_sink-HoldsBoth :
        (others : ℕ → Bool) (p : Pair W) (sink : UdpFrameSink) (w : W)
        → HoldsBoth is_open others p
        → Holds sink.sockfd (beside_sink others p) (is_open w)
        → HoldsBoth is_open others (record p { sink = sink; world = w })
    unfolding beside_sink
    with_sink-HoldsBoth others p sink w h s = record {
      exact = λ y. ground (arith, s.exact y);
      source_apart = λ y e. ground (arith, s.apart y, h.source_apart y e);
      sink_apart = λ y e. ground (arith, s.apart y e);
    }

    nothing_held :
        (others : ℕ → Bool) (w : W)
        → ((y : ℕ) → is_open w y ≡ others y)
        → Holds none others (is_open w)
    nothing_held others w h = record { exact = h; apart = λ y e. absurd cc }

    perform-HoldsBoth :
        (call : Call) (others : ℕ → Bool) (p : Pair W)
        → HoldsBoth is_open others p
        → HoldsBoth is_open others (perform call p)
    unfolding perform bind receive send connect close_source close_sink
    perform-HoldsBoth (bind_source port) others p h =
        let rest = beside_source others p in
        let closed = release-Holds c p.source.sockfd rest p.world (source-Holds others p h) in
        let w = release k p.source.sockfd p.world in
        let (fd, w') = open_bound k port w in
        with_source-HoldsBoth others p (record p.source { sockfd = fd }) w' h
          (open_bound-Holds c port rest w closed)
    perform-HoldsBoth receive_one others p h =
        HoldsBoth-world others p (receive k p.source p.world).1
          (receive_from-open p.source.sockfd p.source.timeout_ms p.world) h
    perform-HoldsBoth close_the_source others p h =
        let rest = beside_source others p in
        let closed = release-Holds c p.source.sockfd rest p.world (source-Holds others p h) in
        let w = release k p.source.sockfd p.world in
        with_source-HoldsBoth others p (record p.source { sockfd = none }) w h
          (nothing_held rest w closed)
    perform-HoldsBoth (connect_sink host port) others p h =
        let rest = beside_sink others p in
        let closed = release-Holds c p.sink.sockfd rest p.world (sink-Holds others p h) in
        let w = release k p.sink.sockfd p.world in
        let (fd, w') = open_connected k datagram host port w in
        with_sink-HoldsBoth others p (record p.sink { sockfd = fd }) w' h
          (open_connected-Holds c datagram host port rest w closed)
    perform-HoldsBoth (send_one buf) others p h =
        HoldsBoth-world others p (send k p.sink buf p.world).1
          (send_over-open p.sink.sockfd buf p.world) h
    perform-HoldsBoth close_the_sink others p h =
        let rest = beside_sink others p in
        let closed = release-Holds c p.sink.sockfd rest p.world (sink-Holds others p h) in
        let w = release k p.sink.sockfd p.world in
        with_sink-HoldsBoth others p (record p.sink { sockfd = none }) w h
          (nothing_held rest w closed)

    -- Whatever is done with the two sockets of UdpFrameSource and UdpFrameSink, in whatever order and
    -- whatever calls of the system fail, the open descriptors are exactly the one that each of them holds,
    -- if any, and those that were open besides, all of them different: no descriptor is lost, and none
    -- that is not the socket's own is closed.
    pub perform_all-HoldsBoth :
        (calls : List Call) (others : ℕ → Bool) (p : Pair W)
        → HoldsBoth is_open others p
        → HoldsBoth is_open others (perform_all calls p)
    unfolding perform_all
    perform_all-HoldsBoth [] others p h = h
    perform_all-HoldsBoth (call ∷ calls) others p h =
        perform_all-HoldsBoth calls others (perform call p) (perform-HoldsBoth call others p h)
