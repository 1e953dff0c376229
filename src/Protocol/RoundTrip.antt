-- ===== src/Protocol/RoundTrip.antt =====
-- src/common/protocol.h: what a serializer writes is what the deserializer of its struct reads.
use net_node_gateway.Prelude.{
  ℕ, List, ◌≡◌, refl, All, length, take, drop, ◌≤◌, min, arith, drop-append_self, length-take,
  take-append-drop,
}
use net_node_gateway.Prelude.Pack.{IsByte, unpack}
use net_node_gateway.Protocol.Layout.{store, load, IsStorable, load-store, store-load, length-store}
use net_node_gateway.Protocol.{
  TelemetryHeader, PlotPayload, TrackPayload, HeartbeatPayload, EngagementPayload, header_struct,
  plot_struct, track_struct, heartbeat_struct, engagement_struct, serialize_header,
  deserialize_header, serialize_plot, deserialize_plot, serialize_track, deserialize_track,
  serialize_heartbeat, deserialize_heartbeat, serialize_engagement, deserialize_engagement,
}

-- Reading the header back from the buffer that it was written to gives the header, and the bytes
-- behind it are those of the old buffer, if every field fits its width.
pub deserialize_header-serialize_header :
    (h : TelemetryHeader) (buf : List ℕ)
    → IsStorable header_struct h
    → (deserialize_header (serialize_header h buf) ≡ h)
      × (drop 18 (serialize_header h buf) ≡ drop 18 buf)
unfolding deserialize_header serialize_header
deserialize_header-serialize_header h buf f = (
  load-store header_struct h _ f,
  rw (length-store header_struct h f)
      (drop-append_self 18 (store header_struct h) (drop 18 buf) (length-store header_struct h f)),
)

-- Writing back a header that was read from at least 18 bytes reproduces those bytes.
pub serialize_header-deserialize_header :
    (buf : List ℕ)
    → All IsByte buf
    → 18 ≤ length buf
    → serialize_header (deserialize_header buf) buf ≡ buf
unfolding deserialize_header serialize_header
serialize_header-deserialize_header buf h l =
    rw (e, length-take 18 buf, min_eq) (take-append-drop 18 buf)
  where
    e : store header_struct (load header_struct buf) ≡ take 18 buf
    e = store-load header_struct buf (unfold load unpack in refl) h l

    min_eq : min 18 (length buf) ≡ 18
    min_eq = omega arith

-- Each of the four payloads is read back as it was written, if every field fits its width.
pub deserialize_payload-serialize_payload :
    (p : PlotPayload) (t : TrackPayload) (hb : HeartbeatPayload) (e : EngagementPayload)
    (buf : List ℕ)
    → IsStorable plot_struct p
    → IsStorable track_struct t
    → IsStorable heartbeat_struct hb
    → IsStorable engagement_struct e
    → (deserialize_plot (serialize_plot p buf) ≡ p)
      × (deserialize_track (serialize_track t buf) ≡ t)
      × (deserialize_heartbeat (serialize_heartbeat hb buf) ≡ hb)
      × (deserialize_engagement (serialize_engagement e buf) ≡ e)
unfolding deserialize_plot serialize_plot deserialize_track serialize_track deserialize_heartbeat
    serialize_heartbeat deserialize_engagement serialize_engagement
deserialize_payload-serialize_payload p t hb e buf fp ft fh fe = (
  load-store plot_struct p _ fp,
  load-store track_struct t _ ft,
  load-store heartbeat_struct hb _ fh,
  load-store engagement_struct e _ fe,
)
