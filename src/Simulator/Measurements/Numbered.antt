-- ===== src/Simulator/Measurements/Numbered.antt =====
-- src/sensor_sim/measurement_generator.cpp: the frames that leave the generator are frames of the
-- protocol without a checksum, numbered one after the other.
use net_node_gateway.Prelude.{
  ℕ, ◌+◌, ◌%◌, ◌^◌, ◌≤◌, ◌<◌, ◌≡◌, refl, sym, ap, ap₂, ◌∙◌, subst, false, List, [], ◌∷◌, ◌++◌, All,
  length, drop, repeat, length-repeat, length-append, length-drop, append-nil, take-append_self,
  drop-append_self, arith,
}
use net_node_gateway.Prelude.Pack.{IsByte, pack, pack_word}
use net_node_gateway.Types.{MsgType, plot, track, heartbeat, engagement, msg_type_value, WeaponMode}
use net_node_gateway.Protocol.{
  TelemetryHeader, header_struct, serialize_header, memcpy, engagement_struct,
}
use net_node_gateway.Protocol.Layout.{PackedStruct, store, IsStorable, length-store, store-IsByte}
use net_node_gateway.Parser.Frames.{IsFrame, frame_body, frame_bytes}
use net_node_gateway.Simulator.Measurements.{
  MeasurementGenerator, Frame, build_frame, generate_engagement,
}

-- Each frame is one of the protocol, from the source, with the next number modulo 2 ^ 32.
pub record IsNumberedFrame (src_id seq : ℕ) (frame : Frame) : Type 0 where
  pub header : TelemetryHeader
  pub payload : List ℕ
  pub fits : IsFrame header payload
  pub bytes : frame ≡ frame_bytes header payload false
  pub source : header.src_id ≡ src_id
  pub number : header.seq ≡ seq

abbrev pub IsNumbered : ℕ → ℕ → List Frame → Type 0
IsNumbered src_id seq [] = Unit
IsNumbered src_id seq (frame ∷ frames) =
    IsNumberedFrame src_id seq frame × IsNumbered src_id ((seq + 1) % 2 ^ 32) frames

IsNumbered-append :
    (src_id seq n : ℕ) (xs ys : List Frame)
    → (seq + length xs) % 2 ^ 32 ≡ n
    → n < 2 ^ 32
    → seq < 2 ^ 32
    → IsNumbered src_id seq xs
    → IsNumbered src_id n ys
    → IsNumbered src_id seq (xs ++ ys)
IsNumbered-append src_id seq n [] ys e h k s t = subst (λ m. IsNumbered src_id m ys) (omega arith) t
IsNumbered-append src_id seq n (x ∷ xs) ys e h k (f, s) t =
    (f, IsNumbered-append src_id ((seq + 1) % 2 ^ 32) n xs ys (omega arith) h (omega arith) s t)

abbrev pub IsReady : {R : Type 0} → MeasurementGenerator R → Type 0
IsReady g = (g.src_id < 2 ^ 16) × (g.seq < 2 ^ 32)

module _ {R : Type 0} where
  -- What a step from one state of the generator to another has sent.
  pub record Emits (g : MeasurementGenerator R) (frames : List Frame) (g' : MeasurementGenerator R)
      : Type 0 where
    pub numbered : IsNumbered g.src_id g.seq frames
    pub source : g'.src_id ≡ g.src_id
    pub number : g'.seq ≡ (g.seq + length frames) % 2 ^ 32

  module _ (g : MeasurementGenerator R) (type : MsgType) (payload : List ℕ) (timestamp_ns : ℕ)
      (ready : IsReady g) (time : timestamp_ns < 2 ^ 64) (size : length payload ≤ 1024)
      (bytes : All IsByte payload) where
    hdr : TelemetryHeader
    hdr = record {
      version = 1;
      msg_type = msg_type_value type;
      src_id = g.src_id;
      seq = g.seq;
      ts_ns = timestamp_ns;
      payload_len = length payload;
    }

    msg_type_range : (t : MsgType) → (1 ≤ msg_type_value t) × (msg_type_value t ≤ 4)
    msg_type_range plot = (omega arith, omega arith)
    msg_type_range track = (omega arith, omega arith)
    msg_type_range heartbeat = (omega arith, omega arith)
    msg_type_range engagement = (omega arith, omega arith)

    hdr-IsStorable : IsStorable header_struct hdr
    unfolding hdr
    hdr-IsStorable =
        let range = msg_type_range type in
        (omega arith, (omega arith, (ready.0, (ready.1, (time, (omega arith, tt))))))

    hdr-IsFrame : IsFrame hdr payload
    unfolding hdr
    hdr-IsFrame = record {
      storable = hdr-IsStorable;
      version = refl;
      known_type = msg_type_range type;
      payload_fits = size;
      payload_length = refl;
      payload_bytes = bytes;
    }

    blank : List ℕ
    blank = drop (length (store header_struct hdr)) (repeat (18 + length payload) 0)

    length-hdr : length (store header_struct hdr) ≡ 18
    length-hdr = length-store header_struct hdr hdr-IsStorable

    length-blank : length blank ≡ length payload
    unfolding blank
    length-blank = omega (
      arith,
      length-drop {A = ℕ} (length (store header_struct hdr)) (repeat (18 + length payload) 0),
      length-repeat {A = ℕ} (18 + length payload) 0,
      length-hdr,
    )

    nothing_behind : drop (length payload) blank ≡ []
    nothing_behind =
        nil (drop (length payload) blank)
          (omega (arith, length-drop (length payload) blank, length-blank))
      where
        nil : (xs : List ℕ) → length xs ≡ 0 → xs ≡ []
        nil [] e = refl
        nil (x ∷ xs) e = absurd (omega arith)

    build_frame-bytes : (build_frame g type payload timestamp_ns).0 ≡ frame_bytes hdr payload false
    unfolding build_frame serialize_header memcpy hdr blank
    build_frame-bytes =
        ap₂ ◌++◌ (take-append_self 18 (store header_struct hdr) blank length-hdr) (
          ap (λ rest. payload ++ drop (length payload) rest)
            (drop-append_self 18 (store header_struct hdr) blank length-hdr)
          ∙ ap (◌++◌ payload) nothing_behind
          ∙ append-nil payload)
        ∙ sym (append-nil (frame_body hdr payload))

    pub build_frame-Emits :
        let (frame, g') = build_frame g type payload timestamp_ns in Emits g (frame ∷ []) g'
    unfolding hdr build_frame
    build_frame-Emits = record {
      numbered = (
        record {
          header = hdr;
          payload = payload;
          fits = hdr-IsFrame;
          bytes = build_frame-bytes;
          source = refl;
          number = refl;
        },
        tt,
      );
      source = refl;
      number = refl;
    }

  -- The same source and number stand in the state, whatever else changed.
  pub Emits-from :
      (g h : MeasurementGenerator R) (frames : List Frame) (g' : MeasurementGenerator R)
      → h.src_id ≡ g.src_id
      → h.seq ≡ g.seq
      → Emits h frames g'
      → Emits g frames g'
  Emits-from g h frames g' e f s = record {
    numbered =
        subst (λ n. IsNumbered n g.seq frames) e
          (subst (λ n. IsNumbered h.src_id n frames) f s.numbered);
    source = s.source ∙ e;
    number = s.number ∙ ap (λ n. (n + length frames) % 2 ^ 32) f;
  }

  pub Emits-nothing :
      (g g' : MeasurementGenerator R)
      → g.seq < 2 ^ 32
      → g'.src_id ≡ g.src_id
      → g'.seq ≡ g.seq
      → Emits g [] g'
  Emits-nothing g g' h e f = record { numbered = tt; source = e; number = omega arith }

  pub Emits-append :
      (g : MeasurementGenerator R) (xs : List Frame) (h : MeasurementGenerator R) (ys : List Frame)
      (k : MeasurementGenerator R)
      → g.seq < 2 ^ 32
      → Emits g xs h
      → Emits h ys k
      → Emits g (xs ++ ys) k
  Emits-append g xs h ys k l s t = record {
    numbered =
        IsNumbered-append g.src_id g.seq h.seq xs ys (sym s.number) (omega (arith, s.number)) l
          s.numbered (subst (λ n. IsNumbered n h.seq ys) s.source t.numbered);
    source = t.source ∙ s.source;
    number = omega (arith, s.number, t.number, length-append xs ys);
  }

  -- what a step leaves is ready again
  pub Emits-IsReady :
      (g : MeasurementGenerator R) (frames : List Frame) (g' : MeasurementGenerator R)
      → IsReady g
      → Emits g frames g'
      → IsReady g'
  Emits-IsReady g frames g' r s = (omega (arith, s.source, r.0), omega (arith, s.number))

  module _ {A : Type 0} (layout : PackedStruct A)
      (small : (x : A) → length (store layout x) ≤ 1024) where
    pub struct-Emits :
        (g : MeasurementGenerator R) (type : MsgType) (x : A) (timestamp_ns : ℕ)
        → IsReady g
        → timestamp_ns < 2 ^ 64
        → let (frame, g') = build_frame g type (store layout x) timestamp_ns in
          Emits g (frame ∷ []) g'
    struct-Emits g type x ts ready time =
        build_frame-Emits g type (store layout x) ts ready time (small x) (store-IsByte layout x)

  pub generate_engagement-Emits :
      (g : MeasurementGenerator R) (weapon_id : ℕ) (mode : WeaponMode)
      (assigned_track rounds barrel_temp bursts timestamp_ns : ℕ)
      → IsReady g
      → timestamp_ns < 2 ^ 64
      → let (frame, g') =
          generate_engagement g weapon_id mode assigned_track rounds barrel_temp bursts
            timestamp_ns in
        Emits g (frame ∷ []) g'
  unfolding generate_engagement
  generate_engagement-Emits g weapon_id mode assigned_track rounds barrel_temp bursts ts ready
        time =
      struct-Emits engagement_struct (λ x. unfold store pack pack_word in omega arith) g engagement
        _ ts ready time
