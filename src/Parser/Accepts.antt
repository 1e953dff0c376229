-- ===== src/Parser/Accepts.antt =====
-- src/gateway/telemetry_parser.cpp: `parse_frame` accepts exactly the frames of the protocol.
pub mod Verdict
use net_node_gateway.Prelude.{
  ℕ, ◌+◌, ◌^◌, ◌≤◌, ◌<◌, ◌≡◌, refl, sym, ap, ◌∙◌, Bool, true, false, some, List, [], ◌++◌, All,
  length, take, drop, if◌then◌else◌, arith, subst, ◌∷◌, length-append, length-take, length-drop,
  take-append_self, drop-append_self, take-append-drop, append_assoc, All-take, All-drop,
  All-append,
}
use net_node_gateway.Prelude.Pack.{
  IsByte, pack_word, unpack_word, length-pack_word, unpack_word-pack_word, unpack, total, Fits,
  pack_word-unpack_word, unpack_word_lt, take-add,
}
use net_node_gateway.Protocol.{TelemetryHeader, header_struct, deserialize_header}
use net_node_gateway.Protocol.Layout.{
  store, load, IsStorable, load-store, length-store, store-load, store-IsByte,
}
use net_node_gateway.Crc32.{crc32}
use net_node_gateway.Crc32.Detect.{crc32_lt}
use net_node_gateway.Parser.{ParseError, ParsedFrame, ok, parse_frame}
use net_node_gateway.Parser.Frames.{IsFrame, frame_body, frame_trailer, frame_bytes}
pub use net_node_gateway.Parser.Accepts.Verdict.{Accepted, parse_frame-Accepted}
use net_node_gateway.Parser.Accepts.Verdict.{parsed, Accepted-parse_frame, unpack-Fits}

module _ (h : TelemetryHeader) (payload rest : List ℕ) (f : IsFrame h payload) where
  tail_bytes : Bool → List ℕ
  tail_bytes c = payload ++ (frame_trailer h payload c ++ rest)

  regroup : (c : Bool) → frame_bytes h payload c ++ rest ≡ store header_struct h ++ tail_bytes c
  unfolding tail_bytes
  regroup c =
      append_assoc (frame_body h payload) (frame_trailer h payload c) rest
      ∙ append_assoc (store header_struct h) payload (frame_trailer h payload c ++ rest)

  pub header_back : (c : Bool) → deserialize_header (frame_bytes h payload c ++ rest) ≡ h
  unfolding deserialize_header
  header_back c = rw (regroup c) (load-store header_struct h (tail_bytes c) f.storable)

  payload_at : (c : Bool) → drop 18 (frame_bytes h payload c ++ rest) ≡ tail_bytes c
  payload_at c = rw (regroup c) (
      drop-append_self 18 (store header_struct h) (tail_bytes c)
        (length-store header_struct h f.storable))

  pub length-body : length (frame_body h payload) ≡ 18 + h.payload_len
  length-body = omega (
    arith,
    length-append (store header_struct h) payload,
    length-store header_struct h f.storable,
    f.payload_length,
  )

  body_at :
      (c : Bool)
      → take (18 + h.payload_len) (frame_bytes h payload c ++ rest) ≡ frame_body h payload
  body_at c =
      rw (append_assoc (frame_body h payload) (frame_trailer h payload c) rest)
        (take-append_self (18 + h.payload_len) (frame_body h payload) _ length-body)

  trailer_at :
      (c : Bool)
      → drop (18 + h.payload_len) (frame_bytes h payload c ++ rest)
        ≡ frame_trailer h payload c ++ rest
  trailer_at c =
      rw (append_assoc (frame_body h payload) (frame_trailer h payload c) rest)
        (drop-append_self (18 + h.payload_len) (frame_body h payload) _ length-body)

  body-IsByte : All IsByte (frame_body h payload)
  body-IsByte =
      All-append IsByte (store header_struct h) payload (store-IsByte header_struct h)
        f.payload_bytes

  stored_crc :
      unpack_word (take 4 (drop (18 + h.payload_len) (frame_bytes h payload true ++ rest)))
      ≡ crc32 (frame_body h payload)
  stored_crc =
      rw
        (
          trailer_at true,
          take-append_self 4 (pack_word 4 (crc32 (frame_body h payload))) rest
              (length-pack_word 4 _),
        )
        (unpack_word-pack_word 4 (crc32 (frame_body h payload))
          (crc32_lt (frame_body h payload) body-IsByte))

  long_enough :
      (c : Bool) (n : ℕ)
      → length (frame_trailer h payload c) ≡ n
      → 18 + h.payload_len + n ≤ length (frame_bytes h payload c ++ rest)
  long_enough c n e = omega (
    arith,
    length-append (frame_bytes h payload c) rest,
    length-append (frame_body h payload) (frame_trailer h payload c),
    length-body,
  )

  frame-Accepted : (c : Bool) → Accepted (frame_bytes h payload c ++ rest) c h
  frame-Accepted true = record {
    long_enough = long_enough true 4 (length-pack_word 4 _);
    version = f.version;
    known_type = f.known_type;
    payload_fits = f.payload_fits;
    checksum = λ _. ap crc32 (body_at true) ∙ sym stored_crc;
  }
  frame-Accepted false = record {
    long_enough = long_enough false 0 refl;
    version = f.version;
    known_type = f.known_type;
    payload_fits = f.payload_fits;
    checksum = λ e. cc;
  }

  parsed_frame :
      (c : Bool)
      → parsed (frame_bytes h payload c ++ rest) c ≡ record {
        header = h;
        payload_ptr = some (payload ++ (frame_trailer h payload c ++ rest));
        crc = if c then crc32 (frame_body h payload) else 0;
        has_crc = c;
      }
  unfolding tail_bytes
  parsed_frame true = rw (header_back true, payload_at true, stored_crc)
  parsed_frame false = rw (header_back false, payload_at false)

  -- A frame of the protocol is accepted, whatever bytes follow it in the datagram. The parser
  -- returns its header, a pointer to its payload, and its checksum (0 where that is disabled).
  pub parse_frame-frame_bytes :
      (c : Bool) (out : ParsedFrame)
      → parse_frame (frame_bytes h payload c ++ rest) c out ≡ (
        ok,
        record {
          header = h;
          payload_ptr = some (payload ++ (frame_trailer h payload c ++ rest));
          crc = if c then crc32 (frame_body h payload) else 0;
          has_crc = c;
        },
      )
  parse_frame-frame_bytes c out =
      Accepted-parse_frame _ c out (
        subst (Accepted (frame_bytes h payload c ++ rest) c) (sym (header_back c))
          (frame-Accepted c))
      ∙ ap (λ (p : ParsedFrame). (ok, p)) (parsed_frame c)

module _ (buf : List ℕ) (hb : All IsByte buf) where
  header_bytes : 18 ≤ length buf → store header_struct (deserialize_header buf) ≡ take 18 buf
  unfolding deserialize_header
  header_bytes l = store-load header_struct buf (unfold load unpack in refl) hb l

  header-IsStorable : 18 ≤ length buf → IsStorable header_struct (deserialize_header buf)
  unfolding deserialize_header load unpack
  header-IsStorable l = unpack-Fits header_struct.layout buf hb l

  body_bytes :
      (n : ℕ)
      → 18 ≤ length buf
      → frame_body (deserialize_header buf) (take n (drop 18 buf)) ≡ take (18 + n) buf
  body_bytes n l = rw (header_bytes l) (sym (take-add 18 n buf))

  trailer_bytes :
      (c : Bool)
      → Accepted buf c (deserialize_header buf)
      → let n = (deserialize_header buf).payload_len in
        frame_trailer (deserialize_header buf) (take n (drop 18 buf)) c
        ≡ take (if c then 4 else 0) (drop (18 + n) buf)
  trailer_bytes true a =
      rw (body_bytes n (omega (arith, a.long_enough)), a.checksum refl)
        (pack_word-unpack_word 4 (take 4 (drop (18 + n) buf))
          (All-take IsByte 4 _ (All-drop IsByte (18 + n) buf hb))
          (omega
            (arith, a.long_enough, length-take 4 (drop (18 + n) buf), length-drop (18 + n) buf)))
    where
      n : ℕ
      n = (deserialize_header buf).payload_len
  trailer_bytes false a = refl

  Accepted-sound :
      (c : Bool)
      → Accepted buf c (deserialize_header buf)
      → (payload : List ℕ) × (rest : List ℕ) × IsFrame (deserialize_header buf) payload
        × (buf ≡ frame_bytes (deserialize_header buf) payload c ++ rest)
  Accepted-sound c a = (
    take n (drop 18 buf),
    drop (if c then 4 else 0) (drop (18 + n) buf),
    record {
      storable = header-IsStorable (omega (arith, a.long_enough));
      version = a.version;
      known_type = a.known_type;
      payload_fits = a.payload_fits;
      payload_length =
          omega (arith, a.long_enough, length-take n (drop 18 buf), length-drop 18 buf);
      payload_bytes = All-take IsByte n _ (All-drop IsByte 18 buf hb);
    },
    rw (trailer_bytes c a, body_bytes n (omega (arith, a.long_enough)))
        (sym (
          append_assoc (take (18 + n) buf) _ _
          ∙ ap (◌++◌ (take (18 + n) buf))
              (take-append-drop (if c then 4 else 0) (drop (18 + n) buf))
          ∙ take-append-drop (18 + n) buf)),
  )
    where
      n : ℕ
      n = (deserialize_header buf).payload_len

-- What the parser accepts is a frame of the protocol, with the header that it returns, followed by
-- any bytes. So `payload_len` bytes of payload, and the checksum where it is enabled, lie inside
-- the datagram.
pub parse_frame_sound :
    (buf : List ℕ) (c : Bool) (out : ParsedFrame)
    → All IsByte buf
    → (parse_frame buf c out).0 ≡ ok
    → (payload : List ℕ) × (rest : List ℕ) × IsFrame (parse_frame buf c out).1.header payload
      × (buf ≡ frame_bytes (parse_frame buf c out).1.header payload c ++ rest)
parse_frame_sound buf c out hb e =
    rw (ap (λ (r : ParseError × ParsedFrame). r.1.header) (Accepted-parse_frame buf c out a))
      (Accepted-sound buf hb c a)
  where
    a : Accepted buf c (deserialize_header buf)
    a = parse_frame-Accepted buf c out e
