-- ===== src/Parser/Corruption.antt =====
-- src/gateway/telemetry_parser.cpp: damaged frames are refused when the checksum is enabled.
use net_node_gateway.Prelude.{
  ℕ, zero, suc, ◌+◌, ◌-◌, ◌≤◌, ◌≡◌, ◌≢◌, refl, sym, subst, ap, ◌∙◌, true, List, [], ◌∷◌, ◌++◌, All,
  length, take, drop, arith, length-append, All-take,
}
use net_node_gateway.Prelude.Pack.{IsByte, unpack_word}
use net_node_gateway.Protocol.{TelemetryHeader, deserialize_header}
use net_node_gateway.Crc32.{crc32}
use net_node_gateway.Crc32.Detect.{crc32_detects_burst}
use net_node_gateway.Parser.{ParsedFrame, ok, parse_frame}
use net_node_gateway.Parser.Accepts.{Accepted, parse_frame-Accepted}

take-append_ge :
    (n : ℕ) (xs ys : List ℕ) → length xs ≤ n → take n (xs ++ ys) ≡ xs ++ take (n - length xs) ys
take-append_ge n [] ys h = ap (λ (k : ℕ). take k ys) (omega arith)
take-append_ge zero (x ∷ xs) ys h = absurd (omega arith)
take-append_ge (suc n) (x ∷ xs) ys h =
    ap (◌∷◌ x)
      (take-append_ge n xs ys (omega arith) ∙ ap (λ (k : ℕ). xs ++ take k ys) (omega arith))

drop-append_ge :
    (n : ℕ) (xs ys : List ℕ) → length xs ≤ n → drop n (xs ++ ys) ≡ drop (n - length xs) ys
drop-append_ge n [] ys h = ap (λ (k : ℕ). drop k ys) (omega arith)
drop-append_ge zero (x ∷ xs) ys h = absurd (omega arith)
drop-append_ge (suc n) (x ∷ xs) ys h =
    drop-append_ge n xs ys (omega arith) ∙ ap (λ (k : ℕ). drop k ys) (omega arith)

-- The checksum test of an accepted datagram, for a front `zs` that the checksum covers.
covered :
    (zs ys : List ℕ) (h : TelemetryHeader) (n k : ℕ)
    → h.payload_len ≡ n
    → length zs + k ≡ 18 + n
    → Accepted (zs ++ ys) true h
    → crc32 (zs ++ take k ys) ≡ unpack_word (take 4 (drop k ys))
covered zs ys h n k e l a =
    ap crc32 (sym front)
    ∙ subst Checked e (a.checksum refl)
    ∙ ap (λ (t : List ℕ). unpack_word (take 4 t)) back
  where
    Checked : ℕ → Type 0
    Checked m = crc32 (take (18 + m) (zs ++ ys)) ≡ unpack_word (take 4 (drop (18 + m) (zs ++ ys)))

    rest : 18 + n - length zs ≡ k
    rest = omega arith

    front : take (18 + n) (zs ++ ys) ≡ zs ++ take k ys
    front = rw (take-append_ge (18 + n) zs ys (omega arith), rest)

    back : drop (18 + n) (zs ++ ys) ≡ drop k ys
    back = rw (drop-append_ge (18 + n) zs ys (omega arith), rest)

-- Let a datagram be accepted with its checksum, and let up to four consecutive bytes of its header
-- and payload be changed, but not the payload length that the header states. Then the changed
-- datagram is refused.
pub parse_frame_detects_burst :
    (xs us vs ys : List ℕ) (out out' : ParsedFrame)
    → All IsByte xs
    → All IsByte us
    → All IsByte vs
    → All IsByte ys
    → length us ≡ length vs
    → length us ≤ 4
    → us ≢ vs
    → (deserialize_header (xs ++ us ++ ys)).payload_len
      ≡ (deserialize_header (xs ++ vs ++ ys)).payload_len
    → length xs + length us ≤ 18 + (deserialize_header (xs ++ us ++ ys)).payload_len
    → (parse_frame (xs ++ us ++ ys) true out).0 ≡ ok
    → (parse_frame (xs ++ vs ++ ys) true out').0 ≢ ok
parse_frame_detects_burst xs us vs ys out out' hx hu hv hy e l ne same inside good bad =
    crc32_detects_burst xs us vs (take k ys) hx hu hv (All-take IsByte k ys hy) e l ne (
      covered (xs ++ us) ys _ n k refl (omega (arith, length-append xs us)) first
      ∙ sym (covered (xs ++ vs) ys _ n k (sym same) (omega (arith, length-append xs vs)) second))
  where
    n : ℕ
    n = (deserialize_header (xs ++ us ++ ys)).payload_len

    k : ℕ
    k = 18 + n - (length xs + length us)

    first : Accepted (xs ++ us ++ ys) true (deserialize_header (xs ++ us ++ ys))
    first = parse_frame-Accepted (xs ++ us ++ ys) true out good

    second : Accepted (xs ++ vs ++ ys) true (deserialize_header (xs ++ vs ++ ys))
    second = parse_frame-Accepted (xs ++ vs ++ ys) true out' bad
