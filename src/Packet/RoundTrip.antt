-- ===== src/Packet/RoundTrip.antt =====
-- What the receiver of a serialized Horus packet (core/net/horus_pkt.go) decodes.
use mathlib.Core.List.{append-nil, append_assoc}
use horus_controller.Prelude.{
  ◌<◌, ◌↔◌, [], ◌∷◌, drop, ℕ, zero, suc, ◌+◌, ◌-◌, ◌*◌, ◌≡◌, refl, ap, ◌∙◌, inl, inr, some, List,
  ◌++◌, arith, ltb, Bool-cases, Option-cases, length,
}
use horus_controller.Packet.{
  decode_from_bytes, high_byte, low_byte, serialize_to, HorusPacket, SerializeBuffer, header, zeros,
}

-- The two bytes of a 16-bit number, exchanged.
abbrev pub swap_bytes : ℕ → ℕ
swap_bytes x = low_byte x * 256 + high_byte x

abbrev pub swapped : HorusPacket → HorusPacket
swapped p = record {
  pkt_type = p.pkt_type;
  cluster_id = swap_bytes p.cluster_id;
  src_id = swap_bytes p.src_id;
  dst_id = swap_bytes p.dst_id;
  q_len = swap_bytes p.q_len;
  seq_num = swap_bytes p.seq_num;
}

-- What follows the header: the payload, and zeros up to 50 bytes in all.
abbrev pub padded : List ℕ → List ℕ
padded payload = payload ++ zeros (39 - length payload)

length-zeros : (n : ℕ) → length (zeros n) ≡ n
length-zeros zero = refl
length-zeros (suc n) = ap suc (length-zeros n)

module _ (buf : SerializeBuffer) where
  open buf use {Buffer, bytes, prepend_bytes, append_bytes, prepend_law, append_law}

  -- A serialized packet is the header, the bytes that were in the buffer, and zeros up to 50 bytes.
  pub serialize_to_lem :
      (p : HorusPacket) (b b' : Buffer)
      → serialize_to buf p b ≡ some b'
      → bytes b' ≡ header p ++ padded (bytes b)
  unfolding serialize_to
  serialize_to_lem p b b' h = elim (Option-cases (prepend_bytes 11 b)) [
    | inl e ↦ ground arith
    | inr (fill, e) ↦
        let filled : bytes (fill (header p)) ≡ header p ++ bytes b =
          prepend_law 11 b fill (header p) e (unfold header in refl) in
        let size : length (bytes (fill (header p))) ≡ 11 + length (bytes b) =
          rw filled (unfold header in omega arith) in
        elim (Bool-cases (ltb (length (bytes (fill (header p)))) 50)) [
          | inr big ↦
              let none_left : 39 - length (bytes b) ≡ 0 = ground (arith, size) in
              let same : b' ≡ fill (header p) = ground arith in
              rw (same, filled, none_left, append-nil (bytes b))
          | inl small ↦
              let room : 50 - length (bytes (fill (header p))) ≡ 39 - length (bytes b) =
                omega (arith, size) in
              elim (Option-cases
                (append_bytes (50 - length (bytes (fill (header p)))) (fill (header p)))) [
                  | inl e' ↦ ground arith
                  | inr (pad, e') ↦
                      let same : b' ≡ pad (zeros (50 - length (bytes (fill (header p))))) =
                        ground arith in
                      let done =
                        append_law (50 - length (bytes (fill (header p)))) (fill (header p)) pad
                          (zeros (50 - length (bytes (fill (header p))))) e' (length-zeros _) in
                      rw same (
                        done
                        ∙ (rw (room, filled)
                            (append_assoc (header p) (bytes b) (zeros (39 - length (bytes b))))))
                ]
        ]
  ]

-- Decoding exchanges the bytes of each 16-bit field, and leaves out one byte behind the header.
decode-header :
    (p : HorusPacket) (x : ℕ) (rest : List ℕ)
    → decode_from_bytes (header p ++ x ∷ rest)
      ≡ some (record { packet = swapped p; contents = header p; payload = rest })
unfolding decode_from_bytes header
decode-header p x rest = ground arith

padded_cases : (xs : List ℕ) → (x : ℕ) × (padded xs ≡ x ∷ drop 1 (padded xs))
padded_cases [] = (0, refl)
padded_cases (x ∷ xs) = (x, refl)

-- A packet that is serialized and then decoded keeps its type and has the two bytes of every other
-- field exchanged: the header is written most significant byte first and read least significant
-- byte first. The decoded payload lacks the first byte behind the header.
pub decode-serialize :
    (buf : SerializeBuffer) (p : HorusPacket) (b b' : buf.Buffer)
    → serialize_to buf p b ≡ some b'
    → decode_from_bytes (buf.bytes b')
      ≡ some (record {
        packet = swapped p;
        contents = header p;
        payload = drop 1 (padded (buf.bytes b));
      })
decode-serialize buf p b b' h =
    let (x, e) = padded_cases (buf.bytes b) in
    rw (serialize_to_lem buf p b b' h, e) (decode-header p x (drop 1 (padded (buf.bytes b))))

-- A field survives the way exactly if its two bytes are equal.
pub swap_bytes_iff : (x : ℕ) → x < 65536 → (swap_bytes x ≡ x) ↔ (high_byte x ≡ low_byte x)
swap_bytes_iff x h = (λ e. omega arith, λ e. omega arith)
