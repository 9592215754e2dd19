-- ===== src/Packet.antt =====
-- core/net/horus_pkt.go: the header of Horus packets. The buffer that packets are serialized into is
-- gopacket's, and enters by the interface below.
pub mod RoundTrip
use horus_controller.Prelude.{
  ℕ, zero, suc, ◌+◌, ◌-◌, ◌*◌, ◌/◌, ◌%◌, ◌≡◌, Option, none, some, List, [], ◌∷◌, ◌++◌, ltb,
  if◌then◌else◌, length, number_key,
}

-- The packet types that the bus sends or receives.
abbrev pub pkt_type_idle_signal : ℕ
pkt_type_idle_signal = 0x06

abbrev pub pkt_type_idle_remove : ℕ
pkt_type_idle_remove = 0x0A

abbrev pub pkt_type_keep_alive : ℕ
pkt_type_keep_alive = 0x0B

abbrev pub pkt_type_worker_id : ℕ
pkt_type_worker_id = 0x0C

-- RestOfData is left out: neither direction reads or writes it.
pub record HorusPacket : Type 0 where
  pub pkt_type : ℕ  -- byte
  pub cluster_id : ℕ  -- uint16
  pub src_id : ℕ  -- uint16
  pub dst_id : ℕ  -- uint16
  pub q_len : ℕ  -- uint16
  pub seq_num : ℕ  -- uint16

-- The decoded packet with the two parts of its base layer.
pub record Decoded : Type 0 where
  pub packet : HorusPacket
  pub contents : List ℕ
  pub payload : List ℕ

-- gopacket.SerializeBuffer: a request for room at an end returns the bytes to fill, or an error.
pub record SerializeBuffer : Type 1 where
  pub Buffer : Type 0
  pub bytes : Buffer → List ℕ
  pub prepend_bytes : ℕ → Buffer → Option (List ℕ → Buffer)
  pub append_bytes : ℕ → Buffer → Option (List ℕ → Buffer)
  pub prepend_law :
      (n : ℕ) (b : Buffer) (fill : List ℕ → Buffer) (xs : List ℕ)
      → prepend_bytes n b ≡ some fill
      → length xs ≡ n
      → bytes (fill xs) ≡ xs ++ bytes b
  pub append_law :
      (n : ℕ) (b : Buffer) (fill : List ℕ → Buffer) (xs : List ℕ)
      → append_bytes n b ≡ some fill
      → length xs ≡ n
      → bytes (fill xs) ≡ bytes b ++ xs

-- `binary.BigEndian.PutUint16` of a 16-bit number.
abbrev pub high_byte : ℕ → ℕ
high_byte x = x / 256

abbrev pub low_byte : ℕ → ℕ
low_byte x = x % 256

-- The eleven bytes of the header.
unfoldable pub header : HorusPacket → List ℕ
header p =
    p.pkt_type
    ∷ high_byte p.cluster_id
    ∷ low_byte p.cluster_id
    ∷ high_byte p.src_id
    ∷ low_byte p.src_id
    ∷ high_byte p.dst_id
    ∷ low_byte p.dst_id
    ∷ high_byte p.q_len
    ∷ low_byte p.q_len
    ∷ high_byte p.seq_num
    ∷ low_byte p.seq_num
    ∷ []

abbrev pub zeros : ℕ → List ℕ
zeros zero = []
zeros (suc n) = 0 ∷ zeros n

module _ (buf : SerializeBuffer) where
  open buf use {Buffer, bytes, prepend_bytes, append_bytes}

  -- none is an error of the buffer.
  unfoldable pub serialize_to : HorusPacket → Buffer → Option Buffer
  unfolding header
  serialize_to p b = elim (prepend_bytes 11 b) [
    | none ↦ none
    | some fill ↦
        let with_header = fill (header p) in
        let size = length (bytes with_header) in
        if ltb size 50
        then elim (append_bytes (50 - size) with_header) [
          | none ↦ none
          | some pad ↦ some (pad (zeros (50 - size)))
        ]
        else some with_header
  ]

-- `binary.LittleEndian.Uint16`
abbrev pub little_endian : ℕ → ℕ → ℕ
little_endian b0 b1 = b0 + 256 * b1

-- none is the error "horus_hdr packet too small"; the byte at offset 11 is in neither part.
unfoldable pub decode_from_bytes : List ℕ → Option Decoded
decode_from_bytes (b0 ∷ b1 ∷ b2 ∷ b3 ∷ b4 ∷ b5 ∷ b6 ∷ b7 ∷ b8 ∷ b9 ∷ b10 ∷ b11 ∷ rest) =
    some (record {
      packet = record {
        pkt_type = b0;
        cluster_id = little_endian b1 b2;
        src_id = little_endian b3 b4;
        dst_id = little_endian b5 b6;
        q_len = little_endian b7 b8;
        seq_num = little_endian b9 b10;
      };
      contents = b0 ∷ b1 ∷ b2 ∷ b3 ∷ b4 ∷ b5 ∷ b6 ∷ b7 ∷ b8 ∷ b9 ∷ b10 ∷ [];
      payload = rest;
    })
decode_from_bytes _ = none
