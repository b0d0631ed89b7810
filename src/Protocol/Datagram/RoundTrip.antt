-- ===== src/Protocol/Datagram/RoundTrip.antt =====
-- Packing and unpacking undo each other.
use n2n_go.Base.{
  ℕ, suc, ◌/◌, ◌%◌, ◌^◌, ◌≤◌, ◌<◌, ◌≡◌, refl, sym, ap, ap₂, subst, ◌∙◌, [], ◌∷◌, ◌++◌, arith,
  length, drop,
}
use n2n_go.Base.Bytes.{
  u16, window-append-drop, window, byte_at-lt, be32, be16, IsBytes, byte_at, u32,
}
use n2n_go.Base.Exec.{ok}
use n2n_go.Base.Keys.{Text}
use n2n_go.Protocol.Datagram.{pack, unpack, header_bytes, read_header}
use n2n_go.Protocol.Header.{version_v, ProtoVHeader, id_bytes, proto_v_header_size}

-- Every field fits the width that it has on the wire.
pub record IsHeader (h : ProtoVHeader) : Type 0 where
  pub version : h.version ≡ version_v
  pub ttl : h.ttl < 256
  pub packet_type : h.packet_type < 256
  pub flags : h.flags < 256
  pub sequence : h.sequence < 2 ^ 16
  pub community_id : h.community_id < 2 ^ 32
  pub source_id : IsBytes (id_bytes h.source_id)
  pub dest_id : IsBytes (id_bytes h.dest_id)
  pub timestamp : h.timestamp < 2 ^ 32
  pub checksum : h.checksum < 2 ^ 32

u16-be16 : (n : ℕ) → n < 2 ^ 16 → u16 (n / 256 % 256) (n % 256) ≡ n
u16-be16 n h = omega arith

u32-be32 :
    (n : ℕ) → n < 2 ^ 32 → u32 (n / 2 ^ 24 % 256) (n / 2 ^ 16 % 256) (n / 256 % 256) (n % 256) ≡ n
u32-be32 n h = omega arith

read_header-pack :
    (h : ProtoVHeader) (payload : Text) → IsHeader h → read_header (pack h payload) ≡ h
unfolding pack read_header
read_header-pack h payload v = λ i. record {
  version = h.version;
  ttl = h.ttl;
  packet_type = h.packet_type;
  flags = h.flags;
  sequence = u16-be16 h.sequence v.sequence i;
  community_id = u32-be32 h.community_id v.community_id i;
  source_id = h.source_id;
  dest_id = h.dest_id;
  timestamp = u32-be32 h.timestamp v.timestamp i;
  checksum = u32-be32 h.checksum v.checksum i;
}

unpack_long :
    (p : Text)
    → proto_v_header_size ≤ length p
    → byte_at 0 p ≡ version_v
    → unpack p ≡ ok (read_header p, drop proto_v_header_size p)
unfolding unpack
unpack_long p long version = ground arith

pub pack_long : (h : ProtoVHeader) (payload : Text) → proto_v_header_size ≤ length (pack h payload)
unfolding pack
pack_long h payload = omega arith

pub pack_version : (h : ProtoVHeader) (payload : Text) → byte_at 0 (pack h payload) ≡ h.version
unfolding pack
pack_version h payload = refl

drop-pack :
    (h : ProtoVHeader) (payload : Text) → drop proto_v_header_size (pack h payload) ≡ payload
unfolding pack
drop-pack h payload = refl

-- A datagram that is packed from a header whose fields fit unpacks to that header and payload.
pub unpack-pack :
    (h : ProtoVHeader) (payload : Text) → IsHeader h → unpack (pack h payload) ≡ ok (h, payload)
unpack-pack h payload v =
    unpack_long (pack h payload) (pack_long h payload) (pack_version h payload ∙ v.version)
    ∙ ap₂ (λ x y. ok (x, y)) (read_header-pack h payload v) (drop-pack h payload)

-- `unpack` accepts the packets of 30 bytes or more that begin with the version, and no others.
pub unpack-inv :
    (p : Text) (h : ProtoVHeader) (payload : Text)
    → unpack p ≡ ok (h, payload)
    → (proto_v_header_size ≤ length p)
      × (byte_at 0 p ≡ version_v)
      × (h ≡ read_header p)
      × (payload ≡ drop proto_v_header_size p)
unfolding unpack
unpack-inv p h payload e = ground arith

module _ (p : Text) (bytes : IsBytes p) where
  at : (i : ℕ) → byte_at i p < 256
  at i = byte_at-lt i p bytes

  read_header-IsHeader : byte_at 0 p ≡ version_v → IsHeader (read_header p)
  unfolding read_header
  read_header-IsHeader version = record {
    version = version;
    ttl = at 1;
    packet_type = at 2;
    flags = at 3;
    sequence = omega (arith, at 4, at 5);
    community_id = omega (arith, at 6, at 7, at 8, at 9);
    source_id = (at 10, (at 11, (at 12, (at 13, (at 14, (at 15, tt))))));
    dest_id = (at 16, (at 17, (at 18, (at 19, (at 20, (at 21, tt))))));
    timestamp = omega (arith, at 22, at 23, at 24, at 25);
    checksum = omega (arith, at 26, at 27, at 28, at 29);
  }

be16-u16 : (a b : ℕ) → a < 256 → b < 256 → be16 (u16 a b) ≡ a ∷ b ∷ []
be16-u16 a b ha hb = ap₂ (λ x y. x ∷ y ∷ []) (omega arith) (omega arith)

be32-u32 :
    (a b c d : ℕ) → a < 256 → b < 256 → c < 256 → d < 256 → be32 (u32 a b c d) ≡ a ∷ b ∷ c ∷ d ∷ []
be32-u32 a b c d ha hb hc hd = λ i. top i ∷ second i ∷ third i ∷ low i ∷ []
  where
    top : u32 a b c d / 2 ^ 24 % 256 ≡ a
    top = omega arith

    second : u32 a b c d / 2 ^ 16 % 256 ≡ b
    second = omega arith

    third : u32 a b c d / 256 % 256 ≡ c
    third = omega arith

    low : u32 a b c d % 256 ≡ d
    low = omega arith

header_bytes-read : (p : Text) → IsBytes p → header_bytes (read_header p) ≡ window 0 30 p
unfolding header_bytes read_header
header_bytes-read p bytes = λ i.
    byte_at 0 p ∷ byte_at 1 p ∷ byte_at 2 p ∷ byte_at 3 p ∷ []
    ++ (word 4 i ++ (long 6 i ++ (window 10 6 p ++ (window 16 6 p ++ (long 22 i ++ long 26 i)))))
  where
    word : (k : ℕ) → be16 (u16 (byte_at k p) (byte_at (suc k) p)) ≡ window k 2 p
    word k = be16-u16 _ _ (at p bytes k) (at p bytes (suc k))

    long :
        (k : ℕ)
        → be32 (
            u32
              (byte_at k p)
              (byte_at (suc k) p)
              (byte_at (suc (suc k)) p)
              (byte_at (suc (suc (suc k))) p))
          ≡ window k 4 p
    long k =
        be32-u32 _ _ _ _ (at p bytes k) (at p bytes (suc k)) (at p bytes (suc (suc k)))
          (at p bytes (suc (suc (suc k))))

pack-read :
    (p : Text)
    → IsBytes p
    → proto_v_header_size ≤ length p
    → pack (read_header p) (drop proto_v_header_size p) ≡ p
unfolding pack
pack-read p bytes long =
    ap (λ t. t ++ drop proto_v_header_size p) (header_bytes-read p bytes)
    ∙ window-append-drop proto_v_header_size p long

-- What unpacks from a packet of bytes is a header that fits, and packs to the same packet.
pub pack-unpack :
    (packet : Text) (h : ProtoVHeader) (payload : Text)
    → IsBytes packet
    → unpack packet ≡ ok (h, payload)
    → IsHeader h × (pack h payload ≡ packet)
pack-unpack packet h payload bytes e =
    let (long, version, eh, ep) = unpack-inv packet h payload e in
    (
      subst IsHeader (sym eh) (read_header-IsHeader packet bytes version),
      ap₂ pack eh ep ∙ pack-read packet bytes long,
    )
