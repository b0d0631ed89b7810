-- ===== src/Edge/Wire/Headers.antt =====
-- The headers of pkg/edge/wire.go say who sends them, and come through the wire.
use mathlib.Core.List.{append-nil}
use n2n_go.Base.{
  ℕ, ◌<◌, ◌≡◌, refl, sym, ap, subst, ◌∙◌, [], ◌∷◌, ◌++◌, arith, length, drop, drop-append,
}
use n2n_go.Base.Bytes.{byte_at-lt, IsBytes, window, window-append-drop}
use n2n_go.Base.Exec.{ok, and_then-ok}
use n2n_go.Base.Keys.{Text}
use n2n_go.Edge.State.{EdgeEnv, EdgeClient}
use n2n_go.Edge.Wire.{next_seq, header_of, edge_header}
use n2n_go.Protocol.Datagram.{id_at}
use n2n_go.Protocol.Datagram.RoundTrip.{IsHeader}
use n2n_go.Protocol.Hash.{hash_community, hash_community_lt}
use n2n_go.Protocol.Header.{ProtoVHeader, copy_id, Id6, id_bytes, zero_id, copy_dest}
use n2n_go.Protocol.Mac.{HardwareAddr}

drop_all : (xs : Text) → drop (length xs) xs ≡ []
drop_all xs = ap (λ (ys : Text). drop (length xs) ys) (sym (append-nil xs)) ∙ drop-append xs []

module _ (mac : HardwareAddr) {id : Id6} (e : copy_id mac ≡ ok id) where
  copied : id_at 0 mac ≡ id
  unfolding copy_id id_at
  copied = ground arith

  id_bytes-copy_id : length mac ≡ 6 → id_bytes id ≡ mac
  unfolding id_at
  id_bytes-copy_id six =
      let rest : drop 6 mac ≡ [] = subst (λ n. drop n mac ≡ []) six (drop_all mac) in
      ap id_bytes (sym copied)
      ∙ sym (append-nil (window 0 6 mac))
      ∙ ap (λ (r : Text). window 0 6 mac ++ r) (sym rest)
      ∙ window-append-drop 6 mac (omega arith)

  copy_id-IsBytes : IsBytes mac → IsBytes (id_bytes id)
  unfolding id_at
  copy_id-IsBytes bytes =
      let at = λ (i : ℕ). byte_at-lt i mac bytes in
      subst (λ x. IsBytes (id_bytes x)) copied (at 0, (at 1, (at 2, (at 3, (at 4, (at 5, tt))))))

copy_dest-IsBytes :
    (dst : HardwareAddr) {id : Id6} → IsBytes dst → copy_dest dst ≡ ok id → IsBytes (id_bytes id)
unfolding copy_dest
copy_dest-IsBytes [] {id} bytes e =
    let zeroes : zero_id ≡ id = ground arith in
    let z : 0 < 256 = omega arith in
    subst (λ x. IsBytes (id_bytes x)) zeroes (z, (z, (z, (z, (z, (z, tt))))))
copy_dest-IsBytes (b ∷ bs) bytes e = copy_id-IsBytes (b ∷ bs) e bytes

-- A header of an edge: its fields fit, and it names the edge and its community.
pub record IsEdgeHeader (e : EdgeClient) (packet_type : ℕ) (h : ProtoVHeader) : Type 0 where
  pub fits : IsHeader h
  pub typed : h.packet_type ≡ packet_type
  pub community : h.community_id ≡ hash_community e.community
  pub source : id_bytes h.source_id ≡ e.mac_addr

-- The address of an edge is six bytes.
pub record HasMac (e : EdgeClient) : Type 0 where
  pub size : length e.mac_addr ≡ 6
  pub bytes : IsBytes e.mac_addr

header_of-IsHeader :
    (env : EdgeEnv) (kind : ℕ) (e : EdgeClient) (source dest : Id6)
    → kind < 256
    → IsBytes (id_bytes source)
    → IsBytes (id_bytes dest)
    → IsHeader (header_of env kind e source dest)
unfolding header_of
header_of-IsHeader env kind e source dest small from to = record {
  version = refl;
  ttl = omega arith;
  packet_type = small;
  flags = omega arith;
  sequence = omega arith;
  community_id = hash_community_lt e.community;
  source_id = from;
  dest_id = to;
  timestamp = omega arith;
  checksum = omega arith;
}

-- A header that `EdgeHeader` makes.
pub edge_header_ok :
    (env : EdgeEnv) (kind : ℕ) (dst : HardwareAddr) (e : EdgeClient) {h : ProtoVHeader}
    {t : EdgeClient}
    → HasMac e
    → IsBytes dst
    → kind < 256
    → edge_header env kind dst e ≡ (ok h, t)
    → IsEdgeHeader e kind h × (t.sent ≡ e.sent) × (t.has_wss ≡ e.has_wss)
unfolding edge_header header_of
edge_header_ok env kind dst e {h} {t} mac bytes small run =
    let (source, from, run1) = and_then-ok (copy_id e.mac_addr, next_seq e) _ run in
    let (dest, to, run2) = and_then-ok (copy_dest dst, next_seq e) _ run1 in
    let made : header_of env kind (next_seq e) source dest ≡ h = ground arith in
    (
      subst (IsEdgeHeader e kind) made (record {
        fits =
            header_of-IsHeader env kind (next_seq e) source dest small
              (copy_id-IsBytes e.mac_addr from mac.bytes) (copy_dest-IsBytes dst bytes to);
        typed = refl;
        community = refl;
        source = id_bytes-copy_id e.mac_addr from mac.size;
      }),
      ground arith,
      ground arith,
    )
