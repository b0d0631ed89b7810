-- ===== src/Protocol/Datagram/Flagging.antt =====
-- What a supernode does to a packet that it forwards.
use n2n_go.Base.{
  ℕ, ◌<◌, bit_and, bit_or, ◌≡◌, refl, ap, ◌∙◌, Bool, true, not, ◌&&◌, arith, ltb, nat_beq,
}
use n2n_go.Base.Bytes.{IsBytes}
use n2n_go.Base.Exec.{ok}
use n2n_go.Base.Keys.{Text}
use n2n_go.Base.Tables.{every_below_sound, every_below}
use n2n_go.Protocol.Datagram.{pack, flag_packet_from_supernode, unpack}
use n2n_go.Protocol.Datagram.RoundTrip.{pack-unpack, IsHeader, unpack-pack}
use n2n_go.Protocol.Header.{is_from_supernode, ProtoVHeader, set_from_supernode}

abbrev flag_fine : ℕ → Bool
flag_fine x =
    ltb (bit_or x 2) 256
    && nat_beq (bit_or (bit_or x 2) 2) (bit_or x 2)
    && not (nat_beq (bit_and (bit_or x 2) 2) 0)

flag_table : every_below 256 flag_fine ≡ true
unfolding every_below
flag_table = refl

flag_facts :
    (x : ℕ)
    → x < 256
    → (bit_or x 2 < 256)
      × (bit_or (bit_or x 2) 2 ≡ bit_or x 2)
      × (not (nat_beq (bit_and (bit_or x 2) 2) 0) ≡ true)
flag_facts x h = ground (arith, every_below_sound 256 flag_fine x flag_table h)

flagged-IsHeader : (h : ProtoVHeader) → IsHeader h → IsHeader (set_from_supernode true h)
unfolding set_from_supernode
flagged-IsHeader h v = record {
  version = v.version;
  ttl = v.ttl;
  packet_type = v.packet_type;
  flags = (flag_facts h.flags v.flags).0;
  sequence = v.sequence;
  community_id = v.community_id;
  source_id = v.source_id;
  dest_id = v.dest_id;
  timestamp = v.timestamp;
  checksum = v.checksum;
}

flagged_twice :
    (h : ProtoVHeader)
    → h.flags < 256
    → set_from_supernode true (set_from_supernode true h) ≡ set_from_supernode true h
unfolding set_from_supernode
flagged_twice h v = λ i. record (set_from_supernode true h) { flags = (flag_facts h.flags v).1 i }

flagged_reads :
    (h : ProtoVHeader) → h.flags < 256 → is_from_supernode (set_from_supernode true h) ≡ true
unfolding is_from_supernode set_from_supernode
flagged_reads h v = (flag_facts h.flags v).2

flag_unpacked :
    (packet : Text) (h : ProtoVHeader) (payload : Text)
    → unpack packet ≡ ok (h, payload)
    → flag_packet_from_supernode packet ≡ ok (pack (set_from_supernode true h) payload)
unfolding flag_packet_from_supernode
flag_unpacked packet h payload e = rw e refl

-- Flagging a packet of bytes that unpacks succeeds; the result unpacks to the same payload and the
-- same header but for the flag, reads as coming from the supernode, and flagging it once more
-- changes nothing.
flag_packet_from_supernode_lem :
    (packet : Text) (h : ProtoVHeader) (payload : Text)
    → IsBytes packet
    → unpack packet ≡ ok (h, payload)
    → (out : Text) × (flag_packet_from_supernode packet ≡ ok out)
      × (unpack out ≡ ok (set_from_supernode true h, payload))
      × (is_from_supernode (set_from_supernode true h) ≡ true)
      × (flag_packet_from_supernode out ≡ ok out)
flag_packet_from_supernode_lem packet h payload bytes e =
    let v = (pack-unpack packet h payload bytes e).0 in
    let h' = set_from_supernode true h in
    let again = unpack-pack h' payload (flagged-IsHeader h v) in
    (
      pack h' payload,
      flag_unpacked packet h payload e,
      again,
      flagged_reads h v.flags,
      flag_unpacked (pack h' payload) h' payload again
          ∙ ap (λ t. ok (pack t payload)) (flagged_twice h v.flags),
    )
