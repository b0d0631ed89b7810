-- ===== src/Tests/Packets.antt =====
-- Runs of pkg/protocol and pkg/machine.
use n2n_go.Base.{◌≡◌, refl, Option, some, [], ◌∷◌, ◌++◌, arith}
use n2n_go.Base.Bytes.{IsBytes}
use n2n_go.Base.Exec.{ok}
use n2n_go.Base.Keys.{Text}
use n2n_go.Machine.Mac.{ext_generate_mac, generate_mac}
use n2n_go.Machine.Mac.Shape.{ext_generate_mac_lem, IsLocalUnicast}
use n2n_go.Protocol.Datagram.{unpack, header_bytes, pack}
use n2n_go.Protocol.Datagram.RoundTrip.{unpack-pack, IsHeader, pack-unpack}
use n2n_go.Protocol.Fuze.{v_fuze_packet_dest_mac_addr, version_v_fuze}
use n2n_go.Protocol.Header.{ProtoVHeader}
use n2n_go.Protocol.Mac.{HardwareAddr}
use n2n_go.Protocol.Spec.{type_data}
use n2n_go.Supernode.State.Messages.{PeerListRequest}
use n2n_go.Tests.Fixtures.{
  bob, all_bytes_sound, header_from-IsHeader, lan, alice, header_from, machine_id,
}

abbrev sample_header : ProtoVHeader
sample_header = header_from alice bob type_data

abbrev sample_packet : Text
sample_packet = pack sample_header (5 ∷ 6 ∷ [])

sample-IsHeader : IsHeader sample_header
sample-IsHeader =
    header_from-IsHeader alice bob type_data (omega arith) (all_bytes_sound alice refl)
      (all_bytes_sound bob refl)

sample-IsBytes : IsBytes sample_packet
unfolding pack header_bytes
sample-IsBytes = all_bytes_sound sample_packet refl

unpack-pack_example : unpack (pack sample_header (5 ∷ 6 ∷ [])) ≡ ok (sample_header, 5 ∷ 6 ∷ [])
unpack-pack_example = unpack-pack sample_header (5 ∷ 6 ∷ []) sample-IsHeader

pack-unpack_example : IsHeader sample_header × (pack sample_header (5 ∷ 6 ∷ []) ≡ sample_packet)
pack-unpack_example =
    pack-unpack sample_packet sample_header (5 ∷ 6 ∷ []) sample-IsBytes
      (unpack-pack sample_header (5 ∷ 6 ∷ []) sample-IsHeader)

abbrev fuze_packet : Text
fuze_packet = version_v_fuze ∷ bob ++ 5 ∷ []

fuze_dest : v_fuze_packet_dest_mac_addr fuze_packet ≡ ok bob
unfolding v_fuze_packet_dest_mac_addr
fuze_dest = refl

abbrev decode_list_request : Text → Option PeerListRequest
decode_list_request t = some (record { community_name = t })

ext_generate_mac_example :
    (mac : HardwareAddr) × (ext_generate_mac lan machine_id ≡ ok mac)
    × (generate_mac (some machine_id) lan ≡ ok mac)
    × IsLocalUnicast mac
ext_generate_mac_example = ext_generate_mac_lem lan machine_id
