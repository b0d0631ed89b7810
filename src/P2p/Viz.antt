-- ===== src/P2p/Viz.antt =====
-- pkg/p2p/p2viz.go: the picture of a community, before it is drawn. Its keys are strings that are cut
-- apart again.
pub mod Grey
use n2n_go.Base.{
  ℕ, Bool, true, false, ◌&&◌, Option, none, some, List, [], ◌∷◌, ◌++◌, nat_beq, if◌then◌else◌,
}
use n2n_go.Base.Exec.{Result, ok, err, ◌>>=◌}
use n2n_go.Base.Keys.{text_lt, Text, text_eq, nat_eq}
use n2n_go.Base.Maps.{Map, values, get, put, keys}
use n2n_go.Errors.{Error}
use n2n_go.P2p.Peer.{PeerP2PInfos, PeerInfo}
use n2n_go.P2p.Status.{p2p_available, p2p_unknown}

pub data ConnectionType : Type 0 where
  full_p2p partial_a_to_b partial_b_to_a no_p2p : ConnectionType

pub record ConnectionInfo : Type 0 where
  pub status : ℕ
  pub from_peer : Text
  pub to_peer : Text

starts_with_gt : Text → Bool
starts_with_gt [] = false
starts_with_gt (b ∷ bs) = nat_beq b 62

-- A character in front of the first piece.
abbrev onto_first : ℕ → List Text → List Text
onto_first b [] = []
onto_first b (p ∷ ps) = (b ∷ p) ∷ ps

-- `strings.Split(s, "->")`; the flag says that the ">" of a separator is still to be passed over.
unfoldable pub split_arrow : Bool → Text → List Text
unfolding starts_with_gt
split_arrow skip [] = [] ∷ []
split_arrow true (b ∷ bs) = split_arrow false bs
split_arrow false (b ∷ bs) =
    let cut = nat_beq b 45 && starts_with_gt bs in
    let rest = split_arrow cut bs in if cut then [] ∷ rest else onto_first b rest

-- `strings.Split(s, ",")`
unfoldable pub split_comma : Text → List Text
split_comma [] = [] ∷ []
split_comma (b ∷ bs) =
    let rest = split_comma bs in if nat_beq b 44 then [] ∷ rest else onto_first b rest

-- The first two pieces, which must be there.
abbrev first_two : List Text → Result Error (Text × Text)
first_two [] = err Error.bad_pair_key
first_two (p ∷ []) = err Error.bad_pair_key
first_two (p ∷ q ∷ rest) = ok (p, q)

-- `newPeerDirectedPairKey`
abbrev pub directed_key : Text → Text → Text
directed_key from to = from ++ 45 ∷ 62 ∷ to

-- `GetDirectedPeers`
unfoldable pub get_directed_peers : Text → Result Error (Text × Text)
get_directed_peers key = first_two (split_arrow false key)

-- `newPeerPairKey`
unfoldable pub pair_key : Text → Text → Text
pair_key a b = if text_lt a b then a ++ 44 ∷ b else b ++ 44 ∷ a

-- `ToPeerPairKey`
unfoldable pub to_peer_pair_key : Text → Result Error Text
to_peer_pair_key key = do ends ← get_directed_peers key; ok (pair_key ends.0 ends.1)

-- `getPeers`
unfoldable pub get_peers : Text → Result Error (Text × Text)
get_peers key = first_two (split_comma key)

is_p2p : Option ConnectionInfo → Bool
is_p2p none = false
is_p2p (some info) = nat_beq info.status p2p_available

-- The cases of `getConnectionType`
connection_between : Bool → Bool → ConnectionType
connection_between true true = full_p2p
connection_between true false = partial_a_to_b
connection_between false true = partial_b_to_a
connection_between false false = no_p2p

-- `getConnectionType`
unfoldable pub get_connection_type : Text → Text → Map Text ConnectionInfo → ConnectionType
unfolding is_p2p connection_between
get_connection_type a b connections =
    connection_between (is_p2p (get (directed_key a b) connections))
      (is_p2p (get (directed_key b a) connections))

-- `CommunityP2PVizDatas`
pub record VizDatas : Type 0 where
  pub community_name : Text
  pub peers_desc_to_vip : Map Text Text
  pub p2p_availability_infos : Map Text PeerP2PInfos
  pub connection_data : Map Text ConnectionInfo
  pub peer_pairs : Map Text Bool
  pub p2p_states : Map Text ConnectionType

-- `GetFrom().GetDesc()` and `GetFrom().GetVirtualIp()`, empty for a nil pointer
abbrev from_desc : PeerP2PInfos → Text
from_desc m = elim m.from_peer [ none ↦ [] | some p ↦ p.desc ]

abbrev from_vip : PeerP2PInfos → Text
from_vip m = elim m.from_peer [ none ↦ [] | some p ↦ p.virtual_ip ]

connect_all : Text → List PeerInfo → Map Text ConnectionInfo → Map Text ConnectionInfo
connect_all from [] m = m
connect_all from (p ∷ ps) m = connect_all from ps (
    put (directed_key from p.desc)
      (record { status = p2p_unknown; from_peer = from; to_peer = p.desc }) m)

connections_of : List PeerP2PInfos → Map Text ConnectionInfo → Map Text ConnectionInfo
unfolding connect_all
connections_of [] m = m
connections_of (i ∷ is) m = connections_of is (connect_all (from_desc i) i.to_peers m)

vips_of : List PeerP2PInfos → Map Text Text → Map Text Text
vips_of [] m = m
vips_of (i ∷ is) m = vips_of is (put (from_desc i) (from_vip i) m)

pairs_of : List Text → Map Text Bool → Result Error (Map Text Bool)
pairs_of [] m = ok m
pairs_of (key ∷ more) m = do pair ← to_peer_pair_key key; pairs_of more (put pair true m)

states_of :
    Map Text ConnectionInfo
    → List Text
    → Map Text ConnectionType
    → Result Error (Map Text ConnectionType)
states_of connections [] m = ok m
states_of connections (pair ∷ more) m = do
  ends ← get_peers pair
  states_of connections more (put pair (get_connection_type ends.0 ends.1 connections) m)

-- `NewCommunityP2PVizDatas`
unfoldable pub new_community_p2p_viz_datas : Text → Map Text PeerP2PInfos → Result Error VizDatas
unfolding connections_of vips_of pairs_of states_of
new_community_p2p_viz_datas community peer_infos =
    let connections = connections_of (values peer_infos) [] in
    do
      pairs ← pairs_of (keys connections) []
      states ← states_of connections (keys pairs) []
      ok (record {
        community_name = community;
        peers_desc_to_vip = vips_of (values peer_infos) [];
        p2p_availability_infos = peer_infos;
        connection_data = connections;
        peer_pairs = pairs;
        p2p_states = states;
      })
