-- ===== src/P2p/Viz/Grey.antt =====
-- What the picture of a community shows.
use n2n_go.Base.{
  ℕ, ◌≤◌, ◌≡◌, refl, ap, ap₂, ◌∙◌, inl, inr, Bool, true, false, ◌&&◌, some, List, [], ◌∷◌, ◌++◌,
  arith, nat_beq, Bool-cases, Option-cases, length, All, All-map,
}
use n2n_go.Base.Exec.{ok}
use n2n_go.Base.Keys.{Text, text_lt, text_eq, nat_eq}
use n2n_go.Base.Maps.{All-get, put, All-put, keys, Map, values, get}
use n2n_go.P2p.Peer.{PeerP2PInfos, PeerInfo}
use n2n_go.P2p.Status.{p2p_available, p2p_unknown}
use n2n_go.P2p.Viz.{
  directed_key, get_connection_type, ConnectionType, get_peers, VizDatas, get_directed_peers,
  no_p2p, ConnectionInfo, pair_key, split_arrow, to_peer_pair_key, new_community_p2p_viz_datas,
  split_comma, from_desc, connect_all, vips_of, states_of, is_p2p, pairs_of, connection_between,
  connections_of, first_two, onto_first, starts_with_gt,
}

first_two_ok : (ps : List Text) → 2 ≤ length ps → (r : Text × Text) × (first_two ps ≡ ok r)
first_two_ok [] h = absurd (omega arith)
first_two_ok (p ∷ []) h = absurd (omega arith)
first_two_ok (p ∷ q ∷ rest) h = ((p, q), refl)

length-onto_first : (b : ℕ) (ps : List Text) → length (onto_first b ps) ≡ length ps
length-onto_first b [] = refl
length-onto_first b (p ∷ ps) = refl

split_arrow_one : (skip : Bool) (s : Text) → 1 ≤ length (split_arrow skip s)
unfolding split_arrow
split_arrow_one skip [] = omega arith
split_arrow_one true (b ∷ bs) = split_arrow_one false bs
split_arrow_one false (b ∷ bs) =
    let cut = nat_beq b 45 && starts_with_gt bs in
    let ih = split_arrow_one cut bs in
    elim (Bool-cases cut) [
      | inl yes_ ↦ ground (arith, yes_)
      | inr no_ ↦ ground (arith, no_, length-onto_first b (split_arrow cut bs), ih)
    ]

split_arrow-directed_key : (from to : Text) → 2 ≤ length (split_arrow false (directed_key from to))
unfolding split_arrow starts_with_gt
split_arrow-directed_key [] to = omega (arith, split_arrow_one true (62 ∷ to))
split_arrow-directed_key (b ∷ bs) to =
    let s = directed_key bs to in
    let cut = nat_beq b 45 && starts_with_gt s in
    elim (Bool-cases cut) [
      | inl yes_ ↦ ground (arith, yes_, split_arrow_one true s)
      | inr no_ ↦
          ground
            (arith, no_, length-onto_first b (split_arrow false s), split_arrow-directed_key bs to)
    ]

split_comma_one : (s : Text) → 1 ≤ length (split_comma s)
unfolding split_comma
split_comma_one [] = omega arith
split_comma_one (b ∷ bs) = ground (arith, length-onto_first b (split_comma bs), split_comma_one bs)

split_comma_two : (a b : Text) → 2 ≤ length (split_comma (a ++ 44 ∷ b))
unfolding split_comma
split_comma_two [] b = omega (arith, split_comma_one b)
split_comma_two (x ∷ a) b = ground (
  arith,
  length-onto_first x (split_comma (a ++ 44 ∷ b)),
  split_comma_two a b,
  split_comma_one (a ++ 44 ∷ b),
)

split_comma-pair_key : (a b : Text) → 2 ≤ length (split_comma (pair_key a b))
unfolding pair_key
split_comma-pair_key a b = elim (Bool-cases (text_lt a b)) [
  | inl less ↦ rw less (split_comma_two a b)
  | inr not_less ↦ rw not_less (split_comma_two b a)
]

-- A key that can be cut apart, and a connection of unknown state.
abbrev Cuts : Text → Type 0
Cuts key = 2 ≤ length (split_arrow false key)

abbrev IsUnknown : Text × ConnectionInfo → Type 0
IsUnknown e = Cuts e.0 × (e.1.status ≡ p2p_unknown)

connect_all-IsUnknown :
    (from : Text) (ps : List PeerInfo) (m : Map Text ConnectionInfo)
    → All IsUnknown m
    → All IsUnknown (connect_all from ps m)
unfolding connect_all
connect_all-IsUnknown from [] m h = h
connect_all-IsUnknown from (p ∷ ps) m h =
    let info : ConnectionInfo = record {
      status = p2p_unknown;
      from_peer = from;
      to_peer = p.desc;
    } in
    connect_all-IsUnknown from ps (put (directed_key from p.desc) info m) (
      All-put IsUnknown (directed_key from p.desc) info m
        (split_arrow-directed_key from p.desc, refl) h)

connections_of-IsUnknown :
    (is : List PeerP2PInfos) (m : Map Text ConnectionInfo)
    → All IsUnknown m
    → All IsUnknown (connections_of is m)
unfolding connections_of
connections_of-IsUnknown [] m h = h
connections_of-IsUnknown (i ∷ is) m h =
    connections_of-IsUnknown is (connect_all (from_desc i) i.to_peers m)
      (connect_all-IsUnknown (from_desc i) i.to_peers m h)

module _ {V : Type 0} (R : Text → Type 0) where
  All-keys : (m : Map Text V) → All (λ e. R e.0) m → All R (keys m)
  All-keys [] h = tt
  All-keys ((k, v) ∷ m) h = (h.0, All-keys m h.1)

abbrev Pairs : Text × Bool → Type 0
Pairs e = 2 ≤ length (split_comma e.0)

pairs_of_ok :
    (ks : List Text) (m : Map Text Bool)
    → All Cuts ks
    → All Pairs m
    → (pairs : Map Text Bool) × (pairs_of ks m ≡ ok pairs) × All Pairs pairs
unfolding pairs_of to_peer_pair_key get_directed_peers
pairs_of_ok [] m cuts h = (m, refl, h)
pairs_of_ok (key ∷ more) m cuts h =
    let (ends, cut) = first_two_ok (split_arrow false key) cuts.0 in
    let pair = pair_key ends.0 ends.1 in
    let (pairs, made, all) =
      pairs_of_ok more (put pair true m) cuts.1
        (All-put Pairs pair true m (split_comma-pair_key ends.0 ends.1) h) in
    (pairs, rw cut made, all)

is_p2p_unknown :
    (m : Map Text ConnectionInfo) (key : Text) → All IsUnknown m → is_p2p (get key m) ≡ false
unfolding is_p2p
is_p2p_unknown m key h = elim (Option-cases (get key m)) [
  | inl missing ↦ ap is_p2p missing
  | inr (info, found) ↦
      let unknown = (All-get IsUnknown key info m h found).1 in
      ap is_p2p found ∙ ap (λ (n : ℕ). nat_beq n p2p_available) unknown
]

get_connection_type_unknown :
    (a b : Text) (m : Map Text ConnectionInfo)
    → All IsUnknown m
    → get_connection_type a b m ≡ no_p2p
unfolding get_connection_type connection_between
get_connection_type_unknown a b m h =
    ap₂ connection_between (is_p2p_unknown m (directed_key a b) h)
      (is_p2p_unknown m (directed_key b a) h)

abbrev IsGrey : Text × ConnectionType → Type 0
IsGrey e = e.1 ≡ no_p2p

states_of_ok :
    (connections : Map Text ConnectionInfo) (ps : List Text) (m : Map Text ConnectionType)
    → All IsUnknown connections
    → All (λ p. 2 ≤ length (split_comma p)) ps
    → All IsGrey m
    → (states : Map Text ConnectionType) × (states_of connections ps m ≡ ok states)
      × All IsGrey states
unfolding states_of get_peers
states_of_ok connections [] m unknown cuts h = (m, refl, h)
states_of_ok connections (pair ∷ more) m unknown cuts h =
    let (ends, cut) = first_two_ok (split_comma pair) cuts.0 in
    let state = get_connection_type ends.0 ends.1 connections in
    let (states, made, all) = states_of_ok connections more (put pair state m) unknown cuts.1 (
      All-put IsGrey pair state m (get_connection_type_unknown ends.0 ends.1 connections unknown)
        h) in
    (states, rw cut made, all)

-- The data of a community's picture can always be made, and in it no two peers are ever connected: of
-- every pair that is drawn, whatever the peers have reported, the state is that of no connection.
pub viz_no_p2p :
    (community : Text) (peer_infos : Map Text PeerP2PInfos)
    → (d : VizDatas) × (new_community_p2p_viz_datas community peer_infos ≡ ok d)
      × ((pair : Text) (state : ConnectionType)
          → get pair d.p2p_states ≡ some state
          → state ≡ no_p2p)
unfolding new_community_p2p_viz_datas
viz_no_p2p community peer_infos =
    let connections = connections_of (values peer_infos) [] in
    let unknown = connections_of-IsUnknown (values peer_infos) [] tt in
    let (pairs, paired, pair_all) =
      pairs_of_ok (keys connections) []
        (All-keys Cuts connections
          (All-map IsUnknown (λ e. Cuts e.0) (λ e u. u.0) connections unknown))
        tt in
    let (states, stated, grey) =
      states_of_ok connections (keys pairs) [] unknown
        (All-keys (λ p. 2 ≤ length (split_comma p)) pairs pair_all) tt in
    (
      record {
        community_name = community;
        peers_desc_to_vip = vips_of (values peer_infos) [];
        p2p_availability_infos = peer_infos;
        connection_data = connections;
        peer_pairs = pairs;
        p2p_states = states;
      },
      rw (paired, stated) refl,
      λ pair state found. All-get IsGrey pair state states grey found,
    )
