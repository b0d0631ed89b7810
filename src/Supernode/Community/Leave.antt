-- ===== src/Supernode/Community/Leave.antt =====
-- What `Unregister` of pkg/supernode/community.go takes away from a community, and what it leaves.
use n2n_go.Base.{ℕ, ◌≡◌, refl, ◌∙◌, true, false, none, some, nat_beq}
use n2n_go.Base.Keys.{◌==◌, Text, text_eq, nat_eq}
use n2n_go.Base.Maps.{get, get-put_self, remove, get-put, get-remove, get-remove_self}
use n2n_go.Supernode.Community.{unregister, set_edge_cached_info, set_community}
use n2n_go.Supernode.State.{Supernode, Ref, EdgeCachedInfos, Env, Community}

-- What `Unregister` leaves of the community `cm`, stored under `h`, that the edge `mac` was in.
pub record HasLeft (h : ℕ) (cm : Community) (mac : Text) (s t : Supernode) : Type 0 where
  pub community : Community
  pub stored : get h t.communities ≡ some community
  pub same_name : community.name ≡ cm.name
  pub same_subnet : community.subnet ≡ cm.subnet
  pub same_mask : community.mask_len ≡ cm.mask_len
  pub gone : get mac community.edges ≡ none
  pub forgotten : get mac community.p2p_infos ≡ none
  -- the other members stay, and what they have reported
  pub members : (k : Text) → (mac == k) ≡ false → get k community.edges ≡ get k cm.edges
  pub reports : (k : Text) → (mac == k) ≡ false → get k community.p2p_infos ≡ get k cm.p2p_infos
  -- and so do the other communities, and the cached infos of other edges
  pub others : (j : ℕ) → nat_beq h j ≡ false → get j t.communities ≡ get j s.communities
  pub other_infos :
      (k : Text) → (mac == k) ≡ false → get k t.edge_cached_infos ≡ get k s.edge_cached_infos
  -- and all else of the supernode, its edges, maps of edges, counters and writes among it
  pub rest : t ≡ record s { communities = t.communities; edge_cached_infos = t.edge_cached_infos }
  -- the cached infos say that the edge is offline
  pub infos : EdgeCachedInfos
  pub cached : get mac t.edge_cached_infos ≡ some infos
  pub offline : infos.is_registered ≡ false
  pub of_edge : (infos.mac_addr ≡ mac) × (infos.community ≡ cm.name)

module _ (env : Env) (h : ℕ) (cm : Community) (mac : Text) (s : Supernode) where
  -- `Unregister` of a member reports it and takes the edge and its P2P infos out of the community;
  -- its cached infos say that it is offline. The other members and their P2P infos, the name and the
  -- network of the community, the other communities, the cached infos of other edges, and everything
  -- else of the supernode stay as they were.
  pub unregister_lem :
      (ref : Ref)
      → get mac cm.edges ≡ some ref
      → (t : Supernode) × (unregister env h cm mac s ≡ (true, t)) × HasLeft h cm mac s t
  unfolding unregister set_edge_cached_info
  unregister_lem ref member =
      let cm' = record cm { edges = remove mac cm.edges; p2p_infos = remove mac cm.p2p_infos } in
      (
        set_community h cm' (
            set_edge_cached_info env mac (s.heap ref).desc cm.name false (s.heap ref).virtual_ip s),
        rw (unregister, member) refl,
        record {
          community = cm';
          stored = get-put_self h cm' s.communities;
          same_name = refl;
          same_subnet = refl;
          same_mask = refl;
          gone = get-remove_self mac cm.edges;
          forgotten = get-remove_self mac cm.p2p_infos;
          members = λ k other. get-remove mac k cm.edges ∙ rw other refl;
          others = λ j other. get-put h j cm' s.communities ∙ rw other refl;
          reports = λ k other. get-remove mac k cm.p2p_infos ∙ rw other refl;
          other_infos = λ k other. get-put mac k _ s.edge_cached_infos ∙ rw other refl;
          rest = refl;
          infos = record {
            mac_addr = mac;
            desc = (s.heap ref).desc;
            community = cm.name;
            is_registered = false;
            updated_at = env.now;
            virtual_ip = (s.heap ref).virtual_ip;
          };
          cached = get-put_self mac _ s.edge_cached_infos;
          offline = refl;
          of_edge = (refl, refl);
        },
      )
