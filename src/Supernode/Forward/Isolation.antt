-- ===== src/Supernode/Forward/Isolation.antt =====
-- Packets stay within the sender's community.
use mathlib.Core.List.{append-nil}
use n2n_go.Base.{
  ℕ, ◌≡◌, refl, sym, ap, ◌∙◌, Option, none, some, ◌++◌, arith, if◌then◌else◌, is_some,
}
use n2n_go.Base.Exec.{err, Result, ok, result_of, state_of}
use n2n_go.Base.Keys.{Text, text_eq, nat_eq}
use n2n_go.Base.Maps.{get}
use n2n_go.Errors.{Error}
use n2n_go.Protocol.Message.{edge_mac_addr, RawMessage, dest_mac_addr}
use n2n_go.Supernode.Community.{get_edge}
use n2n_go.Supernode.Forward.{forward_unicast, forwarded_unicast}
use n2n_go.Supernode.Registration.{get_community_for_edge}
use n2n_go.Supernode.State.{Env, Supernode, Ref, Sent, Community}
use n2n_go.Supernode.Wire.{forward_packet}
use n2n_go.Supernode.Wire.Writes.{is_ok, of_option, forward_to, emit?, forward_packet-write}

member_found :
    (mac : Text) (h : ℕ) (cm : Community) (r : Ref) (s : Supernode)
    → get h s.communities ≡ some cm
    → get mac cm.edges ≡ some r
    → get_community_for_edge s mac h ≡ ok cm
unfolding get_community_for_edge get_edge
member_found mac h cm r s found member = ground arith

unicast_step :
    (env : Env) (r : RawMessage) (cm : Community) (src dst : Ref) (s : Supernode)
    → get r.header.community_id s.communities ≡ some cm
    → get (edge_mac_addr r) cm.edges ≡ some src
    → get (dest_mac_addr r) cm.edges ≡ some dst
    → forward_unicast env r s ≡ forwarded_unicast (forward_packet env r.raw_packet (s.heap dst) s)
unfolding forward_unicast get_edge
unicast_step env r cm src dst s found member target =
    rw (member_found (edge_mac_addr r) r.header.community_id cm src s found member) (ground arith)

forwarded_unicast_lem :
    (x : Result Error (Unit {0})) (t : Supernode) (o : Option Sent) (s : Supernode)
    → t ≡ emit? o s
    → is_ok x ≡ is_some o
    → ((state_of (forwarded_unicast (x, t))).sent ≡ s.sent ++ of_option o)
      × (result_of (forwarded_unicast (x, t))
          ≡ (if is_some o then ok tt else err Error.forward_failed))
unfolding forwarded_unicast of_option
forwarded_unicast_lem (ok u) t none s e f = cc
forwarded_unicast_lem (ok u) t (some x) s e f = (ap (λ z. z.sent) e, refl)
forwarded_unicast_lem (err x) t none s e f = (ap (λ z. z.sent) e ∙ sym (append-nil s.sent), refl)
forwarded_unicast_lem (err x) t (some y) s e f = cc

-- A ping between two members makes the one write to the edge that the destination names, if that
-- edge is reached; it makes none otherwise, and the error says so.
pub forward_unicast_lem :
    (env : Env) (r : RawMessage) (cm : Community) (src dst : Ref) (s : Supernode)
    → get r.header.community_id s.communities ≡ some cm
    → get (edge_mac_addr r) cm.edges ≡ some src
    → get (dest_mac_addr r) cm.edges ≡ some dst
    → let o = forward_to env s.wss_connections r.raw_packet (s.heap dst) in
      ((state_of (forward_unicast env r s)).sent ≡ s.sent ++ of_option o)
      × (result_of (forward_unicast env r s)
          ≡ (if is_some o then ok tt else err Error.forward_failed))
forward_unicast_lem env r cm src dst s found member target =
    rw (unicast_step env r cm src dst s found member target) (
      let (state, done) = forward_packet-write env r.raw_packet (s.heap dst) s in
      forwarded_unicast_lem (result_of (forward_packet env r.raw_packet (s.heap dst) s))
        (state_of (forward_packet env r.raw_packet (s.heap dst) s))
        (forward_to env s.wss_connections r.raw_packet (s.heap dst)) s state done)
