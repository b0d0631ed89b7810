-- ===== src/Supernode/Forward.antt =====
-- The forwarding decisions of pkg/supernode/wire.go.
pub mod Isolation
use n2n_go.Base.{none, some}
use n2n_go.Base.Exec.{and_then, err, ok, Result}
use n2n_go.Errors.{Error}
use n2n_go.Protocol.Message.{edge_mac_addr, dest_mac_addr, RawMessage}
use n2n_go.Supernode.Community.{get_edge}
use n2n_go.Supernode.Registration.{get_community}
use n2n_go.Supernode.State.{Supernode, Community, Sn, Env}
use n2n_go.Supernode.Wire.{count_dropped, broadcast, count_forwarded, forward_packet}

-- What follows the attempt to forward to one edge.
forwarded_unicast : Result Error (Unit {0}) × Supernode → Result Error (Unit {0}) × Supernode
forwarded_unicast (ok _, s) = (ok tt, count_forwarded 1 s)
forwarded_unicast (err e, s) = (err Error.forward_failed, count_dropped s)

-- `ForwardUnicast`
unfoldable pub forward_unicast : Env → RawMessage → Sn (Unit {0})
unfolding forwarded_unicast
forward_unicast env r s =
    and_then (get_community s r, s)
      λ cm. λ t. elim (get_edge t cm (dest_mac_addr r)) [
        | none ↦ (err Error.unicast_forward_fail, t)
        | some target ↦ forwarded_unicast (forward_packet env r.raw_packet target t)
      ]

fallback : Env → RawMessage → Community → Supernode → Supernode
fallback env r cm s = broadcast env r.raw_packet cm (edge_mac_addr r) s

forwarded_or_fallback :
    Env
    → RawMessage
    → Community
    → Result Error (Unit {0}) × Supernode
    → Result Error (Unit {0}) × Supernode
unfolding fallback
forwarded_or_fallback env r cm (ok _, s) = (ok tt, count_forwarded 1 s)
forwarded_or_fallback env r cm (err e, s) = (ok tt, fallback env r cm (count_dropped s))

-- `ForwardWithFallBack`: to the one edge, and to the whole community if that fails.
unfoldable pub forward_with_fall_back : Env → RawMessage → Sn (Unit {0})
unfolding forwarded_or_fallback
forward_with_fall_back env r s =
    and_then (get_community s r, s)
      λ cm. λ t. elim (get_edge t cm (dest_mac_addr r)) [
        | none ↦ (ok tt, fallback env r cm t)
        | some target ↦ forwarded_or_fallback env r cm (forward_packet env r.raw_packet target t)
      ]
