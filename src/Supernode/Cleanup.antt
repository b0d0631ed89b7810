-- ===== src/Supernode/Cleanup.antt =====
-- pkg/supernode/cleanup.go: edges that no longer send heartbeats are unregistered.
pub mod Counting
use n2n_go.Base.{ℕ, Bool, true, false, List, [], ◌∷◌, ◌++◌, map, length}
use n2n_go.Base.Exec.{Result, ok, and_then}
use n2n_go.Base.Keys.{Text, text_eq, nat_eq}
use n2n_go.Base.Maps.{Map}
use n2n_go.Errors.{Error}
use n2n_go.Supernode.Community.{unregister}
use n2n_go.Supernode.Registration.{on_edge_unregistered, deref, count_unregistered}
use n2n_go.Supernode.State.{Supernode, Sn, Env, Community}
use n2n_go.Supernode.Views.{get_stale_edge_ids}

-- The stale edges of every community, before any is removed.
stales : Env → ℕ → Supernode → Map ℕ Community → List (ℕ × Community × Text)
stales env expiry s [] = []
stales env expiry s ((h, cm) ∷ rest) =
    map (λ id. (h, cm, id)) (get_stale_edge_ids env expiry s cm) ++ stales env expiry s rest

-- `Unregister` succeeded: the counter goes up here, and in `onEdgeUnregistered` again.
removed : Env → ℕ → Community → Text → Bool × Supernode → Result Error (Unit {0}) × Supernode
removed env h cm id (true, s) = on_edge_unregistered env h cm id (count_unregistered s)
removed env h cm id (false, s) = (ok tt, s)

pub remove_stale : Env → ℕ → Community → Text → Sn (Unit {0})
unfolding removed
remove_stale env h cm id s = removed env h cm id (unregister env h (deref h cm s) id s)

remove_stales : Env → List (ℕ × Community × Text) → Sn (Unit {0})
unfolding remove_stale
remove_stales env [] s = (ok tt, s)
remove_stales env ((h, cm, id) ∷ rest) s =
    and_then (remove_stale env h cm id s) (λ _. remove_stales env rest)

finish_cleanup : Env → ℕ → Sn (Unit {0})
finish_cleanup env total s = (
  ok tt,
  record s { stats = record s.stats { last_cleanup_time = env.now; last_cleanup_edges = total } },
)

-- `CleanupStaleEdges`
unfoldable pub cleanup_stale_edges : Env → ℕ → Sn (Unit {0})
unfolding stales remove_stales finish_cleanup
cleanup_stale_edges env expiry s =
    let found = stales env expiry s s.communities in
    and_then (remove_stales env found s) (λ _. finish_cleanup env (length found))
