-- ===== src/Supernode/Cleanup/Counting.antt =====
-- What the counters say after pkg/supernode/cleanup.go removed a stale edge.
use n2n_go.Base.{ℕ, ◌≡◌, refl, ap, ◌∙◌, Option, some, if◌then◌else◌, is_some}
use n2n_go.Base.Exec.{err, ok}
use n2n_go.Base.Keys.{Text, text_eq, nat_eq}
use n2n_go.Base.Maps.{get}
use n2n_go.Errors.{Error}
use n2n_go.Supernode.Cleanup.{remove_stale, removed}
use n2n_go.Supernode.Community.Leave.{unregister_lem}
use n2n_go.Supernode.Registration.{get_community_for_edge, count_unregistered, on_edge_unregistered}
use n2n_go.Supernode.Registration.Unregister.{on_edge_unregistered_lem, get_community_for_edge_gone}
use n2n_go.Supernode.State.{Ref, Supernode, Community, add_u64, Env}

-- A stale edge that the community and the supernode have is removed without an error, and counted
-- twice among the unregistered edges.
pub remove_stale_lem :
    (env : Env) (h : ℕ) (cm : Community) (mac : Text) (s : Supernode) (ref ref' : Ref)
    → get h s.communities ≡ some cm
    → get mac cm.edges ≡ some ref
    → get mac s.edges_by_mac ≡ some ref'
    → let (result, t) = remove_stale env h cm mac s in
      (result ≡ ok tt)
      × (t.stats.edges_unregistered ≡ add_u64 (add_u64 s.stats.edges_unregistered 1) 1)
      × (get_community_for_edge t mac h ≡ err Error.unknown_edge)
unfolding remove_stale removed
remove_stale_lem env h cm mac s ref ref' stored member known =
    let (t, left_by, left) = unregister_lem env h cm mac s ref member in
    let u = count_unregistered t in
    let (result, kept, gone, counted) = on_edge_unregistered_lem env h mac cm u in
    let there : get mac u.edges_by_mac ≡ some ref' =
      ap (get mac) (ap (λ (z : Supernode). z.edges_by_mac) left.rest) ∙ known in
    let step : remove_stale env h cm mac s ≡ on_edge_unregistered env h cm mac u =
      rw (remove_stale, stored, left_by) refl in
    let at = λ (m : Option Ref). if is_some m then ok tt else err Error.panic in
    (
      ap (λ z. z.0) step ∙ result ∙ rw there refl,
      ap (λ z. z.1.stats.edges_unregistered) step
          ∙ counted
          ∙ rw there (
              ap (λ x. add_u64 (add_u64 x.edges_unregistered 1) 1)
                (ap (λ (z : Supernode). z.stats) left.rest)),
      ap (λ z. get_community_for_edge z.1 mac h) step
          ∙ get_community_for_edge_gone env h mac left.community
              (on_edge_unregistered env h cm mac u).1 (ap (get h) kept ∙ left.stored) left.gone,
    )
