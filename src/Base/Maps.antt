-- ===== src/Base/Maps.antt =====
-- Go's maps as association lists. The order of the entries, which Go leaves open, is that of the
-- list: a new key goes to the end, an assignment to a present key stays in place.
use mathlib.Core.Path.{◌≡◌, refl, subst}
use mathlib.Core.Logic.{inl, inr}
use mathlib.Core.Option.{Option, none, some}
use mathlib.Core.List.{List, [], ◌∷◌, map}
use native.Mathlib.Omega.{arith}
use n2n_go.Base.Tests.{if◌then◌else◌, Bool-cases}
use n2n_go.Base.Lists.{All}
use n2n_go.Base.Keys.{Comparable, ◌==◌, eq_refl}

abbrev pub Map {ℓ κ} : Type ℓ → Type κ → Type (ℓ ⊔ κ)
Map K V = List (K × V)

module _ {ℓ κ} {K : Type ℓ} {V : Type κ} where
  abbrev pub values : Map K V → List V
  values m = map (λ e. e.1) m

  abbrev pub keys : Map K V → List K
  keys m = map (λ e. e.0) m

module _ {ℓ κ} {K : Type ℓ} ⦃e : Comparable K⦄ {V : Type κ} where
  -- `v, ok := m[k]`
  unfoldable pub get : K → Map K V → Option V
  get k [] = none
  get k ((j, v) ∷ m) = if j == k then some v else get k m

  -- `m[k] = v`
  unfoldable pub put : K → V → Map K V → Map K V
  put k v [] = (k, v) ∷ []
  put k v ((j, w) ∷ m) = if j == k then (k, v) ∷ m else (j, w) ∷ put k v m

  -- `delete(m, k)`
  unfoldable pub remove : K → Map K V → Map K V
  remove k [] = []
  remove k ((j, v) ∷ m) = let rest = remove k m in if j == k then rest else (j, v) ∷ rest

  pub get-put :
      (k j : K) (v : V) (m : Map K V) → get j (put k v m) ≡ (if k == j then some v else get j m)
  unfolding get put
  get-put k j v [] = refl
  get-put k j v ((i, w) ∷ m) =
      ground (arith, e.equal_iff k j, e.equal_iff i k, e.equal_iff i j, get-put k j v m)

  pub get-remove : (k j : K) (m : Map K V) → get j (remove k m) ≡ (if k == j then none else get j m)
  unfolding get remove
  get-remove k j [] = ground arith
  get-remove k j ((i, w) ∷ m) =
      ground (arith, e.equal_iff k j, e.equal_iff i k, e.equal_iff i j, get-remove k j m)

  pub get-put_self : (k : K) (v : V) (m : Map K V) → get k (put k v m) ≡ some v
  get-put_self k v m = ground (arith, get-put k k v m, eq_refl k)

  pub get-remove_self : (k : K) (m : Map K V) → get k (remove k m) ≡ none
  get-remove_self k m = ground (arith, get-remove k k m, eq_refl k)

  -- What holds of every value holds of a value that is found.
  pub All-get {κ'} :
      (P : K × V → Type κ') (k : K) (v : V) (m : Map K V) → All P m → get k m ≡ some v → P (k, v)
  unfolding get
  All-get P k v [] h found = cc
  All-get P k v ((j, w) ∷ m) h found = elim (Bool-cases (j == k)) [
    | inl hit ↦
        let same : j ≡ k = (e.equal_iff j k).0 hit in
        let value : w ≡ v = ground arith in subst (λ t. P t) (λ i. (same i, value i)) h.0
    | inr miss ↦ All-get P k v m h.1 (ground arith)
  ]

  pub All-put {κ'} :
      (P : K × V → Type κ') (k : K) (v : V) (m : Map K V) → P (k, v) → All P m → All P (put k v m)
  unfolding put
  All-put P k v [] p h = (p, tt)
  All-put P k v ((j, w) ∷ m) p h = elim (Bool-cases (j == k)) [
    | inl hit ↦ rw hit (p, h.1)
    | inr miss ↦ rw miss (h.0, All-put P k v m p h.1)
  ]

  pub All-remove {κ'} : (P : K × V → Type κ') (k : K) (m : Map K V) → All P m → All P (remove k m)
  unfolding remove
  All-remove P k [] h = tt
  All-remove P k ((j, w) ∷ m) h = elim (Bool-cases (j == k)) [
    | inl hit ↦ rw hit (All-remove P k m h.1)
    | inr miss ↦ rw miss (h.0, All-remove P k m h.1)
  ]
