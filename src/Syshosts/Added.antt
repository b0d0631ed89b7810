-- ===== src/Syshosts/Added.antt =====
-- What an added line gives.
use n2n_go.Base.{
  ◌≡◌, refl, ap, subst, inl, inr, Bool, true, false, ◌&&◌, ◌||◌, some, List, [], ◌∷◌, ◌++◌, arith,
  Bool-cases, Option-cases,
}
use n2n_go.Base.Exec.{ok, state_of, result_of}
use n2n_go.Base.Keys.{Text, text_beq_iff, ◌==◌, text_eq, nat_eq}
use n2n_go.Protocol.Mac.{is_nil}
use n2n_go.Syshosts.Change.{added_entries, clean_names, add_to_first, add_to_line, add, merge_names}
use n2n_go.Syshosts.Lookup.{has, is_among, has_pair}
use n2n_go.Syshosts.Words.{Hosts, format_entry, list_empty, trim_space, HostEntry}

pub is_among-append :
    (x : Text) (xs ys : List Text) → is_among x (xs ++ ys) ≡ (is_among x xs || is_among x ys)
unfolding is_among
is_among-append x [] ys = refl
is_among-append x (z ∷ xs) ys = ground (arith, is_among-append x xs ys)

-- The merged names are the old ones and the new ones.
merge_names-is_among :
    (x : Text) (names : List Text) (added : Bool) (vs : List Text)
    → is_among x (merge_names names added vs).0 ≡ (is_among x names || is_among x vs)
unfolding merge_names is_among
merge_names-is_among x names added [] = ground arith
merge_names-is_among x names added (v ∷ vs) = elim (Bool-cases (is_among v names)) [
  | inl there ↦
      let same : (v == x) ≡ true → is_among x names ≡ true =
        λ e. subst (λ (y : Text). is_among y names ≡ true) ((text_beq_iff v x).0 e) there in
      ground (arith, there, same, merge_names-is_among x names added vs)
  | inr new ↦ ground (
    arith,
    new,
    merge_names-is_among x (names ++ v ∷ []) true vs,
    is_among-append x names (v ∷ []),
  )
]

-- The pairs of the lines are those that were there, and the address with each of the new names.
add_to_first-has_pair :
    (ip j x : Text) (valid : List Text) (es out : List HostEntry)
    → add_to_first ip valid es ≡ some out
    → has_pair j x out ≡ (has_pair j x es || (ip == j && is_among x valid))
unfolding add_to_first add_to_line has_pair
add_to_first-has_pair ip j x valid [] out h = cc
add_to_first-has_pair ip j x valid (e ∷ es) out h = elim (Bool-cases (e.is_active && e.ip == ip)) [
  | inl here ↦
      let made : (add_to_line valid e ∷ es) ≡ out = ground (arith, here, h) in
      subst
        (λ (o : List HostEntry).
          has_pair j x o ≡ (has_pair j x (e ∷ es) || (ip == j && is_among x valid)))
        made
        (let own : e.ip ≡ ip = (text_beq_iff e.ip ip).0 (ground (arith, here)) in
          let both : (e.ip == j) ≡ (ip == j) = ap (λ (y : Text). y == j) own in
          ground (arith, here, both, merge_names-is_among x e.hostnames false valid))
  | inr away ↦ elim (Option-cases (add_to_first ip valid es)) [
    | inl none_ ↦ absurd (ground (arith, away, none_, h))
    | inr (more, found) ↦
        let made : (e ∷ more) ≡ out = ground (arith, away, found, h) in
        subst
          (λ (o : List HostEntry).
            has_pair j x o ≡ (has_pair j x (e ∷ es) || (ip == j && is_among x valid)))
          made (ground (arith, add_to_first-has_pair ip j x valid es more found))
  ]
]

has_pair-append :
    (ip x : Text) (es fs : List HostEntry)
    → has_pair ip x (es ++ fs) ≡ (has_pair ip x es || has_pair ip x fs)
unfolding has_pair
has_pair-append ip x [] fs = refl
has_pair-append ip x (e ∷ es) fs = ground (arith, has_pair-append ip x es fs)

clean_names_filled :
    (x : Text) (ns : List Text) → is_among x (clean_names ns) ≡ true → is_nil x ≡ false
unfolding is_among clean_names
clean_names_filled x [] h = cc
clean_names_filled x (n ∷ ns) h = elim (Bool-cases (is_nil (trim_space n))) [
  | inl blank ↦ clean_names_filled x ns (ground (arith, blank, h))
  | inr filled ↦ elim (Bool-cases (trim_space n == x)) [
    | inl same ↦
        subst (λ (y : Text). is_nil y ≡ false) ((text_beq_iff (trim_space n) x).0 same) filled
    | inr differs ↦ clean_names_filled x ns (ground (arith, filled, differs, h))
  ]
]

added_entries-has_pair :
    (ip j x : Text) (valid : List Text) (es : List HostEntry)
    → has_pair j x (added_entries ip valid es) ≡ (has_pair j x es || (ip == j && is_among x valid))
unfolding added_entries has_pair
added_entries-has_pair ip j x valid es = elim (Option-cases (add_to_first ip valid es)) [
  | inl none_ ↦
      (let new : HostEntry = record {
        ip = ip;
        hostnames = valid;
        raw = format_entry ip valid;
        is_active = true;
      } in
        ground (arith, none_, has_pair-append j x es (new ∷ [])))
  | inr (out, found) ↦ ground (arith, found, add_to_first-has_pair ip j x valid es out found)
]

blank_unasked :
    (x : Text) (hosts : List Text) → is_nil x ≡ true → is_among x (clean_names hosts) ≡ false
blank_unasked x hosts blank = elim (Bool-cases (is_among x (clean_names hosts))) [
  | inl asked ↦ absurd (ground (arith, blank, clean_names_filled x hosts asked))
  | inr missing ↦ missing
]

-- Names are added to an IP address, and not all of them are blank: this succeeds, and of each address and
-- name, `Has` afterwards says that they are a pair just where they were one before, or the address is
-- the one added to and the name, less the white space around it, one of those added.
pub add_lem :
    (is_ip : Text → Bool) (ip j y : Text) (hosts : List Text) (h : Hosts)
    → is_ip ip ≡ true
    → list_empty (clean_names hosts) ≡ false
    → let r = add is_ip ip hosts h in
      (result_of r ≡ ok tt)
      × (has j y (state_of r)
          ≡ (has j y h || (ip == j && is_among (trim_space y) (clean_names hosts))))
unfolding add has
add_lem is_ip ip j y hosts h valid some_name =
    let pairs = added_entries-has_pair ip j (trim_space y) (clean_names hosts) h.entries in
    (
      ground (arith, valid, some_name),
      elim (Bool-cases (is_nil (trim_space y))) [
        | inl blank ↦
            ground (arith, valid, some_name, blank, blank_unasked (trim_space y) hosts blank)
        | inr filled ↦ ground (arith, valid, some_name, filled, pairs)
      ],
    )
