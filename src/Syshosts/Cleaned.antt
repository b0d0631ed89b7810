-- ===== src/Syshosts/Cleaned.antt =====
-- What the cleaning of the hosts file keeps.
use n2n_go.Base.{
  ℕ, ◌+◌, ◌≤◌, ◌≡◌, refl, ap, inl, inr, true, false, ◌||◌, List, [], ◌∷◌, ◌++◌, map, arith,
  if◌then◌else◌, Bool-cases, length,
}
use n2n_go.Base.Keys.{text_beq_iff, Text, ◌==◌, text_eq, nat_eq}
use n2n_go.Syshosts.Added.{is_among-append}
use n2n_go.Syshosts.Lookup.{is_among, has_hostname, has_name}
use n2n_go.Syshosts.Tidy.{dedup_lines, dedup_line, first_seen, remove_duplicate_hosts}
use n2n_go.Syshosts.Words.{list_empty, HostEntry, Hosts, trim_space}

-- A name is there, or was seen before, where the list has it.
is_among-first_seen :
    (x : Text) (seen ns : List Text)
    → (is_among x (first_seen seen ns) || is_among x seen) ≡ (is_among x ns || is_among x seen)
unfolding is_among first_seen
is_among-first_seen x seen [] = refl
is_among-first_seen x seen (n ∷ ns) = elim (Bool-cases (n == x)) [
  | inl same ↦
      let is_x : n ≡ x = (text_beq_iff n x).0 same in
      ground (
        arith,
        same,
        is_among-first_seen x seen ns,
        is_among-first_seen x (n ∷ seen) ns,
        ap (λ (y : Text). is_among y seen) is_x,
      )
  | inr differs ↦
      ground (arith, differs, is_among-first_seen x seen ns, is_among-first_seen x (n ∷ seen) ns)
]

member_none : (x : Text) (ns : List Text) → list_empty ns ≡ true → is_among x ns ≡ false
unfolding is_among
member_none x [] h = refl
member_none x (n ∷ ns) h = absurd cc

dedup_lines_lem :
    (x : Text) (seen : List Text) (es : List HostEntry)
    → (has_name x (dedup_lines seen es).0 || is_among x seen) ≡ (has_name x es || is_among x seen)
unfolding has_name dedup_lines
dedup_lines_lem x seen [] = refl
dedup_lines_lem x seen (e ∷ es) =
    let unique = first_seen seen e.hostnames in
    ground (
      arith,
      dedup_lines_lem x seen es,
      dedup_lines_lem x (unique ++ seen) es,
      is_among-append x unique seen,
      is_among-first_seen x seen e.hostnames,
      member_none x unique,
      member_none x e.hostnames,
    )

dedup_line_name : (x : Text) (es : List HostEntry) → has_name x (map dedup_line es) ≡ has_name x es
unfolding has_name dedup_line is_among
dedup_line_name x [] = refl
dedup_line_name x (e ∷ es) =
    let same = is_among-first_seen x [] e.hostnames in ground (arith, dedup_line_name x es, same)

-- How often a name stands on the active lines.
abbrev count_in : Text → List Text → ℕ
count_in x [] = 0
count_in x (n ∷ ns) = (if n == x then 1 else 0) + count_in x ns

abbrev pub occurrences : Text → List HostEntry → ℕ
occurrences x [] = 0
occurrences x (e ∷ es) = (if e.is_active then count_in x e.hostnames else 0) + occurrences x es

count_in-first_seen :
    (x : Text) (seen ns : List Text)
    → count_in x (first_seen seen ns) + (if is_among x seen then 1 else 0) ≤ 1
unfolding is_among first_seen
count_in-first_seen x seen [] = ground arith
count_in-first_seen x seen (n ∷ ns) = elim (Bool-cases (n == x)) [
  | inl same ↦
      let is_x = ap (λ (y : Text). is_among y seen) ((text_beq_iff n x).0 same) in
      ground (arith, same, is_x, count_in-first_seen x seen ns, count_in-first_seen x (n ∷ seen) ns)
  | inr differs ↦
      ground (arith, differs, count_in-first_seen x seen ns, count_in-first_seen x (n ∷ seen) ns)
]

length-first_seen : (seen ns : List Text) → length (first_seen seen ns) ≤ length ns
unfolding first_seen
length-first_seen seen [] = omega arith
length-first_seen seen (n ∷ ns) =
    ground (arith, length-first_seen seen ns, length-first_seen (n ∷ seen) ns)

first_seen_all :
    (seen ns : List Text) → length ns ≤ length (first_seen seen ns) → first_seen seen ns ≡ ns
unfolding first_seen
first_seen_all seen [] h = refl
first_seen_all seen (n ∷ ns) h = elim (Bool-cases (is_among n seen)) [
  | inl there ↦ absurd (ground (arith, there, h, length-first_seen seen ns))
  | inr new ↦ ground (arith, new, first_seen_all (n ∷ seen) ns (ground (arith, new, h)))
]

count_in_none : (x : Text) (ns : List Text) → is_among x ns ≡ false → count_in x ns ≡ 0
unfolding is_among
count_in_none x [] h = refl
count_in_none x (n ∷ ns) h = ground (arith, h, count_in_none x ns)

dedup_lines_once :
    (x : Text) (seen : List Text) (es : List HostEntry)
    → occurrences x (dedup_lines seen es).0 + (if is_among x seen then 1 else 0) ≤ 1
unfolding dedup_lines
dedup_lines_once x seen [] = ground arith
dedup_lines_once x seen (e ∷ es) =
    let unique = first_seen seen e.hostnames in
    ground (
      arith,
      dedup_lines_once x seen es,
      dedup_lines_once x (unique ++ seen) es,
      is_among-append x unique seen,
      count_in-first_seen x seen e.hostnames,
      count_in_none x unique,
      first_seen_all seen e.hostnames,
    )

dedup_lines_same :
    (seen : List Text) (es : List HostEntry)
    → (dedup_lines seen es).1 ≡ false
    → (dedup_lines seen es).0 ≡ es
unfolding dedup_lines
dedup_lines_same seen [] h = refl
dedup_lines_same seen (e ∷ es) h =
    let unique = first_seen seen e.hostnames in
    ground (arith, h, dedup_lines_same seen es, dedup_lines_same (unique ++ seen) es)

-- When the duplicates are removed, every name that was on an active line still is, and it stands there
-- once; no name comes in.
pub remove_duplicate_hosts_lem :
    (host : Text) (h : Hosts)
    → (has_hostname host (remove_duplicate_hosts h) ≡ has_hostname host h)
      × (occurrences (trim_space host) (remove_duplicate_hosts h).entries ≤ 1)
unfolding remove_duplicate_hosts has_hostname is_among
remove_duplicate_hosts_lem host h =
    let x = trim_space host in
    let once = map dedup_line h.entries in
    let named = dedup_line_name x h.entries in
    let kept = dedup_lines_lem x [] once in
    let single = dedup_lines_once x [] once in
    elim (Bool-cases (dedup_lines [] once).1) [
      | inl changed ↦ (ground (arith, changed, named, kept), ground (arith, changed, single))
      | inr same ↦
          let eq = dedup_lines_same [] once same in
          (ground (arith, same, named), ground (arith, same, single, ap (occurrences x) eq))
    ]
