-- ===== src/Tests/Hosts.antt =====
-- Runs of pkg/syshosts.
use n2n_go.Base.{
  ℕ, ◌≤◌, ◌≡◌, refl, ◌≢◌, Bool, true, false, ◌&&◌, ◌||◌, some, [], ◌∷◌, ◌++◌, arith, nat_beq,
  if◌then◌else◌, All,
}
use n2n_go.Base.Exec.{state_of, ok, err, result_of}
use n2n_go.Base.Keys.{text_beq_iff, ◌==◌, Text, text_beq, text_eq, nat_eq}
use n2n_go.Errors.{Error}
use n2n_go.Syshosts.Added.{add_lem}
use n2n_go.Syshosts.Change.{names_left, remove_hosts, remove_by_hostname, add, clean_names}
use n2n_go.Syshosts.Cleaned.{occurrences, remove_duplicate_hosts_lem}
use n2n_go.Syshosts.Laws.{remove_by_hostname_lem, remove_hosts_kept}
use n2n_go.Syshosts.Lookup.{has_hostname, is_among, has, has_pair}
use n2n_go.Syshosts.Stored.{load_and_parse-file_text}
use n2n_go.Syshosts.Tidy.{remove_duplicate_hosts}
use n2n_go.Syshosts.Words.{
  file_text, Hosts, to_string, load_and_parse, drop_cr, HostEntry, parse_line, fields, trim_space,
  space_width,
}

-- "10.0.0.1 ab cd", with `net.ParseIP` taking what begins with "1".
abbrev ten : Text
ten = 49 ∷ 48 ∷ 46 ∷ 48 ∷ 46 ∷ 48 ∷ 46 ∷ 49 ∷ []

abbrev ab : Text
ab = 97 ∷ 98 ∷ []

abbrev cd : Text
cd = 99 ∷ 100 ∷ []

abbrev ef : Text
ef = 101 ∷ 102 ∷ []

abbrev begins_with_one : Text → Bool
begins_with_one [] = false
begins_with_one (b ∷ bs) = nat_beq b 49

abbrev ten_line : HostEntry
ten_line = parse_line begins_with_one (ten ++ 32 ∷ ab ++ 32 ∷ cd)

ten_line_active :
    (ten_line.is_active ≡ true) × (ten_line.ip ≡ ten) × (ten_line.hostnames ≡ ab ∷ cd ∷ [])
unfolding parse_line fields trim_space space_width
ten_line_active = (refl, refl, refl)

abbrev two_names : Hosts
two_names = record {
  file_path = [];
  entries =
      record {
        ip = ten;
        hostnames = ab ∷ cd ∷ [];
        raw = ten ++ 32 ∷ ab ++ 32 ∷ cd;
        is_active = true;
      }
      ∷ [];
}

cd_other : trim_space cd ≢ trim_space ab
unfolding trim_space space_width text_beq
cd_other e = let same : false ≡ true = (text_beq_iff cd ab).1 e in cc

remove_by_hostname_lem_example :
    let r = remove_by_hostname ab two_names in
    (has_hostname ab (state_of r) ≡ false)
    × (result_of r ≡ (if has_hostname ab two_names then ok tt else err Error.hostname_not_found))
    × (has ten cd (state_of r) ≡ has ten cd two_names)
unfolding trim_space space_width
remove_by_hostname_lem_example = remove_by_hostname_lem ab ten cd two_names refl cd_other

remove_hosts_kept_example :
    remove_hosts begins_with_one ten (ab ∷ []) two_names ≡ (ok tt, two_names)
unfolding has has_pair is_among trim_space space_width clean_names text_beq names_left
remove_hosts_kept_example =
    remove_hosts_kept begins_with_one ten ab (ab ∷ []) two_names refl refl refl ((λ here. refl), tt)

add_lem_example :
    let r = add begins_with_one ten (ef ∷ []) two_names in
    (result_of r ≡ ok tt)
    × (has ten ef (state_of r) ≡ (
        has ten ef two_names || (ten == ten && is_among (trim_space ef) (clean_names (ef ∷ [])))))
unfolding trim_space space_width clean_names
add_lem_example = add_lem begins_with_one ten ten ef (ef ∷ []) two_names refl refl

plain_line : All (λ (b : ℕ). nat_beq b 10 ≡ false) (ten ++ 32 ∷ ab ++ 32 ∷ cd)
plain_line = (
  refl,
  (
    refl,
    (
      refl,
      (refl, (refl, (refl, (refl, (refl, (refl, (refl, (refl, (refl, (refl, (refl, tt))))))))))),
    ),
  ),
)

load_and_parse-file_text_example :
    (load_and_parse begins_with_one (some (file_text two_names)) ≡ ok two_names.entries)
    × (to_string two_names ≡ file_text two_names)
unfolding parse_line fields trim_space space_width drop_cr
load_and_parse-file_text_example =
    load_and_parse-file_text begins_with_one two_names ((plain_line, omega arith, refl, refl), tt)
      refl

abbrev twice_named : Hosts
twice_named = record {
  file_path = [];
  entries =
      two_names.entries
      ++ record { ip = ten; hostnames = cd ∷ ef ∷ cd ∷ []; raw = []; is_active = true } ∷ [];
}

remove_duplicate_hosts_lem_example :
    (has_hostname cd (remove_duplicate_hosts twice_named) ≡ has_hostname cd twice_named)
    × (occurrences (trim_space cd) (remove_duplicate_hosts twice_named).entries ≤ 1)
remove_duplicate_hosts_lem_example = remove_duplicate_hosts_lem cd twice_named
