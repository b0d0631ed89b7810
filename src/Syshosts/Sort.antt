-- ===== src/Syshosts/Sort.antt =====
-- pkg/syshosts/extents.go: the order of names and lines.
use n2n_go.Base.{
  Bool, true, false, not, ◌&&◌, ◌||◌, Option, none, some, List, [], ◌∷◌, ◌++◌, ltb, if◌then◌else◌,
  length,
}
use n2n_go.Base.Keys.{Text, text_lt}
use n2n_go.Syshosts.Words.{Hosts, format_entry, HostEntry}

-- `sort.StringsAreSorted`
unfoldable pub strings_are_sorted : List Text → Bool
strings_are_sorted [] = true
strings_are_sorted (x ∷ []) = true
strings_are_sorted (x ∷ y ∷ more) = not (text_lt y x) && strings_are_sorted (y ∷ more)

insert_name : Text → List Text → List Text
insert_name x [] = x ∷ []
insert_name x (y ∷ ys) = let rest = insert_name x ys in if text_lt y x then y ∷ rest else x ∷ y ∷ ys

-- `sort.Strings`
unfoldable pub sort_strings : List Text → List Text
unfolding insert_name
sort_strings [] = []
sort_strings (x ∷ xs) = insert_name x (sort_strings xs)

-- The names of one line in order, and whether they were not.
unfoldable pub sort_line : HostEntry → HostEntry × Bool
sort_line e =
    let names = sort_strings e.hostnames in
    if e.is_active && ltb 1 (length e.hostnames) && not (strings_are_sorted e.hostnames)
    then (record e { hostnames = names; raw = format_entry e.ip names }, true)
    else (e, false)

sort_lines : List HostEntry → List HostEntry × Bool
unfolding sort_line
sort_lines [] = ([], false)
sort_lines (e ∷ es) = let r = sort_lines es in ((sort_line e).0 ∷ r.0, (sort_line e).1 || r.1)

-- `SortHosts`
unfoldable pub sort_hosts : Hosts → Bool × Hosts
unfolding sort_lines
sort_hosts h = let r = sort_lines h.entries in (r.1, record h { entries = r.0 })

-- What `compareIPStrings` orders first: `to16` is `net.ParseIP`, whose addresses have 16 bytes, and
-- `is_four` tells whether `To4` gives one.
unfoldable pub ip_before : (Text → Option Text) → (Text → Bool) → Text → Text → Bool
ip_before to16 is_four a b = elim (to16 a) [
  | none ↦ elim (to16 b) [ none ↦ false | some y ↦ true ]
  | some x ↦ elim (to16 b) [
    | none ↦ false
    | some y ↦
        if is_four x && not (is_four y)
        then true
        else (if not (is_four x) && is_four y then false else text_lt x y)
  ]
]

-- A line in front of the first that it comes before or equals; the lines behind it in the file are
-- already in place, so equals stay in order.
insert_line : (Text → Text → Bool) → HostEntry → List HostEntry → List HostEntry
insert_line before e [] = e ∷ []
insert_line before e (f ∷ fs) =
    let rest = insert_line before e fs in if before f.ip e.ip then f ∷ rest else e ∷ f ∷ fs

-- `sort.SliceStable`
sort_stable : (Text → Text → Bool) → List HostEntry → List HostEntry
unfolding insert_line
sort_stable before [] = []
sort_stable before (e ∷ es) = insert_line before e (sort_stable before es)

-- The active lines, or the others.
lines_that : Bool → List HostEntry → List HostEntry
lines_that active [] = []
lines_that active (e ∷ es) =
    let rest = lines_that active es in
    if (if active then e.is_active else not e.is_active) then e ∷ rest else rest

-- `SortIPs`
unfoldable pub sort_ips : (Text → Option Text) → (Text → Bool) → Hosts → Hosts
unfolding sort_stable lines_that
sort_ips to16 is_four h = record h {
  entries =
      lines_that false h.entries
      ++ sort_stable (ip_before to16 is_four) (lines_that true h.entries);
}
