-- ===== src/Syshosts/Combine.antt =====
-- pkg/syshosts/extents.go: lines of one address made into one, and the cleaning of the whole file.
use n2n_go.Base.{Bool, true, false, not, ◌&&◌, List, [], ◌∷◌, ◌++◌, map, if◌then◌else◌}
use n2n_go.Base.Keys.{Text, ◌==◌, text_eq, nat_eq}
use n2n_go.Syshosts.Lookup.{is_among}
use n2n_go.Syshosts.Tidy.{remove_duplicate_hosts, first_seen}
use n2n_go.Syshosts.Words.{format_entry, list_empty, HostEntry, Hosts}

-- The lines that are kept: those that are not active, and the first of each address; and whether there
-- are others.
unfoldable pub keep_first : List Text → List HostEntry → List HostEntry × Bool
keep_first seen [] = ([], false)
keep_first seen (e ∷ es) =
    let same = keep_first seen es in
    let next = keep_first (e.ip ∷ seen) es in
    if not e.is_active
    then (e ∷ same.0, same.1)
    else (if is_among e.ip seen then (same.0, true) else (e ∷ next.0, next.1))

-- The names of an address, over all its lines.
unfoldable pub names_of : Text → List HostEntry → List Text
names_of ip [] = []
names_of ip (e ∷ es) =
    let rest = names_of ip es in if e.is_active && e.ip == ip then e.hostnames ++ rest else rest

-- A kept line, with all names of its address.
unfoldable pub combined : List HostEntry → HostEntry → HostEntry
combined all e =
    let unique = first_seen [] (names_of e.ip all) in
    if e.is_active
    then record { ip = e.ip; hostnames = unique; raw = format_entry e.ip unique; is_active = true }
    else e

-- `CombineDuplicateIPs`
unfoldable pub combine_duplicate_ips : Hosts → Hosts
combine_duplicate_ips h =
    let kept = keep_first [] h.entries in
    if kept.1 then record h { entries = map (combined h.entries) kept.0 } else h

-- `combineDuplicateIPsInternal` and `removeDuplicateHostsInternal`, which are copies.
abbrev combine_duplicate_ips_internal : Hosts → Hosts
combine_duplicate_ips_internal h = combine_duplicate_ips h

abbrev remove_duplicate_hosts_internal : Hosts → Hosts
remove_duplicate_hosts_internal h = remove_duplicate_hosts h

-- The lines but the active ones without names.
unfoldable pub without_empty : List HostEntry → List HostEntry
without_empty [] = []
without_empty (e ∷ es) =
    let rest = without_empty es in if e.is_active && list_empty e.hostnames then rest else e ∷ rest

-- `removeEmptyActiveEntriesInternal`; where there is no such line, the lines are the same.
unfoldable pub remove_empty_active_entries_internal : Hosts → Hosts
remove_empty_active_entries_internal h = record h { entries = without_empty h.entries }

-- `Clean`
unfoldable pub clean : Hosts → Hosts
clean h =
    remove_empty_active_entries_internal
      (remove_duplicate_hosts_internal (combine_duplicate_ips_internal h))
