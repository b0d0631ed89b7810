-- ===== src/Syshosts/Tidy.antt =====
-- pkg/syshosts/extents.go: raw lines, duplicates, and long lines.
use n2n_go.Base.{
  Bool, true, false, not, ◌||◌, List, [], ◌∷◌, ◌++◌, map, ltb, leb, if◌then◌else◌, length,
}
use n2n_go.Base.Keys.{Text}
use n2n_go.Syshosts.Lookup.{is_among}
use n2n_go.Syshosts.Words.{parse_line, format_entry, list_empty, Hosts, HostEntry}

-- `InsertRaw`
unfoldable pub insert_raw : (Text → Bool) → List Text → Hosts → Hosts
insert_raw is_ip lines h = record h { entries = h.entries ++ map (parse_line is_ip) lines }

-- The names that stand for the first time, behind those already seen.
unfoldable pub first_seen : List Text → List Text → List Text
first_seen seen [] = []
first_seen seen (n ∷ ns) =
    let again = first_seen seen ns in
    let next = first_seen (n ∷ seen) ns in if is_among n seen then again else n ∷ next

-- The first pass of `RemoveDuplicateHosts`, over one line.
unfoldable pub dedup_line : HostEntry → HostEntry
dedup_line e =
    let unique = first_seen [] e.hostnames in
    if not e.is_active || leb (length e.hostnames) 1
    then e
    else (if ltb (length unique) (length e.hostnames)
        then record e { hostnames = unique; raw = format_entry e.ip unique }
        else e)

-- The second pass: the lines that are left, and whether any was changed.
unfoldable pub dedup_lines : List Text → List HostEntry → List HostEntry × Bool
dedup_lines seen [] = ([], false)
dedup_lines seen (e ∷ es) =
    let unique = first_seen seen e.hostnames in
    let same = dedup_lines seen es in
    let next = dedup_lines (unique ++ seen) es in
    if not e.is_active
    then (e ∷ same.0, same.1)
    else (if list_empty e.hostnames
        then (same.0, true)
        else (if list_empty unique
            then (same.0, true)
            else (if ltb (length unique) (length e.hostnames)
                then (
                  record e { hostnames = unique; raw = format_entry e.ip unique } ∷ next.0,
                  true,
                )
                else (e ∷ next.0, next.1))))

-- `RemoveDuplicateHosts`
unfoldable pub remove_duplicate_hosts : Hosts → Hosts
unfolding dedup_line dedup_lines
remove_duplicate_hosts h =
    let once = map dedup_line h.entries in
    let r = dedup_lines [] once in record h { entries = if r.1 then r.0 else once }
