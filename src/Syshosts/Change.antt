-- ===== src/Syshosts/Change.antt =====
-- pkg/syshosts/hostsfiles.go: lines that are added, changed and removed.
use n2n_go.Base.{
  Bool, true, false, not, ◌&&◌, ◌||◌, Option, none, some, List, [], ◌∷◌, ◌++◌, ltb, if◌then◌else◌,
  length,
}
use n2n_go.Base.Exec.{Exec, ok, err}
use n2n_go.Base.Keys.{Text, ◌==◌, text_eq, nat_eq}
use n2n_go.Errors.{Error}
use n2n_go.Protocol.Mac.{is_nil}
use n2n_go.Syshosts.Lookup.{is_among, has_address, has_name}
use n2n_go.Syshosts.Words.{list_empty, HostEntry, Hosts, format_entry, trim_space}

-- The names that are left when white space is cut off and empty ones are dropped.
unfoldable pub clean_names : List Text → List Text
clean_names [] = []
clean_names (n ∷ ns) =
    let rest = clean_names ns in if is_nil (trim_space n) then rest else trim_space n ∷ rest

-- The names of a line and the new ones behind them, and whether there were new ones.
unfoldable pub merge_names : List Text → Bool → List Text → List Text × Bool
merge_names names added [] = (names, added)
merge_names names added (v ∷ vs) =
    if is_among v names then merge_names names added vs else merge_names (names ++ v ∷ []) true vs

unfoldable pub add_to_line : List Text → HostEntry → HostEntry
unfolding merge_names
add_to_line valid e =
    let r = merge_names e.hostnames false valid in
    record e { hostnames = r.0; raw = if r.1 then format_entry e.ip r.0 else e.raw }

unfoldable pub add_to_first : Text → List Text → List HostEntry → Option (List HostEntry)
unfolding add_to_line
add_to_first ip valid [] = none
add_to_first ip valid (e ∷ es) =
    let rest = add_to_first ip valid es in
    if e.is_active && e.ip == ip
    then some (add_to_line valid e ∷ es)
    else elim rest [ none ↦ none | some more ↦ some (e ∷ more) ]

-- The lines with the new names: on the first line of the address, or on a line of their own.
unfoldable pub added_entries : Text → List Text → List HostEntry → List HostEntry
unfolding add_to_first
added_entries ip valid entries = elim (add_to_first ip valid entries) [
  | some changed ↦ changed
  | none ↦
      entries
      ++ record { ip = ip; hostnames = valid; raw = format_entry ip valid; is_active = true } ∷ []
]

-- `Add`
unfoldable pub add : (Text → Bool) → Text → List Text → Exec Hosts Error Unit
add is_ip ip hosts h =
    let valid = clean_names hosts in
    if not (is_ip ip)
    then (err Error.invalid_ip, h)
    else (if list_empty valid
        then (err Error.no_hostname, h)
        else (ok tt, record h { entries = added_entries ip valid h.entries }))

-- The names that are not among these.
unfoldable pub names_left : List Text → List Text → List Text
names_left gone [] = []
names_left gone (n ∷ ns) =
    let rest = names_left gone ns in if is_among n gone then rest else n ∷ rest

unfoldable pub any_of : List Text → List Text → Bool
any_of gone [] = false
any_of gone (n ∷ ns) = is_among n gone || any_of gone ns

-- What the loop of `Remove` has after the lines: the lines kept, and its flags.
pub record Removal : Type 0 where
  pub new_entries : List HostEntry
  pub found_ip : Bool
  pub modified : Bool
  pub entry_removed : Bool

-- One line of that loop, in front of what the rest gives.
unfoldable pub remove_line : Text → List Text → HostEntry → Removal → Removal
remove_line ip gone e r =
    let left = names_left gone e.hostnames in
    if e.is_active && e.ip == ip
    then (if not (any_of gone e.hostnames)
        then record r { new_entries = e ∷ r.new_entries; found_ip = true }
        else (if list_empty left
            then record r { found_ip = true; modified = true; entry_removed = true }
            else (if ltb (length left) (length e.hostnames)
                then record r {
                  new_entries =
                      record e { hostnames = left; raw = format_entry e.ip left } ∷ r.new_entries;
                  found_ip = true;
                  modified = true;
                }
                else record r {
                  new_entries = e ∷ r.new_entries;
                  found_ip = true;
                  modified = true;
                })))
    else record r { new_entries = e ∷ r.new_entries }

unfoldable pub remove_lines : Text → List Text → List HostEntry → Removal
unfolding remove_line
remove_lines ip gone [] = record {
  new_entries = [];
  found_ip = false;
  modified = false;
  entry_removed = false;
}
remove_lines ip gone (e ∷ es) = remove_line ip gone e (remove_lines ip gone es)

-- `Remove`
unfoldable pub remove_hosts : (Text → Bool) → Text → List Text → Exec Hosts Error Unit
unfolding remove_lines
remove_hosts is_ip ip hosts h =
    let gone = clean_names hosts in
    let r = remove_lines ip gone h.entries in
    if not (is_ip ip)
    then (err Error.invalid_ip, h)
    else (if list_empty gone
        then (err Error.no_hostname, h)
        else (if not r.found_ip
            then (err Error.ip_not_found, h)
            else (if not r.modified
                then (err Error.host_entry_not_found, h)
                else (ok tt, if r.entry_removed then record h { entries = r.new_entries } else h))))

-- The lines of `RemoveByHostname`.
unfoldable pub without_name : Text → List HostEntry → List HostEntry
without_name host [] = []
without_name host (e ∷ es) =
    let left = names_left (host ∷ []) e.hostnames in
    let rest = without_name host es in
    if not e.is_active
    then e ∷ rest
    else (if not (is_among host e.hostnames)
        then e ∷ rest
        else (if list_empty left
            then rest
            else record e { hostnames = left; raw = format_entry e.ip left } ∷ rest))

-- `RemoveByHostname`; `found` and `modified` become true together.
unfoldable pub remove_by_hostname : Text → Exec Hosts Error Unit
unfolding without_name has_name
remove_by_hostname host h =
    let name = trim_space host in
    if is_nil name
    then (err Error.no_hostname, h)
    else (if not (has_name name h.entries)
        then (err Error.hostname_not_found, h)
        else (ok tt, record h { entries = without_name name h.entries }))

unfoldable pub without_ip : Text → List HostEntry → List HostEntry
without_ip ip [] = []
without_ip ip (e ∷ es) =
    let rest = without_ip ip es in if e.is_active && e.ip == ip then rest else e ∷ rest

-- `RemoveByIP`
unfoldable pub remove_by_ip : Text → Hosts → Hosts
unfolding without_ip has_address
remove_by_ip ip h =
    if has_address ip h.entries then record h { entries = without_ip ip h.entries } else h
