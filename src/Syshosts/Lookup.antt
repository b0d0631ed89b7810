-- ===== src/Syshosts/Lookup.antt =====
-- pkg/syshosts/hostsfiles.go: what the active lines have.
use n2n_go.Base.{Bool, false, ◌&&◌, ◌||◌, List, [], ◌∷◌, if◌then◌else◌}
use n2n_go.Base.Keys.{Text, ◌==◌, text_eq, nat_eq}
use n2n_go.Protocol.Mac.{is_nil}
use n2n_go.Syshosts.Words.{Hosts, HostEntry, trim_space}

unfoldable pub is_among : Text → List Text → Bool
is_among x [] = false
is_among x (y ∷ ys) = y == x || is_among x ys

unfoldable pub has_pair : Text → Text → List HostEntry → Bool
has_pair ip host [] = false
has_pair ip host (e ∷ es) =
    (e.is_active && e.ip == ip && is_among host e.hostnames) || has_pair ip host es

-- `Has`
unfoldable pub has : Text → Text → Hosts → Bool
unfolding has_pair
has ip host h = if is_nil (trim_space host) then false else has_pair ip (trim_space host) h.entries

unfoldable pub has_name : Text → List HostEntry → Bool
has_name host [] = false
has_name host (e ∷ es) = (e.is_active && is_among host e.hostnames) || has_name host es

-- `HasHostname`
unfoldable pub has_hostname : Text → Hosts → Bool
unfolding has_name
has_hostname host h =
    if is_nil (trim_space host) then false else has_name (trim_space host) h.entries

unfoldable pub has_address : Text → List HostEntry → Bool
has_address ip [] = false
has_address ip (e ∷ es) = (e.is_active && e.ip == ip) || has_address ip es

-- `HasIP`
unfoldable pub has_ip : Text → Hosts → Bool
unfolding has_address
has_ip ip h = has_address ip h.entries
