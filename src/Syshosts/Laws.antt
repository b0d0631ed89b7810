-- ===== src/Syshosts/Laws.antt =====
-- What the changes of the hosts file leave behind.
use n2n_go.Base.{
  ◌≡◌, refl, sym, subst, ◌≢◌, inl, inr, Bool, true, false, ◌&&◌, List, [], ◌∷◌, arith,
  if◌then◌else◌, Bool-cases, All,
}
use n2n_go.Base.Exec.{err, ok, result_of, state_of}
use n2n_go.Base.Keys.{text_beq_iff, ◌==◌, Text, text_eq, nat_eq}
use n2n_go.Errors.{Error}
use n2n_go.Protocol.Mac.{is_nil}
use n2n_go.Syshosts.Change.{
  names_left, remove_line, any_of, clean_names, remove_hosts, remove_by_hostname, without_name,
  remove_lines,
}
use n2n_go.Syshosts.Lookup.{is_among, has_pair, has_hostname, has_name, has}
use n2n_go.Syshosts.Words.{Hosts, HostEntry, list_empty, trim_space}

member_others :
    (host : Text) (names : List Text) → is_among host (names_left (host ∷ []) names) ≡ false
unfolding is_among names_left
member_others host [] = refl
member_others host (n ∷ ns) =
    ground (arith, member_others host ns, text_beq_iff n host, text_beq_iff host n)

without_name_gone :
    (host : Text) (es : List HostEntry) → has_name host (without_name host es) ≡ false
unfolding has_name without_name
without_name_gone host [] = refl
without_name_gone host (e ∷ es) =
    ground (arith, without_name_gone host es, member_others host e.hostnames)

-- The names that stay are those that are not `host`.
member_others_kept :
    (host x : Text) (names : List Text)
    → x ≢ host
    → is_among x (names_left (host ∷ []) names) ≡ is_among x names
unfolding is_among names_left
member_others_kept host x [] h = refl
member_others_kept host x (n ∷ ns) h =
    ground (arith, member_others_kept host x ns h, text_beq_iff n x, text_beq_iff host n, h)

member_empty : (x : Text) (ns : List Text) → list_empty ns ≡ true → is_among x ns ≡ false
unfolding is_among
member_empty x [] h = refl
member_empty x (n ∷ ns) h = cc

without_name_kept :
    (host ip x : Text) (es : List HostEntry)
    → x ≢ host
    → has_pair ip x (without_name host es) ≡ has_pair ip x es
unfolding has_pair without_name
without_name_kept host ip x [] h = refl
without_name_kept host ip x (e ∷ es) h = ground (
  arith,
  without_name_kept host ip x es h,
  member_others_kept host x e.hostnames h,
  member_empty x (names_left (host ∷ []) e.hostnames),
)

-- Unless it is blank, a name that is removed is on no active line afterwards; the removal is an error
-- just where it was on none before. Every pair of an address and another name stays as it was.
pub remove_by_hostname_lem :
    (host ip other : Text) (h : Hosts)
    → is_nil (trim_space host) ≡ false
    → trim_space other ≢ trim_space host
    → let r = remove_by_hostname host h in
      (has_hostname host (state_of r) ≡ false)
      × (result_of r ≡ (if has_hostname host h then ok tt else err Error.hostname_not_found))
      × (has ip other (state_of r) ≡ has ip other h)
unfolding remove_by_hostname has_hostname has
remove_by_hostname_lem host ip other h filled differ =
    let name = trim_space host in
    let gone = without_name_gone name h.entries in
    let kept = without_name_kept name ip (trim_space other) h.entries differ in
    elim (Bool-cases (has_name name h.entries)) [
      | inl there ↦ (
        ground (arith, filled, there, gone),
        ground (arith, filled, there),
        ground (arith, filled, there, kept),
      )
      | inr missing ↦ (
        ground (arith, filled, missing),
        ground (arith, filled, missing),
        ground (arith, filled, missing),
      )
    ]

-- Every active line of this address keeps one of its names.
abbrev KeepsOne : Text → List Text → List HostEntry → Type 0
KeepsOne ip gone es =
    All
      (λ e. ((e.is_active && e.ip == ip) ≡ true) → list_empty (names_left gone e.hostnames) ≡ false)
      es

remove_lines_kept :
    (ip : Text) (gone : List Text) (es : List HostEntry)
    → KeepsOne ip gone es
    → (remove_lines ip gone es).entry_removed ≡ false
unfolding remove_lines remove_line
remove_lines_kept ip gone [] h = refl
remove_lines_kept ip gone (e ∷ es) h = elim (Bool-cases (e.is_active && e.ip == ip)) [
  | inl here ↦ ground (arith, here, h.0 here, remove_lines_kept ip gone es h.1)
  | inr away ↦ ground (arith, away, remove_lines_kept ip gone es h.1)
]

member_some : (x : Text) (ns : List Text) → is_among x ns ≡ true → list_empty ns ≡ false
unfolding is_among
member_some x [] h = cc
member_some x (n ∷ ns) h = refl

any_of-is_among :
    (x : Text) (gone names : List Text)
    → is_among x gone ≡ true
    → is_among x names ≡ true
    → any_of gone names ≡ true
unfolding is_among any_of
any_of-is_among x gone [] m h = cc
any_of-is_among x gone (n ∷ ns) m h = elim (Bool-cases (n == x)) [
  | inl same ↦
      let in_gone : is_among n gone ≡ true =
        subst (λ (y : Text). is_among y gone ≡ true) (sym ((text_beq_iff n x).0 same)) m in
      ground (arith, in_gone)
  | inr differs ↦ ground (arith, differs, h, any_of-is_among x gone ns m)
]

pair_found :
    (ip x : Text) (gone : List Text) (es : List HostEntry)
    → is_among x gone ≡ true
    → has_pair ip x es ≡ true
    → ((remove_lines ip gone es).found_ip ≡ true) × ((remove_lines ip gone es).modified ≡ true)
unfolding remove_lines remove_line has_pair
pair_found ip x gone [] m h = cc
pair_found ip x gone (e ∷ es) m h =
    ground (arith, m, h, pair_found ip x gone es m, any_of-is_among x gone e.hostnames m)

-- A name of an address is asked to be removed: where each active line of the address has another name
-- that is to stay, the removal reports success and has changed nothing, so the name is still there.
pub remove_hosts_kept :
    (is_ip : Text → Bool) (ip host : Text) (hosts : List Text) (h : Hosts)
    → is_ip ip ≡ true
    → has ip host h ≡ true
    → is_among (trim_space host) (clean_names hosts) ≡ true
    → KeepsOne ip (clean_names hosts) h.entries
    → remove_hosts is_ip ip hosts h ≡ (ok tt, h)
unfolding remove_hosts has
remove_hosts_kept is_ip ip host hosts h valid there asked kept =
    let gone = clean_names hosts in
    let kept_flag = remove_lines_kept ip gone h.entries kept in
    let filled : is_nil (trim_space host) ≡ false = ground arith in
    let found =
      pair_found ip (trim_space host) gone h.entries asked (ground (arith, filled, there)) in
    let some_name : list_empty gone ≡ false = member_some (trim_space host) gone asked in
    ground (arith, valid, kept_flag, found, some_name)
