-- ===== src/Syshosts/Words.antt =====
-- pkg/syshosts/hostsfiles.go: lines and words, and a line that is read and printed.
use n2n_go.Base.{
  ℕ, zero, suc, ◌-◌, Bool, true, false, ◌&&◌, ◌||◌, Option, List, [], ◌∷◌, ◌++◌, map, leb, nat_beq,
  if◌then◌else◌, length,
}
use n2n_go.Base.Exec.{Exec, Result, or_fail, ok, err, ◌>>=◌}
use n2n_go.Base.Keys.{Text}
use n2n_go.Errors.{Error}
use n2n_go.Machine.Mac.{word}
use n2n_go.Protocol.Mac.{is_nil}

-- `hostEntry`
pub record HostEntry : Type 0 where
  pub ip : Text
  pub hostnames : List Text
  pub raw : Text
  pub is_active : Bool

-- `Hosts`, without its lock
pub record Hosts : Type 0 where
  pub file_path : Text
  pub entries : List HostEntry

abbrev pub list_empty {ℓ} : {A : Type ℓ} → List A → Bool
list_empty [] = true
list_empty (x ∷ xs) = false

-- The number of bytes of the white space in front (`unicode.IsSpace`, in UTF-8), 0 where there is none.
unfoldable pub space_width : Text → ℕ
space_width [] = 0
space_width (a ∷ []) = if (leb 9 a && leb a 13) || nat_beq a 32 then 1 else 0
space_width (a ∷ b ∷ []) =
    if (leb 9 a && leb a 13) || nat_beq a 32
    then 1
    else (if nat_beq a 194 && (nat_beq b 133 || nat_beq b 160) then 2 else 0)
space_width (a ∷ b ∷ c ∷ rest) =
    if (leb 9 a && leb a 13) || nat_beq a 32
    then 1
    else (if nat_beq a 194 && (nat_beq b 133 || nat_beq b 160)
        then 2
        else (if (nat_beq a 225 && nat_beq b 154 && nat_beq c 128)
              || (nat_beq a 226
                  && nat_beq b 128
                  && ((leb 128 c && leb c 138) || nat_beq c 168 || nat_beq c 169 || nat_beq c 175))
              || (nat_beq a 226 && nat_beq b 129 && nat_beq c 159)
              || (nat_beq a 227 && nat_beq b 128 && nat_beq c 128)
            then 3
            else 0))

-- The text behind its leading white space; `skip` bytes of it are still to be passed over.
trim_left : ℕ → Text → Text
unfolding space_width
trim_left skip [] = []
trim_left (suc skip) (b ∷ bs) = trim_left skip bs
trim_left zero (b ∷ bs) =
    let width = space_width (b ∷ bs) in
    let rest = trim_left (width - 1) bs in if nat_beq width 0 then b ∷ bs else rest

trim_right : Text → Text
unfolding trim_left
trim_right [] = []
trim_right (b ∷ bs) =
    let rest = trim_right bs in if is_nil (trim_left 0 (b ∷ bs)) then [] else b ∷ rest

-- `strings.TrimSpace`
unfoldable pub trim_space : Text → Text
unfolding trim_left trim_right
trim_space s = trim_right (trim_left 0 s)

-- A word that has ended, where it is one.
abbrev word_before : Text → List Text → List Text
word_before [] words = words
word_before (b ∷ bs) words = (b ∷ bs) ∷ words

fields_from : ℕ → Text → Text → List Text
unfolding space_width
fields_from skip word [] = word_before word []
fields_from (suc skip) word (b ∷ bs) = fields_from skip word bs
fields_from zero word (b ∷ bs) =
    let width = space_width (b ∷ bs) in
    let more = fields_from 0 (word ++ b ∷ []) bs in
    let next = fields_from (width - 1) [] bs in
    if nat_beq width 0 then more else word_before word next

-- `strings.Fields`
unfoldable pub fields : Text → List Text
unfolding fields_from
fields s = fields_from 0 [] s

-- `strings.Join`, with a separator of one byte
unfoldable pub join : ℕ → List Text → Text
join sep [] = []
join sep (x ∷ []) = x
join sep (x ∷ y ∷ more) = x ++ sep ∷ join sep (y ∷ more)

-- `formatEntry`
unfoldable pub format_entry : Text → List Text → Text
unfolding join
format_entry ip hostnames = ip ++ 9 ∷ join 32 hostnames

-- What begins with "#" or is empty.
is_blank_or_comment : Text → Bool
is_blank_or_comment [] = true
is_blank_or_comment (b ∷ bs) = nat_beq b 35

-- A line whose words are these; the first must be an IP address, with a hostname behind it.
entry_of : (Text → Bool) → Text → List Text → HostEntry
entry_of is_ip line [] = record { ip = []; hostnames = []; raw = line; is_active = false }
entry_of is_ip line (w ∷ []) = record { ip = []; hostnames = []; raw = line; is_active = false }
entry_of is_ip line (w ∷ host ∷ more) =
    if is_ip w
    then record { ip = w; hostnames = host ∷ more; raw = line; is_active = true }
    else record { ip = []; hostnames = []; raw = line; is_active = false }

-- `parseLine`; `is_ip s` is `net.ParseIP(s) != nil`.
unfoldable pub parse_line : (Text → Bool) → Text → HostEntry
unfolding is_blank_or_comment entry_of
parse_line is_ip line =
    if is_blank_or_comment (trim_space line)
    then record { ip = []; hostnames = []; raw = line; is_active = false }
    else entry_of is_ip line (fields (trim_space line))

-- `bufio.ScanLines`: the lines without their ends; behind the last end there is no line.
unfoldable pub split_lines : Text → List Text
split_lines [] = []
split_lines (b ∷ bs) =
    let rest = split_lines bs in
    if nat_beq b 10
    then [] ∷ rest
    else (elim rest [ [] ↦ (b ∷ []) ∷ [] | line ∷ more ↦ (b ∷ line) ∷ more ])

-- A line without its carriage return.
unfoldable pub drop_cr : Text → Text
drop_cr [] = []
drop_cr (b ∷ []) = if nat_beq b 13 then [] else b ∷ []
drop_cr (b ∷ c ∷ more) = b ∷ drop_cr (c ∷ more)

-- The buffer of a `bufio.Scanner`.
abbrev pub max_scan_token_size : ℕ
max_scan_token_size = 65536

unfoldable pub parse_all : (Text → Bool) → List Text → Result Error (List HostEntry)
unfolding drop_cr
parse_all is_ip [] = ok []
parse_all is_ip (line ∷ more) =
    let rest = parse_all is_ip more in
    if leb max_scan_token_size (length line)
    then err Error.line_too_long
    else (do entries ← rest; ok (parse_line is_ip (drop_cr line) ∷ entries))

-- `loadAndParse`, from what `os.ReadFile` gives
unfoldable pub load_and_parse : (Text → Bool) → Option Text → Result Error (List HostEntry)
unfolding parse_all
load_and_parse is_ip content = do
  text ← or_fail Error.read_failed content
  parse_all is_ip (split_lines text)

-- `NewHosts`
unfoldable pub new_hosts : (Text → Bool) → Text → Option Text → Result Error Hosts
unfolding load_and_parse
new_hosts is_ip path content = do
  entries ← load_and_parse is_ip content
  ok (record { file_path = path; entries = entries })

-- `Reload`
unfoldable pub reload : (Text → Bool) → Option Text → Exec Hosts Error Unit
unfolding load_and_parse
reload is_ip content h = elim (load_and_parse is_ip content) [
  | ok entries ↦ (ok tt, record h { entries = entries })
  | err e ↦ (err e, h)
]

-- `strings.HasSuffix(output, "\n")`
unfoldable pub ends_in_newline : Text → Bool
ends_in_newline [] = false
ends_in_newline (b ∷ []) = nat_beq b 10
ends_in_newline (b ∷ c ∷ more) = ends_in_newline (c ∷ more)

abbrev closed : Text → Text
unfolding ends_in_newline
closed output = if ends_in_newline output then output else output ++ 10 ∷ []

-- What `Write` writes.
unfoldable pub file_text : Hosts → Text
unfolding ends_in_newline
file_text h = closed (join 10 (map (λ e. e.raw) h.entries))

-- `String`
unfoldable pub to_string : Hosts → Text
unfolding ends_in_newline
to_string h =
    let output = join 10 (map (λ e. e.raw) h.entries) in
    if list_empty h.entries then output else closed output
