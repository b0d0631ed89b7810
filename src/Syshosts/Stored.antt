-- ===== src/Syshosts/Stored.antt =====
-- The hosts file, written and read again.
use n2n_go.Base.{
  ℕ, ◌<◌, ◌≡◌, refl, ap, ◌∙◌, inl, inr, Bool, true, false, some, List, [], ◌∷◌, ◌++◌, map, arith,
  nat_beq, Bool-cases, length, All,
}
use n2n_go.Base.Exec.{ok}
use n2n_go.Base.Keys.{Text}
use n2n_go.Protocol.Mac.{is_nil}
use n2n_go.Syshosts.Words.{
  HostEntry, to_string, drop_cr, split_lines, join, file_text, parse_line, load_and_parse,
  ends_in_newline, list_empty, max_scan_token_size, parse_all, Hosts,
}

-- No byte of the line ends it.
abbrev NoNewline : Text → Type 0
NoNewline line = All (λ (b : ℕ). nat_beq b 10 ≡ false) line

-- A line that `loadAndParse` can have made: it holds what is in its raw text, which is one short line.
abbrev IsStored : (Text → Bool) → HostEntry → Type 0
IsStored is_ip e =
    NoNewline e.raw
    × (length e.raw < max_scan_token_size)
    × (drop_cr e.raw ≡ e.raw)
    × (parse_line is_ip e.raw ≡ e)

-- The lines, each with its end.
unlines : List Text → Text
unlines [] = []
unlines (l ∷ ls) = l ++ 10 ∷ unlines ls

split_lines-line :
    (line rest : Text) → NoNewline line → split_lines (line ++ 10 ∷ rest) ≡ line ∷ split_lines rest
unfolding split_lines
split_lines-line [] rest h = refl
split_lines-line (b ∷ bs) rest h = ground (arith, split_lines-line bs rest h.1, h.0)

split_lines-unlines : (ls : List Text) → All NoNewline ls → split_lines (unlines ls) ≡ ls
unfolding split_lines unlines
split_lines-unlines [] h = refl
split_lines-unlines (l ∷ ls) h =
    split_lines-line l (unlines ls) h.0 ∙ ap (λ (r : List Text). l ∷ r) (split_lines-unlines ls h.1)

-- The last line is not blank.
abbrev EndsFilled : List HostEntry → Type 0
EndsFilled [] = ⊥
EndsFilled (e ∷ []) = is_nil e.raw ≡ false
EndsFilled (e ∷ f ∷ es) = EndsFilled (f ∷ es)

ends_line : (line : Text) → NoNewline line → ends_in_newline line ≡ false
unfolding ends_in_newline
ends_line [] h = refl
ends_line (b ∷ []) h = h.0
ends_line (b ∷ c ∷ more) h = ends_line (c ∷ more) h.1

ends-append : (xs ys : Text) → is_nil ys ≡ false → ends_in_newline (xs ++ ys) ≡ ends_in_newline ys
unfolding ends_in_newline
ends-append [] ys h = refl
ends-append (x ∷ []) [] h = cc
ends-append (x ∷ []) (y ∷ ys) h = refl
ends-append (x ∷ x' ∷ xs) ys h = ends-append (x' ∷ xs) ys h

append_filled : (xs : Text) (y : ℕ) (ys : Text) → is_nil (xs ++ y ∷ ys) ≡ false
append_filled [] y ys = refl
append_filled (x ∷ xs) y ys = refl

append_end : (xs ys : Text) → (xs ++ 10 ∷ ys) ++ 10 ∷ [] ≡ xs ++ 10 ∷ (ys ++ 10 ∷ [])
append_end [] ys = refl
append_end (x ∷ xs) ys = ap (λ (r : Text). x ∷ r) (append_end xs ys)

raws : List HostEntry → List Text
raws es = map (λ e. e.raw) es

join-unlines :
    (is_ip : Text → Bool) (es : List HostEntry)
    → EndsFilled es
    → All (IsStored is_ip) es
    → (is_nil (join 10 (raws es)) ≡ false)
      × (ends_in_newline (join 10 (raws es)) ≡ false)
      × (join 10 (raws es) ++ 10 ∷ [] ≡ unlines (raws es))
unfolding join raws unlines
join-unlines is_ip [] h all = absurd h
join-unlines is_ip (e ∷ []) h all = (h, ends_line e.raw all.0.0, refl)
join-unlines is_ip (e ∷ f ∷ es) h all =
    let (filled, open_, lined) = join-unlines is_ip (f ∷ es) h all.1 in
    let more = join 10 (raws (f ∷ es)) in
    (
      append_filled e.raw 10 more,
      ends-append e.raw (10 ∷ more) refl ∙ (ends-append (10 ∷ []) more filled ∙ open_),
      append_end e.raw more ∙ ap (λ (r : Text). e.raw ++ 10 ∷ r) lined,
    )

parse_all-raws :
    (is_ip : Text → Bool) (es : List HostEntry)
    → All (IsStored is_ip) es
    → parse_all is_ip (raws es) ≡ ok es
unfolding parse_all raws
parse_all-raws is_ip [] h = refl
parse_all-raws is_ip (e ∷ es) h =
    ground (arith, h.0.1, ap (parse_line is_ip) h.0.2, h.0.3, parse_all-raws is_ip es h.1)

All-raws :
    (is_ip : Text → Bool) (es : List HostEntry) → All (IsStored is_ip) es → All NoNewline (raws es)
unfolding raws
All-raws is_ip [] h = tt
All-raws is_ip (e ∷ es) h = (h.0.0, All-raws is_ip es h.1)

none_filled : (es : List HostEntry) → list_empty es ≡ true → EndsFilled es → ⊥
none_filled [] h filled = filled
none_filled (e ∷ es) h filled = absurd cc

printed : (h : Hosts) → EndsFilled h.entries → to_string h ≡ file_text h
unfolding to_string file_text
printed h filled = elim (Bool-cases (list_empty h.entries)) [
  | inl empty ↦ absurd (none_filled h.entries empty filled)
  | inr some_ ↦ ground (arith, some_)
]

-- Lines that agree with their raw text, the last of them not blank, are read again as they were, when
-- they are written and loaded; the printed text is the written one.
pub load_and_parse-file_text :
    (is_ip : Text → Bool) (h : Hosts)
    → All (IsStored is_ip) h.entries
    → EndsFilled h.entries
    → (load_and_parse is_ip (some (file_text h)) ≡ ok h.entries) × (to_string h ≡ file_text h)
unfolding load_and_parse file_text to_string raws
load_and_parse-file_text is_ip h all filled =
    let (some_text, open_, lined) = join-unlines is_ip h.entries filled all in
    let lines : file_text h ≡ unlines (raws h.entries) = ground (arith, open_, lined) in
    let read =
      ap split_lines lines ∙ split_lines-unlines (raws h.entries) (All-raws is_ip h.entries all) in
    (ap (parse_all is_ip) read ∙ parse_all-raws is_ip h.entries all, printed h filled)
