-- ===== src/Tuntap/Frame/Build.antt =====
-- Frames that are built and read back.
use mathlib.Core.List.{append-nil, append_assoc}
use n2n_go.Base.{
  ℕ, zero, suc, ◌+◌, ◌≤◌, ◌≡◌, refl, sym, ap, ap₂, subst, ◌∙◌, ◌≢◌, [], ◌∷◌, ◌++◌, arith, length,
  take, drop, replicate, length-take, length-drop,
}
use n2n_go.Base.Bytes.{byte_at, window-append-drop, window}
use n2n_go.Base.Exec.{ok}
use n2n_go.Base.Keys.{Text}
use n2n_go.Protocol.Mac.{HardwareAddr}
use n2n_go.Tuntap.Frame.{
  untagged, new_frame_into, parse_frame, overwrite, ethertype_value, fast_ethertype, Ethertype,
  Parsed, fast_source, fill_frame, fast_destination, dot1q_tag_type, new_frame, fast_tagging_type,
  fast_payload, dot1ad_tag_type,
}

overwrite_whole : (b s : Text) → length b ≡ length s → overwrite b s ≡ s
overwrite_whole [] [] h = refl
overwrite_whole [] (s ∷ ss) h = absurd (omega arith)
overwrite_whole (d ∷ ds) [] h = absurd (omega arith)
overwrite_whole (d ∷ ds) (s ∷ ss) h = ap (λ r. s ∷ r) (overwrite_whole ds ss (omega arith))

length-overwrite : (b s : Text) → length (overwrite b s) ≡ length b
length-overwrite [] s = refl
length-overwrite (d ∷ ds) [] = refl
length-overwrite (d ∷ ds) (s ∷ ss) = omega (arith, length-overwrite ds ss)

-- Over a frame that is long enough for it, an address of six bytes and a payload: what comes out
-- begins with the addresses, the type and the payload, and keeps what lay behind.
pub fill_frame_lem :
    (frame : Text) (dst src : HardwareAddr) (e : Ethertype) (payload : Text)
    → length dst ≡ 6
    → length src ≡ 6
    → 14 + length payload ≤ length frame
    → fill_frame frame dst src e payload
      ≡ dst ++ (src ++ (e.hi ∷ e.lo ∷ overwrite (drop 14 frame) payload))
unfolding fill_frame
fill_frame_lem frame dst src e payload hd hs long =
    ap₂ (λ a b. a ++ (b ++ (e.hi ∷ e.lo ∷ overwrite (drop 14 frame) payload)))
      (overwrite_whole (take 6 frame) dst (omega (arith, length-take 6 frame)))
      (overwrite_whole (take 6 (drop 6 frame)) src
        (omega (arith, length-take 6 (drop 6 frame), length-drop 6 frame)))

length-replicate : (n : ℕ) → length (replicate {A = ℕ} n 0) ≡ n
length-replicate zero = refl
length-replicate (suc n) = omega (arith, length-replicate n)

no_bytes : (b : Text) → length b ≡ 0 → b ≡ []
no_bytes [] h = refl
no_bytes (x ∷ b) h = absurd (omega arith)

-- An address of six bytes is its bytes, one by one.
six_bytes : (a : HardwareAddr) → length a ≡ 6 → window 0 6 a ≡ a
six_bytes a six =
    let none_left : drop 6 a ≡ [] = no_bytes (drop 6 a) (omega (arith, length-drop 6 a)) in
    sym (append-nil (window 0 6 a))
    ∙ subst (λ r. window 0 6 a ++ r ≡ a) none_left (window-append-drop 6 a (omega arith))

new_frame_bytes :
    (dst src : HardwareAddr) (e : Ethertype) (payload : Text)
    → length dst ≡ 6
    → length src ≡ 6
    → new_frame dst src e payload ≡ dst ++ (src ++ (e.hi ∷ e.lo ∷ payload))
unfolding new_frame
new_frame_bytes dst src e payload hd hs =
    let zeros = replicate (14 + length payload) 0 in
    let size : length zeros ≡ 14 + length payload = length-replicate (14 + length payload) in
    fill_frame_lem zeros dst src e payload hd hs (omega arith)
    ∙ ap (λ r. dst ++ (src ++ (e.hi ∷ e.lo ∷ r)))
        (overwrite_whole (drop 14 zeros) payload (omega (arith, length-drop 14 zeros)))

-- The type field does not announce a VLAN tag.
abbrev pub IsPlain : Ethertype → Type 0
IsPlain e = (ethertype_value e ≢ dot1q_tag_type) × (ethertype_value e ≢ dot1ad_tag_type)

abbrev pub plain_parsed : HardwareAddr → HardwareAddr → Ethertype → Text → Parsed
plain_parsed dst src e payload = record {
  dst = dst;
  src = src;
  tagging = untagged;
  rest = ok (e, payload);
}

untagged_plain :
    (frame : Text)
    → IsPlain (record { hi = byte_at 12 frame; lo = byte_at 13 frame })
    → fast_tagging_type frame ≡ untagged
unfolding fast_tagging_type
untagged_plain frame plain = ground arith

parse_untagged :
    (frame : Text)
    → 14 ≤ length frame
    → fast_tagging_type frame ≡ untagged
    → parse_frame frame
      ≡ ok (
          plain_parsed
            (fast_destination frame)
            (fast_source frame)
            (fast_ethertype frame untagged)
            (drop 14 frame))
unfolding parse_frame fast_payload
parse_untagged frame long plain = ground arith

parse_bytes :
    (d s : HardwareAddr) (e : Ethertype) (payload : Text)
    → IsPlain e
    → parse_frame (window 0 6 d ++ (window 0 6 s ++ (e.hi ∷ e.lo ∷ payload)))
      ≡ ok (plain_parsed (window 0 6 d) (window 0 6 s) e payload)
unfolding parse_frame fast_tagging_type fast_destination fast_source fast_ethertype fast_payload
parse_bytes d s e payload plain =
    let frame = window 0 6 d ++ (window 0 6 s ++ (e.hi ∷ e.lo ∷ payload)) in
    parse_untagged frame (omega arith) (untagged_plain frame plain)

-- A frame that is built from two six-byte addresses and a type that announces no VLAN tag parses
-- to those addresses, that type and that payload.
pub parse_frame-new_frame :
    (dst src : HardwareAddr) (e : Ethertype) (payload : Text)
    → length dst ≡ 6
    → length src ≡ 6
    → IsPlain e
    → parse_frame (new_frame dst src e payload) ≡ ok (plain_parsed dst src e payload)
parse_frame-new_frame dst src e payload hd hs plain =
    ap parse_frame (new_frame_bytes dst src e payload hd hs)
    ∙ subst
        (λ d.
          parse_frame (d ++ (src ++ (e.hi ∷ e.lo ∷ payload))) ≡ ok (plain_parsed d src e payload))
        (six_bytes dst hd)
        (subst
          (λ s.
            parse_frame (window 0 6 dst ++ (s ++ (e.hi ∷ e.lo ∷ payload)))
            ≡ ok (plain_parsed (window 0 6 dst) s e payload))
          (six_bytes src hs) (parse_bytes dst src e payload plain))

overwrite_front : (b s : Text) → length s ≤ length b → overwrite b s ≡ s ++ drop (length s) b
overwrite_front [] [] h = refl
overwrite_front [] (s ∷ ss) h = absurd (omega arith)
overwrite_front (d ∷ ds) [] h = refl
overwrite_front (d ∷ ds) (s ∷ ss) h = ap (λ r. s ∷ r) (overwrite_front ds ss (omega arith))

into_long :
    (buffer : Text) (dst src : HardwareAddr) (e : Ethertype) (payload : Text)
    → 14 + length payload ≤ length buffer
    → new_frame_into buffer dst src e payload
      ≡ ok (14 + length payload, fill_frame buffer dst src e payload)
unfolding new_frame_into
into_long buffer dst src e payload fits = ground arith

-- A buffer that has room for the 14-byte header and the payload holds, in front, the frame that
-- `NewFrame` makes of two six-byte addresses; the size is returned, and the bytes behind stay.
pub new_frame_into-new_frame :
    (buffer : Text) (dst src : HardwareAddr) (e : Ethertype) (payload : Text)
    → length dst ≡ 6
    → length src ≡ 6
    → 14 + length payload ≤ length buffer
    → new_frame_into buffer dst src e payload
      ≡ ok (
        14 + length payload,
        new_frame dst src e payload ++ drop (length payload) (drop 14 buffer),
      )
new_frame_into-new_frame buffer dst src e payload hd hs fits =
    into_long buffer dst src e payload fits
    ∙ ap (λ r. ok (14 + length payload, r))
        (fill_frame_lem buffer dst src e payload hd hs fits
          ∙ ap (λ r. dst ++ (src ++ (e.hi ∷ e.lo ∷ r)))
              (overwrite_front (drop 14 buffer) payload (omega (arith, length-drop 14 buffer)))
          ∙ regroup dst src e payload (drop (length payload) (drop 14 buffer))
          ∙ ap (λ r. r ++ drop (length payload) (drop 14 buffer))
              (sym (new_frame_bytes dst src e payload hd hs)))
  where
    regroup :
        (d s : Text) (t : Ethertype) (body rest : Text)
        → d ++ (s ++ (t.hi ∷ t.lo ∷ body ++ rest)) ≡ (d ++ (s ++ (t.hi ∷ t.lo ∷ body))) ++ rest
    regroup d s t body rest = simp append_assoc
