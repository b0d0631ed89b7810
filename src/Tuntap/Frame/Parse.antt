-- ===== src/Tuntap/Frame/Parse.antt =====
-- The accessors and the all-in-one parser agree, but for `Payload` on the shortest frames.
use n2n_go.Base.{◌+◌, ◌≤◌, ◌<◌, ◌≡◌, ◌≢◌, ◌⊎◌, arith, length, drop, length-drop}
use n2n_go.Base.Exec.{Result, err, ok, ◌>>=◌}
use n2n_go.Base.Keys.{Text}
use n2n_go.Errors.{Error}
use n2n_go.Tuntap.Frame.{
  fast_tagging_type, Ethertype, fast_ethertype, Parsed, fast_payload, tag_size, untagged,
  parse_frame, get_ethertype, get_payload,
}

abbrev pub parsed_rest : Result Error Parsed → Result Error (Ethertype × Text)
parsed_rest r = do p ← r; p.rest

-- `GetEthertype` gives the type, or the error, that `ParseFrame` gives.
pub get_ethertype-parse_frame :
    (frame : Text) → get_ethertype frame ≡ (do x ← parsed_rest (parse_frame frame); ok x.0)
unfolding get_ethertype parse_frame
get_ethertype-parse_frame frame = ground arith

-- `Payload` gives the payload, or the error, that `ParseFrame` gives, for a frame that carries a
-- tag or has at least 16 bytes.
pub get_payload-parse_frame :
    (frame : Text)
    → (fast_tagging_type frame ≢ untagged) ⊎ (16 ≤ length frame)
    → get_payload frame ≡ (do x ← parsed_rest (parse_frame frame); ok x.1)
unfolding get_payload parse_frame
get_payload-parse_frame frame h = ground arith

-- On an untagged frame of 14 or 15 bytes, which `ParseFrame` accepts with the payload behind the
-- 14-byte header, `Payload` fails.
get_payload_short :
    (frame : Text)
    → fast_tagging_type frame ≡ untagged
    → 14 ≤ length frame
    → length frame < 16
    → (get_payload frame ≡ err Error.frame_too_short)
      × (parsed_rest (parse_frame frame) ≡ ok (fast_ethertype frame untagged, drop 14 frame))
unfolding get_payload parse_frame fast_payload
get_payload_short frame plain long short = ground arith

-- What the parser accepts has all the bytes that the unchecked accessors read, so they stay within
-- the frame: the type field that lies behind the tags, and the tag itself.
pub parse_frame_in_bounds :
    (frame : Text) (p : Parsed) (x : Ethertype × Text)
    → parse_frame frame ≡ ok p
    → p.rest ≡ ok x
    → (14 + tag_size p.tagging ≤ length frame)
      × (length x.1 + 14 + tag_size p.tagging ≡ length frame)
unfolding parse_frame fast_payload
parse_frame_in_bounds frame p x e f =
    ground (arith, length-drop (14 + tag_size (fast_tagging_type frame)) frame)
