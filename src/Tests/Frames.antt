-- ===== src/Tests/Frames.antt =====
-- Runs of pkg/tuntap/frame.go.
use n2n_go.Base.{ℕ, ◌+◌, ◌≤◌, ◌≡◌, refl, [], ◌∷◌, ◌++◌, arith, length}
use n2n_go.Base.Exec.{ok}
use n2n_go.Base.Keys.{Text}
use n2n_go.Tests.Fixtures.{alice, bob}
use n2n_go.Tuntap.Frame.{
  new_frame, parse_frame, fast_tagging_type, Ethertype, fill_frame, untagged, tag_size,
}
use n2n_go.Tuntap.Frame.Build.{parse_frame-new_frame, plain_parsed}
use n2n_go.Tuntap.Frame.Parse.{parse_frame_in_bounds}

abbrev ipv4 : Ethertype
ipv4 = record { hi = 8; lo = 0 }

abbrev short_frame : Text
short_frame = new_frame alice bob ipv4 (69 ∷ [])

fifteen : length short_frame ≡ 15
unfolding new_frame fill_frame
fifteen = refl

sixteen : 16 ≤ length (short_frame ++ 1 ∷ [])
unfolding new_frame fill_frame
sixteen = omega arith

short_plain : fast_tagging_type short_frame ≡ untagged
unfolding new_frame fill_frame fast_tagging_type
short_plain = refl

parse_frame-new_frame_example :
    parse_frame (new_frame alice bob ipv4 (69 ∷ [])) ≡ ok (plain_parsed alice bob ipv4 (69 ∷ []))
parse_frame-new_frame_example =
    parse_frame-new_frame alice bob ipv4 (69 ∷ []) refl refl
      (λ e. absurd (omega (arith, e)), λ e. absurd (omega (arith, e)))

parse_frame_in_bounds_example :
    (14 + tag_size untagged ≤ length short_frame)
    × (length {A = ℕ} (69 ∷ []) + 14 + tag_size untagged ≡ length short_frame)
parse_frame_in_bounds_example =
    parse_frame_in_bounds short_frame (plain_parsed alice bob ipv4 (69 ∷ [])) (ipv4, 69 ∷ [])
      (parse_frame-new_frame alice bob ipv4 (69 ∷ []) refl refl
        (λ e. absurd (omega (arith, e)), λ e. absurd (omega (arith, e))))
      refl
