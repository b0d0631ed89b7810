-- ===== src/Edge/Receive/Frames.antt =====
-- What pkg/edge/handlers.go writes to the TAP device.
-- What the edge is after a frame has been written to its TAP device.
use mathlib.Core.List.{append_assoc}
use n2n_go.Base.{
  ℕ, ◌≤◌, ◌<◌, ◌≡◌, ap, subst, ◌∙◌, true, false, [], ◌∷◌, ◌++◌, arith, ltb, length, drop,
  length-append, take-append, drop-append,
}
use n2n_go.Base.Exec.{ok, err}
use n2n_go.Base.Keys.{Text, eq_refl, text_eq, nat_eq}
use n2n_go.Edge.Receive.{
  tap_written, padded, handle_v_fuze_packet, min_gcm_size, handle_data_payload, frame_of,
  fuze_payload, from_sender, may_send,
}
use n2n_go.Edge.State.{written, EdgeClient, EdgeEnv, UdpAddr}
use n2n_go.Errors.{Error}
use n2n_go.Protocol.Fuze.{fuze_header, fuze_dest, v_fuze_packet_dest_mac_addr}
use n2n_go.Protocol.Mac.{mac_string}
use n2n_go.Transform.{parse_input}

abbrev pub delivered : Text → EdgeClient → EdgeClient
delivered frame e = record e { tap_frames = e.tap_frames ++ padded frame ∷ [] }

module _ (env : EdgeEnv) (e : EdgeClient) (payload frame : Text) where
  pub handle_data_payload_long :
      min_gcm_size ≤ length payload
      → parse_input e.payload_processor payload ≡ ok frame
      → env.tap_write (padded frame) ≡ written
      → handle_data_payload env payload e ≡ (ok tt, delivered frame e)
  unfolding handle_data_payload frame_of
  handle_data_payload_long long undone takes = ground (arith, undone, takes)

  -- A payload that is too short for AES-GCM is the frame.
  pub handle_data_payload_short :
      length payload < min_gcm_size
      → env.tap_write (padded payload) ≡ written
      → handle_data_payload env payload e ≡ (ok tt, delivered payload e)
  unfolding handle_data_payload frame_of tap_written
  handle_data_payload_short short takes = ground (arith, takes)

  module _ (rest : Text) (six : length e.mac_addr ≡ 6) where
    abbrev fuze_packet : Text
    fuze_packet = fuze_header e.mac_addr ++ payload

    fuze_for_edge : v_fuze_packet_dest_mac_addr (fuze_packet ++ rest) ≡ ok e.mac_addr
    fuze_for_edge =
        ap v_fuze_packet_dest_mac_addr (append_assoc (fuze_header e.mac_addr) payload rest)
        ∙ fuze_dest e.mac_addr (payload ++ rest) six

    fuze_behind : fuze_payload (fuze_packet ++ rest) (length fuze_packet) ≡ ok payload
    unfolding fuze_payload
    fuze_behind =
        let back : drop 6 (e.mac_addr ++ payload) ≡ payload =
          subst (λ n. drop n (e.mac_addr ++ payload) ≡ payload) six
            (drop-append e.mac_addr payload) in
        let long : ltb (length fuze_packet) 7 ≡ false =
          ground (arith, length-append e.mac_addr payload) in
        rw long
          (ap (λ (t : Text). ok (drop 6 t)) (take-append (e.mac_addr ++ payload) rest) ∙ ap ok back)

    -- A packet of the fast path that is for this edge is handled as its payload, whatever the buffer
    -- holds behind it.
    pub handle_v_fuze_packet_own :
        (addr : UdpAddr)
        → e.enable_v_fuze ≡ true
        → handle_v_fuze_packet env (fuze_packet ++ rest) (length fuze_packet) addr e
          ≡ handle_data_payload env payload e
    unfolding handle_v_fuze_packet from_sender may_send
    handle_v_fuze_packet_own addr on =
        simp (on, fuze_for_edge, eq_refl (mac_string e.mac_addr), fuze_behind)

    -- With fewer than seven bytes read, the slice behind the header is out of range.
    pub handle_v_fuze_packet_short :
        (n : ℕ) (addr : UdpAddr)
        → n < 7
        → e.enable_v_fuze ≡ true
        → handle_v_fuze_packet env (fuze_packet ++ rest) n addr e ≡ (err Error.panic, e)
    unfolding handle_v_fuze_packet from_sender may_send fuze_payload
    handle_v_fuze_packet_short n addr short on =
        let cut : ltb n 7 ≡ true = ground arith in
        simp (on, fuze_for_edge, eq_refl (mac_string e.mac_addr), cut)
