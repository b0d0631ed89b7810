-- ===== src/Errors.antt =====
-- The errors that the modelled functions return, one constructor for each place that makes one.
-- `panic` is a Go run-time panic: a slice or an index out of range, or a nil pointer.
pub data Error : Type 0 where
  panic : Error
  -- pkg/protocol
  packet_too_short not_version_v nil_source_mac not_data_packet wrong_packet_type decode_failed :
      Error
  not_vfuze_short not_vfuze_version no_handler encode_failed : Error
  -- pkg/machine
  no_machine_id : Error
  -- pkg/supernode
  edge_not_in_community community_not_found unknown_edge unicast_forward_fail : Error
  wrong_community_hash community_name_taken no_address_pool ip_allocation ip_parse
        community_mismatch :
      Error
  decrypt_failed mac_mismatch machine_id_mismatch not_a_request : Error
  wss_not_found write_failed non_udp_address nil_address forward_failed : Error
  -- pkg/p2p
  bad_pair_key peer_exists peer_not_found unknown_event nil_reachables not_available nil_socket :
      Error
  -- pkg/tuntap
  frame_too_short not_tagged buffer_too_small : Error
  -- pkg/tranform
  no_transforms nonce_failed ciphertext_too_short open_failed compress_failed decompress_failed :
      Error
  -- pkg/edge
  no_peer_addr no_transport send_failed tap_write_failed tap_closed encrypt_failed : Error
  not_registered waiting_for_supernode nack_register bad_public_key request_refused bad_virtual_ip :
      Error
  bad_mac_addr wrong_recipient no_target deadline_failed read_failed conn_closed : Error
  no_virtual_ip tap_up_failed not_ipv4 no_hardware_addr raw_write_failed : Error
  -- pkg/syshosts
  invalid_ip no_hostname ip_not_found host_entry_not_found hostname_not_found line_too_long : Error
