-- ===== src/Supernode/Process/Safe.antt =====
-- Which packets make `ProcessPacket` of pkg/supernode/supernode.go panic.
use n2n_go.Base.{
  ◌<◌, ◌≡◌, refl, true, false, [], ◌∷◌, arith, ltb, nat_beq, if◌then◌else◌, length, get_or,
}
use n2n_go.Base.Exec.{err, ok}
use n2n_go.Base.Keys.{Text}
use n2n_go.Errors.{Error}
use n2n_go.Net.{Addr}
use n2n_go.Protocol.Datagram.{unpack}
use n2n_go.Protocol.Fuze.{version_v_fuze}
use n2n_go.Protocol.Message.{new_raw_message}
use n2n_go.Supernode.Process.{process_packet, process_datagram, count_processed}
use n2n_go.Supernode.State.{Env, Supernode}
use n2n_go.Supernode.Wire.{is_empty}

-- A packet below the length of the header, whose first byte, if it has one, is not VFuze's version:
-- nothing but the counter of processed packets changes, and the call returns without an error
-- unless the packet is empty, when it reads past the end.
pub process_packet_short :
    (env : Env) (packet : Text) (addr : Addr) (s : Supernode)
    → length packet < 30
    → nat_beq (get_or 0 packet 0) version_v_fuze ≡ false
    → process_packet env packet addr s
      ≡ (if is_empty packet then err Error.panic else ok tt, count_processed s)
unfolding process_packet process_datagram new_raw_message unpack
process_packet_short env [] addr s short plain = refl
process_packet_short env (b ∷ bs) addr s short plain =
    let kept : nat_beq b version_v_fuze ≡ false = plain in
    let low : ltb (length (b ∷ bs)) 30 ≡ true = ground arith in
    rw (process_packet, kept, process_datagram, new_raw_message, unpack, low) refl
