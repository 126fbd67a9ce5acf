-- ===== src/Socket/Reply.antt =====
-- src/socket.rs: `prepare_reply`.
use rfs_utp.Common.{ℕ, ltb}
use rfs_utp.Time.{Timestamp, Delay, timestamp_sub}
use rfs_utp.Util.{abs_diff}
use rfs_utp.Packet.Types.{PacketType}
use rfs_utp.Packet.Fields.{
  Packet, new, set_type, timestamp, set_timestamp, set_timestamp_difference, set_connection_id,
  set_seq_nr, set_ack_nr,
}
use rfs_utp.Socket.State.{World}

-- `abs_diff` at timestamps.
unfoldable pub timestamp_abs_diff : Timestamp → Timestamp → Delay
timestamp_abs_diff = abs_diff (λ a b. ltb b a) timestamp_sub

-- `prepare_reply`, by a socket with this id.
unfoldable pub prepare_reply : World → ℕ → Packet → PacketType → ℕ → ℕ → Packet
prepare_reply w id packet ty seq_nr ack_nr =
    let t = w.target in
    let time_difference = timestamp_abs_diff w.now (timestamp t packet) in
    let typed = set_type t (new t) ty in
    let stamped = set_timestamp_difference t (set_timestamp t typed w.now) time_difference in
    let identified = set_connection_id t stamped id in
    set_ack_nr t (set_seq_nr t identified seq_nr) ack_nr
