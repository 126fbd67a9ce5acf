-- ===== src/Packet/Wire.antt =====
-- src/packet.rs: the getters of a packet against its bytes on the wire.
use rfs_utp.Common.{◌≡◌, ap, get_or, All}
use rfs_utp.Common.Target.{Target}
use rfs_utp.Common.Int.{pos}
use rfs_utp.Time.{delay_from_u32}
use rfs_utp.Packet.Words.{IsByte, be_u16, be_u32, swap-load_u16, swap-load_u32}
use rfs_utp.Packet.Header.{PacketHeader, cast}
use rfs_utp.Packet.Fields.{
  Packet, timestamp, timestamp_difference, seq_nr, ack_nr, connection_id, wnd_size,
}

-- The header's fields on the wire, where integers are in network byte order.
unfoldable pub fields : Packet → PacketHeader
fields p = record {
  type_ver = get_or p 0 0;
  extension = get_or p 1 0;
  connection_id = be_u16 p 2;
  timestamp = be_u32 p 4;
  timestamp_difference = be_u32 p 8;
  wnd_size = be_u32 p 12;
  seq_nr = be_u16 p 16;
  ack_nr = be_u16 p 18;
}

-- Every getter gives the field on the wire, whatever the byte order of the target.
pub getters_wire :
    (t : Target) (p : Packet)
    → All IsByte p
    → (seq_nr t p ≡ (fields p).seq_nr)
      × (ack_nr t p ≡ (fields p).ack_nr)
      × (connection_id t p ≡ (fields p).connection_id)
      × (wnd_size t p ≡ (fields p).wnd_size)
      × (timestamp t p ≡ (fields p).timestamp)
      × (timestamp_difference t p ≡ pos (fields p).timestamp_difference)
unfolding fields seq_nr ack_nr connection_id wnd_size timestamp timestamp_difference cast
    delay_from_u32
getters_wire t p h = (
  swap-load_u16 t.endian p 16 h,
  swap-load_u16 t.endian p 18 h,
  swap-load_u16 t.endian p 2 h,
  swap-load_u32 t.endian p 12 h,
  swap-load_u32 t.endian p 4 h,
  ap pos (swap-load_u32 t.endian p 8 h),
)
