-- ===== src/Packet/Fields.antt =====
-- src/packet.rs: Packet, a vector of bytes, with its constructors, getters and setters.
use rfs_utp.Common.{ℕ, List, ◌++◌, length, set, Result}
use rfs_utp.Common.Target.{Target}
use rfs_utp.Time.{Timestamp, Delay, delay_from_u32, delay_to_u32}
use rfs_utp.Packet.Types.{PacketType, data_, ExtensionType}
use rfs_utp.Packet.Words.{store_u16, store_u32, swap_u16, swap_u32, write_bytes}
use rfs_utp.Packet.Header
use rfs_utp.Packet.Header.{PacketHeader, header_size, as_ref, default_header, cast}

-- The bytes of the vector.
abbrev pub Packet : Type 0
Packet = List ℕ

-- `Packet::new`
unfoldable pub new : Target → Packet
new t = as_ref t.endian default_header

-- `Packet::with_payload`
unfoldable pub with_payload : Target → List ℕ → Packet
with_payload t payload = as_ref t.endian (Header.set_type default_header data_) ++ payload

unfoldable pub set_type : Target → Packet → PacketType → Packet
set_type t p ty = set p 0 (Header.set_type (cast t p) ty).type_ver

unfoldable pub get_type {ℓ} : {E : Type ℓ} → Target → Packet → Result E PacketType
get_type t p = Header.get_type (cast t p)

unfoldable pub get_version : Target → Packet → ℕ
get_version t p = Header.get_version (cast t p)

unfoldable pub get_extension_type : Target → Packet → ExtensionType
get_extension_type t p = Header.get_extension_type (cast t p)

unfoldable pub timestamp : Target → Packet → Timestamp
timestamp t p = swap_u32 t.endian (cast t p).timestamp

unfoldable pub set_timestamp : Target → Packet → Timestamp → Packet
set_timestamp t p new = write_bytes p 4 (store_u32 t.endian (swap_u32 t.endian new))

unfoldable pub timestamp_difference : Target → Packet → Delay
timestamp_difference t p = delay_from_u32 (swap_u32 t.endian (cast t p).timestamp_difference)

unfoldable pub set_timestamp_difference : Target → Packet → Delay → Packet
set_timestamp_difference t p delay =
    write_bytes p 8 (store_u32 t.endian (swap_u32 t.endian (delay_to_u32 delay)))

unfoldable pub seq_nr : Target → Packet → ℕ
seq_nr t p = swap_u16 t.endian (cast t p).seq_nr

unfoldable pub ack_nr : Target → Packet → ℕ
ack_nr t p = swap_u16 t.endian (cast t p).ack_nr

unfoldable pub connection_id : Target → Packet → ℕ
connection_id t p = swap_u16 t.endian (cast t p).connection_id

unfoldable pub wnd_size : Target → Packet → ℕ
wnd_size t p = swap_u32 t.endian (cast t p).wnd_size

unfoldable pub set_seq_nr : Target → Packet → ℕ → Packet
set_seq_nr t p new = write_bytes p 16 (store_u16 t.endian (swap_u16 t.endian new))

unfoldable pub set_ack_nr : Target → Packet → ℕ → Packet
set_ack_nr t p new = write_bytes p 18 (store_u16 t.endian (swap_u16 t.endian new))

unfoldable pub set_connection_id : Target → Packet → ℕ → Packet
set_connection_id t p new = write_bytes p 2 (store_u16 t.endian (swap_u16 t.endian new))

unfoldable pub set_wnd_size : Target → Packet → ℕ → Packet
set_wnd_size t p new = write_bytes p 12 (store_u32 t.endian (swap_u32 t.endian new))

-- `Packet::len`
abbrev pub len : Packet → ℕ
len p = length p
