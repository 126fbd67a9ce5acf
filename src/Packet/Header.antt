-- ===== src/Packet/Header.antt =====
-- src/packet.rs: PacketHeader, the #[repr(C)] view of the first twenty bytes of a packet.
-- Its fields hold what lies in memory: the integers of a Packet are in network byte order.
use rfs_utp.Common.{
  ℕ, ◌*◌, ◌/◌, ◌%◌, bit_and, bit_or, List, ◌∷◌, ◌++◌, length, get_or, Result, ok, err, panic, hang,
  ltb, ◌==◌, if◌then◌else◌, ◌>>=◌, not,
}
use rfs_utp.Common.Target.{Target, Endian}
use rfs_utp.Error.{ParseError, invalid_packet_length, unsupported_version}
use rfs_utp.Packet.Types.{
  PacketType, data_, packet_type_from_u8, packet_type_to_u8, ExtensionType, extension_type_from_u8,
}
use rfs_utp.Packet.Words.{store_u16, store_u32, load_u16, load_u32, u8_to_unsigned_be}

abbrev pub header_size : ℕ
header_size = 20

pub record PacketHeader : Type 0 where
  pub type_ver : ℕ  -- u8
  pub extension : ℕ  -- u8
  pub connection_id : ℕ  -- u16
  pub timestamp : ℕ  -- u32
  pub timestamp_difference : ℕ  -- u32
  pub wnd_size : ℕ  -- u32
  pub seq_nr : ℕ  -- u16
  pub ack_nr : ℕ  -- u16

-- `set_type`: the low half of the byte, the version, is kept.
unfoldable pub set_type : PacketHeader → PacketType → PacketHeader
set_type header t =
    let version = bit_and 15 header.type_ver in
    record header { type_ver = bit_or (packet_type_to_u8 t * 16 % 256) version }

-- An `unwrap`: an error is a panic.
abbrev pub unwrap {ℓ κ μ} : {E : Type ℓ} {F : Type κ} {A : Type μ} → Result E A → Result F A
unwrap (ok a) = ok a
unwrap (err e) = panic
unwrap panic = panic
unwrap hang = hang

unfoldable pub get_type {ℓ} : {E : Type ℓ} → PacketHeader → Result E PacketType
get_type header = unwrap (packet_type_from_u8 (header.type_ver / 16))

unfoldable pub get_version : PacketHeader → ℕ
get_version header = bit_and header.type_ver 15

unfoldable pub get_extension_type : PacketHeader → ExtensionType
get_extension_type header = extension_type_from_u8 header.extension

-- `AsRef<[u8]> for PacketHeader`: the struct's memory.
unfoldable pub as_ref : Endian → PacketHeader → List ℕ
as_ref e h =
    h.type_ver
    ∷ h.extension
    ∷ (store_u16 e h.connection_id
        ++ (store_u32 e h.timestamp
            ++ (store_u32 e h.timestamp_difference
                ++ (store_u32 e h.wnd_size ++ (store_u16 e h.seq_nr ++ store_u16 e h.ack_nr)))))

-- `Default for PacketHeader`
unfoldable pub default_header : PacketHeader
default_header = record {
  type_ver = bit_or (packet_type_to_u8 data_ * 16 % 256) 1;
  extension = 0;
  connection_id = 0;
  timestamp = 0;
  timestamp_difference = 0;
  wnd_size = 0;
  seq_nr = 0;
  ack_nr = 0;
}

abbrev pub header_of_bytes : List ℕ → PacketHeader
header_of_bytes buf = record {
  type_ver = get_or buf 0 0;
  extension = get_or buf 1 0;
  connection_id = u8_to_unsigned_be buf 2 2 0;
  timestamp = u8_to_unsigned_be buf 4 4 0;
  timestamp_difference = u8_to_unsigned_be buf 8 4 0;
  wnd_size = u8_to_unsigned_be buf 12 4 0;
  seq_nr = u8_to_unsigned_be buf 16 2 0;
  ack_nr = u8_to_unsigned_be buf 18 2 0;
}

-- `TryFrom<&[u8]> for PacketHeader`
unfoldable pub header_try_from : List ℕ → Result ParseError PacketHeader
header_try_from buf =
    if ltb (length buf) header_size
    then err invalid_packet_length
    else if not (bit_and (get_or buf 0 0) 15 == 1)
    then err unsupported_version
    else (packet_type_from_u8 (get_or buf 0 0 / 16) >>= λ _. ok (header_of_bytes buf))

-- The cast of the packet's pointer to a header.
unfoldable pub cast : Target → List ℕ → PacketHeader
cast t p = record {
  type_ver = get_or p 0 0;
  extension = get_or p 1 0;
  connection_id = load_u16 t.endian p 2;
  timestamp = load_u32 t.endian p 4;
  timestamp_difference = load_u32 t.endian p 8;
  wnd_size = load_u32 t.endian p 12;
  seq_nr = load_u16 t.endian p 16;
  ack_nr = load_u16 t.endian p 18;
}
