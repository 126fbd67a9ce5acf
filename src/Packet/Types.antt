-- ===== src/Packet/Types.antt =====
-- src/packet.rs: the packet and extension types and their one-byte codes.
use rfs_utp.Common.{ℕ, ◌<◌, ◌≤◌, ◌≡◌, refl, arith, Result, ok, err}
use rfs_utp.Common.{◌==◌, if◌then◌else◌, Bool, true, false}
use rfs_utp.Error.{ParseError, invalid_packet_type}

pub data PacketType : Type 0 where
  data_ fin state reset syn ack : PacketType

pub PacketType-discrete : Discrete PacketType
PacketType-discrete = hlevel

-- `TryFrom<u8> for PacketType`
unfoldable pub packet_type_from_u8 : ℕ → Result ParseError PacketType
packet_type_from_u8 original =
    if original == 0
    then ok data_
    else if original == 1
    then ok fin
    else if original == 2
    then ok state
    else if original == 3
    then ok reset
    else if original == 4
    then ok syn
    else if original == 5
    then ok ack
    else err (invalid_packet_type original)

-- `From<PacketType> for u8`
unfoldable pub packet_type_to_u8 : PacketType → ℕ
packet_type_to_u8 data_ = 0
packet_type_to_u8 fin = 1
packet_type_to_u8 state = 2
packet_type_to_u8 reset = 3
packet_type_to_u8 syn = 4
packet_type_to_u8 ack = 5

pub data ExtensionType : Type 0 where
  none_ : ExtensionType
  selective_ack : ExtensionType
  unknown : ℕ → ExtensionType

-- `From<u8> for ExtensionType`
unfoldable pub extension_type_from_u8 : ℕ → ExtensionType
extension_type_from_u8 original =
    if original == 0 then none_ else if original == 1 then selective_ack else unknown original

-- `From<ExtensionType> for u8`
unfoldable pub extension_type_to_u8 : ExtensionType → ℕ
extension_type_to_u8 none_ = 0
extension_type_to_u8 selective_ack = 1
extension_type_to_u8 (unknown n) = n

-- `extension_type != ExtensionType::None`
abbrev pub is_extension : ExtensionType → Bool
is_extension none_ = false
is_extension selective_ack = true
is_extension (unknown n) = true

-- `extension_type == ExtensionType::SelectiveAck`
abbrev pub is_selective_ack : ExtensionType → Bool
is_selective_ack none_ = false
is_selective_ack selective_ack = true
is_selective_ack (unknown n) = false

-- Decoding the code of a packet type gives the type back, and every code that decodes is the
-- code of the type that it decodes to; any other byte is refused with itself in the error.
pub packet_type_codes :
    (original : ℕ) (t : PacketType)
    → (packet_type_from_u8 (packet_type_to_u8 t) ≡ ok t)
      × (packet_type_from_u8 original ≡ ok t → packet_type_to_u8 t ≡ original)
      × (6 ≤ original → packet_type_from_u8 original ≡ err (invalid_packet_type original))
unfolding packet_type_from_u8 packet_type_to_u8
packet_type_codes original data_ = (refl, λ e. ground arith, λ h. ground arith)
packet_type_codes original _ = (refl, λ e. ground arith, λ h. ground arith)

pub packet_type_to_u8-lt : (t : PacketType) → packet_type_to_u8 t < 6
unfolding packet_type_to_u8
packet_type_to_u8-lt data_ = omega arith
packet_type_to_u8-lt _ = omega arith

pub extension_type-byte : (n : ℕ) → extension_type_to_u8 (extension_type_from_u8 n) ≡ n
unfolding extension_type_from_u8 extension_type_to_u8
extension_type-byte n = ground arith

-- Only the byte 0 ends the chain of extensions.
pub is_extension-byte :
    (n : ℕ) → is_extension (extension_type_from_u8 n) ≡ (if n == 0 then false else true)
unfolding extension_type_from_u8
is_extension-byte n = ground arith
