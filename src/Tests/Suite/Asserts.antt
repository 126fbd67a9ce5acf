-- ===== src/Tests/Suite/Asserts.antt =====
-- What the test functions of src/packet.rs and src/socket.rs compare, as Boolean tests.
use rfs_utp.Common.{ℕ, List, [], ◌∷◌, Bool, true, false, ◌&&◌, ◌==◌, Result, ok, err, panic, hang}
use rfs_utp.Common.Int.{ℤ, pos, negsuc}
use rfs_utp.Packet.Types.{
  PacketType, ExtensionType, packet_type_to_u8, none_, selective_ack, unknown,
}
use rfs_utp.Packet.Extensions.{Extension}

-- Byte vectors, and lists of numbers.
unfoldable pub same_list : List ℕ → List ℕ → Bool
same_list [] [] = true
same_list [] (y ∷ ys) = false
same_list (x ∷ xs) [] = false
same_list (x ∷ xs) (y ∷ ys) = x == y && same_list xs ys

-- Packet types, which have different codes.
unfoldable pub same_type : PacketType → PacketType → Bool
unfolding packet_type_to_u8
same_type a b = packet_type_to_u8 a == packet_type_to_u8 b

abbrev pub same_extension : ExtensionType → ExtensionType → Bool
same_extension none_ none_ = true
same_extension selective_ack selective_ack = true
same_extension (unknown a) (unknown b) = a == b
same_extension _ _ = false

abbrev pub same_delay : ℤ → ℤ → Bool
same_delay (pos a) (pos b) = a == b
same_delay (negsuc a) (negsuc b) = a == b
same_delay _ _ = false

-- `is_err`
abbrev pub is_err {ℓ κ} : {E : Type ℓ} {A : Type κ} → Result E A → Bool
is_err (ok a) = false
is_err (err e) = true
is_err panic = false
is_err hang = false

-- Whether extensions have these types and bytes.
abbrev pub same_extensions : List Extension → List Extension → Bool
same_extensions [] [] = true
same_extensions (x ∷ xs) (y ∷ ys) =
    (same_extension x.ty y.ty && same_list x.bytes y.bytes) && same_extensions xs ys
same_extensions _ _ = false
