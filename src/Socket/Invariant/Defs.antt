-- ===== src/Socket/Invariant/Defs.antt =====
-- src/socket.rs: the invariant of a peer and of a socket.
use rfs_utp.Common.{ℕ, ◌<◌, ◌≡◌, arith, List, [], ◌∷◌, ok, some, All, ◌==◌, Bool-cases, inl, inr}
use rfs_utp.Common.Target.{Target, add_u16, u16_mod}
use rfs_utp.Packet.Types.{data_}
use rfs_utp.Packet.Words.{IsByte, get_or-IsByte}
use rfs_utp.Packet.Wire.{fields, getters_wire}
use rfs_utp.Packet.Fields
use rfs_utp.Packet.Fields.{Packet}
use rfs_utp.Packet.Extensions.{Extension}
use rfs_utp.Packet.Parse.{IsWellFormed}
use rfs_utp.BTreeMap.{BTreeMap, remove, remove_all, IsSorted}
use rfs_utp.Socket.State.{SocketAddr, UtpSocketState}
use rfs_utp.Socket.Reassembly.{IsNumbered}
use rfs_utp.Socket.Peers.{UtpSocket}

-- Bytes that are a well formed packet.
pub record IsPacket (p : Packet) : Type 0 where
  pub bytes : All IsByte p
  pub xs : List Extension
  pub pl : List ℕ
  pub well_formed : IsWellFormed p xs pl

-- A well formed data packet.
pub record IsDataPacket (t : Target) (p : Packet) : Type 0 where
  pub packet : IsPacket p
  pub is_data : Fields.get_type {E = ⊥} t p ≡ ok data_

-- The numbers of a peer are u16 values; its window and its buffer are sorted maps in which each
-- packet stands under its own number; the window holds well formed packets, and the two buffers
-- hold well formed data packets; and it knows its address.
pub record IsValid (t : Target) (addr : SocketAddr) (peer : UtpSocketState) : Type 0 where
  pub seq_small : peer.seq_nr < u16_mod
  pub ack_small : peer.ack_nr < u16_mod
  pub count_small : peer.duplicate_ack_count < u16_mod
  pub last_small : peer.last_acked < u16_mod
  pub sender_small : peer.sender_id < u16_mod
  pub window_sorted : IsSorted peer.sent_window
  pub window : IsNumbered IsPacket t peer.sent_window
  pub early_sorted : IsSorted peer.out_of_order
  pub early : IsNumbered (IsDataPacket t) t peer.out_of_order
  pub buffered : All (IsDataPacket t) peer.incoming_buffer
  pub address : peer.connected_to ≡ some addr

-- Every peer of the socket, at its address, and the identifier of the socket.
pub record IsSound (t : Target) (s : UtpSocket) : Type 0 where
  pub peers :
      (addr : SocketAddr) (peer : UtpSocketState) → s.peers addr ≡ some peer → IsValid t addr peer
  pub id_small : s.id < u16_mod

module _ (P : Packet → Type 0) (t : Target) where
  pub remove-IsNumbered :
      (k : ℕ) (m : BTreeMap Packet) → IsNumbered P t m → IsNumbered P t (remove k m)
  unfolding remove
  remove-IsNumbered k [] n = tt
  remove-IsNumbered k ((j, p) ∷ m) n = elim (Bool-cases (j == k)) [
    | inl e ↦ rw (e, IsNumbered) n.1
    | inr e ↦ rw (e, IsNumbered) (n.0, remove-IsNumbered k m n.1)
  ]

  pub remove_all-IsNumbered :
      (ks : List ℕ) (m : BTreeMap Packet) → IsNumbered P t m → IsNumbered P t (remove_all ks m)
  unfolding remove_all
  remove_all-IsNumbered [] m n = n
  remove_all-IsNumbered (k ∷ ks) m n =
      remove_all-IsNumbered ks (remove k m) (remove-IsNumbered k m n)

-- The getters of u16 fields give u16 values.
pub u16_getters :
    (t : Target) (p : Packet)
    → All IsByte p
    → (Fields.seq_nr t p < u16_mod)
      × (Fields.ack_nr t p < u16_mod)
      × (Fields.connection_id t p < u16_mod)
unfolding fields
u16_getters t p b = omega (
  arith,
  getters_wire t p b,
  get_or-IsByte p 2 b,
  get_or-IsByte p 3 b,
  get_or-IsByte p 16 b,
  get_or-IsByte p 17 b,
  get_or-IsByte p 18 b,
  get_or-IsByte p 19 b,
)

-- A sum on u16 values is one.
pub add_u16-lt : {E : Type 0} (t : Target) (a b c : ℕ) → add_u16 {E = E} t a b ≡ ok c → c < u16_mod
unfolding add_u16
add_u16-lt t a b c h = ground arith
