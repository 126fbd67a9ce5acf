-- ===== src/Socket/SynPacket.antt =====
-- src/socket.rs: the Syn of `connect`.
use rfs_utp.Common.{
  ℕ, ◌+◌, ◌*◌, ◌^◌, ◌<◌, ◌≡◌, refl, ap, ◌∙◌, arith, List, [], ◌∷◌, get_or, drop, length, All, ok,
}
use rfs_utp.Common.Target.{Target}
use rfs_utp.Packet.Types.{
  PacketType, data_, fin, state, reset, syn, ack, packet_type_from_u8, extension_type_from_u8,
  packet_type_to_u8,
}
use rfs_utp.Packet.Words.{IsByte}
use rfs_utp.Packet.Header
use rfs_utp.Packet.Header.{PacketHeader, cast}
use rfs_utp.Packet.Fields
use rfs_utp.Packet.Fields.{Packet}
use rfs_utp.Packet.Chain.{end}
use rfs_utp.Packet.Parse.{IsWellFormed}
use rfs_utp.Packet.Wire.{fields, getters_wire}
use rfs_utp.Packet.Setters.{
  Write, type_, connection_id_, seq_nr_, write, write_all, assign, assign_all, write_all-IsByte,
  setters_refine,
}
use rfs_utp.Packet.Fresh.{new-fields, blank}
use rfs_utp.Socket.Peers.{Net, syn_packet}

-- The type in the first byte of a packet of version 1.
pub get_type_lem :
    (t : Target) (p : Packet) (ty : PacketType)
    → get_or p 0 0 ≡ packet_type_to_u8 ty * 16 + 1
    → Fields.get_type {E = ⊥} t p ≡ ok ty
unfolding Fields.get_type Header.get_type cast packet_type_from_u8 packet_type_to_u8
get_type_lem t p data_ e = rw e refl
get_type_lem t p fin e = rw e refl
get_type_lem t p state e = rw e refl
get_type_lem t p reset e = rw e refl
get_type_lem t p syn e = rw e refl
get_type_lem t p ack e = rw e refl

module _ (n : Net) (id : ℕ) (id_small : id < 2 ^ 16) where
  abbrev writes : List Write
  writes = type_ syn ∷ connection_id_ id ∷ seq_nr_ 1 ∷ []

  as_writes : syn_packet n id 1 ≡ write_all n.world.target (Fields.new n.world.target) writes
  unfolding syn_packet write_all write
  as_writes = refl

  pub syn_packet-fields :
      (fields (syn_packet n id 1) ≡ record blank { type_ver = 65; connection_id = id; seq_nr = 1 })
      × All IsByte (syn_packet n id 1)
      × (drop 20 (syn_packet n id 1) ≡ [])
      × (length (syn_packet n id 1) ≡ 20)
  unfolding assign assign_all packet_type_to_u8
  syn_packet-fields =
      let (f, l, d, b) = new-fields n.world.target in
      let (f', d', l') =
        setters_refine n.world.target writes (Fields.new n.world.target) (omega arith) b
          (omega arith) in
      rw as_writes (
        f' ∙ ap (λ h. assign_all h writes) f,
        write_all-IsByte n.world.target (Fields.new n.world.target) writes b,
        d' ∙ d,
        l' ∙ l,
      )

  pub syn_packet-IsByte : All IsByte (syn_packet n id 1)
  syn_packet-IsByte = syn_packet-fields.1

  pub syn_packet-IsWellFormed : IsWellFormed (syn_packet n id 1) [] []
  unfolding fields extension_type_from_u8
  syn_packet-IsWellFormed =
      let (f, b, d, l) = syn_packet-fields in
      let v : get_or (syn_packet n id 1) 0 0 ≡ 65 = ap (λ h. h.type_ver) f in
      let x : get_or (syn_packet n id 1) 1 0 ≡ 0 = ap (λ h. h.extension) f in
      record {
        sized = omega arith;
        version = rw v refl;
        known_type = rw v (omega arith);
        chain = rw (x, d) (end [] refl);
      }

  pub syn_packet-get_type : (t : Target) → Fields.get_type {E = ⊥} t (syn_packet n id 1) ≡ ok syn
  unfolding fields packet_type_to_u8
  syn_packet-get_type t =
      get_type_lem t (syn_packet n id 1) syn (ap (λ h. h.type_ver) syn_packet-fields.0)

  pub syn_packet-seq_nr : (t : Target) → Fields.seq_nr t (syn_packet n id 1) ≡ 1
  syn_packet-seq_nr t =
      (getters_wire t (syn_packet n id 1) syn_packet-fields.1).0
      ∙ ap (λ h. h.seq_nr) syn_packet-fields.0
