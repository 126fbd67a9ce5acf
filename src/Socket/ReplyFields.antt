-- ===== src/Socket/ReplyFields.antt =====
-- src/socket.rs: what `prepare_reply` puts on the wire.
use rfs_utp.Common.{
  ℕ, ◌+◌, ◌*◌, ◌^◌, ◌<◌, ◌≤◌, ◌≡◌, refl, ap, ◌∙◌, arith, List, [], ◌∷◌, length, drop, All,
}
use rfs_utp.Time.{delay_to_u32, timestamp_sub}
use rfs_utp.Util.{abs_diff}
use rfs_utp.Common.Int.{◌-ℤ◌, as_unsigned}
use rfs_utp.Packet.Types.{
  PacketType, packet_type_to_u8, packet_type_to_u8-lt, extension_type_from_u8,
}
use rfs_utp.Packet.Words.{IsByte}
use rfs_utp.Packet.Header.{PacketHeader}
use rfs_utp.Packet.Fields.{Packet, new, timestamp}
use rfs_utp.Packet.Wire.{fields}
use rfs_utp.Packet.Setters.{
  Write, type_, timestamp_, timestamp_difference_, connection_id_, seq_nr_, ack_nr_, write,
  write_all, assign, assign_all, write_all-IsByte, setters_refine,
}
use rfs_utp.Packet.Fresh.{new-fields}
use rfs_utp.Packet.Chain.{end}
use rfs_utp.Packet.Parse.{IsWellFormed}
use rfs_utp.Socket.State.{World}
use rfs_utp.Socket.Reply.{prepare_reply, timestamp_abs_diff}

-- The header that the arguments of `prepare_reply` describe.
abbrev pub reply_header : World → ℕ → Packet → PacketType → ℕ → ℕ → PacketHeader
reply_header w id packet ty seq_nr ack_nr = record {
  type_ver = packet_type_to_u8 ty * 16 + 1;
  extension = 0;
  connection_id = id;
  timestamp = w.now;
  timestamp_difference = delay_to_u32 (timestamp_abs_diff w.now (timestamp w.target packet));
  wnd_size = 0;
  seq_nr = seq_nr;
  ack_nr = ack_nr;
}

module _ (w : World) (id : ℕ) (packet : Packet) (ty : PacketType) (seq_nr ack_nr : ℕ)
    (now_small : w.now < 2 ^ 32) (id_small : id < 2 ^ 16) (seq_small : seq_nr < 2 ^ 16)
    (ack_small : ack_nr < 2 ^ 16) where
  abbrev writes : List Write
  writes =
      type_ ty
      ∷ timestamp_ w.now
      ∷ timestamp_difference_ (timestamp_abs_diff w.now (timestamp w.target packet))
      ∷ connection_id_ id
      ∷ seq_nr_ seq_nr
      ∷ ack_nr_ ack_nr
      ∷ []

  as_writes : prepare_reply w id packet ty seq_nr ack_nr ≡ write_all w.target (new w.target) writes
  unfolding prepare_reply write_all write
  as_writes = refl

  pub reply-IsByte : All IsByte (prepare_reply w id packet ty seq_nr ack_nr)
  reply-IsByte =
      rw as_writes (write_all-IsByte w.target (new w.target) writes (new-fields w.target).3)

  -- The reply on the wire: twenty bytes of version 1 with the given type, numbers and connection
  -- id, the time of the clock, and its distance from the time of the packet that is answered.
  pub reply_fields :
      (fields (prepare_reply w id packet ty seq_nr ack_nr)
        ≡ reply_header w id packet ty seq_nr ack_nr)
      × (drop 20 (prepare_reply w id packet ty seq_nr ack_nr) ≡ [])
      × (length (prepare_reply w id packet ty seq_nr ack_nr) ≡ 20)
  unfolding assign assign_all
  reply_fields =
      let (f, l, d, b) = new-fields w.target in
      let (f', d', l') =
        setters_refine w.target writes (new w.target) (omega arith) b (omega arith) in
      rw as_writes (f' ∙ ap (λ h. assign_all h writes) f, d' ∙ d, l' ∙ l)

  pub reply-IsWellFormed : IsWellFormed (prepare_reply w id packet ty seq_nr ack_nr) [] []
  unfolding fields extension_type_from_u8
  reply-IsWellFormed =
      let (f, d, l) = reply_fields in
      let v = ap (λ h. h.type_ver) f in
      let x = ap (λ h. h.extension) f in
      record {
        sized = omega arith;
        version = rw v (omega arith);
        known_type = rw v (omega (arith, packet_type_to_u8-lt ty));
        chain = rw (x, d) (end [] refl);
      }

-- The difference of two timestamps does not depend on their order, fits the field of a packet, and
-- is the distance of the two numbers: an earlier time leads back to the later one.
pub timestamp_distance :
    (a b : ℕ)
    → a < 2 ^ 32
    → b ≤ a
    → (timestamp_abs_diff a b ≡ timestamp_abs_diff b a)
      × (b + delay_to_u32 (timestamp_abs_diff a b) ≡ a)
unfolding timestamp_abs_diff abs_diff timestamp_sub delay_to_u32 ◌-ℤ◌ as_unsigned
timestamp_distance a b h l = ground arith
