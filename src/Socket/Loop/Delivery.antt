-- ===== src/Socket/Loop/Delivery.antt =====
-- src/socket.rs: the loop of `start_receiving` over the packets of `send_packets`.
use rfs_utp.Common.{
  ℕ, ◌+◌, ◌%◌, ◌^◌, ◌<◌, ◌≡◌, refl, sym, ap, ◌∙◌, arith, List, [], ◌∷◌, ◌++◌, length, ok, ◌||◌,
  false, none, some, All, ◌-◌, ◌==◌, length-append,
}
use mathlib.Core.Path.{subst}
use native.Mathlib.Decide.{ℕ_discrete}
use rfs_utp.Common.Target.{Target}
use rfs_utp.Packet.Words.{IsByte}
use rfs_utp.Packet.Fields
use rfs_utp.Packet.Fields.{Packet}
use rfs_utp.Packet.Parse.{IsWellFormed}
use rfs_utp.BTreeMap.{BTreeMap, get}
use rfs_utp.Socket.State.{SocketAddr, UtpSocketState}
use rfs_utp.Socket.Reassembly.{CountsFrom, IsReceiving, arrived}
use rfs_utp.Socket.Delivery.{IsOpen, carries, CountsFrom-append, or_assoc, gap_after}
use rfs_utp.Socket.Peers.{UtpSocket, register_peer}
use rfs_utp.Socket.PeerMap.{put-same}
use rfs_utp.Socket.Queueing.{Carries, Sizes}
use rfs_utp.Socket.Transfer.{IsCopy, found, some-injective}
use rfs_utp.Socket.Loop.{datagram, failure, Round, recv_round, Progress, receive_loop}
use rfs_utp.Socket.Loop.OneRound.{IsWilling, RoundDone, round_lem}

-- The datagrams among what arrives.
unfoldable pub packets_of : List Round → List Packet
packets_of [] = []
packets_of (r ∷ rs) = elim r.arrival [
  | datagram p a ↦ p ∷ packets_of rs
  | failure e ↦ packets_of rs
]

-- A round in which a copy of one of the packets arrives from the address, and nothing is refused.
pub record IsCopyRound (t : Target) (packets : BTreeMap Packet) (addr : SocketAddr) (r : Round)
    : Type 0 where
  pub packet : Packet
  pub arrives : r.arrival ≡ datagram packet addr
  pub copy : IsCopy t packets packet
  pub same_target : r.net.world.target ≡ t
  pub willing : IsWilling r.net

-- A copy of a full packet on the wire.
pub wire :
    (t : Target) (a k n : ℕ) (m : BTreeMap Packet) (buf : List ℕ) (p : Packet)
    → Carries t a m buf
    → Sizes m n
    → n % 6 ≡ 0
    → All (λ e. All IsByte e.1) m
    → get k m ≡ some p
    → (chunk : List ℕ) × IsWellFormed p [] chunk × (length p ≡ 26) × All IsByte p
unfolding get
wire t a k n [] buf p c s mul b e = cc
wire t a k n ((j, q) ∷ m) buf p (same, number, ty, (chunk, rest, w, l, split, c)) s mul b e =
    elim (ℕ_discrete j k) [
      | yes h ↦
          let here : some q ≡ some p = sym (ground arith) ∙ e in
          subst (λ x. (chunk : List ℕ) × IsWellFormed x [] chunk × (length x ≡ 26) × All IsByte x)
            (some-injective q p here) (chunk, w, omega (arith, s), b.0)
      | no h ↦
          let there : get k m ≡ some p = ground arith in
          wire t (a + 1) k (n - 6) m rest p c s.2 (omega (arith, s)) b.1 there
    ]

-- What the loop leaves after rounds with these packets: it waits for more; and of the packets all
-- that continue the stream have gone to the channel.
pub record Looped (P : Packet → Type 0) (t : Target) (rs : List Round) (addr : SocketAddr)
    (buf : List ℕ) (s : UtpSocket) (peer : UtpSocketState) : Type 0 where
  pub out : Progress
  pub after : UtpSocketState
  pub result : receive_loop rs buf s ≡ ok out
  pub waits : out.ended ≡ none
  pub known : out.socket.peers addr ≡ some after
  pub empty : after.incoming_buffer ≡ []
  pub receiving : IsReceiving P t after
  pub arrivals : (k : ℕ) → arrived after k ≡ (carries t k (packets_of rs) || arrived peer k)
  pub in_order : CountsFrom P t (peer.last_acked + 1) out.delivered
  pub advances : after.last_acked ≡ peer.last_acked + length out.delivered
  pub first_gap : arrived after (after.last_acked + 1) ≡ false

-- One round, and then the others.
Looped-round :
    (P : Packet → Type 0) (t : Target) (r : Round) (rs : List Round) (addr : SocketAddr)
    (p : Packet) (buf : List ℕ) (s : UtpSocket) (peer : UtpSocketState)
    → r.arrival ≡ datagram p addr
    → (d : RoundDone P t r.net p addr buf s peer)
    → Looped P t rs addr p (register_peer addr d.after s) d.after
    → Looped P t (r ∷ rs) addr buf s peer
unfolding receive_loop recv_round packets_of
Looped-round P t r rs addr p buf s peer e d l =
    let run : receive_loop rs p d.out.socket ≡ ok l.out = rw d.socket l.result in
    record {
      out = record l.out {
        sent = d.out.sent ++ l.out.sent;
        delivered = d.out.delivered ++ l.out.delivered;
      };
      after = l.after;
      result = rw (e, receive_loop) (rw d.result (rw d.answered (rw run refl)));
      waits = l.waits;
      known = l.known;
      empty = l.empty;
      receiving = l.receiving;
      arrivals = λ k.
          l.arrivals k
          ∙ ap (λ b. carries t k (packets_of rs) || b) (d.arrivals k)
          ∙ or_assoc (carries t k (packets_of rs)) (k == Fields.seq_nr t p) (arrived peer k)
          ∙ rw (e, packets_of) refl;
      in_order =
          CountsFrom-append P t (peer.last_acked + 1) d.out.delivered l.out.delivered d.in_order (
            subst (λ k. CountsFrom P t k l.out.delivered) {x = d.after.last_acked + 1}
              (omega (arith, d.advances)) l.in_order);
      advances =
          omega (arith, d.advances, l.advances, length-append d.out.delivered l.out.delivered);
      first_gap = l.first_gap;
    }

module _ (t : Target) (a : ℕ) (packets : BTreeMap Packet) (data_bytes : List ℕ) (addr : SocketAddr)
    (c : Carries t a packets data_bytes) (sizes : Sizes packets (length data_bytes))
    (mul : length data_bytes % 6 ≡ 0) (bytes : All (λ e. All IsByte e.1) packets)
    (fits : a + length packets < 65536) where
  pub looped :
      (rs : List Round) (buf : List ℕ) (s : UtpSocket) (peer : UtpSocketState)
      → All (IsCopyRound t packets addr) rs
      → length buf ≡ 26
      → All IsByte buf
      → s.peers addr ≡ some peer
      → s.drop_packets ≡ false
      → s.id < 2 ^ 16
      → IsOpen peer
      → IsReceiving (IsCopy t packets) t peer
      → peer.incoming_buffer ≡ []
      → peer.seq_nr + length rs < 65536
      → Looped (IsCopy t packets) t rs addr buf s peer
  unfolding receive_loop register_peer packets_of
  looped [] buf s peer h size bb known keeps id_small live r empty room = record {
    out = record { ended = none; socket = s; buf = buf; sent = []; delivered = [] };
    after = peer;
    result = refl;
    waits = refl;
    known = known;
    empty = empty;
    receiving = r;
    arrivals = λ k. refl;
    in_order = tt;
    advances = omega arith;
    first_gap = gap_after (IsCopy t packets) t peer r;
  }
  looped (x ∷ rs) buf s peer h size bb known keeps id_small live r empty room =
      let one = h.0 in
      let p = one.packet in
      let (low, high, ty) = found t a (Fields.seq_nr t p) packets data_bytes p c one.copy in
      let (chunk, w, full, bp) =
        wire t a (Fields.seq_nr t p) (length data_bytes) packets data_bytes p c sizes mul bytes
          one.copy in
      let d =
        round_lem (IsCopy t packets) p addr buf chunk s peer known keeps id_small (omega arith) bb
          bp w one.copy live empty (omega arith) t x.net one.same_target one.willing
          (ty, omega arith) r in
      Looped-round (IsCopy t packets) t x rs addr p buf s peer one.arrives d (
        looped rs p (register_peer addr d.after s) d.after h.1 full bp
          (put-same addr d.after s.peers) keeps id_small (ground (arith, d.same_state)) d.receiving
          d.empty (omega (arith, d.number)))
