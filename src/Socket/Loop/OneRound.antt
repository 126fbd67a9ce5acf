-- ===== src/Socket/Loop/OneRound.antt =====
-- src/socket.rs: one round of `start_receiving` for a data packet that fills the buffer.
use rfs_utp.Common.{
  ℕ, zero, suc, ◌+◌, ◌^◌, ◌<◌, ◌≤◌, ◌≡◌, refl, sym, ap, ◌∙◌, arith, List, [], ◌∷◌, ◌++◌, length,
  drop, ok, ◌==◌, ◌||◌, false, none, some, All,
}
use mathlib.Core.Path.{subst}
use mathlib.Core.List.{append-nil, append_assoc}
use rfs_utp.Common.Target.{Target}
use rfs_utp.Packet.Words.{IsByte}
use rfs_utp.Packet.Fields
use rfs_utp.Packet.Fields.{Packet}
use rfs_utp.Packet.Parse.{IsWellFormed}
use rfs_utp.Socket.State.{SocketAddr, UtpSocketState}
use rfs_utp.Socket.Handle.{handle_packet}
use rfs_utp.Socket.Reassembly.{CountsFrom, IsReceiving, received, arrived}
use rfs_utp.Socket.Delivery.{IsOpen, IsData, on_data_lem, handle-on_data}
use rfs_utp.Socket.Peers.{offer_taken, Net, UtpSocket, Outcome, register_peer}
use rfs_utp.Socket.Arrivals.{fill, forward, finish, respond, recv_packets_from}
use rfs_utp.Socket.Receiving.{fill_lem, recv_handles_buffer}

-- A world in which nothing that the receiver hands over is refused.
pub record IsWilling (n : Net) : Type 0 where
  pub now_small : n.world.now < 2 ^ 32
  pub sends : (i : ℕ) (p : Packet) (a : SocketAddr) → n.world.udp_send i p a ≡ none
  pub takes : (i : ℕ) (p : Packet) → n.channel i p ≡ offer_taken

-- What a round does: the peer as it leaves it, and what goes to the channel.
pub record RoundDone (P : Packet → Type 0) (t : Target) (n : Net) (p : Packet) (addr : SocketAddr)
    (buf : List ℕ) (s : UtpSocket) (peer : UtpSocketState) : Type 0 where
  pub out : Outcome SocketAddr
  pub after : UtpSocketState
  pub result : recv_packets_from n p addr buf s ≡ ok (out, p)
  pub answered : out.answer ≡ ok addr
  pub socket : out.socket ≡ register_peer addr after s
  pub receiving : IsReceiving P t after
  pub arrivals : (k : ℕ) → arrived after k ≡ (k == Fields.seq_nr t p || arrived peer k)
  pub in_order : CountsFrom P t (peer.last_acked + 1) out.delivered
  pub advances : after.last_acked ≡ peer.last_acked + length out.delivered
  pub empty : after.incoming_buffer ≡ []
  pub same_state : after.state ≡ peer.state
  pub number : after.seq_nr ≤ peer.seq_nr + 1

forward_all :
    (n : Net) (ps out : List Packet) → IsWilling n → forward n ps out ≡ (offer_taken, [], out ++ ps)
unfolding forward
forward_all n [] out g = rw append-nil refl
forward_all n (p ∷ ps) out g =
    rw (g.takes (length out) p, forward)
      (forward_all n ps (out ++ (p ∷ [])) g
        ∙ ap (λ l. (offer_taken, [], l)) (append_assoc out (p ∷ []) ps))

-- The answer is sent, and all that can be delivered goes to the channel.
respond_lem :
    (n : Net) (addr : SocketAddr) (rsp : Packet) (peer : UtpSocketState) (s : UtpSocket)
    → IsWilling n
    → respond n addr (record { answer = ok (some rsp); peer = peer; sent = [] }) s ≡ record {
      answer = ok addr;
      socket = register_peer addr (record peer { incoming_buffer = [] }) s;
      sent = record { packet = rsp; addr = addr } ∷ [];
      delivered = peer.incoming_buffer;
    }
unfolding respond finish
respond_lem n addr rsp peer s g =
    rw (g.sends 0 rsp addr, respond) (rw (forward_all n peer.incoming_buffer [] g, finish) refl)

fill_whole : (buf p : List ℕ) → length p ≡ length buf → fill buf p ≡ p
fill_whole buf p e =
    fill_lem buf p (omega arith)
    ∙ ap (λ l. p ++ l) (rest buf (length p) (omega arith))
    ∙ append-nil p
  where
    rest : (xs : List ℕ) (k : ℕ) → length xs ≤ k → drop k xs ≡ []
    rest [] zero h = refl
    rest [] (suc k) h = refl
    rest (x ∷ xs) zero h = absurd (omega arith)
    rest (x ∷ xs) (suc k) h = rest xs k (omega arith)

module _ (P : Packet → Type 0) (p : Packet) (addr : SocketAddr) (buf pl : List ℕ) (s : UtpSocket)
    (peer : UtpSocketState) (known : s.peers addr ≡ some peer) (keeps : s.drop_packets ≡ false)
    (id_small : s.id < 2 ^ 16) (fits : length p ≡ length buf) (bb : All IsByte buf)
    (bp : All IsByte p) (f : IsWellFormed p [] pl) (holds : P p) (live : IsOpen peer)
    (empty : peer.incoming_buffer ≡ []) (room : peer.seq_nr < 65535) where
  round_here :
      (n : Net)
      → IsWilling n
      → IsData n.world.target p
      → IsReceiving P n.world.target peer
      → RoundDone P n.world.target n p addr buf s peer
  round_here n g d r =
      let one = received n.world s.id p peer P r holds d.1 room in
      let (rsp, q) = on_data_lem n.world s.id g.now_small id_small P p peer room one in
      let h : handle_packet n.world s.id p peer
          ≡ ok (record { answer = ok (some rsp); peer = one.after; sent = [] }) =
        handle-on_data n.world s.id g.now_small id_small p peer live d.0 ∙ q in
      let whole = fill_whole buf p fits in
      let buffered : one.after.incoming_buffer ≡ one.delivered =
        one.buffer ∙ ap (λ l. l ++ one.delivered) empty in
      let run =
        (recv_handles_buffer n s addr peer buf p pl [] known keeps (omega arith) bb bp f).0 in
      record {
        out = record {
          answer = ok addr;
          socket = register_peer addr (record one.after { incoming_buffer = [] }) s;
          sent = record { packet = rsp; addr = addr } ∷ [];
          delivered = one.after.incoming_buffer;
        };
        after = record one.after { incoming_buffer = [] };
        result = run ∙ rw whole (rw h (rw (respond_lem n addr rsp one.after s g) refl));
        answered = refl;
        socket = refl;
        receiving = record {
          sorted = one.receiving.sorted;
          ahead = one.receiving.ahead;
          below = one.receiving.below;
          numbered = one.receiving.numbered;
          bounded = one.receiving.bounded;
        };
        arrivals = one.arrivals;
        in_order =
            subst (CountsFrom P n.world.target (peer.last_acked + 1)) (sym buffered) one.in_order;
        advances = one.advances ∙ ap (λ l. peer.last_acked + length l) (sym buffered);
        empty = refl;
        same_state = one.same_state;
        number = omega (arith, one.number);
      }

  -- The same, where the target is known by another name.
  pub round_lem :
      (t : Target) (n : Net)
      → n.world.target ≡ t
      → IsWilling n
      → IsData t p
      → IsReceiving P t peer
      → RoundDone P t n p addr buf s peer
  round_lem t n e g =
      subst (λ x. IsData x p → IsReceiving P x peer → RoundDone P x n p addr buf s peer) e
        (round_here n g)
