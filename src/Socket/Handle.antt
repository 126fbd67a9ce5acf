-- ===== src/Socket/Handle.antt =====
-- src/socket.rs: `handle_packet`, an arm of its `match` to a function. The answer to the caller is
-- a value of `Handled`; a panic of the code, and an unfinished loop, are those of `Result`.
use rfs_utp.Common.{
  ℕ, ◌+◌, ◌%◌, List, [], ◌∷◌, ◌++◌, length, Result, ok, err, panic, ◌>>=◌, ltb, leb, ◌==◌,
  if◌then◌else◌, not, ◌||◌, Option, none, some,
}
use rfs_utp.Common.Target.{Target, add_u16, sub_u16}
use rfs_utp.Error.{ErrorKind, connection_reset, other, socket_error_kind}
use rfs_utp.Packet.Types.{PacketType, data_, fin, state, reset, syn, ack}
use rfs_utp.Packet.Fields
use rfs_utp.Packet.Fields.{Packet}
use rfs_utp.Packet.Sack.{set_sack}
use rfs_utp.BTreeMap
use rfs_utp.BTreeMap.{BTreeMap}
use rfs_utp.Socket.State.{
  SocketState, new_, connected, syn_sent, fin_sent, reset_received, closed, UtpSocketState, World,
  Datagram,
}
use rfs_utp.Socket.Reply.{prepare_reply}
use rfs_utp.Socket.Acks.{build_selective_ack, get_lost_seq_nr}

-- What the handler returns, the peer as it leaves it, and the datagrams that it has sent.
pub record Handled : Type 0 where
  pub answer : Result ErrorKind (Option Packet)
  pub peer : UtpSocketState
  pub sent : List Datagram

-- A run that gives an answer, panics, or does not end. (There is no third kind of error.)
abbrev pub Run : Type 0 → Type 0
Run A = Result ⊥ A

abbrev pub reply : Option Packet → UtpSocketState → Run Handled
reply r peer = ok (record { answer = ok r; peer = peer; sent = [] })

abbrev pub fail : ErrorKind → UtpSocketState → Run Handled
fail e peer = ok (record { answer = err e; peer = peer; sent = [] })

abbrev pub map_fst : List (ℕ × Packet) → List ℕ
map_fst [] = []
map_fst (e ∷ es) = e.0 ∷ map_fst es

abbrev pub map_snd : List (ℕ × Packet) → List Packet
map_snd [] = []
map_snd (e ∷ es) = e.1 ∷ map_snd es

module _ (w : World) (id : ℕ) where
  abbrev t : Target
  t = w.target

  -- (New, Syn)
  unfoldable pub on_first_syn : Packet → UtpSocketState → Run Handled
  on_first_syn packet peer =
      let seq = Fields.seq_nr t packet in
      reply (some (prepare_reply w id packet state seq seq))
        (record peer { last_acked = seq; state = connected })

  -- (_, Syn)
  unfoldable pub on_syn : Packet → UtpSocketState → Run Handled
  on_syn packet peer =
      let seq = Fields.seq_nr t packet in
      reply (some (prepare_reply w id packet reset seq seq)) peer

  -- (SynSent, State)
  unfoldable pub on_syn_acked : Packet → UtpSocketState → Run Handled
  on_syn_acked packet peer = reply none (record peer {
    ack_nr = Fields.seq_nr t packet;
    seq_nr = (peer.seq_nr + 1) % 65536;
    state = connected;
    last_acked = Fields.ack_nr t packet;
    last_acked_timestamp = w.now;
    sent_window = BTreeMap.remove (Fields.seq_nr t packet) peer.sent_window;
  })

  -- The first part of the arm of an Ack: what the number says of the last one.
  unfoldable pub note_ack : ℕ → UtpSocketState → Run UtpSocketState
  note_ack ack_nr peer =
      if ack_nr == peer.last_acked
      then (add_u16 t peer.duplicate_ack_count 1 >>= λ n.
          ok (record peer { duplicate_ack_count = n }))
      else (add_u16 t peer.last_acked 1 >>= λ next_nr.
          if ack_nr == next_nr
          then ok (record peer {
            last_acked = ack_nr;
            last_acked_timestamp = w.now;
            duplicate_ack_count = 1;
            sent_window = BTreeMap.remove ack_nr peer.sent_window;
          })
          else ok peer)

  -- The packet behind the last one that arrived, after three duplicates.
  unfoldable pub fast_retransmit : ℕ → UtpSocketState → Run (Option Packet)
  fast_retransmit ack_nr peer =
      if leb 3 peer.duplicate_ack_count
      then (add_u16 t ack_nr 1 >>= λ next_nr. ok (BTreeMap.get next_nr peer.sent_window))
      else ok none

  -- `for seq_nr in lost_packets { … self.send_to(…).await?; }`, after the datagrams `sent`.
  unfoldable pub resend : List ℕ → Option Packet → UtpSocketState → List Datagram → Run Handled
  resend [] r peer sent = ok (record { answer = ok r; peer = peer; sent = sent })
  resend (seq_nr ∷ rest) r peer sent =
      let go_on = resend rest r peer in
      elim (BTreeMap.get seq_nr peer.sent_window) [
        | none ↦ go_on sent
        | some p ↦ elim peer.connected_to [
          | none ↦ panic
          | some addr ↦
              let sent' = sent ++ (record { packet = p; addr = addr } ∷ []) in
              elim (w.udp_send (length sent) p addr) [
                | none ↦ go_on sent'
                | some e ↦ ok (record { answer = err e; peer = peer; sent = sent' })
              ]
        ]
      ]

  -- (Connected | FinSent, Ack)
  unfoldable pub on_ack : Packet → UtpSocketState → Run Handled
  on_ack packet peer =
      let ack_nr = Fields.ack_nr t packet in
      note_ack ack_nr peer >>= λ noted. fast_retransmit ack_nr noted >>= λ r.
      get_lost_seq_nr t packet noted >>= λ q. resend q.0 r q.1 []

  -- The packets of the buffer that continue the run that ends at `last_acked`, in order, with the
  -- end of the longer run.
  unfoldable pub drain : ℕ → BTreeMap Packet → Run (List (ℕ × Packet) × ℕ)
  drain last_acked [] = ok ([], last_acked)
  drain last_acked ((seq, p) ∷ rest) = add_u16 t last_acked 1 >>= λ next_nr.
      let more = drain seq rest in
      if seq == next_nr then (more >>= λ r. ok ((seq, p) ∷ r.0, r.1)) else ok ([], last_acked)

  -- The packet that is next in order, with those that it makes deliverable.
  unfoldable pub accept : Packet → UtpSocketState → Run UtpSocketState
  accept packet peer = add_u16 t peer.seq_nr 1 >>= λ seq_nr.
      drain (Fields.seq_nr t packet) peer.out_of_order >>= λ r. ok (record peer {
        last_acked = r.1;
        seq_nr = seq_nr;
        incoming_buffer = peer.incoming_buffer ++ (packet ∷ map_snd r.0);
        out_of_order = BTreeMap.remove_all (map_fst r.0) peer.out_of_order;
      })

  -- The state after a data packet, with the selective ACK to send.
  unfoldable pub receive : Packet → UtpSocketState → Run (UtpSocketState × List ℕ)
  receive packet peer =
      let seq = Fields.seq_nr t packet in
      add_u16 t peer.last_acked 1 >>= λ next_nr.
      if seq == next_nr
      then (accept packet peer >>= λ peer'. ok (peer', []))
      else if ltb peer.last_acked seq
      then (let peer' = record peer {
        out_of_order = BTreeMap.insert seq packet peer.out_of_order;
      } in
          ok (peer', build_selective_ack peer'))
      else ok (peer, [])

  -- (Connected | FinSent, Data)
  unfoldable pub on_data : Packet → UtpSocketState → Run Handled
  on_data packet peer = receive packet peer >>= λ r.
      let plain = prepare_reply w id packet ack r.0.seq_nr r.0.last_acked in
      (if length r.1 == 0 then ok plain else set_sack plain r.1) >>= λ rsp. reply (some rsp) r.0

  -- (Connected, State)
  unfoldable pub on_state : Packet → UtpSocketState → Run Handled
  on_state packet peer =
      let ack_nr = Fields.ack_nr t packet in
      (if ack_nr == peer.last_acked
        then (add_u16 t peer.duplicate_ack_count 1 >>= λ n.
            ok (record peer { duplicate_ack_count = n }))
        else ok (record peer {
          last_acked = ack_nr;
          last_acked_timestamp = w.now;
          duplicate_ack_count = 1;
        }))
      >>= λ peer'.
          if not (BTreeMap.is_empty peer'.sent_window) || peer'.duplicate_ack_count == 3
          then (sub_u16 t ack_nr 1 >>= λ previous. elim (BTreeMap.get previous peer'.sent_window) [
            | none ↦ panic
            | some p ↦ reply (some p) peer'
          ])
          else reply none peer'

  -- (Connected | FinSent, Fin)
  unfoldable pub on_fin : Packet → UtpSocketState → Run Handled
  on_fin packet peer =
      let seq = Fields.seq_nr t packet in
      reply (some (prepare_reply w id packet state seq seq)) (record peer { state = closed })

  -- (_, Reset)
  unfoldable pub on_reset : UtpSocketState → Run Handled
  on_reset peer = fail (socket_error_kind connection_reset) (record peer { state = reset_received })

  -- The catch-all arm.
  unfoldable pub on_other : UtpSocketState → Run Handled
  on_other peer = fail (socket_error_kind (other "Unimplemented handling")) peer

  -- The `match` on the state and the type of the packet.
  unfoldable pub dispatch : SocketState → PacketType → Packet → UtpSocketState → Run Handled
  dispatch new_ syn packet peer = on_first_syn packet peer
  dispatch _ syn packet peer = on_syn packet peer
  dispatch syn_sent state packet peer = on_syn_acked packet peer
  dispatch connected ack packet peer = on_ack packet peer
  dispatch fin_sent ack packet peer = on_ack packet peer
  dispatch connected data_ packet peer = on_data packet peer
  dispatch fin_sent data_ packet peer = on_data packet peer
  dispatch connected state packet peer = on_state packet peer
  dispatch connected fin packet peer = on_fin packet peer
  dispatch fin_sent fin packet peer = on_fin packet peer
  dispatch _ reset packet peer = on_reset peer
  dispatch _ _ packet peer = on_other peer

  -- `handle_packet`
  unfoldable pub handle_packet : Packet → UtpSocketState → Run Handled
  handle_packet packet peer = Fields.get_type t packet >>= λ ty. dispatch peer.state ty packet peer
