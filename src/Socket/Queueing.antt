-- ===== src/Socket/Queueing.antt =====
-- src/socket.rs: the packets that `send_packets` makes of a buffer.
use rfs_utp.Common.{
  All-drop, ℕ, zero, suc, ◌+◌, ◌%◌, ◌^◌, ◌<◌, ◌≤◌, ◌≡◌, refl, sym, ap, ◌∙◌, arith, List, [], ◌∷◌,
  ◌++◌, length, take, drop, All, ok, All-take, take-append-drop, length-drop, length-take, ◌-◌, min,
}
use mathlib.Core.Path.{subst}
use mathlib.Core.List.{append_assoc, append-nil}
use rfs_utp.Common.Target.{Target}
use rfs_utp.Packet.Types.{data_}
use rfs_utp.Packet.Words.{IsByte}
use rfs_utp.Packet.Fields
use rfs_utp.Packet.Fields.{Packet, with_payload}
use rfs_utp.Packet.Parse.{IsWellFormed}
use rfs_utp.BTreeMap.{BTreeMap, insert, Below}
use rfs_utp.Socket.State.{UtpSocketState, SocketAddr, Datagram, buf_size}
use rfs_utp.Socket.Peers.{Net, data_packet, queue_chunks, chunks}
use rfs_utp.Socket.DataPacket.{
  packet-IsWellFormed, packet-seq_nr, packet-get_type, packet-length, packet-IsByte,
}

-- Data packets with these consecutive numbers that carry the bytes in order.
abbrev pub Carries : Target → ℕ → List (ℕ × Packet) → List ℕ → Type 0
Carries t a [] buf = buf ≡ []
Carries t a ((k, p) ∷ ps) buf =
    (k ≡ a)
    × (Fields.seq_nr t p ≡ a)
    × (Fields.get_type {E = ⊥} t p ≡ ok data_)
    × ((chunk : List ℕ) × (rest : List ℕ) × IsWellFormed p [] chunk
        × (length chunk ≤ buf_size)
        × (buf ≡ chunk ++ rest)
        × Carries t (a + 1) ps rest)

-- The lengths of the packets that carry `n` bytes: each is full but for the last.
abbrev pub Sizes : List (ℕ × Packet) → ℕ → Type 0
Sizes [] n = n ≡ 0
Sizes ((k, p) ∷ ps) n = (0 < n) × (length p ≡ 20 + min buf_size n) × Sizes ps (n - buf_size)

pub Sizes-length : (ps : List (ℕ × Packet)) (k : ℕ) → Sizes ps k → length ps ≤ k
Sizes-length [] k s = omega arith
Sizes-length ((j, p) ∷ ps) k (pos, l, s) = omega (arith, Sizes-length ps (k - 6) s)

insert-last {ℓ} :
    {V : Type ℓ} (k : ℕ) (v : V) (m : BTreeMap V) → Below k m → insert k v m ≡ m ++ ((k, v) ∷ [])
unfolding insert
insert-last k v [] b = refl
insert-last k v ((j, x) ∷ m) b = ground (arith, insert-last k v m b.1)

Below-append {ℓ} :
    {V : Type ℓ} (k : ℕ) (v : V) (m : BTreeMap V) → Below k m → Below (k + 1) (m ++ ((k, v) ∷ []))
Below-append k v [] b = (omega arith, tt)
Below-append k v ((j, x) ∷ m) b = (omega (arith, b.0), Below-append k v m b.1)

-- The datagrams of a window, to one address.
abbrev pub datagrams : SocketAddr → BTreeMap Packet → List Datagram
datagrams addr [] = []
datagrams addr ((k, p) ∷ m) = record { packet = p; addr = addr } ∷ datagrams addr m

-- The window of a peer after its chunks are queued.
pub record Queued (n : Net) (id f : ℕ) (buf : List ℕ) (peer : UtpSocketState) : Type 0 where
  pub packets : List (ℕ × Packet)
  pub result : queue_chunks n id (chunks f buf) peer ≡ record peer {
    sent_window = peer.sent_window ++ packets;
    seq_nr = peer.seq_nr + length packets;
  }
  pub carries : Carries n.world.target peer.seq_nr packets buf
  pub sizes : Sizes packets (length buf)
  pub bytes : All (λ e. All IsByte e.1) packets

module _ (n : Net) (id : ℕ) (id_small : id < 2 ^ 16) where
  -- The peer after one chunk.
  abbrev one_queued : List ℕ → UtpSocketState → UtpSocketState
  one_queued chunk peer = record peer {
    sent_window = peer.sent_window ++ ((peer.seq_nr, data_packet n id chunk peer) ∷ []);
    seq_nr = peer.seq_nr + 1;
  }

  queue_one :
      (chunk : List ℕ) (cs : List (List ℕ)) (peer : UtpSocketState)
      → Fields.seq_nr n.world.target (data_packet n id chunk peer) ≡ peer.seq_nr
      → peer.seq_nr + 1 < 65536
      → Below peer.seq_nr peer.sent_window
      → queue_chunks n id (chunk ∷ cs) peer ≡ queue_chunks n id cs (one_queued chunk peer)
  unfolding queue_chunks
  queue_one chunk cs peer number room below =
      let stored = insert-last peer.seq_nr (data_packet n id chunk peer) peer.sent_window below in
      let up : (peer.seq_nr + 1) % 65536 ≡ peer.seq_nr + 1 = omega arith in
      rw (number, stored, up) refl

  Queued-step :
      (f x : ℕ) (buf : List ℕ) (peer : UtpSocketState)
      → All IsByte (x ∷ buf)
      → peer.seq_nr + 1 < 65536
      → peer.ack_nr < 2 ^ 16
      → Below peer.seq_nr peer.sent_window
      → Queued n id f (drop 6 (x ∷ buf)) (one_queued (take 6 (x ∷ buf)) peer)
      → Queued n id (suc f) (x ∷ buf) peer
  unfolding chunks
  Queued-step f x buf peer b room ack_small below q =
      let chunk = take 6 (x ∷ buf) in
      let cb = All-take IsByte 6 (x ∷ buf) b in
      let small : peer.seq_nr < 2 ^ 16 = omega arith in
      let number = packet-seq_nr n id chunk peer id_small small ack_small cb in
      record {
        packets = (peer.seq_nr, data_packet n id chunk peer) ∷ q.packets;
        result =
            queue_one chunk (chunks f (drop 6 (x ∷ buf))) peer number room below
            ∙ q.result
            ∙ ap (λ m. record peer { sent_window = m; seq_nr = peer.seq_nr + 1 + length q.packets })
                (append_assoc peer.sent_window ((peer.seq_nr, data_packet n id chunk peer) ∷ [])
                  q.packets)
            ∙ ap
                (λ k. record peer {
                  sent_window =
                      peer.sent_window ++ ((peer.seq_nr, data_packet n id chunk peer) ∷ q.packets);
                  seq_nr = k;
                })
                {x = peer.seq_nr + 1 + length q.packets} {y = peer.seq_nr + suc (length q.packets)}
                (omega arith);
        carries = (
          refl,
          number,
          packet-get_type n id chunk peer id_small small ack_small cb,
          (
            chunk,
            drop 6 (x ∷ buf),
            packet-IsWellFormed n id chunk peer id_small small ack_small cb,
            omega (arith, length-take 6 (x ∷ buf)),
            sym (take-append-drop 6 (x ∷ buf)),
            q.carries,
          ),
        );
        sizes = (
          omega arith,
          packet-length n id chunk peer id_small small ack_small cb
              ∙ ap (λ k. 20 + k) (length-take 6 (x ∷ buf)),
          subst (Sizes q.packets) (length-drop 6 (x ∷ buf)) q.sizes,
        );
        bytes = (packet-IsByte n id chunk peer id_small small ack_small cb, q.bytes);
      }

  pub queued :
      (f : ℕ) (buf : List ℕ) (peer : UtpSocketState)
      → length buf ≤ f
      → All IsByte buf
      → peer.seq_nr + length buf < 65536
      → peer.ack_nr < 2 ^ 16
      → Below peer.seq_nr peer.sent_window
      → Queued n id f buf peer
  unfolding queue_chunks chunks
  queued f [] peer h b room ack_small below = record {
    packets = [];
    result = rw append-nil (ap (λ k. record peer { seq_nr = k }) (omega arith));
    carries = refl;
    sizes = refl;
    bytes = tt;
  }
  queued zero (x ∷ buf) peer h b room ack_small below = elim h [ ]
  queued (suc f) (x ∷ buf) peer h b room ack_small below =
      Queued-step f x buf peer b (omega arith) ack_small below (
        queued f (drop 6 (x ∷ buf)) (one_queued (take 6 (x ∷ buf)) peer)
          (omega (arith, length-drop 6 (x ∷ buf))) (All-drop IsByte 6 (x ∷ buf) b)
          (omega (arith, length-drop 6 (x ∷ buf))) ack_small
          (Below-append peer.seq_nr (data_packet n id (take 6 (x ∷ buf)) peer) peer.sent_window
            below))
