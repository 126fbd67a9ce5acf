-- ===== src/Stream.antt =====
-- src/stream.rs: UtpStream, which reads packets from the channel and writes through the socket.
pub mod Repeat
use rfs_utp.Common.{
  refl, sym, take-append-drop, length-append, length-take, true, ◌>>=◌, zero, suc, ◌∷◌, ◌++◌, Bool,
  not, if◌then◌else◌, take_all, ℕ, ◌+◌, ◌≤◌, ◌≡◌, ◌≢◌, ap, ◌∙◌, arith, List, [], length, take, drop,
  min, Result, ok, err, panic, hang, Option, none, some,
}
use rfs_utp.Error.{
  ErrorKind, kind_not_found, kind_network_unreachable, socket_error_kind, connection_closed,
}
use rfs_utp.Common.Target.{Target}
use rfs_utp.Packet.Fields.{Packet, with_payload, len}
use mathlib.Core.List.{append_assoc}
use rfs_utp.Packet.Types.{ExtensionType}
use rfs_utp.Packet.Extensions.{Extension, payload}
use rfs_utp.Packet.Chain.{Chain, end, link}
use rfs_utp.Packet.Parse.{IsWellFormed}
use rfs_utp.Packet.Reading.{reads_chain}
use rfs_utp.BTreeMap.{BTreeMap}
use rfs_utp.Socket.State.{SocketAddr, Datagram}
use rfs_utp.Socket.Peers.{
  Net, UtpSocket, bind, connect, choose_peer, is_closed, queue_chunks, chunks, register_peer,
}

-- The stream: its socket, and the packets in its channel that are not read yet.
pub record UtpStream : Type 0 where
  pub socket : UtpSocket
  pub receiver : List Packet

-- `UtpStream::bind`, by whether the UDP socket is bound, and from the bytes of the random UUID. The
-- socket always gets a sender. The loop that it spawns is `start_receiving` on a clone of the
-- socket, which shares its peers.
unfoldable pub stream_bind : Bool → List ℕ → Bool → Bool → Result ⊥ UtpStream
stream_bind bound uuid drop_packets client =
    bind bound true uuid drop_packets client >>= λ s. ok (record { socket = s; receiver = [] })

-- `UtpStream::connect`, where the random identifier is `id`.
unfoldable pub stream_connect :
    Net → ℕ → SocketAddr → UtpStream → Result ErrorKind (Unit {0}) × UtpStream × List Datagram
stream_connect n id addr stream =
    let o = connect n id addr stream.socket in
    (o.answer, record stream { socket = o.socket }, o.sent)

-- What a poll answers.
pub data Poll {ℓ} (A : Type ℓ) : Type ℓ where
  ready : A → Poll A
  pending : Poll A

-- `poll_read`: the bytes put in the caller's buffer, which has room for `remaining`, by what the
-- poll of the channel answers.
unfoldable pub poll_read : Poll (Option Packet) → ℕ → Poll (List ℕ)
poll_read (ready (some packet)) remaining = ready (take (min remaining (len packet)) packet)
poll_read (ready none) remaining = ready []
poll_read pending remaining = pending

-- How far the future of `send_packets` gets in one poll: whether the lock of the peer is free, and
-- for how many datagrams the UDP socket is ready before it is not.
pub record Readiness : Type 0 where
  pub lock : Bool
  pub datagrams : ℕ

module _ (n : Net) where
  -- The loop over the window, to the first datagram that the UDP socket is not ready for.
  unfoldable pub poll_send_window :
      ℕ
      → SocketAddr
      → BTreeMap Packet
      → List Datagram
      → Poll (Result ErrorKind (Unit {0})) × List Datagram
  poll_send_window k addr [] sent = (ready (ok tt), sent)
  poll_send_window zero addr (e ∷ rest) sent = (pending, sent)
  poll_send_window (suc k) addr ((j, p) ∷ rest) sent =
      let sent' = sent ++ (record { packet = p; addr = addr } ∷ []) in
      elim (n.world.udp_send (length sent) p addr) [
        | none ↦ poll_send_window k addr rest sent'
        | some e ↦ (ready (err kind_network_unreachable), sent')
      ]

  -- One poll of the future of `send_packets buf None`. What it has put in the window before it is
  -- suspended stays there.
  unfoldable pub poll_send_packets :
      Readiness
      → List ℕ
      → UtpSocket
      → Poll (Result ErrorKind (Unit {0})) × UtpSocket × List Datagram
  poll_send_packets r buf s = elim (choose_peer n none s) [
    | none ↦ (ready (err kind_not_found), s, [])
    | some (a, peer) ↦
        if not r.lock
        then (pending, s, [])
        else if is_closed peer.state
        then (ready (err (socket_error_kind connection_closed)), s, [])
        else (let peer' = queue_chunks n s.id (chunks (length buf) buf) peer in
            let q = poll_send_window r.datagrams a peer'.sent_window [] in
            (q.0, register_peer a peer' s, q.1))
  ]

  -- `poll_write`: a future of its own is polled once, and dropped.
  unfoldable pub poll_write :
      Readiness → List ℕ → UtpSocket → Poll (Result ErrorKind ℕ) × UtpSocket × List Datagram
  poll_write r buf s =
      let q = poll_send_packets r buf s in
      (
        elim q.0 [
          | ready (ok _) ↦ ready (ok (length buf))
          | ready (err e) ↦ ready (err e)
          | ready panic ↦ ready panic
          | ready hang ↦ ready hang
          | pending ↦ pending
        ],
        q.1,
        q.2,
      )

-- `poll_flush`
unfoldable pub poll_flush : Poll (Result ErrorKind (Unit {0}))
poll_flush = ready (ok tt)

-- `poll_close`
unfoldable pub poll_close : Poll (Result ErrorKind (Unit {0}))
poll_close = ready (ok tt)

-- The payload stands at the end of a chain.
Chain-payload :
    {ty : ExtensionType} {bs : List ℕ} {xs : List Extension} {pl : List ℕ}
    → Chain ty bs xs pl
    → (front : List ℕ) × (bs ≡ front ++ pl)
Chain-payload (end bs x) = ([], refl)
Chain-payload (link following bytes rest x e pos mul c) =
    let (front, f) = Chain-payload c in
    (
      following ∷ length bytes ∷ (bytes ++ front),
      e
          ∙ ap (λ l. following ∷ length bytes ∷ (bytes ++ l)) f
          ∙ ap (λ l. following ∷ length bytes ∷ l) (sym (append_assoc bytes front _)),
    )

-- A read of a well formed packet, whatever its header and extensions, gives the reader the packet,
-- not its payload: where the buffer has room for all of it, the bytes read are the payload with
-- the twenty bytes of the header, or more, in front, so they are never the payload that was sent.
pub poll_read_header :
    (p : Packet) (xs : List Extension) (pl : List ℕ) (remaining : ℕ)
    → IsWellFormed p xs pl
    → length p ≤ remaining
    → (poll_read (ready (some p)) remaining ≡ ready p)
      × (payload {E = ⊥} p ≡ ok pl)
      × ((front : List ℕ) × (p ≡ front ++ pl) × (20 ≤ length front))
      × (p ≢ pl)
unfolding poll_read
poll_read_header p xs pl remaining w h =
    let whole : min remaining (length p) ≡ length p = omega arith in
    let (front, f) = Chain-payload w.chain in
    let front' = take 20 p ++ front in
    let split : p ≡ front' ++ pl =
      sym (take-append-drop 20 p)
      ∙ ap (λ l. take 20 p ++ l) f
      ∙ sym (append_assoc (take 20 p) front pl) in
    let long : 20 ≤ length front' =
      omega (arith, length-append (take 20 p) front, length-take 20 p, w.sized) in
    let sizes : length p ≡ length front' + length pl = ap length split ∙ length-append front' pl in
    (
      ap ready (ap (λ n. take n p) whole ∙ take_all (length p) p (omega arith)),
      (reads_chain {E = ⊥} p xs pl w).0,
      (front', split, long),
      λ e. let e' = ap length e in absurd (omega arith),
    )
