-- ===== src/Socket/Invariant/LoopSafety.antt =====
-- src/socket.rs: what can arrive at `start_receiving`, and how it can end.
use rfs_utp.Common.{
  ℕ, ◌^◌, ◌<◌, ◌≡◌, ◌≢◌, refl, sym, ap, ◌∙◌, arith, List, [], ◌∷◌, length, take, drop,
  length-append, length-take, length-drop, ok, false, All, Ends, >>=-Ends, gives, fails, panics,
  hangs, seen,
}
use mathlib.Core.Path.{subst}
use rfs_utp.Common.Target.{Target}
use rfs_utp.Packet.Types.{state}
use rfs_utp.Packet.Words.{IsByte}
use rfs_utp.Packet.Header
use rfs_utp.Packet.Header.{cast, header_try_from}
use rfs_utp.Packet.Fields
use rfs_utp.Packet.Fields.{Packet}
use rfs_utp.Socket.State.{SocketAddr}
use rfs_utp.Socket.OnOk.{OnOk, OnOk-eq, OnOk-of_eq}
use rfs_utp.Socket.Peers.{offer_full, Net, UtpSocket, Outcome}
use rfs_utp.Socket.Arrivals.{fill, recv_packets_from}
use rfs_utp.Socket.Loop.{
  Arrival, datagram, failure, Round, recv_round, receive_loop, start_receiving, empty_buffer,
}
use rfs_utp.Socket.Invariant.Outgoing.{fill-bytes}
use rfs_utp.Socket.Invariant.Reach.{Reach, later, receives}
use rfs_utp.Socket.Invariant.Safety.{recv_packets_from-Ends}
use rfs_utp.Socket.Invariant.Answers.{recv-OnOk, empty-Ends}

-- The type of the packet in a buffer is the type of the datagram.
fill-get_type :
    (t : Target) (x b : ℕ) (buf d : List ℕ)
    → Fields.get_type {E = ⊥} t (fill (x ∷ buf) (b ∷ d)) ≡ Fields.get_type {E = ⊥} t (b ∷ d)
unfolding fill Fields.get_type Header.get_type cast
fill-get_type t x b buf d = refl

-- What may arrive in a round on this target: an error, or bytes that are no State packet.
abbrev pub IsHarmless : Target → Arrival → Type 0
IsHarmless t (datagram d addr) = All IsByte d × (Fields.get_type {E = ⊥} t d ≢ ok state)
IsHarmless t (failure e) = Unit {0}

-- A round on this target, with the clock in its range, in which no send on the channel waits without
-- an end, as the stream is read from or dropped.
abbrev pub IsRound : Target → Round → Type 0
IsRound t r =
    (r.net.world.target ≡ t)
    × (r.net.world.now < 2 ^ 32)
    × ((i : ℕ) (p : Packet) → r.net.channel i p ≢ offer_full)
    × IsHarmless t r.arrival

-- What a round leaves: an answer or an error, a socket that is reached, and a buffer of bytes.
abbrev pub IsLeft : Target → Outcome SocketAddr × List ℕ → Type 0
IsLeft t q = Ends q.0.answer × Reach t q.0.socket × All IsByte q.1 × (0 < length q.1)

length-fill : (buf d : List ℕ) → length (fill buf d) ≡ length buf
unfolding fill
length-fill buf d =
    let front = take (length buf) d in
    omega (
      arith,
      length-append front (drop (length front) buf),
      length-take (length buf) d,
      length-drop (length front) buf,
    )

-- A round from a reached socket.
pub record Rounded (t : Target) (r : Round) (buf : List ℕ) (s : UtpSocket) : Type 0 where
  pub ends : Ends (recv_round r buf s)
  pub left : OnOk (IsLeft t) (recv_round r buf s)

module _ (n : Net) (unchecked : n.world.target.overflow_checks ≡ false)
    (now_small : n.world.now < 2 ^ 32)
    (read_on : (i : ℕ) (p : Packet) → n.channel i p ≢ offer_full) where
  datagram-Ends :
      (d : List ℕ) (addr : SocketAddr) (buf : List ℕ) (s : UtpSocket)
      → Reach n.world.target s
      → IsHarmless n.world.target (datagram d addr)
      → All IsByte buf
      → 0 < length buf
      → Ends (recv_packets_from n d addr buf s)
  datagram-Ends [] addr buf s r h bb pos = empty-Ends n read_on addr buf s
  datagram-Ends (b ∷ d) addr [] s r h bb pos = absurd (omega arith)
  datagram-Ends (b ∷ d) addr (x ∷ buf) s r (bd, other) bb pos =
      recv_packets_from-Ends n (b ∷ d) addr (x ∷ buf) s r unchecked now_small bd bb
        (λ e. other (sym (fill-get_type n.world.target x b buf d) ∙ e))

  round_at :
      (a : Arrival) (buf : List ℕ) (s : UtpSocket)
      → Reach n.world.target s
      → IsHarmless n.world.target a
      → All IsByte buf
      → 0 < length buf
      → Rounded n.world.target (record { net = n; arrival = a }) buf s
  unfolding recv_round
  round_at (failure e) buf s r h bb pos = record {
    ends = (λ q. cc, λ q. cc);
    left = ((λ q. cc, λ q. cc), r, bb, pos);
  }
  round_at (datagram d addr) buf s r h bb pos = record {
    ends = datagram-Ends d addr buf s r h bb pos;
    left = OnOk-of_eq (IsLeft n.world.target) (recv_packets_from n d addr buf s) (λ q e.
        let (answer, filled) =
          OnOk-eq (λ q. Ends q.0.answer × (q.1 ≡ fill buf d)) _ q (recv-OnOk n read_on d addr buf s)
            e in
        (
          answer,
          later r (receives n d addr buf s q.0 q.1 refl h.0 bb e),
          subst (All IsByte) (sym filled) (fill-bytes buf d bb h.0),
          omega (arith, ap length filled, length-fill buf d),
        ));
  }

rounded :
    (t : Target) (r : Round) (buf : List ℕ) (s : UtpSocket)
    → IsRound t r
    → t.overflow_checks ≡ false
    → Reach t s
    → All IsByte buf
    → 0 < length buf
    → Rounded t r buf s
rounded t r buf s (e, small, read_on, h) unchecked reached bb pos =
    subst (λ u. IsHarmless u r.arrival → u.overflow_checks ≡ false → Reach u s → Rounded u r buf s)
      e (λ h' u q. round_at r.net u small read_on r.arrival buf s q h' bb pos) h unchecked reached

loop-Ends :
    (t : Target) (rs : List Round) (buf : List ℕ) (s : UtpSocket)
    → All (IsRound t) rs
    → t.overflow_checks ≡ false
    → Reach t s
    → All IsByte buf
    → 0 < length buf
    → Ends (receive_loop rs buf s)
unfolding receive_loop
loop-Ends t [] buf s h unchecked reached bb pos = (λ q. cc, λ q. cc)
loop-Ends t (r ∷ rs) buf s (h, hs) unchecked reached bb pos =
    let one = rounded t r buf s h unchecked reached bb pos in
    >>=-Ends (recv_round r buf s) _ one.ends (λ q e.
      let (answer, reached', bb', pos') = OnOk-eq (IsLeft t) _ q one.left e in
      elim (seen q.0.answer) [
        | gives a x ↦
            rw (x, receive_loop)
              (>>=-Ends (receive_loop rs q.1 q.0.socket) _
                (loop-Ends t rs q.1 q.0.socket hs unchecked reached' bb' pos')
                (λ _ _. (λ y. cc, λ y. cc)))
        | fails a x ↦ rw (x, receive_loop) (λ y. cc, λ y. cc)
        | panics x ↦ absurd (answer.0 x)
        | hangs x ↦ absurd (answer.1 x)
      ])

-- Nothing that arrives makes the receive loop panic or get stuck in a loop, in a build without
-- overflow checks and while the stream is read from: from a socket that is reached from `bind` by
-- its operations, whatever errors, bytes and senders the rounds bring, with the clock in its range,
-- `start_receiving` ends with an error or waits for the next datagram, unless a State packet
-- arrives. The stream has to be read from, or dropped, so that no send on its bounded channel waits
-- without an end: a channel that stays full stops the loop. The other waits of a round, for the
-- lock of a peer and for the UDP socket, are taken to be over in the end.
pub start_receiving-Ends :
    (t : Target) (rs : List Round) (s : UtpSocket)
    → Reach t s
    → t.overflow_checks ≡ false
    → All (IsRound t) rs
    → Ends (start_receiving rs s)
unfolding start_receiving
start_receiving-Ends t rs s reached unchecked h =
    loop-Ends t rs empty_buffer s h unchecked reached (omega arith) (omega arith)
