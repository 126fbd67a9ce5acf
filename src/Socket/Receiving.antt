-- ===== src/Socket/Receiving.antt =====
-- src/socket.rs: the packet that `recv_packets_from` handles.
use rfs_utp.Common.{
  take_all, All-drop, ℕ, zero, suc, ◌<◌, ◌≤◌, ◌≡◌, refl, ap, ◌∙◌, arith, List, [], ◌∷◌, ◌++◌,
  length, get_or, take, drop, All, ok, ◌>>=◌, ◌==◌, if◌then◌else◌, All-append, take-append,
  length-append, some, false, ◌&&◌, not,
}
use mathlib.Core.List.{append_assoc}
use rfs_utp.Packet.Types.{ExtensionType}
use rfs_utp.Packet.Words.{IsByte}
use rfs_utp.Packet.Fields
use rfs_utp.Packet.Fields.{Packet}
use rfs_utp.Packet.Extensions.{Extension, try_from, payload}
use rfs_utp.Packet.Chain.{Chain, end, link}
use rfs_utp.Packet.Parse.{IsWellFormed, try_from_accepts}
use rfs_utp.Packet.Reading.{reads_chain}
use rfs_utp.Socket.State.{SocketAddr, UtpSocketState}
use rfs_utp.Socket.Handle.{Run, handle_packet}
use rfs_utp.Socket.Peers.{Net, UtpSocket, Outcome}
use rfs_utp.Socket.Arrivals.{fill, entry, accept_buffer, respond, recv_packets_from}

-- Bytes behind the payload join it.
Chain-append :
    {ty : ExtensionType} {bs : List ℕ} {xs : List Extension} {pl : List ℕ} (more : List ℕ)
    → Chain ty bs xs pl
    → Chain ty (bs ++ more) xs (pl ++ more)
Chain-append more (end bs x) = end (bs ++ more) x
Chain-append more (link following bytes rest x e pos mul c) =
    link following bytes (rest ++ more) x
      (ap (λ l. l ++ more) e
        ∙ ap (λ l. following ∷ length bytes ∷ l) (append_assoc bytes rest more))
      pos mul (Chain-append more c)

drop-front : (n : ℕ) (xs ys : List ℕ) → n ≤ length xs → drop n (xs ++ ys) ≡ drop n xs ++ ys
drop-front zero xs ys h = refl
drop-front (suc n) [] ys h = elim h [ ]
drop-front (suc n) (x ∷ xs) ys h = drop-front n xs ys (omega arith)

get_or-front : (xs ys : List ℕ) (i : ℕ) → i < length xs → get_or (xs ++ ys) i 0 ≡ get_or xs i 0
get_or-front [] ys i h = elim h [ ]
get_or-front (x ∷ xs) ys zero h = refl
get_or-front (x ∷ xs) ys (suc i) h = get_or-front xs ys i (omega arith)

append-IsWellFormed :
    (p : Packet) (xs : List Extension) (pl more : List ℕ)
    → IsWellFormed p xs pl
    → IsWellFormed (p ++ more) xs (pl ++ more)
append-IsWellFormed p xs pl more w =
    let a = get_or-front p more 0 (omega (arith, w.sized)) in
    let b = get_or-front p more 1 (omega (arith, w.sized)) in
    record {
      sized = omega (arith, w.sized, length-append p more);
      version = rw a w.version;
      known_type = rw a w.known_type;
      chain = rw (b, drop-front 20 p more w.sized) (Chain-append more w.chain);
    }

pub fill_lem : (buf d : List ℕ) → length d ≤ length buf → fill buf d ≡ d ++ drop (length d) buf
unfolding fill
fill_lem buf d h = rw (take_all (length buf) d h) refl

module _ (n : Net) (s : UtpSocket) (addr : SocketAddr) (peer : UtpSocketState) (buf d pl : List ℕ)
    (xs : List Extension) (known : s.peers addr ≡ some peer) (keeps : s.drop_packets ≡ false)
    (fits : length d ≤ length buf) (bb : All IsByte buf) (bd : All IsByte d)
    (f : IsWellFormed d xs pl) where
  whole : IsWellFormed (fill buf d) xs (pl ++ drop (length d) buf)
  whole = rw (fill_lem buf d fits) (append-IsWellFormed d xs pl (drop (length d) buf) f)

  fill-IsByte : All IsByte (fill buf d)
  fill-IsByte =
      rw (fill_lem buf d fits) (All-append IsByte d _ bd (All-drop IsByte (length d) buf bb))

  first_parse : try_from (take (length (take (length buf) d)) (fill buf d)) ≡ ok d
  first_parse =
      rw
        (
          take_all (length buf) d fits,
          fill_lem buf d fits,
          take-append (length d) d (drop (length d) buf) refl,
        )
        ((try_from_accepts d bd).0 xs pl f)

  second_parse : try_from (fill buf d) ≡ ok (fill buf d)
  second_parse = (try_from_accepts (fill buf d) fill-IsByte).0 xs _ whole

  accepted :
      accept_buffer n (fill buf d) addr peer s
      ≡ (handle_packet n.world s.id (fill buf d) peer >>= λ h. ok (respond n addr h s))
  unfolding accept_buffer
  accepted = rw (second_parse, accept_buffer) refl

  entry_lem : entry n addr d s ≡ peer
  unfolding entry
  entry_lem = rw (known, entry) refl

  not_lost :
      (x y : Run (Outcome SocketAddr × List ℕ))
      → s.drop_packets ≡ false
      → (if (s.drop_packets && not (Fields.seq_nr n.world.target d == 1)) && n.lost then x else y)
        ≡ y
  not_lost x y e =
      ap (λ b. if (b && not (Fields.seq_nr n.world.target d == 1)) && n.lost then x else y) e

  -- The handler gets the whole buffer and not the datagram, at a socket that does not simulate
  -- losses (`drop_packets` is false): when a well formed datagram from a known peer is read into a
  -- buffer of at least its length, the packet that is handled is the datagram with the bytes that
  -- the buffer held behind it, and its payload is the payload of the datagram with those bytes. So
  -- a datagram as long as the buffer is handled as it arrived, and a shorter one is not.
  pub recv_handles_buffer :
      (recv_packets_from n d addr buf s ≡ (
        (handle_packet n.world s.id (fill buf d) peer >>= λ h. ok (respond n addr h s)) >>= λ r.
        ok (r, fill buf d)))
      × (payload {E = ⊥} (fill buf d) ≡ ok (pl ++ drop (length d) buf))
  unfolding recv_packets_from
  recv_handles_buffer = (
    rw (first_parse, recv_packets_from) (not_lost _ _ keeps ∙ rw entry_lem (rw accepted refl)),
    (reads_chain {E = ⊥} (fill buf d) xs _ whole).0,
  )
