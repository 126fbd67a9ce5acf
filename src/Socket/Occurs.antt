-- ===== src/Socket/Occurs.antt =====
-- src/socket.rs: the datagrams of `send_packets` among what arrives.
use rfs_utp.Common.{
  ℕ, ◌+◌, ◌<◌, ◌≤◌, ◌≡◌, refl, sym, ap, ◌∙◌, arith, List, [], ◌∷◌, length, true, some, All, ◌⊎◌,
  inl, inr,
}
use native.Mathlib.Decide.{ℕ_discrete}
use rfs_utp.Common.Target.{Target}
use rfs_utp.Packet.Words.{IsByte}
use rfs_utp.Packet.Wire.{getters_wire}
use rfs_utp.Packet.Header
use rfs_utp.Packet.Header.{cast}
use rfs_utp.Packet.Fields
use rfs_utp.Packet.Fields.{Packet}
use rfs_utp.BTreeMap.{BTreeMap, get}
use rfs_utp.Socket.State.{SocketAddr, Datagram}
use rfs_utp.Socket.Delivery.{carries}
use rfs_utp.Socket.Queueing.{Carries, datagrams}
use rfs_utp.Socket.Transfer.{IsCopy}
use rfs_utp.Socket.Loop.{datagram, Round}
use rfs_utp.Socket.Loop.OneRound.{IsWilling}
use rfs_utp.Socket.Loop.Delivery.{IsCopyRound}

-- The packet stands in the list.
abbrev pub Occurs : Packet → List Packet → Type 0
Occurs p [] = ⊥
Occurs p (q ∷ ps) = (q ≡ p) ⊎ Occurs p ps

-- The packets of datagrams.
abbrev pub packets_in : List Datagram → List Packet
packets_in [] = []
packets_in (d ∷ ds) = d.packet ∷ packets_in ds

get_type-target :
    (t t' : Target) (p : Packet) → Fields.get_type {E = ⊥} t p ≡ Fields.get_type {E = ⊥} t' p
unfolding Fields.get_type Header.get_type cast
get_type-target t t' p = refl

-- What packets carry does not depend on the byte order in which their fields are read.
pub Carries-target :
    (t t' : Target) (a : ℕ) (m : BTreeMap Packet) (buf : List ℕ)
    → All (λ e. All IsByte e.1) m
    → Carries t a m buf
    → Carries t' a m buf
Carries-target t t' a [] buf b c = c
Carries-target t t' a ((k, p) ∷ m) buf b (same, number, ty, (chunk, rest, w, l, split, c)) = (
  same,
  (getters_wire t' p b.0).0 ∙ sym (getters_wire t p b.0).0 ∙ number,
  get_type-target t' t p ∙ ty,
  (chunk, rest, w, l, split, Carries-target t t' (a + 1) m rest b.1 c),
)

-- A packet of the list is a copy of it.
Occurs-IsCopy :
    (t : Target) (a : ℕ) (m : BTreeMap Packet) (buf : List ℕ) (addr : SocketAddr) (p : Packet)
    → Carries t a m buf
    → Occurs p (packets_in (datagrams addr m))
    → (a ≤ Fields.seq_nr t p) × IsCopy t m p
unfolding get
Occurs-IsCopy t a [] buf addr p c o = elim o [ ]
Occurs-IsCopy t a ((k, q) ∷ m) buf addr p (same, number, ty, (chunk, rest, w, l, split, c))
      (inl e) =
    let n : Fields.seq_nr t p ≡ a = ap (Fields.seq_nr t) (sym e) ∙ number in
    (omega arith, ground (arith, ap some e))
Occurs-IsCopy t a ((k, q) ∷ m) buf addr p (same, number, ty, (chunk, rest, w, l, split, c))
      (inr o) =
    let (low, copy) = Occurs-IsCopy t (a + 1) m rest addr p c o in
    (omega arith, ground (arith, copy))

Occurs-Carries :
    (t : Target) (p : Packet) (ps : List Packet)
    → Occurs p ps
    → carries t (Fields.seq_nr t p) ps ≡ true
Occurs-Carries t p [] o = elim o [ ]
Occurs-Carries t p (q ∷ ps) (inl e) = let n = ap (Fields.seq_nr t) e in ground arith
Occurs-Carries t p (q ∷ ps) (inr o) = ground (arith, Occurs-Carries t p ps o)

-- Where each packet occurs, each number is carried.
pub all_carried :
    (t : Target) (a k : ℕ) (m : BTreeMap Packet) (buf : List ℕ) (addr : SocketAddr)
    (ps : List Packet)
    → Carries t a m buf
    → All (λ q. Occurs q ps) (packets_in (datagrams addr m))
    → a ≤ k
    → k < a + length m
    → carries t k ps ≡ true
all_carried t a k [] buf addr ps c h low high = absurd (omega arith)
all_carried t a k ((j, q) ∷ m) buf addr ps (same, number, ty, (chunk, rest, w, l, split, c)) h low
      high =
    elim (ℕ_discrete k a) [
      | yes e ↦ rw (e ∙ sym number) (Occurs-Carries t q ps h.0)
      | no n ↦ all_carried t (a + 1) k m rest addr ps c h.1 (omega arith) (omega arith)
    ]

-- A round in which one of these packets arrives from the address, and nothing is refused.
pub record IsSentRound (t : Target) (ps : List Packet) (addr : SocketAddr) (r : Round)
    : Type 0 where
  pub packet : Packet
  pub arrives : r.arrival ≡ datagram packet addr
  pub sent : Occurs packet ps
  pub same_target : r.net.world.target ≡ t
  pub willing : IsWilling r.net

pub copy_rounds :
    (t : Target) (a : ℕ) (m : BTreeMap Packet) (buf : List ℕ) (to addr : SocketAddr)
    (rs : List Round)
    → Carries t a m buf
    → All (IsSentRound t (packets_in (datagrams to m)) addr) rs
    → All (IsCopyRound t m addr) rs
copy_rounds t a m buf to addr [] c h = tt
copy_rounds t a m buf to addr (r ∷ rs) c h = (
  record {
    packet = h.0.packet;
    arrives = h.0.arrives;
    copy = (Occurs-IsCopy t a m buf to h.0.packet c h.0.sent).1;
    same_target = h.0.same_target;
    willing = h.0.willing;
  },
  copy_rounds t a m buf to addr rs c h.1,
)
