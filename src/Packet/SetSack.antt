-- ===== src/Packet/SetSack.antt =====
-- src/packet.rs: `set_sack` against the chain of extensions.
use rfs_utp.Common.{
  ℕ, ◌+◌, ◌%◌, ◌<◌, ◌≤◌, ◌≡◌, refl, sym, ap, ◌∙◌, arith, List, [], ◌∷◌, ◌++◌, length, get_or, set,
  take, drop, true, false, inl, inr, ok, length-drop, length-append, length-take, drop-append,
  take-append-drop, length-set, if◌then◌else◌, Bool-cases, ltb, ◌==◌, not, ◌||◌, ◌>>=◌, drop-set,
}
use mathlib.Core.List.{append_assoc}
use mathlib.Core.Path.{subst}
use rfs_utp.Packet.Types.{
  ExtensionType, selective_ack, extension_type_from_u8, extension_type_to_u8, is_extension,
}
use rfs_utp.Packet.Header.{header_size}
use rfs_utp.Packet.Fields.{Packet}
use rfs_utp.Packet.Wire.{fields}
use rfs_utp.Packet.Spread.{spread_lem}
use rfs_utp.Packet.Extensions.{Extension}
use rfs_utp.Packet.Chain.{Chain, end, link}
use rfs_utp.Packet.Parse.{IsWellFormed}
use rfs_utp.Packet.Sack.{insert, insert_all, set_sack_loop, set_sack}
use rfs_utp.Packet.Extend.{insert-append, insert_all-append, opened, Chain-of-none, sack_code}

-- The twenty bytes of the header before other bytes.
fields-front :
    (p r : List ℕ)
    → 20 ≤ length p
    → (fields (take 20 p ++ r) ≡ fields p)
      × (fields (take 20 (set p 1 1) ++ r) ≡ record (fields p) { extension = 1 })
unfolding fields
fields-front p r h =
    subst
      (λ q.
        (fields (take 20 q ++ r) ≡ fields q)
        × (fields (take 20 (set q 1 1) ++ r) ≡ record (fields q) { extension = 1 }))
      (spread_lem p h) (refl, refl)

-- The three insertions at the end of the front part.
inserts :
    (E : Type 0) (a b bv : List ℕ) (k n : ℕ)
    → length a ≡ k
    → (insert {E = E} (a ++ b) k 0 >>= λ q. insert q (k + 1) n >>= λ q'. insert_all q' (k + 2) bv)
      ≡ ok (a ++ (0 ∷ n ∷ (bv ++ b)))
inserts E a b bv k n h =
    let a' = a ++ (0 ∷ []) in
    rw (insert-append a b 0 k h, ← append_assoc a (0 ∷ []) b)
      (rw
        (
          insert-append a' b n (k + 1) (omega (arith, length-append a (0 ∷ []))),
          ← append_assoc a' (n ∷ []) b,
        )
        (insert_all-append (a' ++ (n ∷ [])) b bv (k + 2)
            (omega (arith, length-append a (0 ∷ []), length-append a' (n ∷ [])))
          ∙ ap ok (append_assoc a' (n ∷ []) (bv ++ b) ∙ append_assoc a (0 ∷ []) (n ∷ (bv ++ b)))))

-- The extension that `set_sack` writes, before the payload.
sack-Chain :
    (bv pl : List ℕ)
    → 0 < length bv
    → length bv % 4 ≡ 0
    → length bv < 256
    → Chain selective_ack
        (0 ∷ length bv % 256 ∷ (bv ++ pl))
        (record { ty = selective_ack; bytes = bv } ∷ [])
        pl
unfolding extension_type_from_u8
sack-Chain bv pl pos mul small =
    link 0 bv pl refl (ap (λ k. 0 ∷ k ∷ (bv ++ pl)) (omega arith)) pos mul (end pl refl)

-- What `set_sack` gives on a packet with the extensions `xs` and the payload `pl`.
pub record SackSet (E : Type 0) (p : Packet) (xs : List Extension) (pl bv : List ℕ) : Type 0 where
  pub packet : Packet
  pub result : set_sack {E = E} p bv ≡ ok packet
  pub well_formed : IsWellFormed packet (xs ++ (record { ty = selective_ack; bytes = bv } ∷ [])) pl
  pub header : fields packet ≡ record (fields p) { extension = (fields packet).extension }

module _ (E : Type 0) (p : Packet) (xs : List Extension) (pl bv : List ℕ) (w : IsWellFormed p xs pl)
    (four : 4 ≤ length bv) (mul : length bv % 4 ≡ 0) where
  abbrev first : ExtensionType
  first = extension_type_from_u8 (get_or p 1 0)

  abbrev front : List ℕ
  front = take 20 p

  abbrev sack_part : List ℕ
  sack_part = 0 ∷ length bv % 256 ∷ (bv ++ pl)

  length-front : length front ≡ 20
  length-front = omega (arith, length-take 20 p, w.sized)

  -- The answer, once its header and its chain are known.
  sack_set :
      (q : Packet) (ext : ℕ)
      → set_sack {E = E} p bv ≡ ok q
      → fields q ≡ record (fields p) { extension = ext }
      → 20 ≤ length q
      → Chain
          (extension_type_from_u8 ext)
          (drop 20 q)
          (xs ++ (record { ty = selective_ack; bytes = bv } ∷ []))
          pl
      → SackSet E p xs pl bv
  unfolding fields
  sack_set q ext r f s c =
      let e : get_or q 0 0 ≡ get_or p 0 0 = ap (λ h. h.type_ver) f in
      let e' : get_or q 1 0 ≡ ext = ap (λ h. h.extension) f in
      record {
        packet = q;
        result = r;
        well_formed = record {
          sized = s;
          version = rw e w.version;
          known_type = rw e w.known_type;
          chain = rw e' c;
        };
        header = f ∙ ap (λ x. record (fields p) { extension = x }) (sym e');
      }

  behind_header : (r : List ℕ) → drop 20 (front ++ r) ≡ r
  behind_header r = drop-append 20 front r length-front

  fine : (ltb (length bv) 4 || not (length bv % 4 == 0)) ≡ false
  fine = ground arith

  -- The answer, from the front part that the insertions stand behind.
  set_sack-of :
      (a : List ℕ) (k : ℕ)
      → (if is_extension first
          then set_sack_loop {E = E} (length p) p header_size first
          else ok (set p 1 1, header_size))
        ≡ ok (a ++ pl, k)
      → length a ≡ k
      → set_sack {E = E} p bv ≡ ok (a ++ sack_part)
  unfolding set_sack extension_type_to_u8
  set_sack-of a k e h = rw (fine, e) (inserts E a pl bv k (length bv % 256) h)

  -- Without extensions the header's type is set and the rest goes behind the header, also where
  -- the length does not fit in its byte.
  pub set_sack-first :
      is_extension first ≡ false → set_sack {E = E} p bv ≡ ok (take 20 (set p 1 1) ++ sack_part)
  set_sack-first x =
      let (nx, np) = Chain-of-none w.chain x in
      let a : List ℕ = take 20 (set p 1 1) in
      let n : length a ≡ 20 =
        omega (arith, length-take 20 (set p 1 1), length-set p 1 1, w.sized) in
      let d : drop 20 (set p 1 1) ≡ pl = drop-set 20 p 1 1 (omega arith) ∙ np in
      let e : set p 1 1 ≡ a ++ pl = rw (← d) (sym (take-append-drop 20 (set p 1 1))) in
      set_sack-of a 20 (rw x (ap (λ z. ok (z, 20)) e)) n

  module _ (small : length bv < 256) where
    -- Extensions already there.
    SackSet-more : is_extension first ≡ true → SackSet E p xs pl bv
    unfolding fields
    SackSet-more x =
        let o =
          opened E (length p) front 20 w.chain x length-front
            (omega (arith, length-drop 20 p, w.sized)) in
        let q : Packet = front ++ (o.seg ++ sack_part) in
        let l : set_sack_loop {E = E} (length p) p header_size first
            ≡ ok ((front ++ o.seg) ++ pl, 20 + length o.seg) =
          rw (append_assoc front o.seg pl) (rw (take-append-drop 20 p) at o.result) in
        let r : set_sack {E = E} p bv ≡ ok q =
          set_sack-of (front ++ o.seg) (20 + length o.seg) (rw x l)
            (omega (arith, length-front, length-append front o.seg))
          ∙ ap ok (append_assoc front o.seg sack_part) in
        let c : Chain first (drop 20 q) (xs ++ (record { ty = selective_ack; bytes = bv } ∷ []))
            pl =
          rw (behind_header (o.seg ++ sack_part)) (
            o.more sack_part (record { ty = selective_ack; bytes = bv } ∷ []) pl
              (sack-Chain bv pl (omega arith) mul small)) in
        sack_set q (get_or p 1 0) r (fields-front p (o.seg ++ sack_part) w.sized).0
          (omega (arith, length-front, length-append front (o.seg ++ sack_part))) c

    -- The first extension.
    SackSet-first : is_extension first ≡ false → SackSet E p xs pl bv
    SackSet-first x =
        let (nx, np) = Chain-of-none w.chain x in
        let a : List ℕ = take 20 (set p 1 1) in
        let q : Packet = a ++ sack_part in
        let n : length a ≡ 20 =
          omega (arith, length-take 20 (set p 1 1), length-set p 1 1, w.sized) in
        let c : Chain (extension_type_from_u8 1) (drop 20 q)
            (xs ++ (record { ty = selective_ack; bytes = bv } ∷ [])) pl =
          rw (sack_code, drop-append 20 a sack_part n, nx)
            (sack-Chain bv pl (omega arith) mul small) in
        sack_set q 1 (set_sack-first x) (fields-front p sack_part w.sized).1
          (omega (arith, n, length-append a sack_part)) c

    -- `set_sack` on a well formed packet, with 4 to 252 bytes, a multiple of four: it gives a well
    -- formed packet with the selective ACK behind the extensions there were, the same payload, and a
    -- header that differs at most in the type of the first extension.
    pub set_sack_lem : SackSet E p xs pl bv
    set_sack_lem = elim (Bool-cases (is_extension first)) [
      | inl x ↦ SackSet-more x
      | inr x ↦ SackSet-first x
    ]
