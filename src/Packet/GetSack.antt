-- ===== src/Packet/GetSack.antt =====
-- src/packet.rs: `get_sack` against the chain of extensions.
use rfs_utp.Common.{
  ℕ, zero, suc, ◌+◌, ◌-◌, ◌≤◌, ◌≡◌, refl, ◌∙◌, arith, List, [], ◌∷◌, length, get_or, get_elem?,
  true, false, none, some, ok,
}
use rfs_utp.Packet.Types.{
  ExtensionType, selective_ack, extension_type_from_u8, is_extension, is_selective_ack,
}
use rfs_utp.Packet.Fields.{Packet}
use rfs_utp.Packet.Extensions.{Extension}
use rfs_utp.Packet.Chain.{Chain-Head, Chain-nil, LinkAt, link_at}
use rfs_utp.Packet.Parse.{IsWellFormed}
use rfs_utp.Packet.Reading.{slice_front}
use rfs_utp.Packet.Sack.{get_sack_loop, get_sack}

enough : (p : List ℕ) → 20 ≤ length p → length p ≡ suc (length p - 1)
enough p h = omega arith

enough' : (p : List ℕ) → 20 ≤ length p → length p - 1 ≡ suc (length p - 2)
enough' p h = omega arith

get_or-get_elem? : (p : List ℕ) (i x : ℕ) → get_elem? p i ≡ some x → get_or p i 0 ≡ x
get_or-get_elem? [] i x e = cc
get_or-get_elem? (y ∷ p) zero x e = cc
get_or-get_elem? (y ∷ p) (suc i) x e = get_or-get_elem? p i x e

module _ {E : Type 0} where
  get_sack_loop-found :
      (f : ℕ) (p : List ℕ) (i following : ℕ) (bytes rest : List ℕ) (ty : ExtensionType)
      → LinkAt p i following bytes rest
      → is_extension ty ≡ true
      → is_selective_ack ty ≡ true
      → get_sack_loop {E = E} (suc f) p i ty ≡ ok (some bytes)
  unfolding get_sack_loop
  get_sack_loop-found f p i following bytes rest ty l x y =
      ground (arith, slice_front {E = E} p i bytes rest l.fits l.starts)

  -- The type of the next round is the byte behind the extension.
  get_sack_loop-passed :
      (f : ℕ) (p : List ℕ) (i following : ℕ) (bytes rest : List ℕ) (ty : ExtensionType)
      → LinkAt p i following bytes rest
      → is_extension ty ≡ true
      → is_selective_ack ty ≡ false
      → get_sack_loop {E = E} (suc f) p i ty
        ≡ get_sack_loop f p
            (i + (length bytes + 2))
            (extension_type_from_u8 (get_or p (i + (length bytes + 2)) 0))
  unfolding get_sack_loop
  get_sack_loop-passed f p i following bytes rest ty l x y = ground arith

  get_sack_loop-end :
      (f : ℕ) (p : List ℕ) (i : ℕ) (ty : ExtensionType)
      → is_extension ty ≡ false
      → get_sack_loop {E = E} (suc f) p i ty ≡ ok none
  unfolding get_sack_loop
  get_sack_loop-end f p i ty x = ground arith

  -- `get_sack` returns the data of a selective ACK that is the first extension of a well formed
  -- packet, whatever extensions follow.
  pub get_sack_first :
      (p : Packet) (xs : List Extension) (pl bv : List ℕ)
      → IsWellFormed p (record { ty = selective_ack; bytes = bv } ∷ xs) pl
      → get_sack {E = E} p ≡ ok (some bv)
  unfolding get_sack
  get_sack_first p xs pl bv w =
      let h = Chain-Head w.chain in
      rw (enough p w.sized) (
        get_sack_loop-found (length p - 1) p 20 h.following bv h.rest _
          (link_at p 20 h.following bv h.rest h.layout) h.extends (rw (← h.same_type) refl))

  -- A selective ACK behind another extension is missed: in every well formed packet whose
  -- extensions are one that is no selective ACK and then a selective ACK, `get_sack` finds none.
  -- The loop takes the type of the next extension from the byte at the new index, which is the
  -- type of the one after it.
  pub get_sack_misses :
      (p : Packet) (x : Extension) (bv pl : List ℕ)
      → is_selective_ack x.ty ≡ false
      → IsWellFormed p (x ∷ record { ty = selective_ack; bytes = bv } ∷ []) pl
      → get_sack {E = E} p ≡ ok none
  unfolding get_sack
  get_sack_misses p x bv pl other w =
      let h = Chain-Head w.chain in
      let h' = Chain-Head h.behind in
      let l = link_at p 20 h.following x.bytes h.rest h.layout in
      let l' =
        link_at p (20 + (length x.bytes + 2)) h'.following bv h'.rest (l.continues ∙ h'.layout) in
      rw (enough p w.sized) (
        get_sack_loop-passed (length p - 1) p 20 h.following x.bytes h.rest _ l h.extends
          (rw (← h.same_type) other)
        ∙ rw (enough' p w.sized) (
            get_sack_loop-end (length p - 2) p (20 + (length x.bytes + 2)) _ (
              rw (get_or-get_elem? p (20 + (length x.bytes + 2)) h'.following l'.type_byte)
                (Chain-nil h'.behind).0)))
