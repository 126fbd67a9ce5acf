-- ===== src/Packet/Extend.antt =====
-- src/packet.rs: the loop of `set_sack` on a chain of extensions.
use rfs_utp.Common.{
  ℕ, zero, suc, ◌+◌, ◌%◌, ◌<◌, ◌≡◌, refl, ap, ◌∙◌, arith, List, [], ◌∷◌, ◌++◌, length, set, true,
  false, inl, inr, ok, length-append, take-append, drop-append, if◌then◌else◌, Bool-cases,
}
use mathlib.Core.List.{append_assoc}
use rfs_utp.Packet.Types.{
  ExtensionType, selective_ack, extension_type_from_u8, extension_type_to_u8, is_extension,
}
use rfs_utp.Packet.Extensions.{Extension}
use rfs_utp.Packet.Chain.{Chain, end, link, LinkAt, link_at}
use rfs_utp.Packet.Sack.{insert, insert_all, set_sack_loop}

set-append : (a b : List ℕ) (x v i : ℕ) → length a ≡ i → set (a ++ (x ∷ b)) i v ≡ a ++ (v ∷ b)
set-append [] b x v zero h = refl
set-append [] b x v (suc i) h = absurd (omega arith)
set-append (y ∷ a) b x v zero h = absurd (omega arith)
set-append (y ∷ a) b x v (suc i) h = ap (◌∷◌ y) (set-append a b x v i (omega arith))

module _ {E : Type 0} where
  pub insert-append :
      (a b : List ℕ) (v i : ℕ) → length a ≡ i → insert {E = E} (a ++ b) i v ≡ ok (a ++ (v ∷ b))
  unfolding insert
  insert-append a b v i h =
      ground (arith, length-append a b, take-append i a b h, drop-append i a b h)

  pub insert_all-append :
      (a b vs : List ℕ) (i : ℕ)
      → length a ≡ i
      → insert_all {E = E} (a ++ b) i vs ≡ ok (a ++ (vs ++ b))
  unfolding insert_all
  insert_all-append a b [] i h = refl
  insert_all-append a b (v ∷ vs) i h =
      rw (insert-append a b v i h, ← append_assoc a (v ∷ []) b)
        (insert_all-append (a ++ (v ∷ [])) b vs (i + 1) (omega (arith, length-append a (v ∷ [])))
          ∙ ap ok (append_assoc a (v ∷ []) (vs ++ b)))

  set_sack_loop-link :
      (f : ℕ) (p : List ℕ) (i following : ℕ) (bytes rest : List ℕ) (ty : ExtensionType)
      → LinkAt p i following bytes rest
      → is_extension ty ≡ true
      → set_sack_loop {E = E} (suc f) p i ty
        ≡ set_sack_loop f
            (if is_extension (extension_type_from_u8 following) then p else set p i 1)
            (i + (length bytes + 2))
            (extension_type_from_u8 following)
  unfolding set_sack_loop extension_type_to_u8
  set_sack_loop-link f p i following bytes rest ty l x = ground arith

  set_sack_loop-end :
      (f : ℕ) (p : List ℕ) (i : ℕ) (ty : ExtensionType)
      → is_extension ty ≡ false
      → set_sack_loop {E = E} (suc f) p i ty ≡ ok (p, i)
  unfolding set_sack_loop
  set_sack_loop-end f p i ty x = ground arith

pub sack_code : extension_type_from_u8 1 ≡ selective_ack
unfolding extension_type_from_u8
sack_code = refl

-- The chain that ends at once.
pub Chain-of-none :
    {ty : ExtensionType} {bs : List ℕ} {xs : List Extension} {pl : List ℕ}
    → Chain ty bs xs pl
    → is_extension ty ≡ false
    → (xs ≡ []) × (bs ≡ pl)
Chain-of-none (end bs x) h = (refl, refl)
Chain-of-none (link following bytes rest x e pos mul c) h = cc

-- What the loop leaves: `seg` in place of the extensions, ready for one more behind it.
pub record Opened (E : Type 0) (f : ℕ) (pre bs : List ℕ) (i : ℕ) (ty : ExtensionType)
    (xs : List Extension) (pl : List ℕ) : Type 0 where
  pub seg : List ℕ
  pub result : set_sack_loop {E = E} f (pre ++ bs) i ty ≡ ok (pre ++ (seg ++ pl), i + length seg)
  pub more :
      (tail : List ℕ) (ys : List Extension) (rest : List ℕ)
      → Chain selective_ack tail ys rest
      → Chain ty (seg ++ tail) (xs ++ ys) rest

module _ (E : Type 0) (f : ℕ) (pre : List ℕ) (i : ℕ) (ty : ExtensionType) (following : ℕ)
    (bytes rest : List ℕ) (xs : List Extension) (pl : List ℕ) (x : is_extension ty ≡ true)
    (pos : 0 < length bytes) (mul : length bytes % 4 ≡ 0) (n : length pre ≡ i) where
  abbrev all_bytes : List ℕ
  all_bytes = pre ++ (following ∷ length bytes ∷ (bytes ++ rest))

  place : LinkAt all_bytes i following bytes rest
  place =
      link_at all_bytes i following bytes rest
        (drop-append i pre (following ∷ length bytes ∷ (bytes ++ rest)) n)

  -- An extension that others follow stays as it is.
  Opened-more :
      is_extension (extension_type_from_u8 following) ≡ true
      → Opened E f
          (pre ++ (following ∷ length bytes ∷ bytes))
          rest
          (i + (length bytes + 2))
          (extension_type_from_u8 following)
          xs
          pl
      → Opened E
          (suc f)
          pre
          (following ∷ length bytes ∷ (bytes ++ rest))
          i
          ty
          (record { ty = ty; bytes = bytes } ∷ xs)
          pl
  Opened-more go o = record {
    seg = following ∷ length bytes ∷ (bytes ++ o.seg);
    result =
        set_sack_loop-link f all_bytes i following bytes rest ty place x
        ∙ rw go (
            rw (append_assoc pre (following ∷ length bytes ∷ bytes) rest) at o.result
            ∙ ground (
              arith,
              append_assoc pre (following ∷ length bytes ∷ bytes) (o.seg ++ pl),
              append_assoc bytes o.seg pl,
              length-append bytes o.seg,
            ));
    more = λ tail ys r c.
        link following bytes (o.seg ++ tail) x
          (ap (λ z. following ∷ length bytes ∷ z) (append_assoc bytes o.seg tail)) pos mul
          (o.more tail ys r c);
  }

  -- The last extension is marked as followed by a selective ACK.
  Opened-last :
      is_extension (extension_type_from_u8 following) ≡ false
      → Chain (extension_type_from_u8 following) rest xs pl
      → Opened E
          (suc (suc f))
          pre
          (following ∷ length bytes ∷ (bytes ++ rest))
          i
          ty
          (record { ty = ty; bytes = bytes } ∷ xs)
          pl
  Opened-last stop c = record {
    seg = 1 ∷ length bytes ∷ bytes;
    result =
        set_sack_loop-link (suc f) all_bytes i following bytes rest ty place x
        ∙ rw stop (
            set_sack_loop-end f (set all_bytes i 1) (i + (length bytes + 2))
              (extension_type_from_u8 following) stop
            ∙ ground (
              arith,
              Chain-of-none c stop,
              set-append pre (length bytes ∷ (bytes ++ rest)) following 1 i n,
            ));
    more = λ tail ys r c'.
        rw ((Chain-of-none c stop).0) (link 1 bytes tail x refl pos mul (rw sack_code c'));
  }

pub opened :
    (E : Type 0) (f : ℕ) (pre : List ℕ) (i : ℕ) {ty : ExtensionType} {bs : List ℕ}
    {xs : List Extension} {pl : List ℕ}
    → Chain ty bs xs pl
    → is_extension ty ≡ true
    → length pre ≡ i
    → length bs < f
    → Opened E f pre bs i ty xs pl
opened E f pre i (end bs x) y n h = cc
opened E zero pre i (link following bytes rest x e pos mul c) y n h = absurd (omega arith)
opened E (suc zero) pre i (link following bytes rest x e pos mul c) y n h =
    absurd (omega (arith, ap length e))
opened E (suc (suc f)) pre i {ty} {bs} {xs} {pl} (link following bytes rest {xs = zs} x e pos mul c)
      y n h =
    rw e (elim (Bool-cases (is_extension (extension_type_from_u8 following))) [
      | inl go ↦ Opened-more E (suc f) pre i ty following bytes rest zs pl x pos mul n go (
          opened E (suc f) (pre ++ (following ∷ length bytes ∷ bytes)) (i + (length bytes + 2)) c go
            (omega (arith, length-append pre (following ∷ length bytes ∷ bytes)))
            (omega (arith, ap length e, length-append bytes rest)))
      | inr stop ↦ Opened-last E f pre i ty following bytes rest zs pl x pos mul n stop c
    ])
