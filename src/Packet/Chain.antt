-- ===== src/Packet/Chain.antt =====
-- src/packet.rs: what a chain of extensions is, apart from the loops that walk it.
use rfs_utp.Common.{
  ℕ, zero, suc, ◌+◌, ◌%◌, ◌<◌, ◌≤◌, ◌≡◌, refl, sym, ap, ◌∙◌, arith, List, [], ◌∷◌, ◌++◌, length,
  get_elem?, drop, true, false, some, length-append, drop-drop, length-drop, drop-append,
}
use rfs_utp.Packet.Types.{ExtensionType, is_extension, extension_type_from_u8}
use rfs_utp.Packet.Extensions.{Extension}

-- `Chain ty bs xs rest`: the bytes `bs`, the first of whose extensions is of type `ty`, are the
-- extensions `xs` and the payload `rest` behind them. The data of each is not empty and a multiple
-- of four long, and each begins with the type of the next and the length of its data.
pub data Chain : ExtensionType → List ℕ → List Extension → List ℕ → Type 0 where
  end : {ty : ExtensionType} (bs : List ℕ) → is_extension ty ≡ false → Chain ty bs [] bs
  link :
      {ty : ExtensionType} {bs : List ℕ} (following : ℕ) (bytes rest : List ℕ) {xs : List Extension}
      {pl : List ℕ}
      → is_extension ty ≡ true
      → bs ≡ following ∷ length bytes ∷ (bytes ++ rest)
      → 0 < length bytes
      → length bytes % 4 ≡ 0
      → Chain (extension_type_from_u8 following) rest xs pl
      → Chain ty bs (record { ty = ty; bytes = bytes } ∷ xs) pl

-- What a chain with a first extension begins with.
pub record Head (ty : ExtensionType) (bs : List ℕ) (x : Extension) (xs : List Extension)
    (pl : List ℕ) : Type 0 where
  pub following : ℕ
  pub rest : List ℕ
  pub same_type : x.ty ≡ ty
  pub extends : is_extension ty ≡ true
  pub layout : bs ≡ following ∷ length x.bytes ∷ (x.bytes ++ rest)
  pub behind : Chain (extension_type_from_u8 following) rest xs pl

pub Chain-Head :
    {ty : ExtensionType} {bs : List ℕ} {x : Extension} {xs : List Extension} {pl : List ℕ}
    → Chain ty bs (x ∷ xs) pl
    → Head ty bs x xs pl
Chain-Head (link following bytes rest x e pos mul c) = record {
  following = following;
  rest = rest;
  same_type = refl;
  extends = x;
  layout = e;
  behind = c;
}

pub Chain-nil :
    {ty : ExtensionType} {bs pl : List ℕ}
    → Chain ty bs [] pl
    → (is_extension ty ≡ false) × (bs ≡ pl)
Chain-nil (end bs x) = (x, refl)

-- Reading at an index where the rest of a list is known.
pub drop-eq-cons :
    {x : ℕ} {xs : List ℕ} (i : ℕ) (p : List ℕ)
    → drop i p ≡ x ∷ xs
    → (get_elem? p i ≡ some x) × (drop (i + 1) p ≡ xs) × (i < length p)
drop-eq-cons zero [] e = cc
drop-eq-cons zero (y ∷ p) e = (cc, cc, omega arith)
drop-eq-cons (suc i) [] e = cc
drop-eq-cons (suc i) (y ∷ p) e =
    let (g, d, l) = drop-eq-cons i p e in
    (g, ap (λ k. drop k (y ∷ p)) {x = suc i + 1} {y = suc (i + 1)} (omega arith) ∙ d, omega arith)

pub drop-eq-append : (i : ℕ) (p xs ys : List ℕ) → drop i p ≡ xs ++ ys → drop (i + length xs) p ≡ ys
drop-eq-append i p xs ys e =
    sym (drop-drop (length xs) i p) ∙ ap (drop (length xs)) e ∙ drop-append (length xs) xs ys refl

-- What the loops read at an index where an extension stands.
pub record LinkAt (p : List ℕ) (i following : ℕ) (bytes rest : List ℕ) : Type 0 where
  pub type_byte : get_elem? p i ≡ some following
  pub length_byte : get_elem? p (i + 1) ≡ some (length bytes)
  pub fits : i + (length bytes + 2) ≤ length p
  pub starts : drop (i + 2) p ≡ bytes ++ rest
  pub continues : drop (i + (length bytes + 2)) p ≡ rest

pub link_at :
    (p : List ℕ) (i following : ℕ) (bytes rest : List ℕ)
    → drop i p ≡ following ∷ length bytes ∷ (bytes ++ rest)
    → LinkAt p i following bytes rest
link_at p i following bytes rest e =
    let (g, d, l) = drop-eq-cons i p e in
    let (g', d', l') = drop-eq-cons (i + 1) p d in
    let s : drop (i + 2) p ≡ bytes ++ rest =
      ap (λ k. drop k p) {x = i + 2} {y = i + 1 + 1} (omega arith) ∙ d' in
    record {
      type_byte = g;
      length_byte = g';
      fits = omega (arith, ap length e, length-append bytes rest, length-drop i p);
      starts = s;
      continues =
          ap (λ k. drop k p) {x = i + (length bytes + 2)} {y = i + 2 + length bytes} (omega arith)
          ∙ drop-eq-append (i + 2) p bytes rest s;
    }
