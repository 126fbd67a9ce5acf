-- ===== src/Packet/Validity.antt =====
-- src/packet.rs: the loop of `check_extensions` against the chain that the bytes should hold.
use rfs_utp.Common.{
  ℕ, zero, suc, ◌+◌, ◌%◌, ◌<◌, ◌≤◌, ◌≡◌, refl, ap, ◌∙◌, arith, List, [], ◌∷◌, ◌++◌, length,
  get_elem?, take, drop, ltb, ◌==◌, true, false, some, Bool-cases, inl, inr, ◌⊎◌, Bool, ◌||◌, not,
  Result, ok, err, length-drop, length-take, length-append, take-append-drop,
}
use native.Mathlib.Decide.{dec_le}
use rfs_utp.Error.{ParseError, invalid_packet_length, invalid_extension_length}
use rfs_utp.Packet.Types.{ExtensionType, none_, is_extension, extension_type_from_u8}
use rfs_utp.Packet.Extensions.{Extension, check_loop}
use rfs_utp.Packet.Chain.{Chain, end, link, LinkAt, link_at, drop-eq-cons}

check_loop-link :
    (f : ℕ) (p : List ℕ) (i following : ℕ) (bytes rest : List ℕ) (ty : ExtensionType)
    → LinkAt p i following bytes rest
    → is_extension ty ≡ true
    → 0 < length bytes
    → length bytes % 4 ≡ 0
    → check_loop (suc f) p i ty
      ≡ check_loop f p (i + (length bytes + 2)) (extension_type_from_u8 following)
unfolding check_loop
check_loop-link f p i following bytes rest ty l x pos mul = ground arith

pub none-of-not-extension : (ty : ExtensionType) → is_extension ty ≡ false → ty ≡ none_
none-of-not-extension none_ h = refl
none-of-not-extension _ h = cc

check_loop-end :
    (f : ℕ) (p : List ℕ) (i : ℕ) (ty : ExtensionType)
    → (is_extension ty ≡ false) ⊎ (length p ≤ i)
    → check_loop (suc f) p i ty ≡ ok ty
unfolding check_loop
check_loop-end f p i ty h = ground arith

-- The loop accepts a chain, with enough fuel.
pub check_loop-Chain :
    (f : ℕ) (p : List ℕ) (i : ℕ) {ty : ExtensionType} {bs : List ℕ} {xs : List Extension}
    {pl : List ℕ}
    → Chain ty bs xs pl
    → drop i p ≡ bs
    → length bs < f
    → check_loop f p i ty ≡ ok none_
check_loop-Chain zero p i c e h = elim h [ ]
check_loop-Chain (suc f) p i {ty} (end bs x) e h =
    check_loop-end f p i ty (inl x) ∙ ap ok (none-of-not-extension ty x)
check_loop-Chain (suc f) p i {ty} (link following bytes rest x e' pos mul c) e h =
    let l = link_at p i following bytes rest (e ∙ e') in
    check_loop-link f p i following bytes rest ty l x pos mul
    ∙ check_loop-Chain f p (i + (length bytes + 2)) c l.continues
        (omega (arith, ap length e', length-append bytes rest))

read_at : (p : List ℕ) (i : ℕ) → i < length p → (x : ℕ) × (drop i p ≡ x ∷ drop (i + 1) p)
read_at [] i h = elim h [ ]
read_at (x ∷ p) zero h = (x, refl)
read_at (x ∷ p) (suc i) h =
    let (y, e) = read_at p i (omega arith) in
    (y, e ∙ ap (λ k. y ∷ drop k (x ∷ p)) {x = suc (i + 1)} {y = suc i + 1} (omega arith))

-- Two bytes and a length that fits are an extension's place.
place_at :
    (p : List ℕ) (i following len : ℕ)
    → get_elem? p i ≡ some following
    → get_elem? p (i + 1) ≡ some len
    → i + 2 + len ≤ length p
    → (bytes : List ℕ) × (rest : List ℕ) × (length bytes ≡ len)
      × (drop i p ≡ following ∷ length bytes ∷ (bytes ++ rest))
place_at p i following len g g' fits =
    let (x, e) = read_at p i (omega arith) in
    let (y, e') = read_at p (i + 1) (omega arith) in
    let d : List ℕ = drop (i + 1 + 1) p in
    let n : length (take len d) ≡ len =
      omega (arith, length-take len d, length-drop (i + 1 + 1) p) in
    (
      take len d,
      drop len d,
      n,
      cc (
        e,
        e',
        g,
        g',
        n,
        (drop-eq-cons i p e).0,
        (drop-eq-cons (i + 1) p e').0,
        take-append-drop len d,
      ),
    )

-- The test on the length of an extension's data.
abbrev is_bad_length : List ℕ → ℕ → ℕ → Bool
is_bad_length p i len = len == 0 || not (len % 4 == 0) || ltb (length p) (i + 2 + len)

not_bad :
    (p : List ℕ) (i len : ℕ)
    → is_bad_length p i len ≡ false
    → (0 < len) × (len % 4 ≡ 0) × (i + 2 + len ≤ length p)
not_bad p i len h = ground arith

module _ (f : ℕ) (p : List ℕ) (i : ℕ) (ty : ExtensionType) (inside : i < length p)
    (x : is_extension ty ≡ true) where
  check_loop-short : length p < i + 2 → check_loop (suc f) p i ty ≡ err invalid_packet_length
  unfolding check_loop
  check_loop-short h = ground arith

  check_loop-bad :
      (len : ℕ)
      → i + 2 ≤ length p
      → get_elem? p (i + 1) ≡ some len
      → is_bad_length p i len ≡ true
      → check_loop (suc f) p i ty ≡ err invalid_extension_length
  unfolding check_loop
  check_loop-bad len h g b = ground arith

-- An answer of the loop: an error, a pending extension, or none, and then a chain.
abbrev pub Sound : List ℕ → ℕ → ExtensionType → Result ParseError ExtensionType → Type 0
Sound p i ty r =
    ((e : ParseError) × (r ≡ err e))
    ⊎ ((ty' : ExtensionType) × (r ≡ ok ty') × (is_extension ty' ≡ true))
    ⊎ ((r ≡ ok none_) × ((xs : List Extension) × (pl : List ℕ) × Chain ty (drop i p) xs pl))

-- A round that goes on adds an extension to the chain that the rest of the loop finds.
Sound-round :
    (f : ℕ) (p : List ℕ) (i following len : ℕ) (ty : ExtensionType)
    → is_extension ty ≡ true
    → get_elem? p i ≡ some following
    → get_elem? p (i + 1) ≡ some len
    → 0 < len
    → len % 4 ≡ 0
    → i + 2 + len ≤ length p
    → Sound p
        (i + (len + 2))
        (extension_type_from_u8 following)
        (check_loop f p (i + (len + 2)) (extension_type_from_u8 following))
    → Sound p i ty (check_loop (suc f) p i ty)
Sound-round f p i following len ty x g g' pos mul fits ih =
    let (bytes, rest, n, e) = place_at p i following len g g' fits in
    let l = link_at p i following bytes rest e in
    let pos' : 0 < length bytes = omega arith in
    let mul' : length bytes % 4 ≡ 0 = omega arith in
    let step : check_loop (suc f) p i ty
        ≡ check_loop f p (i + (len + 2)) (extension_type_from_u8 following) =
      rw n at (check_loop-link f p i following bytes rest ty l x pos' mul') in
    let behind : drop (i + (len + 2)) p ≡ rest = rw n at l.continues in
    elim ih [
      | inl (er, q) ↦ inl (er, step ∙ q)
      | inr (inl (ty', q, z)) ↦ inr (inl (ty', step ∙ q, z))
      | inr (inr (q, (xs, pl, c))) ↦ inr (
          inr (
            step ∙ q,
            (
              record { ty = ty; bytes = bytes } ∷ xs,
              pl,
              link following bytes rest x e pos' mul' (rw behind at c),
            ),
          ))
    ]

-- The loop neither panics nor runs out of fuel, and what it accepts is a chain.
pub check_loop_sound :
    (f : ℕ) (p : List ℕ) (i : ℕ) (ty : ExtensionType)
    → i ≤ length p
    → length p < i + f
    → Sound p i ty (check_loop f p i ty)
check_loop_sound zero p i ty h hf = absurd (omega arith)
check_loop_sound (suc f) p i ty h hf = elim (Bool-cases (is_extension ty)) [
  | inr z ↦ inr (
      inr (
        check_loop-end f p i ty (inl z) ∙ ap ok (none-of-not-extension ty z),
        ([], drop i p, end (drop i p) z),
      ))
  | inl x ↦ elim (dec_le (length p) i) [
    | yes out ↦ inr (inl (ty, check_loop-end f p i ty (inr out), x))
    | no lt ↦ elim (dec_le (i + 2) (length p)) [
      | no short ↦
          inl (invalid_packet_length, check_loop-short f p i ty (omega arith) x (omega arith))
      | yes two ↦
          let (following, d) = read_at p i (omega arith) in
          let (len, d') = read_at p (i + 1) (omega arith) in
          let g = (drop-eq-cons i p d).0 in
          let g' = (drop-eq-cons (i + 1) p d').0 in
          elim (Bool-cases (is_bad_length p i len)) [
            | inl bad ↦
                inl
                  (invalid_extension_length, check_loop-bad f p i ty (omega arith) x len two g' bad)
            | inr fine ↦
                let (pos, mul, fits) = not_bad p i len fine in
                Sound-round f p i following len ty x g g' pos mul fits (
                  check_loop_sound f p (i + (len + 2)) (extension_type_from_u8 following)
                    (omega arith) (omega arith))
          ]
    ]
  ]
]
