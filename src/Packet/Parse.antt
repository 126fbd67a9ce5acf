-- ===== src/Packet/Parse.antt =====
-- src/packet.rs: `TryFrom<&[u8]>` for a header and a packet, against what a well formed packet is.
use rfs_utp.Common.{
  ℕ, ◌/◌, ◌%◌, ◌<◌, ◌≤◌, ◌≡◌, refl, ap, arith, List, length, get_or, drop, ◌==◌, inl, inr, ◌⊎◌,
  ◌&&◌, Bool-cases, true, ok, err, length-drop, All, >>=-eq-ok, Ends, >>=-Ends,
}
use rfs_utp.Common.Bits.{low_nibble_flip}
use native.Mathlib.Decide.{dec_le}
use rfs_utp.Error.{ParseError, invalid_packet_length, invalid_extension_length}
use rfs_utp.Packet.Types.{ExtensionType, is_extension, extension_type_from_u8, packet_type_from_u8}
use rfs_utp.Packet.Words.{IsByte, get_or-IsByte}
use rfs_utp.Packet.Header.{header_size, PacketHeader, header_try_from, header_of_bytes}
use rfs_utp.Packet.Fields.{Packet}
use rfs_utp.Packet.Extensions.{Extension, check_extensions, try_from}
use rfs_utp.Packet.Chain.{Chain, end, link}
use rfs_utp.Packet.Validity.{check_loop_sound, check_loop-Chain}

-- A packet with these extensions and this payload: twenty bytes at least, version 1 and a known
-- type in the first one, and a chain of extensions from the second byte's type on.
pub record IsWellFormed (p : Packet) (xs : List Extension) (pl : List ℕ) : Type 0 where
  pub sized : header_size ≤ length p
  pub version : get_or p 0 0 % 16 ≡ 1
  pub known_type : get_or p 0 0 / 16 < 6
  pub chain : Chain (extension_type_from_u8 (get_or p 1 0)) (drop header_size p) xs pl

-- The header of a buffer is accepted exactly when it has its length, version and type.
header_accepts :
    (buf : List ℕ)
    → All IsByte buf
    → header_size ≤ length buf
    → get_or buf 0 0 % 16 ≡ 1
    → get_or buf 0 0 / 16 < 6
    → (h : PacketHeader) × (header_try_from buf ≡ ok h)
unfolding header_try_from packet_type_from_u8
header_accepts buf b s v k =
    (header_of_bytes buf, ground (arith, low_nibble_flip (get_or buf 0 0), get_or-IsByte buf 0 b))

header_accepted :
    (buf : List ℕ) (h : PacketHeader)
    → All IsByte buf
    → header_try_from buf ≡ ok h
    → (header_size ≤ length buf) × (get_or buf 0 0 % 16 ≡ 1) × (get_or buf 0 0 / 16 < 6)
unfolding header_try_from packet_type_from_u8
header_accepted buf h b e = ground (arith, low_nibble_flip (get_or buf 0 0), get_or-IsByte buf 0 b)

pub header-Ends : (buf : List ℕ) → Ends (header_try_from buf)
unfolding header_try_from packet_type_from_u8
header-Ends buf = (λ e. ground arith, λ e. ground arith)

Chain-of-extension :
    {ty : ExtensionType} {bs : List ℕ} {xs : List Extension} {pl : List ℕ}
    → Chain ty bs xs pl
    → is_extension ty ≡ true
    → 2 ≤ length bs
Chain-of-extension (end bs x) h = cc
Chain-of-extension (link following bytes rest x e pos mul c) h = omega (arith, ap length e)

-- What `check_extensions` answers.
check_sound :
    (p : List ℕ)
    → ((e : ParseError) × (check_extensions p ≡ err e))
      ⊎ ((check_extensions p ≡ ok tt)
          × (header_size ≤ length p)
          × ((xs : List Extension) × (pl : List ℕ) × Chain
                (extension_type_from_u8 (get_or p 1 0))
                (drop header_size p)
                xs
                pl))
unfolding check_extensions
check_sound p = elim (dec_le 20 (length p)) [
  | no short ↦ inl (invalid_packet_length, ground arith)
  | yes s ↦
      elim (Bool-cases (length p == 20 && is_extension (extension_type_from_u8 (get_or p 1 0)))) [
        | inl bad ↦ inl (invalid_extension_length, ground arith)
        | inr fine ↦
            elim (check_loop_sound (length p) p 20 (extension_type_from_u8 (get_or p 1 0)) s
              (omega arith)) [
                | inl (e, q) ↦ inl (e, ground arith)
                | inr (inl (ty, q, x)) ↦ inl (invalid_packet_length, ground arith)
                | inr (inr (q, c)) ↦ inr (ground arith, s, c)
              ]
      ]
]

check_complete :
    (p : List ℕ) {xs : List Extension} {pl : List ℕ}
    → header_size ≤ length p
    → Chain (extension_type_from_u8 (get_or p 1 0)) (drop header_size p) xs pl
    → check_extensions p ≡ ok tt
unfolding check_extensions
check_complete p s c = ground (
  arith,
  check_loop-Chain (length p) p 20 c refl (omega (arith, length-drop 20 p)),
  Chain-of-extension c,
  length-drop 20 p,
)

pub check-Ends : (p : List ℕ) → Ends (check_extensions p)
check-Ends p = elim (check_sound p) [
  | inl (e, q) ↦ rw q (λ h. cc, λ h. cc)
  | inr (q, s, c) ↦ rw q (λ h. cc, λ h. cc)
]

try_from-Ends : (buf : List ℕ) → Ends (try_from buf)
unfolding try_from
try_from-Ends buf =
    >>=-Ends (header_try_from buf) _ (header-Ends buf)
      (λ _ _. >>=-Ends (check_extensions buf) _ (check-Ends buf) (λ _ _. (λ h. cc, λ h. cc)))

-- A buffer of bytes is accepted as a packet exactly when it is well formed, with some extensions
-- and some payload, and the packet is then the buffer itself. The validation always ends with a
-- packet or an error: it does not panic and its loop does not run out of fuel.
pub try_from_accepts :
    (buf : List ℕ)
    → All IsByte buf
    → ((xs : List Extension) (pl : List ℕ) → IsWellFormed buf xs pl → try_from buf ≡ ok buf)
      × ((p : Packet)
          → try_from buf ≡ ok p
          → (p ≡ buf) × ((xs : List Extension) × (pl : List ℕ) × IsWellFormed buf xs pl))
      × Ends (try_from buf)
unfolding try_from
try_from_accepts buf b = (
  λ xs pl w.
      let (h, e) = header_accepts buf b w.sized w.version w.known_type in
      ground (arith, check_complete buf w.sized w.chain),
  λ p e.
      let (h, eh, e') = >>=-eq-ok (header_try_from buf) _ e in
      elim (check_sound buf) [
        | inl (er, q) ↦ cc
        | inr (q, s, (xs, pl, c)) ↦
            let (s', v, k) = header_accepted buf h b eh in
            (cc, (xs, pl, record { sized = s; version = v; known_type = k; chain = c }))
      ],
  try_from-Ends buf,
)
