-- ===== src/Packet/Spread.antt =====
-- src/packet.rs: bytes written over the fields of a packet.
use rfs_utp.Common.{
  ℕ, zero, suc, ◌+◌, ◌*◌, ◌/◌, ◌%◌, ◌<◌, ◌≤◌, ◌≡◌, refl, sym, ap, ◌∙◌, arith, List, [], ◌∷◌, length,
  get_or, set, drop,
}
use mathlib.Core.Path.{subst}
use rfs_utp.Packet.Words.{write_bytes}
use rfs_utp.Packet.Header.{PacketHeader}
use rfs_utp.Packet.Wire.{fields}
use rfs_utp.Packet.Fields.{Packet}

drop_step : (k : ℕ) (p : List ℕ) → k < length p → drop k p ≡ get_or p k 0 ∷ drop (suc k) p
drop_step k [] h = elim h [ ]
drop_step zero (x ∷ p) h = refl
drop_step (suc k) (x ∷ p) h = drop_step k p (omega arith)

-- The twenty bytes of the header, and the rest.
abbrev pub spread : List ℕ → List ℕ
spread p =
    get_or p 0 0
    ∷ get_or p 1 0
    ∷ get_or p 2 0
    ∷ get_or p 3 0
    ∷ get_or p 4 0
    ∷ get_or p 5 0
    ∷ get_or p 6 0
    ∷ get_or p 7 0
    ∷ get_or p 8 0
    ∷ get_or p 9 0
    ∷ get_or p 10 0
    ∷ get_or p 11 0
    ∷ get_or p 12 0
    ∷ get_or p 13 0
    ∷ get_or p 14 0
    ∷ get_or p 15 0
    ∷ get_or p 16 0
    ∷ get_or p 17 0
    ∷ get_or p 18 0
    ∷ get_or p 19 0
    ∷ drop 20 p

steps : (n k : ℕ) → List ℕ → List ℕ
steps zero k p = drop k p
steps (suc n) k p = get_or p k 0 ∷ steps n (suc k) p

steps_lem : (n k : ℕ) (p : List ℕ) → k + n ≤ length p → steps n k p ≡ drop k p
unfolding steps
steps_lem zero k p h = refl
steps_lem (suc n) k p h =
    ap (◌∷◌ (get_or p k 0)) (steps_lem n (suc k) p (omega arith))
    ∙ sym (drop_step k p (omega arith))

pub spread_lem : (p : List ℕ) → 20 ≤ length p → spread p ≡ p
unfolding steps
spread_lem p h = steps_lem 20 0 p h

-- Where two bytes, or four, are written over those of a field, on a spread packet.
abbrev pub Agrees : Packet → Packet → PacketHeader → Type 0
Agrees p q h = (fields q ≡ h) × (drop 20 q ≡ drop 20 p) × (length q ≡ length p)

module _ (p : Packet) (a b : ℕ) where
  pub two_bytes :
      20 ≤ length p
      → Agrees p (write_bytes p 16 (a ∷ b ∷ [])) (record (fields p) { seq_nr = a * 256 + b })
        × Agrees p (write_bytes p 18 (a ∷ b ∷ [])) (record (fields p) { ack_nr = a * 256 + b })
        × Agrees p
            (write_bytes p 2 (a ∷ b ∷ []))
            (record (fields p) { connection_id = a * 256 + b })
        × Agrees p (set p 0 a) (record (fields p) { type_ver = a })
  unfolding fields write_bytes
  two_bytes h =
      subst
        (λ q.
          Agrees q (write_bytes q 16 (a ∷ b ∷ [])) (record (fields q) { seq_nr = a * 256 + b })
          × Agrees q (write_bytes q 18 (a ∷ b ∷ [])) (record (fields q) { ack_nr = a * 256 + b })
          × Agrees q (write_bytes q 2 (a ∷ b ∷ []))
              (record (fields q) { connection_id = a * 256 + b })
          × Agrees q (set q 0 a) (record (fields q) { type_ver = a }))
        (spread_lem p h)
        ((refl, refl, refl), (refl, refl, refl), (refl, refl, refl), (refl, refl, refl))

module _ (p : Packet) (a b c d : ℕ) where
  abbrev sum_four : ℕ
  sum_four = a * 16777216 + b * 65536 + c * 256 + d

  pub four_bytes :
      20 ≤ length p
      → Agrees p (write_bytes p 12 (a ∷ b ∷ c ∷ d ∷ [])) (record (fields p) { wnd_size = sum_four })
        × Agrees p
            (write_bytes p 4 (a ∷ b ∷ c ∷ d ∷ []))
            (record (fields p) { timestamp = sum_four })
        × Agrees p
            (write_bytes p 8 (a ∷ b ∷ c ∷ d ∷ []))
            (record (fields p) { timestamp_difference = sum_four })
  unfolding fields write_bytes
  four_bytes h =
      subst
        (λ q.
          Agrees q (write_bytes q 12 (a ∷ b ∷ c ∷ d ∷ []))
            (record (fields q) { wnd_size = sum_four })
          × Agrees q (write_bytes q 4 (a ∷ b ∷ c ∷ d ∷ []))
              (record (fields q) { timestamp = sum_four })
          × Agrees q (write_bytes q 8 (a ∷ b ∷ c ∷ d ∷ []))
              (record (fields q) { timestamp_difference = sum_four }))
        (spread_lem p h) ((refl, refl, refl), (refl, refl, refl), (refl, refl, refl))

pub spread_four :
    (p : Packet) (v : ℕ)
    → 20 ≤ length p
    → let bs : List ℕ = v / 16777216 ∷ v / 65536 % 256 ∷ v / 256 % 256 ∷ v % 256 ∷ [] in
      let n = v / 16777216 * 16777216 + v / 65536 % 256 * 65536 + v / 256 % 256 * 256 + v % 256 in
      Agrees p (write_bytes p 12 bs) (record (fields p) { wnd_size = n })
      × Agrees p (write_bytes p 4 bs) (record (fields p) { timestamp = n })
      × Agrees p (write_bytes p 8 bs) (record (fields p) { timestamp_difference = n })
spread_four p v h = four_bytes p (v / 16777216) (v / 65536 % 256) (v / 256 % 256) (v % 256) h

-- What a u16 and a u32 are made of again.
pub join_two : (v : ℕ) → v / 256 * 256 + v % 256 ≡ v
join_two v = omega arith

pub join_four :
    (v : ℕ) → v / 16777216 * 16777216 + v / 65536 % 256 * 65536 + v / 256 % 256 * 256 + v % 256 ≡ v
join_four v = omega arith
