-- ===== src/Packet/Sack.antt =====
-- src/packet.rs: `set_sack`, which adds a selective ACK behind the extensions of a packet, and
-- `get_sack`, which looks for one.
use rfs_utp.Common.{
  ℕ, zero, suc, ◌+◌, ◌%◌, List, [], ◌∷◌, ◌++◌, length, get_or, set, take, drop, Result, ok, panic,
  hang, ◌>>=◌, ltb, leb, ◌==◌, if◌then◌else◌, not, ◌&&◌, ◌||◌, Option, none, some,
}
use rfs_utp.Packet.Types.{
  ExtensionType, none_, selective_ack, extension_type_from_u8, extension_type_to_u8, is_extension,
  is_selective_ack,
}
use rfs_utp.Packet.Header.{header_size}
use rfs_utp.Packet.Fields.{Packet}
use rfs_utp.Packet.Extensions.{index_at, slice}

-- `Vec::insert`, which panics past the end.
unfoldable pub insert {ℓ κ} : {E : Type ℓ} {A : Type κ} → List A → ℕ → A → Result E (List A)
insert p i v = if leb i (length p) then ok (take i p ++ (v ∷ drop i p)) else panic

-- `for (i, &value) in bv.iter().enumerate() { insert(index + i, value) }`
unfoldable pub insert_all {ℓ κ} :
    {E : Type ℓ} {A : Type κ} → List A → ℕ → List A → Result E (List A)
insert_all p i [] = ok p
insert_all p i (v ∷ vs) = insert p i v >>= λ q. insert_all q (i + 1) vs

-- The loop of `set_sack`: it marks the last extension as followed by a selective ACK. The answer
-- is the packet with the index behind that extension.
unfoldable pub set_sack_loop {ℓ} :
    {E : Type ℓ} → ℕ → List ℕ → ℕ → ExtensionType → Result E (List ℕ × ℕ)
set_sack_loop zero p index ty = hang
set_sack_loop (suc f) p index ty =
    if ltb index (length p) && is_extension ty
    then (index_at p (index + 1) >>= λ len. index_at p index >>= λ following.
        let ty' = extension_type_from_u8 following in
        let p' = if is_extension ty' then p else set p index (extension_type_to_u8 selective_ack) in
        set_sack_loop f p' (index + (len + 2)) ty')
    else ok (p, index)

-- `Packet::set_sack`. The two assertions panic; `bv.len() as u8` keeps the low byte.
unfoldable pub set_sack {ℓ} : {E : Type ℓ} → Packet → List ℕ → Result E Packet
set_sack p bv =
    let first = extension_type_from_u8 (get_or p 1 0) in
    if ltb (length bv) 4 || not (length bv % 4 == 0)
    then panic
    else ((if is_extension first
          then set_sack_loop (length p) p header_size first
          else ok (set p 1 (extension_type_to_u8 selective_ack), header_size))
        >>= λ r. insert r.0 r.1 (extension_type_to_u8 none_) >>= λ q.
            insert q (r.1 + 1) (length bv % 256) >>= λ q'. insert_all q' (r.1 + 2) bv)

unfoldable pub get_sack_loop {ℓ} :
    {E : Type ℓ} → ℕ → List ℕ → ℕ → ExtensionType → Result E (Option (List ℕ))
get_sack_loop zero p index ty = hang
get_sack_loop (suc f) p index ty =
    if ltb index (length p) && is_extension ty
    then (index_at p (index + 1) >>= λ ext_len.
        if is_selective_ack ty
        then (slice p (index + 2) (index + 2 + ext_len) >>= λ data_. ok (some data_))
        else get_sack_loop f p (index + (ext_len + 2))
            (extension_type_from_u8 (get_or p (index + (ext_len + 2)) 0)))
    else ok none

-- `Packet::get_sack`. Each round moves the index by two at least.
unfoldable pub get_sack {ℓ} : {E : Type ℓ} → Packet → Result E (Option (List ℕ))
get_sack p = get_sack_loop (length p) p header_size (extension_type_from_u8 (get_or p 1 0))
