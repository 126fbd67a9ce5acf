-- ===== src/Packet/Extensions.antt =====
-- src/packet.rs: the chain of extensions behind the header: its validation, its iterator, and
-- the payload behind it. An extension is the type of the next one, its length, and its data.
use rfs_utp.Common.{
  ℕ, zero, suc, ◌+◌, ◌-◌, ◌%◌, List, [], ◌∷◌, length, get_elem?, get_or, take, drop, Result, ok,
  err, panic, hang, ◌>>=◌, ltb, leb, ◌==◌, if◌then◌else◌, not, ◌&&◌, ◌||◌, Option, none, some,
}
use rfs_utp.Error.{ParseError, invalid_packet_length, invalid_extension_length}
use rfs_utp.Packet.Types.{ExtensionType, extension_type_from_u8, is_extension}
use rfs_utp.Packet.Header.{header_size, header_try_from}
use rfs_utp.Packet.Fields.{Packet}

-- `v[i]`, which panics past the end.
abbrev pub index_at {ℓ κ} : {E : Type ℓ} {A : Type κ} → List A → ℕ → Result E A
index_at p i = elim (get_elem? p i) [ none ↦ panic | some b ↦ ok b ]

-- `&v[start..end]`, which panics past the end.
unfoldable pub slice {ℓ κ} : {E : Type ℓ} {A : Type κ} → List A → ℕ → ℕ → Result E (List A)
slice p start end =
    if leb start end && leb end (length p) then ok (take (end - start) (drop start p)) else panic

-- The loop of `check_extensions`, to the type of the pending extension.
unfoldable pub check_loop : ℕ → List ℕ → ℕ → ExtensionType → Result ParseError ExtensionType
check_loop zero p index ty = hang
check_loop (suc f) p index ty =
    if ltb index (length p) && is_extension ty
    then if ltb (length p) (index + 2)
      then err invalid_packet_length
      else (index_at p (index + 1) >>= λ len.
          if len == 0 || not (len % 4 == 0) || ltb (length p) (index + 2 + len)
          then err invalid_extension_length
          else (index_at p index >>= λ next.
              check_loop f p (index + (len + 2)) (extension_type_from_u8 next)))
    else ok ty

-- `check_extensions`. Each round of the loop moves the index, so `length p` rounds are enough.
unfoldable pub check_extensions : List ℕ → Result ParseError (Unit {0})
check_extensions p =
    let first = extension_type_from_u8 (get_or p 1 0) in
    if ltb (length p) header_size
    then err invalid_packet_length
    else if length p == header_size && is_extension first
    then err invalid_extension_length
    else (check_loop (length p) p header_size first >>= λ ty.
        if is_extension ty then err invalid_packet_length else ok tt)

-- `TryFrom<&[u8]> for Packet`
unfoldable pub try_from : List ℕ → Result ParseError Packet
try_from buf = header_try_from buf >>= λ _. check_extensions buf >>= λ _. ok buf

-- The loop of `payload`, to the index behind the last extension.
unfoldable pub payload_loop {ℓ} : {E : Type ℓ} → ℕ → List ℕ → ℕ → ExtensionType → Result E ℕ
payload_loop zero p index ty = hang
payload_loop (suc f) p index ty =
    if ltb index (length p) && is_extension ty
    then (index_at p (index + 1) >>= λ len. index_at p index >>= λ next.
        payload_loop f p (index + (len + 2)) (extension_type_from_u8 next))
    else ok index

-- `Packet::payload`
unfoldable pub payload {ℓ} : {E : Type ℓ} → Packet → Result E (List ℕ)
payload p =
    payload_loop (length p) p header_size (extension_type_from_u8 (get_or p 1 0)) >>= λ index.
    slice p index (length p)

pub record Extension : Type 0 where
  pub ty : ExtensionType
  pub bytes : List ℕ

pub record ExtensionIterator : Type 0 where
  pub raw_bytes : List ℕ
  pub next_extension : ExtensionType
  pub index : ℕ

-- `Packet::extensions` and `ExtensionIterator::new`
unfoldable pub extensions : Packet → ExtensionIterator
extensions p = record {
  raw_bytes = p;
  next_extension = extension_type_from_u8 (get_or p 1 0);
  index = header_size;
}

-- `Iterator::next for ExtensionIterator`, with the iterator that it leaves.
unfoldable pub next {ℓ} :
    {E : Type ℓ} → ExtensionIterator → Result E (Option Extension × ExtensionIterator)
next it =
    if not (is_extension it.next_extension)
    then ok (none, it)
    else if ltb it.index (length it.raw_bytes)
    then (index_at it.raw_bytes (it.index + 1) >>= λ len.
        slice it.raw_bytes (it.index + 2) (it.index + 2 + len) >>= λ bytes.
        index_at it.raw_bytes it.index >>= λ following. ok (
          some (record { ty = it.next_extension; bytes = bytes }),
          record {
            raw_bytes = it.raw_bytes;
            next_extension = extension_type_from_u8 following;
            index = it.index + (len + 2);
          },
        ))
    else ok (none, it)

-- A `for` loop over the iterator: the extensions in order.
unfoldable pub collect {ℓ} : {E : Type ℓ} → ℕ → ExtensionIterator → Result E (List Extension)
collect zero it = hang
collect (suc f) it =
    next it >>= λ r. elim r.0 [ none ↦ ok [] | some x ↦ (collect f r.1 >>= λ xs. ok (x ∷ xs)) ]
