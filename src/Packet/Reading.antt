-- ===== src/Packet/Reading.antt =====
-- src/packet.rs: `payload` and the iterator over the extensions on a well formed packet.
use rfs_utp.Common.{
  take_all, ℕ, zero, suc, ◌+◌, ◌-◌, ◌<◌, ◌≤◌, ◌≡◌, refl, ap, ◌∙◌, arith, List, ◌++◌, length, take,
  drop, true, false, none, some, ok, length-drop, length-append, take-append,
}
use rfs_utp.Packet.Types.{ExtensionType, is_extension, extension_type_from_u8}
use rfs_utp.Packet.Header.{header_size}
use rfs_utp.Packet.Fields.{Packet}
use rfs_utp.Packet.Extensions.{
  Extension, ExtensionIterator, payload_loop, payload, slice, extensions, next, collect,
}
use rfs_utp.Packet.Chain.{Chain, end, link, LinkAt, link_at}
use rfs_utp.Packet.Parse.{IsWellFormed}

payload_loop-link :
    {E : Type 0} (f : ℕ) (p : List ℕ) (i following : ℕ) (bytes rest : List ℕ) (ty : ExtensionType)
    → LinkAt p i following bytes rest
    → is_extension ty ≡ true
    → payload_loop {E = E} (suc f) p i ty
      ≡ payload_loop f p (i + (length bytes + 2)) (extension_type_from_u8 following)
unfolding payload_loop
payload_loop-link f p i following bytes rest ty l x = ground arith

payload_loop-end :
    {E : Type 0} (f : ℕ) (p : List ℕ) (i : ℕ) (ty : ExtensionType)
    → is_extension ty ≡ false
    → payload_loop {E = E} (suc f) p i ty ≡ ok i
unfolding payload_loop
payload_loop-end f p i ty h = ground arith

-- The loop ends at the payload.
payload_loop-Chain :
    {E : Type 0} (f : ℕ) (p : List ℕ) (i : ℕ) {ty : ExtensionType} {bs : List ℕ}
    {xs : List Extension} {pl : List ℕ}
    → Chain ty bs xs pl
    → drop i p ≡ bs
    → i ≤ length p
    → length bs < f
    → (k : ℕ) × (payload_loop {E = E} f p i ty ≡ ok k) × (k ≤ length p) × (drop k p ≡ pl)
payload_loop-Chain zero p i c e s h = elim h [ ]
payload_loop-Chain (suc f) p i {ty} (end bs x) e s h = (i, payload_loop-end f p i ty x, s, e)
payload_loop-Chain (suc f) p i {ty} (link following bytes rest x e' pos mul c) e s h =
    let l = link_at p i following bytes rest (e ∙ e') in
    let (k, q, k≤, d) =
      payload_loop-Chain f p (i + (length bytes + 2)) c l.continues l.fits
        (omega (arith, ap length e', length-append bytes rest)) in
    (k, payload_loop-link f p i following bytes rest ty l x ∙ q, k≤, d)

slice_to_end :
    {E : Type 0} (p : List ℕ) (k : ℕ) → k ≤ length p → slice {E = E} p k (length p) ≡ ok (drop k p)
unfolding slice
slice_to_end p k h =
    ground (arith, take_all (length p - k) (drop k p) (omega (arith, length-drop k p)))

pub slice_front :
    {E : Type 0} (p : List ℕ) (i : ℕ) (bytes rest : List ℕ)
    → i + (length bytes + 2) ≤ length p
    → drop (i + 2) p ≡ bytes ++ rest
    → slice {E = E} p (i + 2) (i + 2 + length bytes) ≡ ok bytes
unfolding slice
slice_front p i bytes rest h d =
    let n : i + 2 + length bytes - (i + 2) ≡ length bytes = omega arith in
    let t : take (i + 2 + length bytes - (i + 2)) (drop (i + 2) p) ≡ bytes =
      rw (n, d) (take-append (length bytes) bytes rest refl) in
    ground (arith, t)

-- Where an extension stands the iterator yields it and moves behind it.
next-link :
    {E : Type 0} (p : List ℕ) (i following : ℕ) (bytes rest : List ℕ) (ty : ExtensionType)
    → LinkAt p i following bytes rest
    → is_extension ty ≡ true
    → next {E = E} (record { raw_bytes = p; next_extension = ty; index = i })
      ≡ ok (
        some (record { ty = ty; bytes = bytes }),
        record {
          raw_bytes = p;
          next_extension = extension_type_from_u8 following;
          index = i + (length bytes + 2);
        },
      )
unfolding next
next-link {E} p i following bytes rest ty l x =
    ground (arith, slice_front {E = E} p i bytes rest l.fits l.starts)

next-end :
    {E : Type 0} (it : ExtensionIterator)
    → is_extension it.next_extension ≡ false
    → next {E = E} it ≡ ok (none, it)
unfolding next
next-end it h = ground arith

collect-Chain :
    {E : Type 0} (f : ℕ) (p : List ℕ) (i : ℕ) {ty : ExtensionType} {bs : List ℕ}
    {xs : List Extension} {pl : List ℕ}
    → Chain ty bs xs pl
    → drop i p ≡ bs
    → length bs < f
    → collect {E = E} f (record { raw_bytes = p; next_extension = ty; index = i }) ≡ ok xs
unfolding collect
collect-Chain zero p i c e h = elim h [ ]
collect-Chain {E} (suc f) p i {ty} (end bs x) e h =
    rw (next-end {E = E} (record { raw_bytes = p; next_extension = ty; index = i }) x)
collect-Chain {E} (suc f) p i {ty} (link following bytes rest x e' pos mul c) e h =
    let l = link_at p i following bytes rest (e ∙ e') in
    rw (next-link {E = E} p i following bytes rest ty l x) (
      rw (
        collect-Chain {E = E} f p (i + (length bytes + 2)) c l.continues
          (omega (arith, ap length e', length-append bytes rest))))

-- On a well formed packet `payload` gives the bytes behind the extensions, and the iterator
-- yields the extensions in order and then ends; neither panics, and `len p` rounds are enough.
pub reads_chain :
    {E : Type 0} (p : Packet) (xs : List Extension) (pl : List ℕ)
    → IsWellFormed p xs pl
    → (payload {E = E} p ≡ ok pl) × (collect {E = E} (length p) (extensions p) ≡ ok xs)
unfolding payload extensions
reads_chain {E} p xs pl w =
    let (k, q, k≤, d) =
      payload_loop-Chain {E = E} (length p) p header_size w.chain refl w.sized
        (omega (arith, length-drop 20 p, w.sized)) in
    (
      rw q (slice_to_end p k k≤ ∙ ap ok d),
      collect-Chain (length p) p header_size w.chain refl
          (omega (arith, length-drop 20 p, w.sized)),
    )
