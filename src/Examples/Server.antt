-- ===== src/Examples/Server.antt =====
-- examples/server.rs: the loop of the server, which reads from its stream.
use rfs_utp.Common.{
  ℕ, zero, suc, ◌+◌, ◌-◌, ◌*◌, ◌%◌, ◌≤◌, ◌≡◌, refl, sym, ap, ◌∙◌, arith, List, [], ◌∷◌, ◌++◌,
  length, take, drop, ◌<◌, length-drop, length-take, length-append, take-append, drop-append,
  drop-take, Bool, true, false, ◌==◌, if◌then◌else◌, Option, some, min,
}
use mathlib.Core.Path.{subst}
use rfs_utp.Common.Target.{Target}
use rfs_utp.Packet.Fields.{Packet}
use rfs_utp.Packet.Chain.{Chain, end}
use rfs_utp.Packet.Parse.{IsWellFormed}
use rfs_utp.Socket.State.{SocketAddr, UtpSocketState}
use rfs_utp.Socket.Handle.{map_snd}
use rfs_utp.Socket.Peers.{Net, UtpSocket, chunks}
use rfs_utp.Socket.Queueing.{Carries, Sizes}
use rfs_utp.Socket.Sending.{Sent}
use rfs_utp.Stream.{Poll, ready, pending, poll_read}

-- `[0u8; 25]`
abbrev pub server_buf : ℕ
server_buf = 25

-- How far the loop is: what each `read` put in the buffer, and whether the loop has ended.
pub record Served : Type 0 where
  pub reads : List (List ℕ)
  pub ended : Bool

module _ (read : (ℕ → Poll (List ℕ)) → ℕ → Poll (List ℕ)) where
  -- `while let Ok(len) = server.read(&mut buf).await`, over what the channel answers to each poll.
  unfoldable pub serve : List (Poll (Option Packet)) → Served
  serve [] = record { reads = []; ended = false }
  serve (answer ∷ answers) =
      let rest = serve answers in
      elim (read (poll_read answer) server_buf) [
        | pending ↦ rest
        | ready bytes ↦
            if length bytes == 0
            then record { reads = bytes ∷ []; ended = true }
            else record { reads = bytes ∷ rest.reads; ended = rest.ended }
      ]

-- The channel gives one packet after the other.
abbrev pub given : List Packet → List (Poll (Option Packet))
given [] = []
given (p ∷ ps) = ready (some p) ∷ given ps

-- What stands behind the header in what was read.
abbrev pub data_of : List (List ℕ) → List ℕ
data_of [] = []
data_of (bytes ∷ reads) = drop 20 bytes ++ data_of reads

-- The first five bytes of each chunk.
abbrev pub five_of : List (List ℕ) → List ℕ
five_of [] = []
five_of (chunk ∷ chunks) = take 5 chunk ++ five_of chunks

drop_header : {p : Packet} {chunk : List ℕ} → IsWellFormed p [] chunk → drop 20 p ≡ chunk
drop_header w = go w.chain
  where
    go : {ty : _} {bs chunk : List ℕ} → Chain ty bs [] chunk → bs ≡ chunk
    go (end bs h) = refl

chunks-cons :
    (f : ℕ) (buf : List ℕ)
    → 0 < length buf
    → chunks (suc f) buf ≡ take 6 buf ∷ chunks f (drop 6 buf)
unfolding chunks
chunks-cons f [] h = absurd (omega arith)
chunks-cons f (x ∷ buf) h = refl

-- A packet of a full chunk.
record FullChunk (p : Packet) (chunk rest buf : List ℕ) : Type 0 where
  sized : length p ≡ 26
  first : take 6 buf ≡ chunk
  others : drop 6 buf ≡ rest
  shorter : length rest + 6 ≡ length buf

full_chunk :
    (p : Packet) (chunk rest buf : List ℕ)
    → IsWellFormed p [] chunk
    → buf ≡ chunk ++ rest
    → length p ≡ 20 + min 6 (length buf)
    → 0 < length buf
    → length buf % 6 ≡ 0
    → FullChunk p chunk rest buf
full_chunk p chunk rest buf w split l some_bytes whole =
    let six : length chunk ≡ 6 = omega (arith, ap length (drop_header w), length-drop 20 p) in
    record {
      sized = omega arith;
      first = ap (take 6) split ∙ take-append 6 chunk rest six;
      others = ap (drop 6) split ∙ drop-append 6 chunk rest six;
      shorter = omega (arith, ap length split, length-append chunk rest);
    }

module _ (read : (ℕ → Poll (List ℕ)) → ℕ → Poll (List ℕ))
    (reads : (f : ℕ → Poll (List ℕ)) (k : ℕ) → read f k ≡ f k) where
  serve_packet :
      (p : Packet) (answers : List (Poll (Option Packet)))
      → length p ≡ 26
      → let rest = serve read answers in
        serve read (ready (some p) ∷ answers)
        ≡ record { reads = take 25 p ∷ rest.reads; ended = rest.ended }
  unfolding serve poll_read
  serve_packet p answers h =
      let short : min 25 (length p) ≡ 25 = omega arith in
      let some_bytes : (length (take 25 p) == 0) ≡ false = ground (arith, length-take 25 p) in
      rw (reads (poll_read (ready (some p))) 25, serve) (rw (short, serve) (rw some_bytes refl))

  served :
      (t : Target) (a : ℕ) (m : List (ℕ × Packet)) (f : ℕ) (buf : List ℕ)
      → Carries t a m buf
      → Sizes m (length buf)
      → length buf % 6 ≡ 0
      → length buf ≤ f
      → let r = serve read (given (map_snd m)) in
        (r.ended ≡ false)
        × (data_of r.reads ≡ five_of (chunks f buf))
        × (6 * length (data_of r.reads) ≡ 5 * length buf)
  unfolding serve chunks
  served t a [] f buf c s whole fuel = rw c (refl, refl, refl)
  served t a ((k, p) ∷ m) zero buf c s whole fuel = absurd (omega (arith, s.0))
  served t a ((k, p) ∷ m) (suc f) buf (same, number, ty, (chunk, rest, w, l, split, c))
        (some_bytes, size, s) whole fuel =
      let full = full_chunk p chunk rest buf w split size some_bytes whole in
      let left : length buf - 6 ≡ length rest = omega (arith, full.shorter) in
      let (open_, kept, count) =
        served t (a + 1) m f rest c (subst (Sizes m) left s) (omega (arith, full.shorter))
          (omega (arith, full.shorter)) in
      let five : drop 20 (take 25 p) ≡ take 5 chunk =
        drop-take 20 5 25 p (omega arith) ∙ ap (take 5) (drop_header w) in
      let step = serve_packet p (given (map_snd m)) full.sized in
      let rest_reads = (serve read (given (map_snd m))).reads in
      let body : drop 20 (take 25 p) ++ data_of rest_reads
          ≡ take 5 chunk ++ five_of (chunks f rest) =
        λ i. five i ++ kept i in
      let cut : five_of (chunks (suc f) buf) ≡ take 5 chunk ++ five_of (chunks f rest) =
        ap five_of (chunks-cons f buf some_bytes)
        ∙ (λ i. take 5 (full.first i) ++ five_of (chunks f (full.others i))) in
      let sizes : length (drop 20 (take 25 p) ++ data_of rest_reads)
          ≡ 5 + length (data_of rest_reads) =
        omega (
          arith,
          length-append (drop 20 (take 25 p)) (data_of rest_reads),
          length-drop 20 (take 25 p),
          length-take 25 p,
          full.sized,
        ) in
      (
        ap (λ r. r.ended) step ∙ open_,
        ap (λ r. data_of r.reads) step ∙ body ∙ sym cut,
        omega (arith, ap (λ r. length (data_of r.reads)) step, sizes, count, full.shorter),
      )

-- The example server does not read all that was sent to it: its buffer of 25 bytes is one short of
-- the 26 of a full packet. Where a `read` of some bytes is a poll of the stream for as many, and the
-- channel gives the packets that `send_packets` made of a buffer of whole chunks, the loop does not
-- end, and behind the headers it has read the first five bytes of each chunk, one chunk after the
-- other: five sixths of the buffer.
pub server_drops_sixth :
    (read : (ℕ → Poll (List ℕ)) → ℕ → Poll (List ℕ)) (n : Net) (s : UtpSocket) (addr : SocketAddr)
    (peer : UtpSocketState) (buf : List ℕ)
    → ((f : ℕ → Poll (List ℕ)) (k : ℕ) → read f k ≡ f k)
    → (sent : Sent n s addr peer buf) → length buf % 6 ≡ 0
    → let r = serve read (given (map_snd sent.packets)) in
      (r.ended ≡ false)
      × (data_of r.reads ≡ five_of (chunks (length buf) buf))
      × (6 * length (data_of r.reads) ≡ 5 * length buf)
server_drops_sixth read n s addr peer buf reads sent whole =
    served read reads n.world.target peer.seq_nr sent.packets (length buf) buf sent.carries
      sent.sizes whole (omega arith)
