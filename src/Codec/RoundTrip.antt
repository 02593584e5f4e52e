-- ===== src/Codec/RoundTrip.antt =====
-- Length prefixes over plain codecs, of codec/length_prefix.go and codec/plain.go.
use aw.Base.{
  ℕ, ◌%◌, ◌^◌, ◌≤◌, ◌<◌, ◌≡◌, refl, sym, ap, ◌∙◌, true, false, none, some, List, ◌++◌, arith, ltb,
  nat_Eq, bytes_Eq, length, take, append_assoc, replicate, subst, take-length,
}
use aw.Base.BigEndian.{put_uint, length-put_uint, uint_from, uint_from-put_uint}
use aw.Codec.{
  Io, plain_encoder, plain_decoder, length_prefix_encoder, length_prefix_decoder, too_long,
}

module _ (io : Io) where
  -- The connection is up: each write is complete, at the end of what is on its way.
  abbrev pub Writes : Type 0
  Writes =
      (w : io.Conn) (xs : List ℕ)
      → ((io.write w xs).error ≡ none)
        × ((io.write w xs).n ≡ length xs)
        × (io.pending (io.write w xs).writer ≡ io.pending w ++ xs)

  -- A full read takes from the front of it, where there is enough.
  abbrev pub Reads : Type 0
  Reads =
      (r : io.Conn) (xs ys : List ℕ)
      → io.pending r ≡ xs ++ ys
      → ((io.read_full r (length xs)).error ≡ none)
        × ((io.read_full r (length xs)).n ≡ length xs)
        × ((io.read_full r (length xs)).stored ≡ xs)
        × (io.pending (io.read_full r (length xs)).reader ≡ ys)

  -- A message on the wire.
  abbrev pub frame : List ℕ → List ℕ
  frame buf = put_uint 4 (length buf) ++ buf

  -- Writing a message puts its frame at the end of what is on its way, and counts the message's bytes.
  pub length_prefix_encoder-frame :
      Writes
      → (w : io.Conn) (buf : List ℕ) → length buf < 2 ^ 32
      → let o = length_prefix_encoder (plain_encoder io) (plain_encoder io) w buf in
        (o.error ≡ none) × (o.n ≡ length buf) × (io.pending o.writer ≡ io.pending w ++ frame buf)
  unfolding length_prefix_encoder plain_encoder
  length_prefix_encoder-frame ws w buf h =
      let (e, n, q) = ws w (put_uint 4 (length buf % 2 ^ 32)) in
      let (e', n', q') = ws (io.write w (put_uint 4 (length buf % 2 ^ 32))).writer buf in
      let m : length buf % 2 ^ 32 ≡ length buf = omega arith in
      rw (e, length_prefix_encoder)
        (rw (e', length_prefix_encoder)
          (
            refl,
            n',
            q'
                ∙ ap (λ s. s ++ buf) q
                ∙ append_assoc (io.pending w) (put_uint 4 (length buf % 2 ^ 32)) buf
                ∙ ap (λ l. io.pending w ++ (put_uint 4 l ++ buf)) m,
          ))

  -- What the read of the prefix gives, where a frame is next.
  prefix_read :
      Reads
      → (r : io.Conn) (buf rest : List ℕ) → length buf < 2 ^ 32
      → io.pending r ≡ frame buf ++ rest
      → ((io.read_full r 4).error ≡ none)
        × (uint_from 0 (take 4 ((io.read_full r 4).stored ++ replicate 4 0)) ≡ length buf)
        × (io.pending (io.read_full r 4).reader ≡ buf ++ rest)
  prefix_read rs r buf rest h e =
      let xs = put_uint 4 (length buf) in
      let l : length xs ≡ 4 = length-put_uint 4 (length buf) in
      let (e', n, s, q) =
        subst
          (λ k.
            ((io.read_full r k).error ≡ none)
            × ((io.read_full r k).n ≡ length xs)
            × ((io.read_full r k).stored ≡ xs)
            × (io.pending (io.read_full r k).reader ≡ buf ++ rest))
          l (rs r xs (buf ++ rest) (e ∙ append_assoc xs buf rest)) in
      (
        e',
        ap (λ s'. uint_from 0 (take 4 (s' ++ replicate 4 0))) s
            ∙ ap (λ k. uint_from 0 (take k (xs ++ replicate 4 0))) (sym l)
            ∙ ap (uint_from 0) (take-length xs (replicate 4 0))
            ∙ uint_from-put_uint 4 (length buf) (omega arith),
        q,
      )

  -- Reading from a stream that starts with a frame gives that message and leaves the rest, if the
  -- buffer is long enough for it and shorter than 2^32 bytes.
  pub length_prefix_decoder-frame :
      Reads
      → (print : ℕ → List ℕ) (r : io.Conn) (buf rest : List ℕ) (size capacity : ℕ) → size < 2 ^ 32
      → length buf ≤ size
      → io.pending r ≡ frame buf ++ rest
      → let o = length_prefix_decoder print (plain_decoder io) (plain_decoder io) r size capacity in
        (o.error ≡ none) × (o.n ≡ length buf) × (o.stored ≡ buf) × (io.pending o.reader ≡ rest)
  unfolding length_prefix_decoder plain_decoder
  length_prefix_decoder-frame rs print r buf rest size capacity h k e =
      let (e1, p, q) = prefix_read rs r buf rest (omega arith) e in
      let prefix = uint_from 0 (take 4 ((io.read_full r 4).stored ++ replicate 4 0)) in
      let (e2, n, s, q') =
        subst
          (λ k.
            ((io.read_full (io.read_full r 4).reader k).error ≡ none)
            × ((io.read_full (io.read_full r 4).reader k).n ≡ length buf)
            × ((io.read_full (io.read_full r 4).reader k).stored ≡ buf)
            × (io.pending (io.read_full (io.read_full r 4).reader k).reader ≡ rest))
          (sym p) (rs (io.read_full r 4).reader buf rest q) in
      let fits : ltb (size % 2 ^ 32) prefix ≡ false = rw p (ground arith) in
      rw (e1, length_prefix_decoder)
        (rw (fits, length_prefix_decoder) (rw (e2, length_prefix_decoder) (e2, n, s, q')))

  -- A frame that is longer than the buffer is refused, and its body stays on its way: the next read
  -- takes it for a prefix.
  pub length_prefix_decoder-too_long :
      Reads
      → (print : ℕ → List ℕ) (r : io.Conn) (buf rest : List ℕ) (size capacity : ℕ)
      → length buf < 2 ^ 32
      → size < length buf
      → io.pending r ≡ frame buf ++ rest
      → let o = length_prefix_decoder print (plain_decoder io) (plain_decoder io) r size capacity in
        (o.error ≡ some (too_long print size (length buf))) × (io.pending o.reader ≡ buf ++ rest)
  unfolding length_prefix_decoder plain_decoder
  length_prefix_decoder-too_long rs print r buf rest size capacity h k e =
      let (e1, p, q) = prefix_read rs r buf rest (omega arith) e in
      let fits : ltb (size % 2 ^ 32) (length buf) ≡ true = ground arith in
      rw (e1, length_prefix_decoder)
        (rw (p, length_prefix_decoder) (rw (fits, length_prefix_decoder) (refl, q)))
