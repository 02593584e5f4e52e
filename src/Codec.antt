-- ===== src/Codec.antt =====
-- The package codec: codec/codec.go, codec/plain.go, codec/length_prefix.go. The writer and the reader
-- are states that a call passes on. An error is the text that it prints.
pub mod Gcm
pub mod RoundTrip
pub mod Nonces
mod Examples
use aw.Base.{
  ℕ, zero, suc, ◌+◌, ◌-◌, ◌*◌, ◌/◌, ◌%◌, ◌^◌, ◌≤◌, ◌<◌, ◌≡◌, refl, sym, ap, ◌∙◌, ◌≢◌, ◌↔◌, ◌⊎◌, inl,
  inr, Bool, true, false, not, ◌&&◌, ◌||◌, Option, none, some, List, [], ◌∷◌, ◌++◌, arith, ltb, leb,
  if◌then◌else◌, Bool-cases, Option-cases, Eq, ◌==◌, nat_Eq, bytes_Eq, length, take, drop,
  get_elem?, All, beq_refl, beq-eq, replicate,
}
use aw.Base.BigEndian.{put_uint, uint_from}
use aw.Policy.{codes}

-- What an encoder returns, and the writer that it leaves.
pub record Written (W : Type 0) : Type 0 where
  pub n : ℕ
  pub error : Option (List ℕ)
  pub writer : W

-- What a decoder returns, what it stored at the front of the buffer, and the reader that it leaves.
pub record Read (R : Type 0) : Type 0 where
  pub n : ℕ
  pub error : Option (List ℕ)
  pub stored : List ℕ
  pub reader : R

abbrev pub Encoder : Type 0 → Type 0
Encoder W = W → List ℕ → Written W

-- The buffer of a decoder is given by its length and its capacity.
abbrev pub Decoder : Type 0 → Type 0
Decoder R = R → ℕ → ℕ → Read R

-- What the codecs use of Go's io: `Write` of a writer and `io.ReadFull` of a reader. The two sides of a
-- connection are one state, the bytes on their way are `pending`.
pub record Io : Type 1 where
  pub Conn : Type 0
  pub write : Conn → List ℕ → Written Conn
  pub read_full : Conn → ℕ → Read Conn
  pub pending : Conn → List ℕ

module _ (io : Io) where
  unfoldable pub plain_encoder : Encoder io.Conn
  plain_encoder w buf = io.write w buf

  unfoldable pub plain_decoder : Decoder io.Conn
  plain_decoder r size capacity = io.read_full r size

module _ {W : Type 0} where
  -- `PutUint32(prefixBytes[:], uint32(len(buf)))`.
  unfoldable pub length_prefix_encoder : Encoder W → Encoder W → Encoder W
  length_prefix_encoder prefix_enc body_enc w buf =
      let p = prefix_enc w (put_uint 4 (length buf % 2 ^ 32)) in
      let b = body_enc p.writer buf in
      elim p.error [
        | some e ↦ record {
          n = 0;
          error = some (codes "encoding data length: " ++ e);
          writer = p.writer;
        }
        | none ↦ elim b.error [
          | some e ↦ record {
            n = b.n;
            error = some (codes "encoding data: " ++ e);
            writer = b.writer;
          }
          | none ↦ record { n = b.n; error = none; writer = b.writer }
        ]
      ]

-- The text in which `LengthPrefixDecoder` refuses a body, for its two numbers as they print.
abbrev pub too_long : (ℕ → List ℕ) → ℕ → ℕ → List ℕ
too_long print size prefix =
    codes "decoding data length: expected " ++ (print size ++ (codes ", got " ++ print prefix))

module _ {R : Type 0} where
  -- The prefix is read into an array of 4 bytes, which are 0 before. `print` is `%v` of an integer.
  unfoldable pub length_prefix_decoder : (ℕ → List ℕ) → Decoder R → Decoder R → Decoder R
  length_prefix_decoder print prefix_dec body_dec r size capacity =
      let p = prefix_dec r 4 4 in
      let prefix = uint_from 0 (take 4 (p.stored ++ replicate 4 0)) in
      let b = body_dec p.reader prefix capacity in
      elim p.error [
        | some e ↦ record {
          n = 0;
          error = some (codes "decoding data length: " ++ e);
          stored = [];
          reader = p.reader;
        }
        | none ↦
            if ltb (size % 2 ^ 32) prefix
            then record {
              n = 0;
              error = some (too_long print size prefix);
              stored = [];
              reader = p.reader;
            }
            else elim b.error [
              | some e ↦ record {
                n = b.n;
                error = some (codes "decoding data: " ++ e);
                stored = b.stored;
                reader = b.reader;
              }
              | none ↦ b
            ]
      ]
