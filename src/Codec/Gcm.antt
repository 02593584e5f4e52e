-- ===== src/Codec/Gcm.antt =====
-- codec/gcm.go: the nonces of a session, and the codecs that seal and open messages. The cipher of
-- crypto/cipher is a parameter.
use aw.Base.{
  ℕ, ◌+◌, ◌-◌, ◌%◌, ◌^◌, ◌⊎◌, inl, inr, Bool, true, false, none, some, List, [], ◌∷◌, ◌++◌, ltb,
  if◌then◌else◌, ◌==◌, nat_Eq, bytes_Eq, length, take, drop,
}
use aw.Base.BigEndian.{put_uint}
use aw.Dht.Distance.{Signatory}
use aw.Policy.{codes}
use aw.Codec.{Encoder, Decoder}

-- The top 32 and the bottom 64 bits of a number of 96 bits.
pub record GcmNonce : Type 0 where
  pub top : ℕ
  pub bottom : ℕ
  pub count_down : Bool

-- What the method's own copy of the nonce is at its end.
unfoldable pub succ : GcmNonce → GcmNonce
succ nonce =
    let bottom = (nonce.bottom + 1) % 2 ^ 64 in
    if bottom == 0
    then record nonce { bottom = bottom; top = (nonce.top + 1) % 2 ^ 32 }
    else record nonce { bottom = bottom }

unfoldable pub pred : GcmNonce → GcmNonce
pred nonce =
    let bottom = (nonce.bottom + (2 ^ 64 - 1)) % 2 ^ 64 in
    if bottom == 2 ^ 64 - 1
    then record nonce { bottom = bottom; top = (nonce.top + (2 ^ 32 - 1)) % 2 ^ 32 }
    else record nonce { bottom = bottom }

-- A call of a method with a value receiver: the method gets a copy, and the caller's nonce stays.
unfoldable pub call : (GcmNonce → GcmNonce) → GcmNonce → GcmNonce
call method nonce = nonce

unfoldable pub next_copy : GcmNonce → GcmNonce
unfolding call
next_copy nonce = if nonce.count_down then call pred nonce else call succ nonce

-- `nonce.next()` at the caller.
unfoldable pub next : GcmNonce → GcmNonce
unfolding call
next nonce = call next_copy nonce

-- `binary.BigEndian` of both parts into `[12]byte`.
unfoldable pub nonce_buf : GcmNonce → List ℕ
nonce_buf nonce = put_uint 4 nonce.top ++ put_uint 8 nonce.bottom

-- An AES-GCM cipher for a key, and `bytes.Compare(self[:], remote[:]) < 0`.
pub record Aead : Type 1 where
  pub Cipher : Type 0
  pub new_cipher : List ℕ → Cipher
  pub seal : Cipher → List ℕ → List ℕ → List ℕ
  pub unseal : Cipher → List ℕ → List ℕ → List ℕ ⊎ List ℕ

abbrev pub before_bytes : List ℕ → List ℕ → Bool
before_bytes [] [] = false
before_bytes [] (y ∷ ys) = true
before_bytes (x ∷ xs) [] = false
before_bytes (x ∷ xs) (y ∷ ys) =
    if ltb x y then true else (if ltb y x then false else before_bytes xs ys)

module _ (aead : Aead) where
  pub record GcmSession : Type 0 where
    pub gcm : aead.Cipher
    pub read_nonce : GcmNonce
    pub write_nonce : GcmNonce

  -- A key of 32 bytes is one that neither constructor refuses.
  unfoldable pub new_gcm_session : List ℕ → Signatory → Signatory → GcmSession
  new_gcm_session key self remote =
      let up : GcmNonce = record { top = 0; bottom = 0; count_down = false } in
      let down : GcmNonce = record { top = 2 ^ 32 - 1; bottom = 2 ^ 64 - 1; count_down = true } in
      let gcm = aead.new_cipher key in
      if before_bytes self.bytes remote.bytes
      then record { gcm = gcm; read_nonce = up; write_nonce = down }
      else record { gcm = gcm; read_nonce = down; write_nonce = up }

  module _ {W : Type 0} where
    unfoldable pub gcm_encoder : Encoder W → Encoder (GcmSession × W)
    gcm_encoder enc (session, w) buf =
        let nonce = nonce_buf session.write_nonce in
        let session' : GcmSession = record session { write_nonce = next session.write_nonce } in
        let encoded = aead.seal session.gcm nonce buf in
        let o = enc w encoded in
        elim o.error [
          | some e ↦ record {
            n = 0;
            error = some (codes "encoding sealed data: " ++ e);
            writer = (session', o.writer);
          }
          | none ↦ record { n = length buf; error = none; writer = (session', o.writer) }
        ]

  module _ {R : Type 0} where
    -- The buffer is extended to hold the tag of 16 bytes; `print` is `%v` of an integer.
    unfoldable pub gcm_decoder : (ℕ → List ℕ) → Decoder R → Decoder (GcmSession × R)
    gcm_decoder print dec (session, r) size capacity =
        let extended_size = size + 16 in
        let o = dec r extended_size capacity in
        let nonce = nonce_buf session.read_nonce in
        let session' : GcmSession = record session { read_nonce = next session.read_nonce } in
        let opened = aead.unseal session.gcm nonce (take o.n o.stored) in
        if ltb capacity extended_size
        then record {
          n = 0;
          error = some (
              codes "decoding data: buffer too small, expected buffer capacity "
              ++ (print extended_size ++ (codes ", got buffer capacity " ++ print capacity)));
          stored = [];
          reader = (session, r);
        }
        else elim o.error [
          | some e ↦ record {
            n = o.n;
            error = some (codes "decoding data: " ++ e);
            stored = o.stored;
            reader = (session, o.reader);
          }
          | none ↦ elim opened [
            | inl e ↦ record {
              n = 0;
              error = some (codes "opening sealed data: " ++ e);
              stored = o.stored;
              reader = (session', o.reader);
            }
            | inr decrypted ↦ record {
              n = length decrypted;
              error = none;
              stored = decrypted ++ drop (length decrypted) o.stored;
              reader = (session', o.reader);
            }
          ]
        ]
