-- ===== src/Handshake/Ecies.antt =====
-- `ECIES` of handshake/ecies.go. The goroutine that writes and the one that reads meet in the values
-- that they exchange: here each is a function of them. The ciphers and the elliptic curve are
-- parameters; a connection is the bytes that will arrive before its end, and the errors of its writes.
pub mod Padding
pub mod Blocks
pub mod Sides
pub mod Agreement
mod Examples
use aw.Base.{
  ℕ, zero, suc, ◌+◌, ◌-◌, ◌*◌, ◌/◌, ◌%◌, ◌^◌, ◌≤◌, ◌<◌, ◌≡◌, refl, sym, ap, ◌∙◌, ◌≢◌, ◌↔◌, ◌⊎◌, inl,
  inr, Bool, true, false, not, ◌&&◌, ◌||◌, Option, none, some, List, [], ◌∷◌, ◌++◌, arith, ltb, leb,
  if◌then◌else◌, Bool-cases, Option-cases, Eq, ◌==◌, nat_Eq, bytes_Eq, length, take, drop,
  get_elem?, All, beq_refl, beq-eq, bit_xor,
}
use aw.Base.Arrays.{Bytes}
use aw.Base.BigEndian.{uint_from}
use aw.Codec.Gcm.{Aead, GcmSession, new_gcm_session}
use aw.Dht.Distance.{Signatory}
use aw.Handshake.Ecies.Padding.{padded_to32}
use aw.Policy.{codes}

-- A public key is its coordinates.
abbrev pub PubKey : Type 0
PubKey = ℕ × ℕ

-- What the handshake uses of go-ethereum's ecies and of id; an error comes first. `Encrypt` reads its
-- randomness from an argument.
pub record Ecies : Type 1 where
  pub PrivKey : Type 0
  pub pub_key : PrivKey → PubKey
  pub encrypt : List ℕ → PubKey → List ℕ → List ℕ ⊎ List ℕ
  pub decrypt : PrivKey → List ℕ → List ℕ ⊎ List ℕ
  pub new_signatory : PubKey → Signatory

abbrev pub size_of_secret_key : ℕ
size_of_secret_key = 32

abbrev pub size_of_encrypted_secret_key : ℕ
size_of_encrypted_secret_key = 145

-- `io.ReadFull`: an error, or the bytes and those after them.
unfoldable pub read_full : List ℕ → ℕ → List ℕ ⊎ (List ℕ × List ℕ)
read_full incoming n =
    if ltb (length incoming) n
    then inl (if length incoming == 0 then codes "EOF" else codes "unexpected EOF")
    else inr (take n incoming, drop n incoming)

unfoldable pub session_key : List ℕ → List ℕ → List ℕ
session_key [] remote = []
session_key (x ∷ xs) [] = []
session_key (x ∷ xs) (y ∷ ys) = bit_xor x y ∷ session_key xs ys

-- What the writing goroutine has written when it ends, and its error.
pub record Writing : Type 0 where
  pub written : List ℕ
  pub error : Option (List ℕ)

-- What the reading goroutine passes to the writing one, and its own result.
pub record Reading : Type 0 where
  pub remote : Option PubKey
  pub remote_secret : Option (List ℕ)
  pub result : List ℕ ⊎ (PubKey × List ℕ)

module _ (e : Ecies) where
  -- The local side: its key, `rand.Read` of the secret key, the randomness of the two encryptions, and
  -- the errors of the four writes.
  pub record Local : Type 0 where
    pub priv_key : e.PrivKey
    pub rand_error : Option (List ℕ)
    pub secret_key : Bytes 32
    pub first_random : List ℕ
    pub second_random : List ℕ
    pub x_error : Option (List ℕ)
    pub y_error : Option (List ℕ)
    pub secret_error : Option (List ℕ)
    pub check_error : Option (List ℕ)

  abbrev pub try_write : List ℕ → List ℕ → Option (List ℕ) → Writing → Writing
  try_write before text none next = next
  try_write before text (some err) next = record { written = before; error = some (text ++ err) }

  unfoldable pub write_check : Local → List ℕ → List ℕ ⊎ List ℕ → Writing
  write_check l before (inl err) = record {
    written = before;
    error = some (codes "encrypt remote secret key: " ++ err);
  }
  write_check l before (inr block) =
      try_write before (codes "write remote secret key: ") l.check_error
        (record { written = before ++ block; error = none })

  unfoldable pub return_secret : Local → List ℕ → PubKey → Option (List ℕ) → Writing
  return_secret l before remote none = record { written = before; error = none }
  return_secret l before remote (some secret) =
      write_check l before (e.encrypt l.second_random remote secret)

  unfoldable pub write_secret :
      Local → List ℕ → PubKey → Option (List ℕ) → List ℕ ⊎ List ℕ → Writing
  write_secret l before remote secret (inl err) = record {
    written = before;
    error = some (codes "encrypt local secret key: " ++ err);
  }
  write_secret l before remote secret (inr block) =
      try_write before (codes "write local secret key: ") l.secret_error
        (return_secret l (before ++ block) remote secret)

  unfoldable pub send_secret : Local → List ℕ → Option PubKey → Option (List ℕ) → Writing
  send_secret l before none secret = record { written = before; error = none }
  send_secret l before (some remote) secret =
      write_secret l before remote secret (e.encrypt l.first_random remote l.secret_key.bytes)

  -- `x` and `y` are the padded coordinates.
  unfoldable pub writer : Local → List ℕ → List ℕ → Reading → Writing
  writer l x y r = try_write [] (codes "write local pubkey x: ") l.x_error (
      try_write x (codes "write local pubkey y: ") l.y_error
        (send_secret l (x ++ y) r.remote r.remote_secret))

  unfoldable pub after_check : Local → PubKey → List ℕ → List ℕ ⊎ List ℕ → Reading
  after_check l remote secret (inl err) = record {
    remote = some remote;
    remote_secret = some secret;
    result = inl (codes "decrypt local secret key: " ++ err);
  }
  after_check l remote secret (inr check) = record {
    remote = some remote;
    remote_secret = some secret;
    result =
        if l.secret_key.bytes == check
        then inr (remote, secret)
        else inl (codes "check local secret key");
  }

  unfoldable pub check_block : Local → PubKey → List ℕ → List ℕ ⊎ (List ℕ × List ℕ) → Reading
  check_block l remote secret (inl err) = record {
    remote = some remote;
    remote_secret = some secret;
    result = inl (codes "read local secret key: " ++ err);
  }
  check_block l remote secret (inr (block, rest)) =
      after_check l remote secret (e.decrypt l.priv_key block)

  unfoldable pub after_secret : Local → PubKey → List ℕ → List ℕ ⊎ List ℕ → Reading
  after_secret l remote rest (inl err) = record {
    remote = some remote;
    remote_secret = none;
    result = inl (codes "decrypt remote secret key: " ++ err);
  }
  after_secret l remote rest (inr secret) =
      check_block l remote secret (read_full rest size_of_encrypted_secret_key)

  unfoldable pub secret_block : Local → PubKey → List ℕ ⊎ (List ℕ × List ℕ) → Reading
  secret_block l remote (inl err) = record {
    remote = some remote;
    remote_secret = none;
    result = inl (codes "read remote secret key: " ++ err);
  }
  secret_block l remote (inr (block, rest)) =
      after_secret l remote rest (e.decrypt l.priv_key block)

  unfoldable pub key_block : Local → List ℕ ⊎ (List ℕ × List ℕ) → Reading
  key_block l (inl err) = record {
    remote = none;
    remote_secret = none;
    result = inl (codes "read remote pubkey: " ++ err);
  }
  key_block l (inr (block, rest)) =
      secret_block l (uint_from 0 (take 32 block), uint_from 0 (drop 32 block))
        (read_full rest size_of_encrypted_secret_key)

  unfoldable pub reader : Local → List ℕ → Reading
  reader l incoming = key_block l (read_full incoming 64)

  module _ (aead : Aead) where
    -- Go's panic, an error, or the session of the codecs and the identity of the remote peer.
    pub data EciesResult : Type 0 where
      panics : EciesResult
      fails : List ℕ → EciesResult
      succeeds : GcmSession aead → Signatory → EciesResult

    -- The error of the writing goroutine counts once the reading one has ended without any. A secret
    -- key that is too short panics.
    unfoldable pub conclude : Local → Option (List ℕ) → List ℕ ⊎ (PubKey × List ℕ) → EciesResult
    conclude l write_error (inl err) = fails err
    conclude l (some err) (inr (remote, secret)) = fails err
    conclude l none (inr (remote, secret)) =
        if ltb (length secret) size_of_secret_key
        then panics
        else succeeds
            (new_gcm_session aead (session_key l.secret_key.bytes secret)
              (e.new_signatory (e.pub_key l.priv_key)) (e.new_signatory remote))
            (e.new_signatory remote)

    unfoldable pub run : Local → List ℕ → Option (List ℕ) → Option (List ℕ) → List ℕ × EciesResult
    run l incoming none y = ([], panics)
    run l incoming (some x) none = ([], panics)
    run l incoming (some x) (some y) =
        let r = reader l incoming in
        let w = writer l x y r in (w.written, conclude l w.error r.result)

    -- The bytes that the handshake writes, and what it returns.
    unfoldable pub ecies : Local → List ℕ → List ℕ × EciesResult
    ecies l incoming = elim l.rand_error [
      | some err ↦ ([], fails (codes "generate local secret key: " ++ err))
      | none ↦
          run l incoming (padded_to32 (e.pub_key l.priv_key).0)
            (padded_to32 (e.pub_key l.priv_key).1)
    ]
