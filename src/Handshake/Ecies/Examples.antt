-- ===== src/Handshake/Ecies/Examples.antt =====
-- Two peers with a cipher that seals nothing, and numbers that do not fit.
use aw.Base.{
  ℕ, ◌+◌, ◌^◌, ◌≤◌, ◌<◌, ◌≡◌, refl, sym, ap, ◌∙◌, inr, Bool, true, false, none, some, List, [],
  ◌++◌, arith, if◌then◌else◌, nat_Eq, bytes_Eq, take, replicate, length-append, length-replicate,
  take-length, get_or,
}
use aw.Base.Arrays.{padded}
use aw.Base.BigEndian.{put_uint}
use aw.Codec.Gcm.{Aead, new_gcm_session}
use aw.Codec.Nonces.{Mirrors}
use aw.Handshake.Ecies.Padding.{padded_to32, padded_to32_lem}
use aw.Handshake.Ecies.{Ecies, Local, session_key}
use aw.Handshake.Ecies.Sides.{IsQuiet}
use aw.Handshake.Ecies.Agreement.{Opens, Side, ecies-agrees}

padded_to32_example :
    (2 ^ 256 + 5 < 2 ^ 263 → padded_to32 (2 ^ 256 + 5) ≡ some (put_uint 32 (2 ^ 256 + 5)))
    × (2 ^ 263 ≤ 2 ^ 256 + 5 → padded_to32 (2 ^ 256 + 5) ≡ none)
padded_to32_example = padded_to32_lem (2 ^ 256 + 5)

abbrev open_cipher : Ecies
open_cipher = record {
  PrivKey = Bool;
  pub_key = λ k. if k then (1, 5) else (2, 6);
  encrypt = λ random key message. inr (message ++ replicate 113 0);
  decrypt = λ key sealed. inr (take 32 sealed);
  new_signatory = λ k. padded 31 k.0;
}

abbrev some_aead : Aead
some_aead = record {
  Cipher = List ℕ;
  new_cipher = λ key. key;
  seal = λ key nonce message. message;
  unseal = λ key nonce sealed. inr sealed;
}

abbrev peer : Bool → ℕ → Local open_cipher
peer key secret = record {
  priv_key = key;
  rand_error = none;
  secret_key = padded 31 secret;
  first_random = [];
  second_random = [];
  x_error = none;
  y_error = none;
  secret_error = none;
  check_error = none;
}

open_cipher-Opens : Opens open_cipher some_aead
open_cipher-Opens key random message h = (
  message ++ replicate 113 0,
  refl,
  omega (arith, h, length-append message (replicate 113 0), length-replicate {A = ℕ} 113 0),
  ap (λ n. inr (take n (message ++ replicate 113 0))) (sym h)
      ∙ ap inr (take-length message (replicate 113 0)),
)

quiet : (k : Bool) (n : ℕ) → IsQuiet open_cipher some_aead (peer k n)
quiet k n = record {
  random = refl;
  write_x = refl;
  write_y = refl;
  write_secret_key = refl;
  write_check_key = refl;
}

ecies-agrees_example :
    let a = peer true 77 in
    let b = peer false 88 in
    let key = session_key (padded 31 77).bytes (padded 31 88).bytes in
    (ka : List ℕ) × (ca1 : List ℕ) × (ca2 : List ℕ) × (kb : List ℕ) × (cb1 : List ℕ) × (cb2 : List
      ℕ)
    × Side open_cipher some_aead a b key ka ca1 ca2 kb cb1 cb2
    × Side open_cipher some_aead b a key kb cb1 cb2 ka ca1 ca2
    × Mirrors some_aead
        (new_gcm_session some_aead key (padded 31 1) (padded 31 2))
        (new_gcm_session some_aead key (padded 31 2) (padded 31 1))
ecies-agrees_example =
    ecies-agrees open_cipher some_aead (peer true 77) (peer false 88) (quiet true 77)
      (quiet false 88) (omega arith, omega arith) (omega arith, omega arith) open_cipher-Opens
      (λ e. omega (arith, ap (λ s. get_or s.bytes 0 0) e))
