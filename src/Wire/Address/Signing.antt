-- ===== src/Wire/Address/Signing.antt =====
-- The hash, the signature and the verification of an address in wire/addr.go. The hash function and
-- the signatures are parameters, as are the marshallers of surge.
pub mod Verifying
use aw.Base.{
  ℕ, ◌+◌, ◌≡◌, refl, sym, ap, ◌∙◌, ◌≢◌, ◌↔◌, ◌⊎◌, inl, inr, false, Option, none, some, List, [],
  ◌++◌, ltb, if◌then◌else◌, Bool-cases, ◌==◌, nat_Eq, bytes_Eq, length, beq_refl, beq-eq, subst,
  replicate, length-replicate, Sum-cases,
}
use aw.Base.Arrays.{Bytes_Eq, copy_into, copy_into-bytes}
use aw.Dht.Distance.{Signatory, Hash}
use aw.Policy.{codes}
use aw.Wire.Address.{Address, Signature, empty_signature}
use aw.Wire.Address.Binary.{AddressSurge, marshal_unsigned}
use aw.Wire.Marshal.{Buffer}

-- What wire/addr.go uses of surge, crypto/sha256, go-ethereum and id. An error comes first; `print` is
-- `%v` of an integer, `print_signatory` that of an identity.
pub record Crypto : Type 1 where
  pub surge : AddressSurge
  pub max_bytes : ℕ
  pub size_hint_string : List ℕ → ℕ
  pub sum256 : List ℕ → Hash
  pub PrivKey : Type 0
  pub PubKey : Type 0
  pub sign_hash : Hash → PrivKey → List ℕ ⊎ List ℕ
  pub sig_to_pub : Hash → Signature → List ℕ ⊎ PubKey
  pub new_signatory : PubKey → Signatory
  pub print : ℕ → List ℕ
  pub print_signatory : Signatory → List ℕ

abbrev pub no_signatory : Signatory
no_signatory = record { bytes = replicate 32 0; size = length-replicate {A = ℕ} 32 0 }

module _ (c : Crypto) where
  unfoldable pub hash_of : Option (List ℕ) × Buffer → List ℕ ⊎ Hash
  hash_of (some e, b) = inl e
  hash_of (none, b) = inr (c.sum256 b.written)

  -- `size` is the length of the buffer. What is left of it is cut off before the hash is taken.
  unfoldable pub new_address_hash_with_buffer : ℕ → List ℕ → ℕ → ℕ → List ℕ ⊎ Hash
  new_address_hash_with_buffer protocol value nonce size = hash_of (
      marshal_unsigned c.surge protocol value nonce
        (record { written = []; free = size; rem = c.max_bytes }) (λ b. (none, b)))

  -- The size hints of a uint8 and of a uint64 are 1 and 8.
  unfoldable pub new_address_hash : ℕ → List ℕ → ℕ → List ℕ ⊎ Hash
  new_address_hash protocol value nonce =
      new_address_hash_with_buffer protocol value nonce (1 + c.size_hint_string value + 8)

  unfoldable pub put_signature : Address → List ℕ ⊎ List ℕ → Option (List ℕ) × Address
  put_signature addr (inl e) = (some (codes "signing address hash: " ++ e), addr)
  put_signature addr (inr signature) =
      let addr' : Address = record addr { signature = copy_into addr.signature signature } in
      let n = if ltb (length signature) 65 then length signature else 65 in
      if n == 65 then (none, addr') else (
        some (
            codes "copying signature: expected n="
            ++ (c.print 65 ++ (codes ", got n=" ++ c.print n))),
        addr',
      )

  unfoldable pub sign_hashed : Address → c.PrivKey → List ℕ ⊎ Hash → Option (List ℕ) × Address
  sign_hashed addr priv_key (inl e) = (some (codes "hashing address: " ++ e), addr)
  sign_hashed addr priv_key (inr hash) = put_signature addr (c.sign_hash hash priv_key)

  unfoldable pub sign_with_buffer : Address → c.PrivKey → ℕ → Option (List ℕ) × Address
  sign_with_buffer addr priv_key size =
      sign_hashed addr priv_key
        (new_address_hash_with_buffer addr.protocol addr.value addr.nonce size)

  unfoldable pub sign : Address → c.PrivKey → Option (List ℕ) × Address
  sign addr priv_key = sign_with_buffer addr priv_key (1 + c.size_hint_string addr.value + 8)

  -- `SigToPub` of the hash, where there is one.
  unfoldable pub recover : List ℕ ⊎ Hash → Signature → List ℕ ⊎ Signatory
  recover (inl e) signature = inl (codes "hashing address: " ++ e)
  recover (inr hash) signature = elim (c.sig_to_pub hash signature) [
    | inl e ↦ inl (codes "identifying address signature: " ++ e)
    | inr pub_key ↦ inr (c.new_signatory pub_key)
  ]

  unfoldable pub compare : Signatory → List ℕ ⊎ Signatory → Option (List ℕ)
  compare signatory (inl e) = some e
  compare signatory (inr verified) =
      if signatory == verified
      then none
      else some (
          codes "verifying address signatory: expected "
          ++ (c.print_signatory signatory ++ (codes ", got " ++ c.print_signatory verified)))

  unfoldable pub verify_with_buffer : Address → Signatory → ℕ → Option (List ℕ)
  verify_with_buffer addr signatory size = compare signatory (
      recover (new_address_hash_with_buffer addr.protocol addr.value addr.nonce size)
        addr.signature)

  unfoldable pub verify : Address → Signatory → Option (List ℕ)
  verify addr signatory = verify_with_buffer addr signatory (1 + c.size_hint_string addr.value + 8)

  unfoldable pub signatory_with_buffer : Address → ℕ → List ℕ ⊎ Signatory
  signatory_with_buffer addr size =
      if addr.signature == empty_signature
      then inr no_signatory
      else recover (new_address_hash_with_buffer addr.protocol addr.value addr.nonce size)
          addr.signature

  unfoldable pub signatory : Address → List ℕ ⊎ Signatory
  signatory addr = signatory_with_buffer addr (1 + c.size_hint_string addr.value + 8)
