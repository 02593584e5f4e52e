-- ===== src/Wire/Address/Examples.antt =====
-- An address through concrete formats, marshallers and signatures.
use aw.Base.{
  ℕ, ◌+◌, ◌-◌, ◌^◌, ◌<◌, ◌≡◌, refl, sym, ap, ◌∙◌, ◌↔◌, ◌⊎◌, inl, inr, false, none, List, [], ◌∷◌,
  arith, ◌==◌, nat_Eq, bytes_Eq, length, map, get_or, replicate,
}
use aw.Base.Arrays.{Bytes, Bytes_Eq, padded}
use aw.Base.BigEndian.{put_uint}
use aw.Wire.Marshal.ByBytes.{by_bytes, read_uint, put_slice, read_slice, read_array}
use aw.Wire.Address.{Address, Signature, tcp, empty_signature}
use aw.Wire.Address.Text.{
  Formats, decode_string, address_string, decode_string-address_string, NoSlash,
}
use aw.Wire.Address.Binary.{AddressSurge, marshal_unsigned, and_write}
use aw.Wire.Address.Signing.Verifying.{verify-sign}
use aw.Wire.Address.Signing.{
  sign_with_buffer, new_address_hash_with_buffer, hash_of, sign_hashed, put_signature, Crypto, sign,
  verify, signatory,
}

abbrev raised : List ℕ → List ℕ
raised xs = map (λ x. x + 100) xs

abbrev lowered : List ℕ → List ℕ
lowered xs = map (λ x. x - 100) xs

lowered-raised : (xs : List ℕ) → lowered (raised xs) ≡ xs
lowered-raised [] = refl
lowered-raised (x ∷ xs) = let e : x + 100 - 100 ≡ x = omega arith in rw (e, lowered-raised xs) refl

raised-NoSlash : (xs : List ℕ) → NoSlash (raised xs)
raised-NoSlash [] = tt
raised-NoSlash (x ∷ xs) = (ground arith, raised-NoSlash xs)

abbrev parse_one : List ℕ → List ℕ ⊎ ℕ
parse_one [] = inl []
parse_one (x ∷ xs) = inr (x - 100)

abbrev some_formats : Formats
some_formats = record {
  print_nonce = λ n. raised (n ∷ []);
  print_signature = λ s. raised s.bytes;
  parse_uint = parse_one;
  decode_base64 = λ xs. inr (lowered xs);
}

parse-print :
    (n : ℕ)
    → n < 2 ^ 64
    → NoSlash (some_formats.print_nonce n)
      × (some_formats.parse_uint (some_formats.print_nonce n) ≡ inr n)
parse-print n h = let e : n + 100 - 100 ≡ n = omega arith in (raised-NoSlash (n ∷ []), ap inr e)

decode-print :
    (s : Signature)
    → NoSlash (some_formats.print_signature s)
      × (some_formats.decode_base64 (some_formats.print_signature s) ≡ inr s.bytes)
decode-print s = (raised-NoSlash s.bytes, ap inr (lowered-raised s.bytes))

abbrev home : Address
home = record { protocol = tcp; value = 49 ∷ 58 ∷ 51 ∷ []; nonce = 3; signature = padded 64 8 }

decode_string-address_string_example :
    decode_string some_formats (address_string some_formats home) ≡ inr home
decode_string-address_string_example =
    decode_string-address_string some_formats home (inl refl) (refl, (refl, (refl, tt)))
      (omega arith) parse-print decode-print

abbrev bytewise : AddressSurge
bytewise = record {
  u8 = by_bytes (put_uint 1) (read_uint 1);
  string = by_bytes put_slice read_slice;
  u64 = by_bytes (put_uint 8) (read_uint 8);
  signature = by_bytes (λ s. s.bytes) (read_array 65);
}

-- Keys are numbers; a signature begins with the key.
abbrev some_crypto : Crypto
some_crypto = record {
  surge = bytewise;
  max_bytes = 1000;
  size_hint_string = λ xs. 4 + length xs;
  sum256 = λ xs. padded 31 9;
  PrivKey = ℕ;
  PubKey = ℕ;
  sign_hash = λ h k. inr (k ∷ replicate 64 0);
  sig_to_pub = λ h s. inr (get_or s.bytes 0 0);
  new_signatory = λ k. padded 31 k;
  print = λ n. n ∷ [];
  print_signatory = λ s. s.bytes;
}

inr_inj : (x y : List ℕ) (u v : List ℕ ⊎ List ℕ) → u ≡ inr x → v ≡ inr y → u ≡ v → x ≡ y
inr_inj x y u v p q e = cc (sym p ∙ (e ∙ q))

signed_home : (sign some_crypto home 6).0 ≡ none
unfolding sign sign_with_buffer new_address_hash_with_buffer hash_of marshal_unsigned and_write
    sign_hashed put_signature
signed_home = refl

verify-sign_example :
    let a = (sign some_crypto home 6).1 in
    (a ≡ record home { signature = a.signature })
    × ((p : Bytes 32) → (verify some_crypto a p ≡ none) ↔ (p ≡ padded 31 6))
    × ((a.signature == empty_signature) ≡ false → signatory some_crypto a ≡ inr (padded 31 6))
verify-sign_example =
    verify-sign some_crypto (λ k. k)
      (λ hash key bytes s e. (
        ap length (
            sym (
              inr_inj (key ∷ replicate 64 0) bytes (inr (key ∷ replicate 64 0)) (inr bytes) refl
                refl e)),
        λ q.
            ap (λ xs. inr (get_or xs 0 0))
              (q
                ∙ sym (
                    inr_inj (key ∷ replicate 64 0) bytes (inr (key ∷ replicate 64 0)) (inr bytes)
                      refl refl e)),
      ))
      home 6 signed_home
