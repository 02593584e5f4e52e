-- ===== src/Wire/Address/Signing/Verifying.antt =====
-- What `Verify` and `Signatory` of wire/addr.go say of an address that `Sign` signed.
use aw.Base.{
  ℕ, ◌≡◌, refl, sym, ap, ◌∙◌, ◌≢◌, ◌↔◌, inl, inr, false, none, some, List, ◌++◌, ltb, if◌then◌else◌,
  Bool-cases, ◌==◌, nat_Eq, bytes_Eq, length, beq_refl, beq-eq, subst, Sum-cases,
}
use aw.Base.Arrays.{Bytes_Eq, copy_into, copy_into-bytes}
use aw.Dht.Distance.{Signatory, Hash}
use aw.Policy.{codes}
use aw.Wire.Address.{Address, Signature, empty_signature}
use aw.Wire.Address.Signing.{
  Crypto, no_signatory, new_address_hash, put_signature, sign_hashed, sign_with_buffer, sign,
  recover, compare, verify_with_buffer, verify, signatory_with_buffer, signatory,
}

module _ (c : Crypto) where
  -- The same address with another signature.
  abbrev pub signed : Address → List ℕ → Address
  signed addr bytes = record addr { signature = copy_into addr.signature bytes }

  sign_bytes :
      (addr : Address) (priv_key : c.PrivKey) (hash : Hash) (bytes : List ℕ)
      → new_address_hash c addr.protocol addr.value addr.nonce ≡ inr hash
      → c.sign_hash hash priv_key ≡ inr bytes
      → length bytes ≡ 65
      → sign c addr priv_key ≡ (none, signed addr bytes)
  unfolding sign sign_with_buffer new_address_hash sign_hashed put_signature
  sign_bytes addr priv_key hash bytes e s l =
      let n : (if ltb (length bytes) 65 then length bytes else 65) ≡ 65 = rw l refl in
      ap (sign_hashed c addr priv_key) e
      ∙ (ap (put_signature c addr) s
          ∙ ap
              (λ k. if k == 65 then (none, signed addr bytes) else (
                some (
                    codes "copying signature: expected n="
                    ++ (c.print 65 ++ (codes ", got n=" ++ c.print k))),
                signed addr bytes,
              ))
              n)

  unhashed :
      (addr : Address) (priv_key : c.PrivKey) (e : List ℕ)
      → new_address_hash c addr.protocol addr.value addr.nonce ≡ inl e
      → (sign c addr priv_key).0 ≢ none
  unfolding sign sign_with_buffer new_address_hash sign_hashed
  unhashed addr priv_key e h n = cc (sym (ap (λ x. (sign_hashed c addr priv_key x).0) h) ∙ n)

  unsigned :
      (addr : Address) (priv_key : c.PrivKey) (hash : Hash) (e : List ℕ)
      → new_address_hash c addr.protocol addr.value addr.nonce ≡ inr hash
      → c.sign_hash hash priv_key ≡ inl e
      → (sign c addr priv_key).0 ≢ none
  unfolding sign sign_with_buffer new_address_hash sign_hashed put_signature
  unsigned addr priv_key hash e h s n = cc (
      sym (ap (λ x. (sign_hashed c addr priv_key x).0) h ∙ ap (λ x. (put_signature c addr x).0) s)
      ∙ n)

  recovered :
      (signature : Signature) (hash : Hash) (key : c.PubKey)
      → c.sig_to_pub hash signature ≡ inr key
      → recover c (inr hash) signature ≡ inr (c.new_signatory key)
  unfolding recover
  recovered signature hash key e = rw (e, recover) refl

  verified :
      (addr : Address) (p q : Signatory) (hash : Hash)
      → new_address_hash c addr.protocol addr.value addr.nonce ≡ inr hash
      → recover c (inr hash) addr.signature ≡ inr q
      → verify c addr p ≡ compare c p (inr q)
  unfolding verify verify_with_buffer new_address_hash
  verified addr p q hash h r =
      ap (λ x. compare c p (recover c x addr.signature)) h ∙ ap (compare c p) r

  named :
      (addr : Address) (q : Signatory) (hash : Hash)
      → new_address_hash c addr.protocol addr.value addr.nonce ≡ inr hash
      → recover c (inr hash) addr.signature ≡ inr q
      → (addr.signature == empty_signature) ≡ false
      → signatory c addr ≡ inr q
  unfolding signatory signatory_with_buffer new_address_hash
  named addr q hash h r z =
      ap
        (λ b.
          if b
          then inr no_signatory
          else recover c (new_address_hash c addr.protocol addr.value addr.nonce) addr.signature)
        z
      ∙ (ap (λ x. recover c x addr.signature) h ∙ r)

  compare-none : (p q : Signatory) → (compare c p (inr q) ≡ none) ↔ (p ≡ q)
  unfolding compare
  compare-none p q = elim (Bool-cases (p == q)) [
    | inl e ↦ rw e (λ x. beq-eq p q e, λ x. refl)
    | inr e ↦ rw e (λ x. cc x, λ x. cc (sym e ∙ (ap (λ y. y == q) x ∙ beq_refl q)))
  ]

  -- If the signatures have 65 bytes and give the public key of the key that signed, and `Sign` returns
  -- no error, then only the signature of the address has changed; `Verify` accepts exactly the
  -- signatory of that key; and so does `Signatory`, unless the signature is all zeros.
  pub verify-sign :
      (public : c.PrivKey → c.PubKey)
      → ((hash : Hash) (key : c.PrivKey) (bytes : List ℕ) (s : Signature)
          → c.sign_hash hash key ≡ inr bytes
          → (length bytes ≡ 65) × (s.bytes ≡ bytes → c.sig_to_pub hash s ≡ inr (public key)))
      → (addr : Address) (key : c.PrivKey) → (sign c addr key).0 ≡ none
      → let a = (sign c addr key).1 in
        (a ≡ record addr { signature = a.signature })
        × ((p : Signatory) → (verify c a p ≡ none) ↔ (p ≡ c.new_signatory (public key)))
        × ((a.signature == empty_signature) ≡ false
            → signatory c a ≡ inr (c.new_signatory (public key)))
  verify-sign public h addr key n =
      elim (Sum-cases (new_address_hash c addr.protocol addr.value addr.nonce)) [
        | inl (e, k) ↦ absurd (unhashed addr key e k n)
        | inr (hash, k) ↦ elim (Sum-cases (c.sign_hash hash key)) [
          | inl (e, s) ↦ absurd (unsigned addr key hash e k s n)
          | inr (bytes, s) ↦
              let l = (h hash key bytes addr.signature s).0 in
              let a : Address = signed addr bytes in
              let r =
                recovered a.signature hash (public key)
                  ((h hash key bytes a.signature s).1 (copy_into-bytes addr.signature bytes l)) in
              let q = c.new_signatory (public key) in
              subst
                (λ x.
                  (x ≡ record addr { signature = x.signature })
                  × ((p : Signatory) → (verify c x p ≡ none) ↔ (p ≡ q))
                  × ((x.signature == empty_signature) ≡ false → signatory c x ≡ inr q))
                (ap (λ r. r.1) (sym (sign_bytes addr key hash bytes k s l)))
                (
                  refl,
                  λ p.
                      subst (λ o. (o ≡ none) ↔ (p ≡ q)) (sym (verified a p q hash k r))
                        (compare-none p q),
                  λ z. named a q hash k r z,
                )
        ]
      ]
