-- ===== src/Wire/Address/Text.antt =====
-- The text of a protocol and of an address, and `DecodeString`, of wire/addr.go.
use aw.Base.{
  ℕ, ◌^◌, ◌<◌, ◌≡◌, refl, ap, ◌∙◌, ◌⊎◌, inl, inr, true, false, Option, none, some, List, [], ◌∷◌,
  ◌++◌, if◌then◌else◌, ◌==◌, nat_Eq, bytes_Eq, length, All,
}
use aw.Base.Arrays.{copy_into, copy_into-bytes, Bytes-ext}
use aw.Policy.{codes}
use aw.Wire.Address.{Address, Signature, empty_signature, tcp, udp, web_socket}

unfoldable pub protocol_string : ℕ → List ℕ
protocol_string p =
    if p == tcp
    then codes "tcp"
    else (if p == udp
        then codes "udp"
        else (if p == web_socket then codes "ws" else codes "unknown"))

-- The formats of Go's strconv and encoding/base64 that addresses use: `%v` of a uint64 and of a
-- signature, `ParseUint` in base 10, and the decoder of base64 for URLs. An error comes first.
pub record Formats : Type 0 where
  pub print_nonce : ℕ → List ℕ
  pub print_signature : Signature → List ℕ
  pub parse_uint : List ℕ → List ℕ ⊎ ℕ
  pub decode_base64 : List ℕ → List ℕ ⊎ List ℕ

-- `strings.Split(s, "/")`; the code of a slash is 47.
abbrev pub add_char : ℕ → List (List ℕ) → List (List ℕ)
add_char c [] = (c ∷ []) ∷ []
add_char c (p ∷ ps) = (c ∷ p) ∷ ps

unfoldable pub split : List ℕ → List (List ℕ)
split [] = [] ∷ []
split (c ∷ cs) = let rest = split cs in if c == 47 then [] ∷ rest else add_char c rest

abbrev pub trim_slash : List ℕ → List ℕ
trim_slash [] = []
trim_slash (c ∷ cs) = if c == 47 then cs else c ∷ cs

unfoldable pub protocol_of : List ℕ → Option ℕ
protocol_of s =
    if s == codes "tcp"
    then some tcp
    else (if s == codes "udp"
        then some udp
        else (if s == codes "ws" then some web_socket else none))

abbrev pub NoSlash : List ℕ → Type 0
NoSlash xs = All (λ c. (c == 47) ≡ false) xs

split_last : (xs : List ℕ) → NoSlash xs → split xs ≡ xs ∷ []
unfolding split
split_last [] h = refl
split_last (x ∷ xs) h = rw (h.0, split_last xs h.1) refl

split_first : (xs ys : List ℕ) → NoSlash xs → split (xs ++ (47 ∷ ys)) ≡ xs ∷ split ys
unfolding split
split_first [] ys h = refl
split_first (x ∷ xs) ys h = rw (h.0, split_first xs ys h.1) refl

abbrev pub IsKnown : ℕ → Type 0
IsKnown p = (p ≡ tcp) ⊎ ((p ≡ udp) ⊎ (p ≡ web_socket))

known_protocol :
    (p : ℕ) → IsKnown p → NoSlash (protocol_string p) × (protocol_of (protocol_string p) ≡ some p)
unfolding protocol_string protocol_of
known_protocol p (inl e) = rw e ((refl, (refl, (refl, tt))), refl)
known_protocol p (inr (inl e)) = rw e ((refl, (refl, (refl, tt))), refl)
known_protocol p (inr (inr e)) = rw e ((refl, (refl, tt)), refl)

module _ (f : Formats) where
  unfoldable pub address_string : Address → List ℕ
  address_string addr =
      47
      ∷ (protocol_string addr.protocol
          ++ (47
              ∷ (addr.value
                  ++ (47 ∷ (f.print_nonce addr.nonce ++ (47 ∷ f.print_signature addr.signature))))))

  unfoldable pub decode_signature : ℕ → List ℕ → ℕ → List ℕ → List ℕ ⊎ List ℕ → List ℕ ⊎ Address
  decode_signature protocol value nonce text (inl e) = inl e
  decode_signature protocol value nonce text (inr sig_bytes) =
      if length sig_bytes == 65
      then inr (record {
        protocol = protocol;
        value = value;
        nonce = nonce;
        signature = copy_into empty_signature sig_bytes;
      })
      else inl (codes "invalid signature " ++ text)

  unfoldable pub decode_nonce : ℕ → List ℕ → List ℕ → List ℕ ⊎ ℕ → List ℕ ⊎ Address
  decode_nonce protocol value text (inl e) = inl e
  decode_nonce protocol value text (inr nonce) =
      decode_signature protocol value nonce text (f.decode_base64 text)

  unfoldable pub decode_parts : List ℕ → List ℕ → List ℕ → List ℕ → Option ℕ → List ℕ ⊎ Address
  decode_parts protocol_text value nonce_text text none =
      inl (codes "invalid protocol " ++ protocol_text)
  decode_parts protocol_text value nonce_text text (some protocol) =
      decode_nonce protocol value text (f.parse_uint nonce_text)

  unfoldable pub decode_split : List ℕ → List (List ℕ) → List ℕ ⊎ Address
  decode_split addr (p ∷ v ∷ n ∷ s ∷ []) = decode_parts p v n s (protocol_of p)
  decode_split addr parts = inl (codes "invalid format " ++ addr)

  unfoldable pub decode_string : List ℕ → List ℕ ⊎ Address
  decode_string addr = decode_split (trim_slash addr) (split (trim_slash addr))

  -- An address of a known protocol, whose value has no slash, is decoded from its text, if the formats
  -- read back the nonces of 64 bits and the signatures that they print, and print no slashes.
  pub decode_string-address_string :
      (addr : Address)
      → IsKnown addr.protocol
      → NoSlash addr.value
      → addr.nonce < 2 ^ 64
      → ((n : ℕ)
          → n < 2 ^ 64
          → NoSlash (f.print_nonce n) × (f.parse_uint (f.print_nonce n) ≡ inr n))
      → ((s : Signature)
          → NoSlash (f.print_signature s) × (f.decode_base64 (f.print_signature s) ≡ inr s.bytes))
      → decode_string (address_string addr) ≡ inr addr
  unfolding decode_string address_string decode_split decode_parts decode_nonce decode_signature
  decode_string-address_string addr k v l nonces signatures =
      let (kp, ke) = known_protocol addr.protocol k in
      let (np, ne) = nonces addr.nonce l in
      let (sp, se) = signatures addr.signature in
      let n = f.print_nonce addr.nonce in
      let s = f.print_signature addr.signature in
      let p = protocol_string addr.protocol in
      let body = p ++ (47 ∷ (addr.value ++ (47 ∷ (n ++ (47 ∷ s))))) in
      let parts : split body ≡ p ∷ addr.value ∷ n ∷ s ∷ [] =
        split_first p (addr.value ++ (47 ∷ (n ++ (47 ∷ s)))) kp
        ∙ ap (◌∷◌ p) (
            split_first addr.value (n ++ (47 ∷ s)) v
            ∙ ap (◌∷◌ addr.value) (split_first n s np ∙ ap (◌∷◌ n) (split_last s sp))) in
      let whole : copy_into empty_signature addr.signature.bytes ≡ addr.signature =
        Bytes-ext (copy_into empty_signature addr.signature.bytes) addr.signature
          (copy_into-bytes empty_signature addr.signature.bytes addr.signature.size) in
      let size : (length addr.signature.bytes == 65) ≡ true = rw addr.signature.size refl in
      ap (decode_split body) parts
      ∙ (ap (decode_parts p addr.value n s) ke
          ∙ (ap (decode_nonce addr.protocol addr.value s) ne
              ∙ (ap (decode_signature addr.protocol addr.value addr.nonce s) se
                  ∙ (ap
                        (λ b.
                          if b
                          then inr (record {
                            protocol = addr.protocol;
                            value = addr.value;
                            nonce = addr.nonce;
                            signature = copy_into empty_signature addr.signature.bytes;
                          })
                          else inl (codes "invalid signature " ++ s))
                        size
                      ∙ ap (λ x. inr (record addr { signature = x })) whole))))
