-- ===== src/Wire/Address/Binary.antt =====
-- `Marshal` and `Unmarshal` of `Address` in wire/addr.go, over the marshallers of surge and id, which
-- are parameters. Its errors are those of its fields.
use aw.Base.{
  ℕ, ◌-◌, ◌≤◌, ◌≡◌, refl, sym, ap, ◌∙◌, Option, none, some, List, [], ◌++◌, arith, nat_Eq, bytes_Eq,
  length,
}
use aw.Wire.Address.{Address, Signature}
use aw.Wire.Marshal.{Buffer, Input, Marshaller}
use aw.Wire.Marshal.RoundTrip.{Writes, Reads, append_assoc3, append_inner, length4}

-- `if err != nil { return buf, rem, err }`, else go on.
unfoldable pub and_write :
    Option (List ℕ) × Buffer → (Buffer → Option (List ℕ) × Buffer) → Option (List ℕ) × Buffer
and_write (some e, b) next = (some e, b)
and_write (none, b) next = next b

unfoldable pub and_read :
    {A R : Type 0}
    → Option (List ℕ) × (A × Input)
    → (A → R)
    → (R → Input → Option (List ℕ) × (R × Input))
    → Option (List ℕ) × (R × Input)
and_read (some e, (a, input)) set next = (some e, (set a, input))
and_read (none, (a, input)) set next = next (set a) input

pub and_write-none :
    (r : Option (List ℕ) × Buffer) (next : Buffer → Option (List ℕ) × Buffer)
    → (and_write r next).0 ≡ none
    → (r.0 ≡ none) × (and_write r next ≡ next r.1)
unfolding and_write
and_write-none (some e, b) next h = cc h
and_write-none (none, b) next h = (refl, refl)

pub record AddressSurge : Type 0 where
  pub u8 : Marshaller ℕ
  pub string : Marshaller (List ℕ)
  pub u64 : Marshaller ℕ
  pub signature : Marshaller Signature

module _ (s : AddressSurge) where
  -- The part that is also hashed for the signature.
  unfoldable pub marshal_unsigned :
      ℕ → List ℕ → ℕ → Buffer → (Buffer → Option (List ℕ) × Buffer) → Option (List ℕ) × Buffer
  marshal_unsigned protocol value nonce b0 next =
      and_write (s.u8.marshal protocol b0) (λ b1.
        and_write (s.string.marshal value b1) (λ b2. and_write (s.u64.marshal nonce b2) next))

  unfoldable pub marshal_address : Address → Buffer → Option (List ℕ) × Buffer
  marshal_address addr b0 =
      marshal_unsigned addr.protocol addr.value addr.nonce b0
        (λ b3. s.signature.marshal addr.signature b3)

  unfoldable pub unmarshal_address : Address → Input → Option (List ℕ) × (Address × Input)
  unmarshal_address a0 i0 =
      and_read (s.u8.unmarshal i0) (λ x. record a0 { protocol = x })
        (λ a1 i1.
          and_read (s.string.unmarshal i1) (λ x. record a1 { value = x })
            (λ a2 i2.
              and_read (s.u64.unmarshal i2) (λ x. record a2 { nonce = x })
                (λ a3 i3.
                  and_read (s.signature.unmarshal i3) (λ x. record a3 { signature = x })
                    (λ a4 i4. (none, (a4, i4))))))

  module _ (u8 : ℕ → List ℕ) (string : List ℕ → List ℕ) (u64 : ℕ → List ℕ)
      (sign : Signature → List ℕ) where
    abbrev pub unsigned_bytes : ℕ → List ℕ → ℕ → List ℕ
    unsigned_bytes protocol value nonce = u8 protocol ++ (string value ++ u64 nonce)

    abbrev pub address_bytes : Address → List ℕ
    address_bytes addr =
        u8 addr.protocol ++ (string addr.value ++ (u64 addr.nonce ++ sign addr.signature))

    -- Without an error, the part that is hashed is written after what the buffer holds.
    pub marshal_unsigned-bytes :
        Writes s.u8 u8
        → Writes s.string string
        → Writes s.u64 u64
        → (protocol : ℕ) (value : List ℕ) (nonce : ℕ) (b : Buffer)
          (next : Buffer → Option (List ℕ) × Buffer)
        → (marshal_unsigned protocol value nonce b next).0 ≡ none
        → (b' : Buffer) × (b'.written ≡ b.written ++ unsigned_bytes protocol value nonce)
          × (marshal_unsigned protocol value nonce b next ≡ next b')
    unfolding marshal_unsigned
    marshal_unsigned-bytes w8 ws w64 protocol value nonce b next h =
        let r1 = s.u8.marshal protocol b in
        let r2 = s.string.marshal value r1.1 in
        let r3 = s.u64.marshal nonce r2.1 in
        let n2 : Buffer → Option (List ℕ) × Buffer =
          λ b2. and_write (s.u64.marshal nonce b2) next in
        let n1 : Buffer → Option (List ℕ) × Buffer =
          λ b1. and_write (s.string.marshal value b1) n2 in
        let (z1, e1) = and_write-none r1 n1 h in
        let (z2, e2) = and_write-none r2 n2 (ap (λ r. r.0) (sym e1) ∙ h) in
        let (z3, e3) = and_write-none r3 next (ap (λ r. r.0) (sym (e1 ∙ e2)) ∙ h) in
        (
          r3.1,
          w64 nonce r2.1 z3
              ∙ (ap (λ x. x ++ u64 nonce)
                    (ws value r1.1 z2 ∙ ap (λ x. x ++ string value) (w8 protocol b z1))
                  ∙ append_assoc3 b.written (u8 protocol) (string value) (u64 nonce)),
          e1 ∙ (e2 ∙ e3),
        )

    marshal_address-bytes :
        Writes s.u8 u8
        → Writes s.string string
        → Writes s.u64 u64
        → Writes s.signature sign
        → (addr : Address) (b : Buffer) → (marshal_address addr b).0 ≡ none
        → (marshal_address addr b).1.written ≡ b.written ++ address_bytes addr
    unfolding marshal_address
    marshal_address-bytes w8 ws w64 wg addr b h =
        let next : Buffer → Option (List ℕ) × Buffer =
          λ b3. s.signature.marshal addr.signature b3 in
        let (b3, w, e) =
          marshal_unsigned-bytes w8 ws w64 addr.protocol addr.value addr.nonce b next h in
        ap (λ r. r.1.written) e
        ∙ (wg addr.signature b3 (ap (λ r. r.0) (sym e) ∙ h)
            ∙ (ap (λ x. x ++ sign addr.signature) w
                ∙ append_inner b.written (u8 addr.protocol) (string addr.value) (u64 addr.nonce)
                    (sign addr.signature)))

    module _ (P8 : ℕ → Type 0) (Ps : List ℕ → Type 0) (P64 : ℕ → Type 0)
        (Pg : Signature → Type 0) where
      unmarshal_address-bytes :
          Reads P8 s.u8 u8
          → Reads Ps s.string string
          → Reads P64 s.u64 u64
          → Reads Pg s.signature sign
          → (addr a0 : Address) (rest : List ℕ) (rem : ℕ)
          → P8 addr.protocol × Ps addr.value × P64 addr.nonce × Pg addr.signature
          → length (address_bytes addr) ≤ rem
          → unmarshal_address a0 (record { unread = address_bytes addr ++ rest; rem = rem })
            ≡ (none, (addr, record { unread = rest; rem = rem - length (address_bytes addr) }))
      unfolding unmarshal_address and_read
      unmarshal_address-bytes r8 rs r64 rg addr a0 rest rem (p, p', p'', p3) h =
          let v = u8 addr.protocol in
          let k = string addr.value in
          let o = u64 addr.nonce in
          let d = sign addr.signature in
          let l = length4 v k o d in
          let q : rem - length v - length k - length o - length d
              ≡ rem - length (address_bytes addr) =
            omega (arith, l) in
          ap (λ x. unmarshal_address a0 (record { unread = x; rem = rem }))
            (append_inner v k o d rest)
          ∙ rw
              (
                r8 addr.protocol (k ++ (o ++ (d ++ rest))) rem p (omega (arith, l)),
                rs addr.value (o ++ (d ++ rest)) (rem - length v) p' (omega (arith, l)),
                r64 addr.nonce (d ++ rest) (rem - length v - length k) p'' (omega (arith, l)),
                rg addr.signature rest (rem - length v - length k - length o) p3 (omega (arith, l)),
              )
              (ap {B = Option (List ℕ) × (Address × Input)}
                (λ r. (none, (addr, record { unread = rest; rem = r }))) q)

      -- An address that marshals without an error into an empty buffer is unmarshalled from what was
      -- written, before whatever follows, into any address.
      pub unmarshal_address-marshal_address :
          Writes s.u8 u8
          → Writes s.string string
          → Writes s.u64 u64
          → Writes s.signature sign
          → Reads P8 s.u8 u8
          → Reads Ps s.string string
          → Reads P64 s.u64 u64
          → Reads Pg s.signature sign
          → (addr a0 : Address) (free rem rem' : ℕ) (rest : List ℕ)
          → P8 addr.protocol × Ps addr.value × P64 addr.nonce × Pg addr.signature
          → let o = marshal_address addr (record { written = []; free = free; rem = rem }) in
            o.0 ≡ none
            → length o.1.written ≤ rem'
            → unmarshal_address a0 (record { unread = o.1.written ++ rest; rem = rem' })
              ≡ (none, (addr, record { unread = rest; rem = rem' - length o.1.written }))
      unmarshal_address-marshal_address w8 ws w64 wg r8 rs r64 rg addr a0 free rem rem' rest p h l =
          let e =
            marshal_address-bytes w8 ws w64 wg addr
              (record { written = []; free = free; rem = rem }) h in
          rw e (unmarshal_address-bytes r8 rs r64 rg addr a0 rest rem' p (rw e at l))
