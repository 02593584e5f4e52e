-- ===== src/Wire/Marshal/RoundTrip.antt =====
-- Marshalling a message of wire/wire.go, and unmarshalling what was written.
use Prim.Native.String.{String}
use aw.Base.{
  ℕ, ◌+◌, ◌-◌, ◌^◌, ◌≤◌, ◌<◌, ◌≡◌, refl, sym, ap, ◌∙◌, Option, none, some, List, [], ◌++◌, arith,
  nat_Eq, bytes_Eq, length, append_assoc, length-append,
}
use aw.Base.Arrays.{Bytes}
use aw.Wire.Msg.{Msg}
use aw.Wire.Marshal.{Buffer, Input, Marshaller, Surge, and_then, store, marshal_msg, unmarshal_msg}

-- A value is written as `enc` says, and read back from there, if the quota is enough for its bytes.
abbrev pub Writes : {A : Type 0} → Marshaller A → (A → List ℕ) → Type 0
Writes {A} m enc =
    (a : A) (b : Buffer) → (m.marshal a b).0 ≡ none → (m.marshal a b).1.written ≡ b.written ++ enc a

abbrev pub Reads : {A : Type 0} → (A → Type 0) → Marshaller A → (A → List ℕ) → Type 0
Reads {A} P m enc =
    (a : A) (rest : List ℕ) (rem : ℕ)
    → P a
    → length (enc a) ≤ rem
    → m.unmarshal (record { unread = enc a ++ rest; rem = rem })
      ≡ (none, (a, record { unread = rest; rem = rem - length (enc a) }))

-- What fits the fields' types: `uint16`, and the uint32 that surge counts a slice with.
abbrev pub Fits16 : ℕ → Type 0
Fits16 n = n < 2 ^ 16

abbrev pub Fits32 : List ℕ → Type 0
Fits32 xs = length xs < 2 ^ 32

abbrev pub Any : Bytes 32 → Type 0
Any h = Unit

abbrev pub IsMsg : Msg → Type 0
IsMsg msg = Fits16 msg.version × Fits16 msg.msg_type × Fits32 msg.msg_data

pub append_assoc3 : (a b c d : List ℕ) → ((a ++ b) ++ c) ++ d ≡ a ++ (b ++ (c ++ d))
append_assoc3 a b c d = append_assoc (a ++ b) c d ∙ append_assoc a b (c ++ d)

append_assoc4 : (a b c d e : List ℕ) → (((a ++ b) ++ c) ++ d) ++ e ≡ a ++ (b ++ (c ++ (d ++ e)))
append_assoc4 a b c d e =
    append_assoc ((a ++ b) ++ c) d e
    ∙ append_assoc (a ++ b) c (d ++ e)
    ∙ append_assoc a b (c ++ (d ++ e))

pub append_inner : (a b c d e : List ℕ) → (a ++ (b ++ (c ++ d))) ++ e ≡ a ++ (b ++ (c ++ (d ++ e)))
append_inner a b c d e = ap (λ x. x ++ e) (sym (append_assoc3 a b c d)) ∙ append_assoc4 a b c d e

pub length4 :
    (a b c d : List ℕ)
    → length (a ++ (b ++ (c ++ d))) ≡ length a + (length b + (length c + length d))
length4 a b c d =
    rw (length-append a (b ++ (c ++ d)), length-append b (c ++ d), length-append c d) refl

and_then-none :
    (text : String) (r : Option (List ℕ) × Buffer) (next : Buffer → Option (List ℕ) × Buffer)
    → (and_then text r next).0 ≡ none
    → (r.0 ≡ none) × (and_then text r next ≡ next r.1)
unfolding and_then
and_then-none text (some e, b) next h = cc
and_then-none text (none, b) next h = (refl, refl)

module _ (s : Surge) (u16 : ℕ → List ℕ) (hash : Bytes 32 → List ℕ) (slice : List ℕ → List ℕ) where
  -- The bytes of a message: its synchronisation data is not among them.
  abbrev pub encoded : Msg → List ℕ
  encoded msg = u16 msg.version ++ (u16 msg.msg_type ++ (hash msg.to ++ slice msg.msg_data))

  marshal_msg-encoded :
      Writes s.u16 u16
      → Writes s.hash hash
      → Writes s.byte_slice slice
      → (msg : Msg) (b : Buffer) → (marshal_msg s msg b).0 ≡ none
      → (marshal_msg s msg b).1.written ≡ b.written ++ encoded msg
  unfolding marshal_msg
  marshal_msg-encoded wu wh wb msg b h =
      let r1 = s.u16.marshal msg.version b in
      let r2 = s.u16.marshal msg.msg_type r1.1 in
      let r3 = s.hash.marshal msg.to r2.1 in
      let r4 = s.byte_slice.marshal msg.msg_data r3.1 in
      let n4 : Buffer → Option (List ℕ) × Buffer = λ b4. (none, b4) in
      let n3 : Buffer → Option (List ℕ) × Buffer =
        λ b3. and_then "marshal data: " (s.byte_slice.marshal msg.msg_data b3) n4 in
      let n2 : Buffer → Option (List ℕ) × Buffer =
        λ b2. and_then "marshal to: " (s.hash.marshal msg.to b2) n3 in
      let n1 : Buffer → Option (List ℕ) × Buffer =
        λ b1. and_then "marshal type: " (s.u16.marshal msg.msg_type b1) n2 in
      let (z1, e1) = and_then-none "marshal version: " r1 n1 h in
      let (z2, e2) = and_then-none "marshal type: " r2 n2 (ap (λ r. r.0) (sym e1) ∙ h) in
      let (z3, e3) = and_then-none "marshal to: " r3 n3 (ap (λ r. r.0) (sym (e1 ∙ e2)) ∙ h) in
      let (z4, e4) =
        and_then-none "marshal data: " r4 n4 (ap (λ r. r.0) (sym (e1 ∙ e2 ∙ e3)) ∙ h) in
      let w1 = wu msg.version b z1 in
      let w2 = wu msg.msg_type r1.1 z2 in
      let w3 = wh msg.to r2.1 z3 in
      let w4 = wb msg.msg_data r3.1 z4 in
      ap (λ r. r.1.written) (e1 ∙ e2 ∙ e3 ∙ e4)
      ∙ (w4
          ∙ ap (λ x. x ++ slice msg.msg_data)
              (w3 ∙ ap (λ x. x ++ hash msg.to) (w2 ∙ ap (λ x. x ++ u16 msg.msg_type) w1)))
      ∙ append_assoc4 b.written (u16 msg.version) (u16 msg.msg_type) (hash msg.to)
          (slice msg.msg_data)

  unmarshal_msg-encoded :
      Reads Fits16 s.u16 u16
      → Reads Any s.hash hash
      → Reads Fits32 s.byte_slice slice
      → (msg m0 : Msg) (rest : List ℕ) (rem : ℕ) → IsMsg msg
      → length (encoded msg) ≤ rem
      → unmarshal_msg s m0 (record { unread = encoded msg ++ rest; rem = rem }) ≡ (
        none,
        (
          record msg { sync_data = m0.sync_data },
          record { unread = rest; rem = rem - length (encoded msg) },
        ),
      )
  unfolding unmarshal_msg store
  unmarshal_msg-encoded ru rh rb msg m0 rest rem (p, q', p') h =
      let v = u16 msg.version in
      let k = u16 msg.msg_type in
      let o = hash msg.to in
      let d = slice msg.msg_data in
      let l = length4 v k o d in
      let q : rem - length v - length k - length o - length d ≡ rem - length (encoded msg) =
        omega (arith, l) in
      ap (λ x. unmarshal_msg s m0 (record { unread = x; rem = rem })) (append_inner v k o d rest)
      ∙ rw
          (
            ru msg.version (k ++ (o ++ (d ++ rest))) rem p (omega (arith, l)),
            ru msg.msg_type (o ++ (d ++ rest)) (rem - length v) q' (omega (arith, l)),
            rh msg.to (d ++ rest) (rem - length v - length k) tt (omega (arith, l)),
            rb msg.msg_data rest (rem - length v - length k - length o) p' (omega (arith, l)),
          )
          (ap {B = Option (List ℕ) × (Msg × Input)}
            (λ r.
              (none, (record msg { sync_data = m0.sync_data }, record { unread = rest; rem = r })))
            q)

  -- A message that marshals without an error into an empty buffer is unmarshalled from what was
  -- written, before whatever follows, into any message: its fields are then those of the message, but
  -- for the synchronisation data, which is not marshalled.
  pub unmarshal_msg-marshal_msg :
      Writes s.u16 u16
      → Writes s.hash hash
      → Writes s.byte_slice slice
      → Reads Fits16 s.u16 u16
      → Reads Any s.hash hash
      → Reads Fits32 s.byte_slice slice
      → (msg m0 : Msg) (free rem rem' : ℕ) (rest : List ℕ) → IsMsg msg
      → let o = marshal_msg s msg (record { written = []; free = free; rem = rem }) in
        o.0 ≡ none
        → length o.1.written ≤ rem'
        → unmarshal_msg s m0 (record { unread = o.1.written ++ rest; rem = rem' }) ≡ (
          none,
          (
            record msg { sync_data = m0.sync_data },
            record { unread = rest; rem = rem' - length o.1.written },
          ),
        )
  unmarshal_msg-marshal_msg wu wh wb ru rh rb msg m0 free rem rem' rest p h l =
      let e =
        marshal_msg-encoded wu wh wb msg (record { written = []; free = free; rem = rem }) h in
      rw e (unmarshal_msg-encoded ru rh rb msg m0 rest rem' p (rw e at l))
