-- ===== src/Wire/Marshal.antt =====
-- `Marshal` and `Unmarshal` of `Msg` in wire/wire.go. The marshallers of surge are parameters: each
-- writes to the front of a buffer, or reads from it, and counts against a quota `rem`.
pub mod RoundTrip
pub mod ByBytes
mod Examples
use Prim.Native.String.{String}
use aw.Base.{
  ℕ, zero, suc, ◌+◌, ◌-◌, ◌*◌, ◌/◌, ◌%◌, ◌^◌, ◌≤◌, ◌<◌, ◌≡◌, refl, sym, ap, ◌∙◌, ◌≢◌, ◌↔◌, ◌⊎◌, inl,
  inr, Bool, true, false, not, ◌&&◌, ◌||◌, Option, none, some, List, [], ◌∷◌, ◌++◌, arith, ltb, leb,
  if◌then◌else◌, Bool-cases, Option-cases, Eq, ◌==◌, nat_Eq, bytes_Eq, length, take, drop,
  get_elem?, All, beq_refl, beq-eq,
}
use aw.Base.Arrays.{Bytes}
use aw.Policy.{codes}
use aw.Wire.Msg.{Msg}

-- A buffer that is written to: what was written so far, how many bytes are free after it, the quota.
pub record Buffer : Type 0 where
  pub written : List ℕ
  pub free : ℕ
  pub rem : ℕ

-- A buffer that is read from: the bytes that are left, the quota.
pub record Input : Type 0 where
  pub unread : List ℕ
  pub rem : ℕ

-- The error, if there is one, and the buffer that is left; for reading also what was stored.
pub record Marshaller (A : Type 0) : Type 0 where
  pub marshal : A → Buffer → Option (List ℕ) × Buffer
  pub unmarshal : Input → Option (List ℕ) × (A × Input)

pub record Surge : Type 0 where
  pub u16 : Marshaller ℕ
  pub hash : Marshaller (Bytes 32)
  pub byte_slice : Marshaller (List ℕ)

-- `if err != nil { return buf, rem, fmt.Errorf(text, err) }`, else go on.
unfoldable pub and_then :
    String
    → Option (List ℕ) × Buffer
    → (Buffer → Option (List ℕ) × Buffer)
    → Option (List ℕ) × Buffer
and_then text (some e, b) next = (some (codes text ++ e), b)
and_then text (none, b) next = next b

unfoldable pub store :
    {A : Type 0}
    → String
    → Option (List ℕ) × (A × Input)
    → (A → Msg)
    → (Msg → Input → Option (List ℕ) × (Msg × Input))
    → Option (List ℕ) × (Msg × Input)
store text (some e, (a, input)) set next = (some (codes text ++ e), (set a, input))
store text (none, (a, input)) set next = next (set a) input

module _ (s : Surge) where
  unfoldable pub marshal_msg : Msg → Buffer → Option (List ℕ) × Buffer
  marshal_msg msg b0 = and_then "marshal version: " (s.u16.marshal msg.version b0) (λ b1.
      and_then "marshal type: " (s.u16.marshal msg.msg_type b1) (λ b2.
        and_then "marshal to: " (s.hash.marshal msg.to b2) (λ b3.
          and_then "marshal data: " (s.byte_slice.marshal msg.msg_data b3) (λ b4. (none, b4)))))

  unfoldable pub unmarshal_msg : Msg → Input → Option (List ℕ) × (Msg × Input)
  unmarshal_msg m0 i0 =
      store "unmarshal version: " (s.u16.unmarshal i0) (λ x. record m0 { version = x })
        (λ m1 i1.
          store "unmarshal type: " (s.u16.unmarshal i1) (λ x. record m1 { msg_type = x })
            (λ m2 i2.
              store "unmarshal to: " (s.hash.unmarshal i2) (λ x. record m2 { to = x })
                (λ m3 i3.
                  store "unmarshal data: " (s.byte_slice.unmarshal i3)
                    (λ x. record m3 { msg_data = x }) (λ m4 i4. (none, (m4, i4))))))
