-- ===== src/Wire/SigAddr.antt =====
-- `SignatoryAndAddress` of wire/sigaddr.go.
use aw.Base.{ℕ, Option, none, some, List, ◌++◌, nat_Eq, bytes_Eq}
use aw.Dht.Distance.{Signatory}
use aw.Policy.{codes}
use aw.Wire.Address.{Address}
use aw.Wire.Address.Binary.{AddressSurge, marshal_address, unmarshal_address}
use aw.Wire.Marshal.{Buffer, Input, Marshaller, and_then}

pub record SignatoryAndAddress : Type 0 where
  pub signatory : Signatory
  pub address : Address

module _ (signatory : Marshaller Signatory) (s : AddressSurge) where
  unfoldable pub marshal_sig_addr : SignatoryAndAddress → Buffer → Option (List ℕ) × Buffer
  marshal_sig_addr x b0 =
      and_then "marshal signatory: " (signatory.marshal x.signatory b0)
        (λ b1. and_then "marshal address: " (marshal_address s x.address b1) (λ b2. (none, b2)))

  unfoldable pub after_address :
      Signatory
      → Option (List ℕ) × (Address × Input)
      → Option (List ℕ) × (SignatoryAndAddress × Input)
  after_address p (some e, (a, i)) =
      (some (codes "unmarshal address: " ++ e), (record { signatory = p; address = a }, i))
  after_address p (none, (a, i)) = (none, (record { signatory = p; address = a }, i))

  unfoldable pub after_signatory :
      Address
      → Option (List ℕ) × (Signatory × Input)
      → Option (List ℕ) × (SignatoryAndAddress × Input)
  after_signatory a0 (some e, (p, i)) =
      (some (codes "unmarshal signatory: " ++ e), (record { signatory = p; address = a0 }, i))
  after_signatory a0 (none, (p, i)) = after_address p (unmarshal_address s a0 i)

  unfoldable pub unmarshal_sig_addr :
      SignatoryAndAddress → Input → Option (List ℕ) × (SignatoryAndAddress × Input)
  unmarshal_sig_addr x0 i0 = after_signatory x0.address (signatory.unmarshal i0)
