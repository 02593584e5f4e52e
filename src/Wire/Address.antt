-- ===== src/Wire/Address.antt =====
-- `Address` of wire/addr.go. A Go string is the list of its bytes, a `[65]byte` signature an array.
pub mod Text
pub mod Binary
pub mod Signing
mod Examples
use aw.Base.{ℕ, List, replicate, length-replicate, Bool, ◌&&◌, ◌==◌, nat_Eq, bytes_Eq}
use aw.Base.Arrays.{Bytes, Bytes_Eq}

-- `id.Signature` is `[65]byte`: `DecodeString` copies 65 bytes into one.
abbrev pub Signature : Type 0
Signature = Bytes 65

-- `Protocol` is a uint8 with the values below.
abbrev pub undefined_protocol : ℕ
undefined_protocol = 0

abbrev pub tcp : ℕ
tcp = 1

abbrev pub udp : ℕ
udp = 2

abbrev pub web_socket : ℕ
web_socket = 3

pub record Address : Type 0 where
  pub protocol : ℕ
  pub value : List ℕ
  pub nonce : ℕ
  pub signature : Signature

abbrev pub empty_signature : Signature
empty_signature = record { bytes = replicate 65 0; size = length-replicate {A = ℕ} 65 0 }

unfoldable pub new_unsigned_address : ℕ → List ℕ → ℕ → Address
new_unsigned_address protocol value nonce = record {
  protocol = protocol;
  value = value;
  nonce = nonce;
  signature = empty_signature;
}

unfoldable pub equal : Address → Address → Bool
equal addr other =
    addr.protocol == other.protocol
    && addr.value == other.value
    && addr.nonce == other.nonce
    && addr.signature == other.signature
