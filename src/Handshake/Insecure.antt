-- ===== src/Handshake/Insecure.antt =====
-- `Insecure` of handshake/handshake.go and `Filter` of handshake/filter.go, over any codecs.
pub mod Names
use aw.Base.{
  ℕ, zero, suc, ◌+◌, ◌-◌, ◌*◌, ◌/◌, ◌%◌, ◌^◌, ◌≤◌, ◌<◌, ◌≡◌, refl, sym, ap, ◌∙◌, ◌≢◌, ◌↔◌, ◌⊎◌, inl,
  inr, Bool, true, false, not, ◌&&◌, ◌||◌, Option, none, some, List, [], ◌∷◌, ◌++◌, arith, ltb, leb,
  if◌then◌else◌, Bool-cases, Option-cases, Eq, ◌==◌, nat_Eq, bytes_Eq, length, take, drop,
  get_elem?, All, beq_refl, beq-eq,
}
use aw.Base.Arrays.{zeros, copy_into}
use aw.Codec.{Written, Read, Encoder, Decoder}
use aw.Dht.Distance.{Signatory}
use aw.Policy.{codes}

-- What a handshake returns, and the connection that it leaves. The codecs are `none` where they are
-- nil.
pub record Shaken (C : Type 0) : Type 0 where
  pub error : Option (List ℕ)
  pub codecs : Option (Encoder C × Decoder C)
  pub remote : Signatory
  pub conn : C

abbrev pub Handshake : Type 0 → Type 0
Handshake C = C → Encoder C → Decoder C → Shaken C

module _ {C : Type 0} where
  unfoldable pub after_decoding : Encoder C → Decoder C → Read C → Option (List ℕ) → Shaken C
  after_decoding enc dec r (some e) = record {
    error = some (codes "decoding remote id: " ++ e);
    codecs = none;
    remote = zeros 32;
    conn = r.reader;
  }
  after_decoding enc dec r none = record {
    error = none;
    codecs = some (enc, dec);
    remote = copy_into (zeros 32) r.stored;
    conn = r.reader;
  }

  unfoldable pub after_encoding : Encoder C → Decoder C → Written C → Option (List ℕ) → Shaken C
  after_encoding enc dec w (some e) = record {
    error = some (codes "encoding local id: " ++ e);
    codecs = none;
    remote = zeros 32;
    conn = w.writer;
  }
  after_encoding enc dec w none = let r = dec w.writer 32 32 in after_decoding enc dec r r.error

  unfoldable pub insecure : Signatory → Handshake C
  insecure self conn enc dec = let w = enc conn self.bytes in after_encoding enc dec w w.error

  unfoldable pub filter_remote : (Signatory → List ℕ) → Shaken C → Option (List ℕ) → Shaken C
  filter_remote print r none = r
  filter_remote print r (some e) = record r {
    error = some (codes "filter " ++ (print r.remote ++ (codes ": " ++ e)));
  }

  unfoldable pub filter_shaken :
      (Signatory → List ℕ) → (Signatory → Option (List ℕ)) → Shaken C → Option (List ℕ) → Shaken C
  filter_shaken print f r (some e) = r
  filter_shaken print f r none = filter_remote print r (f r.remote)

  -- `print` is `%v` of an identity.
  unfoldable pub filter :
      (Signatory → List ℕ) → (Signatory → Option (List ℕ)) → Handshake C → Handshake C
  filter print f h conn enc dec = let r = h conn enc dec in filter_shaken print f r r.error
