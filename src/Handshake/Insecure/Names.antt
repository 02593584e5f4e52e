-- ===== src/Handshake/Insecure/Names.antt =====
-- Two peers at the ends of a connection that loses nothing.
use mathlib.Core.Option
use aw.Base.{
  ℕ, ◌≡◌, refl, sym, ap, ◌∙◌, false, Option, none, some, List, [], ◌++◌, arith, ltb, if◌then◌else◌,
  nat_Eq, bytes_Eq, length, take, drop, take-length, drop-length, length-append, subst,
}
use aw.Base.Arrays.{zeros, copy_into, copy_into-bytes, Bytes-ext}
use aw.Codec.{Written, Read, Io, plain_encoder, plain_decoder}
use aw.Dht.Distance.{Signatory}
use aw.Policy.{codes}
use aw.Handshake.Insecure.{
  Shaken, after_decoding, after_encoding, insecure, filter_remote, filter_shaken, filter,
}

-- One end: what will arrive at it, and what it has sent.
pub record End : Type 0 where
  pub incoming : List ℕ
  pub outgoing : List ℕ

abbrev pub send : End → List ℕ → Written End
send w buf = record {
  n = length buf;
  error = none;
  writer = record w { outgoing = w.outgoing ++ buf };
}

abbrev pub receive : End → ℕ → Read End
receive r size =
    if ltb (length r.incoming) size
    then record {
      n = length r.incoming;
      error = some (codes "unexpected EOF");
      stored = r.incoming;
      reader = record r { incoming = [] };
    }
    else record {
      n = size;
      error = none;
      stored = take size r.incoming;
      reader = record r { incoming = drop size r.incoming };
    }

abbrev pub pipe : Io
pipe = record { Conn = End; write = send; read_full = receive; pending = λ r. r.incoming }

receive_all :
    (b : Signatory) (rest sent : List ℕ)
    → receive (record { incoming = b.bytes ++ rest; outgoing = sent }) 32 ≡ record {
      n = 32;
      error = none;
      stored = b.bytes;
      reader = record { incoming = rest; outgoing = sent };
    }
receive_all b rest sent =
    let l : ltb (length (b.bytes ++ rest)) 32 ≡ false =
      ground (arith, length-append b.bytes rest, b.size) in
    let t : take 32 (b.bytes ++ rest) ≡ b.bytes =
      ap (λ n. take n (b.bytes ++ rest)) (sym b.size) ∙ take-length b.bytes rest in
    let d : drop 32 (b.bytes ++ rest) ≡ rest =
      ap (λ n. drop n (b.bytes ++ rest)) (sym b.size) ∙ drop-length b.bytes rest in
    rw l (λ i. record {
      n = 32;
      error = none;
      stored = t i;
      reader = record { incoming = d i; outgoing = sent };
    })

insecure-pipe :
    (a b : Signatory) (rest sent : List ℕ)
    → insecure a
        (record { incoming = b.bytes ++ rest; outgoing = sent })
        (plain_encoder pipe)
        (plain_decoder pipe)
      ≡ record {
        error = none;
        codecs = some (plain_encoder pipe, plain_decoder pipe);
        remote = b;
        conn = record { incoming = rest; outgoing = sent ++ a.bytes };
      }
unfolding insecure after_encoding after_decoding plain_encoder plain_decoder
insecure-pipe a b rest sent =
    ap {B = Shaken End} (λ r. after_decoding (plain_encoder pipe) (plain_decoder pipe) r r.error)
      (receive_all b rest (sent ++ a.bytes))
    ∙ ap {B = Shaken End}
        (λ x. record {
          error = none;
          codecs = some (plain_encoder pipe, plain_decoder pipe);
          remote = x;
          conn = record { incoming = rest; outgoing = sent ++ a.bytes };
        })
        (Bytes-ext (copy_into (zeros 32) b.bytes) b (copy_into-bytes (zeros 32) b.bytes b.size))

filter_remote-fields :
    (print : Signatory → List ℕ) (r : Shaken End) (o : Option (List ℕ))
    → r.error ≡ none
    → ((filter_remote print r o).error
        ≡ Option.map (λ e. codes "filter " ++ (print r.remote ++ (codes ": " ++ e))) o)
      × ((filter_remote print r o).remote ≡ r.remote)
      × ((filter_remote print r o).conn ≡ r.conn)
unfolding filter_remote
filter_remote-fields print r none h = (h, refl, refl)
filter_remote-fields print r (some e) h = (refl, refl, refl)

-- Over plain codecs and a connection that loses nothing, `Filter` of `Insecure` sends the own identity,
-- returns the other's, and leaves what follows it unread. Its error is that of the filter function
-- for the other's identity, if there is one.
pub filter-insecure :
    (print : Signatory → List ℕ) (f : Signatory → Option (List ℕ)) (a b : Signatory)
    (rest sent : List ℕ)
    → let r =
        filter print f
          (insecure a)
          (record { incoming = b.bytes ++ rest; outgoing = sent })
          (plain_encoder pipe)
          (plain_decoder pipe) in
      (r.error ≡ Option.map (λ e. codes "filter " ++ (print b ++ (codes ": " ++ e))) (f b))
      × (r.remote ≡ b)
      × (r.conn ≡ record { incoming = rest; outgoing = sent ++ a.bytes })
unfolding filter filter_shaken
filter-insecure print f a b rest sent =
    let done : Shaken End = record {
      error = none;
      codecs = some (plain_encoder pipe, plain_decoder pipe);
      remote = b;
      conn = record { incoming = rest; outgoing = sent ++ a.bytes };
    } in
    subst
      (λ r.
        ((filter_shaken print f r r.error).error
          ≡ Option.map (λ e. codes "filter " ++ (print b ++ (codes ": " ++ e))) (f b))
        × ((filter_shaken print f r r.error).remote ≡ b)
        × ((filter_shaken print f r r.error).conn
            ≡ record { incoming = rest; outgoing = sent ++ a.bytes }))
      (sym (insecure-pipe a b rest sent)) (filter_remote-fields print done (f b) refl)
