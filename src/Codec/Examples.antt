-- ===== src/Codec/Examples.antt =====
-- A buffer as a connection, and a cipher that adds sixteen zeros.
use aw.Base.{
  ℕ, ◌+◌, ◌-◌, ◌≡◌, refl, ap, ◌≢◌, inr, false, none, some, List, [], ◌∷◌, ◌++◌, arith, ltb,
  if◌then◌else◌, nat_Eq, bytes_Eq, length, take, drop, get_or, length-append, replicate,
  take-length, drop-length,
}
use aw.Base.Arrays.{padded}
use aw.Codec.{Io, plain_encoder, plain_decoder, length_prefix_decoder}
use aw.Codec.Gcm.{Aead, GcmSession, nonce_buf, new_gcm_session, gcm_encoder, gcm_decoder}
use aw.Codec.RoundTrip.{Reads, frame, length_prefix_decoder-frame}
use aw.Codec.Nonces.{
  Mirrors, new_gcm_session-Mirrors, send_all, gcm_encoder_reuses, gcm_decoder-gcm_encoder,
}

-- A read of more than there is takes all of it, and fails.
abbrev buffer : Io
buffer = record {
  Conn = List ℕ;
  write = λ w xs. record { n = length xs; error = none; writer = w ++ xs };
  read_full = λ r n. record {
    n = length (take n r);
    error = if ltb (length r) n then some (1 ∷ []) else none;
    stored = take n r;
    reader = drop n r;
  };
  pending = λ w. w;
}

enough : (xs ys : List ℕ) → ltb (length (xs ++ ys)) (length xs) ≡ false
enough xs ys = ground (arith, length-append xs ys)

buffer-Reads : Reads buffer
buffer-Reads r xs ys e =
    rw e
      (rw (enough xs ys) refl, ap length (take-length xs ys), take-length xs ys, drop-length xs ys)

abbrev zeros : ℕ → List ℕ
zeros n = replicate n 0

length_prefix_decoder-frame_example :
    let o =
      length_prefix_decoder zeros
        (plain_decoder buffer)
        (plain_decoder buffer)
        (frame buffer (7 ∷ 8 ∷ []) ++ (9 ∷ []))
        10
        10 in
    (o.error ≡ none) × (o.n ≡ 2) × (o.stored ≡ 7 ∷ 8 ∷ []) × (o.reader ≡ 9 ∷ [])
length_prefix_decoder-frame_example =
    length_prefix_decoder-frame buffer buffer-Reads zeros (frame buffer (7 ∷ 8 ∷ []) ++ (9 ∷ []))
      (7 ∷ 8 ∷ []) (9 ∷ []) 10 10 (omega arith) (omega arith) refl

-- Opening takes the zeros off.
abbrev zero_tag : Aead
zero_tag = record {
  Cipher = List ℕ;
  new_cipher = λ key. key;
  seal = λ c nonce xs. xs ++ zeros 16;
  unseal = λ c nonce xs. inr (take (length xs - 16) xs);
}

tag-length : (xs : List ℕ) → length (xs ++ zeros 16) ≡ length xs + 16
tag-length xs = length-append xs (zeros 16)

tag-off : (xs : List ℕ) → take (length (xs ++ zeros 16) - 16) (xs ++ zeros 16) ≡ xs
tag-off xs =
    let k : length (xs ++ zeros 16) - 16 ≡ length xs = omega (arith, tag-length xs) in
    rw k (take-length xs (zeros 16))

abbrev first_session : GcmSession zero_tag
first_session = new_gcm_session zero_tag (5 ∷ []) (padded 31 1) (padded 31 2)

abbrev second_session : GcmSession zero_tag
second_session = new_gcm_session zero_tag (5 ∷ []) (padded 31 2) (padded 31 1)

gcm_encoder_reuses_example :
    (send_all zero_tag
      (plain_encoder buffer)
      ((7 ∷ []) ∷ (8 ∷ []) ∷ [])
      (first_session, [])).0.write_nonce
    ≡ first_session.write_nonce
gcm_encoder_reuses_example =
    gcm_encoder_reuses zero_tag (plain_encoder buffer) ((7 ∷ []) ∷ (8 ∷ []) ∷ []) first_session []

-- What `read_full` gives from a sealed message.
sealed_read :
    plain_decoder buffer ((7 ∷ []) ++ zeros 16) 17 20
    ≡ record { n = 17; error = none; stored = (7 ∷ []) ++ zeros 16; reader = [] }
unfolding plain_decoder
sealed_read = refl

no_write_error : (plain_encoder buffer [] ((7 ∷ []) ++ zeros 16)).error ≡ none
unfolding plain_encoder
no_write_error = refl

parts_differ : padded 31 1 ≢ padded 31 2
parts_differ e = omega (arith, ap (λ x. get_or x.bytes 0 0) e)

sessions-Mirrors :
    Mirrors zero_tag first_session second_session
    × (nonce_buf first_session.write_nonce ≢ nonce_buf first_session.read_nonce)
sessions-Mirrors =
    new_gcm_session-Mirrors zero_tag (5 ∷ []) (padded 31 1) (padded 31 2) parts_differ

gcm_decoder-gcm_encoder_example :
    let o = gcm_encoder zero_tag (plain_encoder buffer) (first_session, []) (7 ∷ []) in
    let d =
      gcm_decoder zero_tag zeros
        (plain_decoder buffer)
        (second_session, (7 ∷ []) ++ zeros 16)
        1
        20 in
    (o.error ≡ none)
    × (d.error ≡ none)
    × (take d.n d.stored ≡ 7 ∷ [])
    × Mirrors zero_tag o.writer.0 d.reader.0
gcm_decoder-gcm_encoder_example =
    gcm_decoder-gcm_encoder zero_tag (λ c n xs. ap inr (tag-off xs)) (λ c n xs. tag-length xs) zeros
      (plain_encoder buffer) (plain_decoder buffer) first_session second_session []
      ((7 ∷ []) ++ zeros 16) [] (7 ∷ []) 20 sessions-Mirrors.0 no_write_error sealed_read
      (omega arith)
