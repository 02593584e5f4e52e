-- ===== src/Handshake/Ecies/Sides.antt =====
-- One of two peers that run `ECIES` of handshake/ecies.go with each other.
use aw.Base.{
  ℕ, ◌≡◌, refl, sym, ap, ◌∙◌, ◌⊎◌, inl, inr, false, Option, none, some, List, [], ◌++◌, arith, ltb,
  if◌then◌else◌, nat_Eq, bytes_Eq, length, beq_refl, append_assoc, ap₂, append-nil,
}
use aw.Base.BigEndian.{put_uint}
use aw.Codec.Gcm.{Aead, new_gcm_session}
use aw.Dht.Distance.{Signatory}
use aw.Handshake.Ecies.Padding.{padded_to32, padded_to32_lem}
use aw.Handshake.Ecies.{
  PubKey, Ecies, Local, read_full, session_key, Writing, Reading, write_check, return_secret,
  write_secret, send_secret, writer, after_check, check_block, after_secret, secret_block,
  key_block, reader, EciesResult, succeeds, panics, conclude, run, ecies,
  size_of_encrypted_secret_key, try_write, fails,
}
use aw.Policy.{codes}
use aw.Handshake.Ecies.Blocks.{
  read_full-append, read_full_none, key_bytes, Fits, length-key_bytes, key_bytes-read,
}

module _ (e : Ecies) (aead : Aead) where
  -- Neither the randomness nor a write fails.
  pub record IsQuiet (l : Local e) : Type 0 where
    pub random : l.rand_error ≡ none
    pub write_x : l.x_error ≡ none
    pub write_y : l.y_error ≡ none
    pub write_secret_key : l.secret_error ≡ none
    pub write_check_key : l.check_error ≡ none

  abbrev pub key_of : Local e → PubKey
  key_of l = e.pub_key l.priv_key

  abbrev pub name_of : Local e → Signatory
  name_of l = e.new_signatory (key_of l)

  -- One side `a`, which writes `ca1` and `ca2`, and reads `cb1` and `cb2` from `b`.
  module _ (a b : Local e) (quiet : IsQuiet a) (fits_a : Fits (key_of a)) (fits_b : Fits (key_of b))
      (ca1 ca2 cb1 cb2 : List ℕ)
      (seal1 : e.encrypt a.first_random (key_of b) a.secret_key.bytes ≡ inr ca1)
      (seal2 : e.encrypt a.second_random (key_of b) b.secret_key.bytes ≡ inr ca2)
      (open1 : e.decrypt a.priv_key cb1 ≡ inr b.secret_key.bytes)
      (open2 : e.decrypt a.priv_key cb2 ≡ inr a.secret_key.bytes) (size1 : length cb1 ≡ 145)
      (size2 : length cb2 ≡ 145) where
    abbrev pub ka : List ℕ
    ka = key_bytes (key_of a)

    abbrev pub kb : List ℕ
    kb = key_bytes (key_of b)

    abbrev reading_of : Option PubKey → Option (List ℕ) → List ℕ ⊎ (PubKey × List ℕ) → Reading
    reading_of remote secret result = record {
      remote = remote;
      remote_secret = secret;
      result = result;
    }

    key_read :
        (rest : List ℕ)
        → reader e a (kb ++ rest)
          ≡ secret_block e a (key_of b) (read_full rest size_of_encrypted_secret_key)
    unfolding reader key_block
    key_read rest =
        ap (key_block e a) (read_full-append kb rest 64 (length-key_bytes (key_of b)))
        ∙ ap (λ k. secret_block e a k (read_full rest size_of_encrypted_secret_key))
            (key_bytes-read (key_of b) fits_b)

    secret_read :
        (rest : List ℕ)
        → reader e a (kb ++ (cb1 ++ rest))
          ≡ check_block e a
              (key_of b)
              b.secret_key.bytes
              (read_full rest size_of_encrypted_secret_key)
    unfolding secret_block after_secret
    secret_read rest =
        key_read (cb1 ++ rest)
        ∙ (ap (secret_block e a (key_of b)) (read_full-append cb1 rest 145 size1)
            ∙ ap (after_secret e a (key_of b) rest) open1)

    read_nothing : (reader e a []).remote ≡ none
    unfolding reader key_block
    read_nothing = ap (λ x. (key_block e a x).remote) (read_full_none 63)

    read_key :
        reader e a kb
        ≡ reading_of (some (key_of b)) none (inl (codes "read remote secret key: " ++ codes "EOF"))
    unfolding secret_block
    read_key =
        ap (reader e a) (sym (append-nil kb))
        ∙ (key_read [] ∙ ap (secret_block e a (key_of b)) (read_full_none 144))

    read_all :
        reader e a (kb ++ (cb1 ++ cb2))
        ≡ reading_of
            (some (key_of b))
            (some b.secret_key.bytes)
            (inr (key_of b, b.secret_key.bytes))
    unfolding check_block after_check
    read_all =
        secret_read cb2
        ∙ (ap (check_block e a (key_of b) b.secret_key.bytes)
              (ap (λ x. read_full x 145) (sym (append-nil cb2)) ∙ read_full-append cb2 [] 145 size2)
            ∙ (ap (after_check e a (key_of b) b.secret_key.bytes) open2
                ∙ ap
                    (λ t. reading_of (some (key_of b)) (some b.secret_key.bytes) (
                      if t
                      then inr (key_of b, b.secret_key.bytes)
                      else inl (codes "check local secret key")))
                    (beq_refl a.secret_key.bytes)))

    writer_quiet :
        (x y : List ℕ) (r : Reading)
        → writer e a x y r ≡ send_secret e a (x ++ y) r.remote r.remote_secret
    unfolding writer
    writer_quiet x y r =
        let next = send_secret e a (x ++ y) r.remote r.remote_secret in
        ap
          (λ o.
            try_write e [] (codes "write local pubkey x: ") o
              (try_write e x (codes "write local pubkey y: ") a.y_error next))
          quiet.write_x
        ∙ ap (λ o. try_write e x (codes "write local pubkey y: ") o next) quiet.write_y

    send_first :
        (before : List ℕ) (secret : Option (List ℕ))
        → send_secret e a before (some (key_of b)) secret
          ≡ return_secret e a (before ++ ca1) (key_of b) secret
    unfolding send_secret write_secret
    send_first before secret =
        ap (write_secret e a before (key_of b) secret) seal1
        ∙ ap
            (λ o.
              try_write e before (codes "write local secret key: ") o
                (return_secret e a (before ++ ca1) (key_of b) secret))
            quiet.write_secret_key

    send_last :
        (before : List ℕ)
        → return_secret e a before (key_of b) (some b.secret_key.bytes)
          ≡ record { written = before ++ ca2; error = none }
    unfolding return_secret write_check
    send_last before =
        ap (write_check e a before) seal2
        ∙ ap
            (λ o.
              try_write e before (codes "write remote secret key: ") o
                (record { written = before ++ ca2; error = none }))
            quiet.write_check_key

    started :
        (incoming : List ℕ)
        → let r = reader e a incoming in
          let w = send_secret e a ka r.remote r.remote_secret in
          ecies e aead a incoming ≡ (w.written, conclude e aead a w.error r.result)
    unfolding ecies run
    started incoming =
        let (x, y) = key_of a in
        let px = (padded_to32_lem (key_of a).0).0 (omega (arith, fits_a.0)) in
        let py = (padded_to32_lem (key_of a).1).0 (omega (arith, fits_a.1)) in
        let r = reader e a incoming in
        ap {B = List ℕ × EciesResult e aead}
          (λ o. elim o [
            | some err ↦ ([], fails (codes "generate local secret key: " ++ err))
            | none ↦ run e aead a incoming (padded_to32 (key_of a).0) (padded_to32 (key_of a).1)
          ])
          quiet.random
        ∙ (ap₂ (run e aead a incoming) px py
            ∙ ap {B = List ℕ × EciesResult e aead}
                (λ w. (w.written, conclude e aead a w.error r.result))
                (writer_quiet (put_uint 32 (key_of a).0) (put_uint 32 (key_of a).1) r))

    -- Nothing has arrived yet; the key has arrived; everything has.
    pub wrote_key : (ecies e aead a []).0 ≡ ka
    unfolding send_secret
    wrote_key =
        ap (λ p. p.0) (started [])
        ∙ ap (λ o. (send_secret e a ka o (reader e a []).remote_secret).written) read_nothing

    pub wrote_secret : (ecies e aead a kb).0 ≡ ka ++ ca1
    unfolding return_secret
    wrote_secret =
        ap (λ p. p.0) (started kb)
        ∙ (ap (λ r. (send_secret e a ka r.remote r.remote_secret).written) read_key
            ∙ ap (λ w. w.written) (send_first ka none))

    pub ended : ecies e aead a (kb ++ (cb1 ++ cb2)) ≡ (
      ka ++ (ca1 ++ ca2),
      succeeds
          (new_gcm_session aead
            (session_key a.secret_key.bytes b.secret_key.bytes)
            (name_of a)
            (name_of b))
          (name_of b),
    )
    unfolding conclude
    ended =
        let w = send_secret e a ka (some (key_of b)) (some b.secret_key.bytes) in
        let t : ltb (length b.secret_key.bytes) 32 ≡ false = rw b.secret_key.size refl in
        let session =
          new_gcm_session aead (session_key a.secret_key.bytes b.secret_key.bytes) (name_of a)
            (name_of b) in
        let all_sent =
          send_first ka (some b.secret_key.bytes)
          ∙ (send_last (ka ++ ca1)
              ∙ ap {B = Writing} (λ xs. record { written = xs; error = none })
                  (append_assoc ka ca1 ca2)) in
        started (kb ++ (cb1 ++ cb2))
        ∙ (ap {B = List ℕ × EciesResult e aead}
              (λ r. (
                (send_secret e a ka r.remote r.remote_secret).written,
                conclude e aead a (send_secret e a ka r.remote r.remote_secret).error r.result,
              ))
              read_all
            ∙ (ap {B = List ℕ × EciesResult e aead}
                  (λ v. (v.written, conclude e aead a v.error (inr (key_of b, b.secret_key.bytes))))
                  all_sent
                ∙ ap {B = List ℕ × EciesResult e aead}
                    (λ u. (ka ++ (ca1 ++ ca2), if u then panics else succeeds session (name_of b)))
                    t))
