-- ===== src/Codec/Nonces.antt =====
-- The nonces of codec/gcm.go as numbers of 96 bits, and how sessions use them.
use aw.Base.{
  ℕ, ◌+◌, ◌-◌, ◌*◌, ◌%◌, ◌^◌, ◌≤◌, ◌<◌, ◌≡◌, refl, sym, ap, ◌∙◌, ◌≢◌, ◌⊎◌, inl, inr, Bool, true,
  false, not, none, List, [], ◌∷◌, ◌++◌, arith, ltb, Bool-cases, Option-cases, ◌==◌, nat_Eq,
  bytes_Eq, length, take, drop, beq-eq, ap₂, get_or, take_all, take-length,
}
use aw.Base.Arrays.{Bytes-ext}
use aw.Base.BigEndian.{put_uint}
use aw.Dht.Distance.{Signatory}
use aw.Codec.{Read, Encoder, Decoder}
use aw.Codec.Gcm.{
  GcmNonce, succ, pred, next, nonce_buf, Aead, before_bytes, GcmSession, new_gcm_session,
  gcm_encoder, gcm_decoder,
}

abbrev pub value : GcmNonce → ℕ
value nonce = nonce.top * 2 ^ 64 + nonce.bottom

abbrev pub IsNonce : GcmNonce → Type 0
IsNonce nonce = (nonce.top < 2 ^ 32) × (nonce.bottom < 2 ^ 64)

succ_lem :
    (t b : ℕ) (d : Bool)
    → t < 2 ^ 32
    → b < 2 ^ 64
    → value (succ (record { top = t; bottom = b; count_down = d })) ≡ (t * 2 ^ 64 + b + 1) % 2 ^ 96
unfolding succ
succ_lem t b d h k = ground arith

pred_lem :
    (t b : ℕ) (d : Bool)
    → t < 2 ^ 32
    → b < 2 ^ 64
    → (value (pred (record { top = t; bottom = b; count_down = d })) + 1) % 2 ^ 96 ≡ t * 2 ^ 64 + b
unfolding pred
pred_lem t b d h k = ground arith

-- As a number of 96 bits, `succ` adds 1 and `pred` takes 1 away, both modulo 2 ^ 96.
pub succ-value :
    (nonce : GcmNonce)
    → IsNonce nonce
    → (value (succ nonce) ≡ (value nonce + 1) % 2 ^ 96)
      × ((value (pred nonce) + 1) % 2 ^ 96 ≡ value nonce)
succ-value nonce (a, b) = (
  succ_lem nonce.top nonce.bottom nonce.count_down a b,
  pred_lem nonce.top nonce.bottom nonce.count_down a b,
)

pub before_asym :
    (xs ys : List ℕ)
    → length xs ≡ length ys
    → (before_bytes xs ys ≡ not (before_bytes ys xs)) ⊎ (xs ≡ ys)
before_asym [] [] h = inr refl
before_asym [] (y ∷ ys) h = inl refl
before_asym (x ∷ xs) [] h = inl refl
before_asym (x ∷ xs) (y ∷ ys) h = elim (before_asym xs ys (omega arith)) [
  | inl e ↦ elim (Bool-cases (x == y)) [
    | inl q ↦ inl (ground (arith, e))
    | inr q ↦ inl (ground (arith, e))
  ]
  | inr e ↦ elim (Bool-cases (x == y)) [
    | inl q ↦ inr (ap₂ (λ a bs. a ∷ bs) (omega (arith, beq-eq x y q)) e)
    | inr q ↦ inl (ground arith)
  ]
]

ends_differ :
    nonce_buf (record { top = 2 ^ 32 - 1; bottom = 2 ^ 64 - 1; count_down = true })
    ≢ nonce_buf (record { top = 0; bottom = 0; count_down = false })
unfolding nonce_buf put_uint
ends_differ e = omega (arith, ap (λ xs. get_or xs 0 0) e)

module _ (aead : Aead) where
  -- The two peers of a session share its nonces: what the one writes with, the other reads with.
  abbrev pub Mirrors : GcmSession aead → GcmSession aead → Type 0
  Mirrors s t = (s.gcm ≡ t.gcm) × (s.write_nonce ≡ t.read_nonce) × (s.read_nonce ≡ t.write_nonce)

  -- Two peers with one key make sessions that mirror each other, with one nonce of each kind, which
  -- differ.
  pub new_gcm_session-Mirrors :
      (key : List ℕ) (self remote : Signatory)
      → self ≢ remote
      → let s = new_gcm_session aead key self remote in
        Mirrors s (new_gcm_session aead key remote self)
        × (nonce_buf s.write_nonce ≢ nonce_buf s.read_nonce)
  unfolding new_gcm_session
  new_gcm_session-Mirrors key self remote d =
      elim (before_asym self.bytes remote.bytes (self.size ∙ sym remote.size)) [
        | inl e ↦ elim (Bool-cases (before_bytes remote.bytes self.bytes)) [
          | inl q ↦ rw (e, q) ((refl, refl, refl), λ x. ends_differ (sym x))
          | inr q ↦ rw (e, q) ((refl, refl, refl), ends_differ)
        ]
        | inr e ↦ absurd (d (Bytes-ext self remote e))
      ]

  -- Messages sealed in a row, each by the session that the one before left.
  unfoldable pub send_all :
      {W : Type 0} → Encoder W → List (List ℕ) → GcmSession aead × W → GcmSession aead × W
  send_all enc [] s = s
  send_all enc (buf ∷ bufs) s = send_all enc bufs (gcm_encoder aead enc s buf).writer

  stays :
      {W : Type 0} (enc : Encoder W) (session : GcmSession aead) (w : W) (buf : List ℕ)
      → (gcm_encoder aead enc (session, w) buf).writer.0 ≡ session
  unfolding gcm_encoder next
  stays enc session w buf =
      elim (Option-cases
        (enc w (aead.seal session.gcm (nonce_buf session.write_nonce) buf)).error) [
          | inl e ↦ rw (e, gcm_encoder) refl
          | inr (x, e) ↦ rw (e, gcm_encoder) refl
        ]

  -- A session never leaves its first nonce: whatever was sent before, the next message is sealed with
  -- the same one.
  pub gcm_encoder_reuses :
      {W : Type 0} (enc : Encoder W) (bufs : List (List ℕ)) (session : GcmSession aead) (w : W)
      → (send_all enc bufs (session, w)).0.write_nonce ≡ session.write_nonce
  unfolding send_all
  gcm_encoder_reuses enc [] session w = refl
  gcm_encoder_reuses enc (buf ∷ bufs) session w =
      let s = (gcm_encoder aead enc (session, w) buf).writer in
      gcm_encoder_reuses enc bufs s.0 s.1 ∙ ap (λ x. x.write_nonce) (stays enc session w buf)

  -- A message that `Seal` sealed with this nonce and that arrives whole is opened, whatever carries it.
  pub gcm_decoder-gcm_encoder :
      ((c : aead.Cipher) (n xs : List ℕ) → aead.unseal c n (aead.seal c n xs) ≡ inr xs)
      → ((c : aead.Cipher) (n xs : List ℕ) → length (aead.seal c n xs) ≡ length xs + 16)
      → {W R : Type 0} (print : ℕ → List ℕ) (enc : Encoder W) (dec : Decoder R)
        (s t : GcmSession aead) (w : W) (r r' : R) (buf : List ℕ) (capacity : ℕ)
      → Mirrors s t
      → (enc w (aead.seal s.gcm (nonce_buf s.write_nonce) buf)).error ≡ none
      → dec r (length buf + 16) capacity ≡ record {
        n = length buf + 16;
        error = none;
        stored = aead.seal s.gcm (nonce_buf s.write_nonce) buf;
        reader = r';
      }
      → length buf + 16 ≤ capacity
      → let o = gcm_encoder aead enc (s, w) buf in
        let d = gcm_decoder aead print dec (t, r) (length buf) capacity in
        (o.error ≡ none)
        × (d.error ≡ none)
        × (take d.n d.stored ≡ buf)
        × Mirrors o.writer.0 d.reader.0
  unfolding gcm_encoder gcm_decoder next
  gcm_decoder-gcm_encoder open_seal length-seal {R = R} print enc dec s t w r r' buf capacity
        (g, wn, rn) we re h =
      let fits : ltb capacity (length buf + 16) ≡ false = ground arith in
      let sealed = aead.seal s.gcm (nonce_buf s.write_nonce) buf in
      let whole : take (length buf + 16) sealed ≡ sealed =
        ap (λ k. take k sealed) (sym (length-seal s.gcm (nonce_buf s.write_nonce) buf))
        ∙ take_all sealed in
      let opened : aead.unseal t.gcm (nonce_buf t.read_nonce) (take (length buf + 16) sealed)
          ≡ inr buf =
        ap (aead.unseal t.gcm (nonce_buf t.read_nonce)) whole
        ∙ ap₂ (λ c n. aead.unseal c (nonce_buf n) sealed) (sym g) (sym wn)
        ∙ open_seal s.gcm (nonce_buf s.write_nonce) buf in
      let arrives : gcm_decoder aead print dec (t, r) (length buf) capacity ≡ record {
        n = length buf;
        error = none;
        stored = buf ++ drop (length buf) sealed;
        reader = (t, r');
      } =
        rw (fits, gcm_decoder)
          (rw (ap (λ o. o.error) re, gcm_decoder)
            (rw
              (
                ap (λ o. aead.unseal t.gcm (nonce_buf t.read_nonce) (take o.n o.stored)) re
                    ∙ opened,
                gcm_decoder,
              )
              (ap {B = Read (GcmSession aead × R)}
                (λ o. record {
                  n = length buf;
                  error = none;
                  stored = buf ++ drop (length buf) o.stored;
                  reader = (t, o.reader);
                })
                re))) in
      rw (we, gcm_encoder)
        (
          refl,
          ap (λ d. d.error) arrives,
          ap (λ d. take d.n d.stored) arrives ∙ take-length buf (drop (length buf) sealed),
          (
            g ∙ sym (ap (λ d. d.reader.0.gcm) arrives),
            wn ∙ sym (ap (λ d. d.reader.0.read_nonce) arrives),
            rn ∙ sym (ap (λ d. d.reader.0.write_nonce) arrives),
          ),
        )
