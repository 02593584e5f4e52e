-- ===== src/Handshake/Ecies/Agreement.antt =====
-- Two peers that run `ECIES` of handshake/ecies.go with each other.
use aw.Base.{ℕ, ◌≡◌, ◌≢◌, inr, List, [], ◌++◌, nat_Eq, bytes_Eq, length, subst}
use aw.Codec.Gcm.{Aead, new_gcm_session}
use aw.Codec.Nonces.{new_gcm_session-Mirrors, Mirrors}
use aw.Handshake.Ecies.{Ecies, Local, session_key, succeeds, ecies}
use aw.Handshake.Ecies.Blocks.{session_key_comm, key_bytes, Fits}
use aw.Handshake.Ecies.Sides.{IsQuiet, key_of, name_of, ka, kb, wrote_key, wrote_secret, ended}

module _ (e : Ecies) (aead : Aead) where
  -- What `a` does with `b`: it writes its key at once, its sealed secret once the key of `b` is
  -- there, and ends with the session and the name of `b` once all that `b` writes is there.
  pub record Side (a b : Local e) (key : List ℕ) (ka ca1 ca2 kb cb1 cb2 : List ℕ) : Type 0 where
    pub at_once : (ecies e aead a []).0 ≡ ka
    pub after_key : (ecies e aead a kb).0 ≡ ka ++ ca1
    pub at_end : ecies e aead a (kb ++ (cb1 ++ cb2)) ≡ (
      ka ++ (ca1 ++ ca2),
      succeeds (new_gcm_session aead key (name_of e aead a) (name_of e aead b)) (name_of e aead b),
    )

  -- A message of 32 bytes is sealed to 145, and opened by the private key alone.
  abbrev pub Opens : Type 0
  Opens =
      (key : e.PrivKey) (random message : List ℕ)
      → length message ≡ 32
      → (sealed : List ℕ) × (e.encrypt random (e.pub_key key) message ≡ inr sealed)
        × (length sealed ≡ 145)
        × (e.decrypt key sealed ≡ inr message)

  -- Two peers with different identities, whose public keys fit 256 bits, whose randomness and
  -- writes do not fail, and whose cipher opens what it seals, run the handshake with each other to
  -- its end, without waiting for each other in a circle: each writes its key at once, its sealed
  -- secret once the other's key has arrived, and the rest once all has arrived. Each returns the
  -- other's identity, and their sessions, of one key, mirror each other.
  pub ecies-agrees :
      (a b : Local e)
      → IsQuiet e aead a
      → IsQuiet e aead b
      → Fits (key_of e aead a)
      → Fits (key_of e aead b)
      → Opens
      → name_of e aead a ≢ name_of e aead b
      → let key = session_key a.secret_key.bytes b.secret_key.bytes in
        (ka : List ℕ) × (ca1 : List ℕ) × (ca2 : List ℕ) × (kb : List ℕ) × (cb1 : List ℕ)
        × (cb2 : List ℕ) × Side a b key ka ca1 ca2 kb cb1 cb2
        × Side b a key kb cb1 cb2 ka ca1 ca2
        × Mirrors aead
            (new_gcm_session aead key (name_of e aead a) (name_of e aead b))
            (new_gcm_session aead key (name_of e aead b) (name_of e aead a))
  ecies-agrees a b qa qb fa fb opens differ =
      let sa = a.secret_key in
      let sb = b.secret_key in
      let (ca1, e1, l1, o1) = opens b.priv_key a.first_random sa.bytes sa.size in
      let (ca2, e2, l2, o2) = opens b.priv_key a.second_random sb.bytes sb.size in
      let (cb1, e3, l3, o3) = opens a.priv_key b.first_random sb.bytes sb.size in
      let (cb2, e4, l4, o4) = opens a.priv_key b.second_random sa.bytes sa.size in
      let key = session_key sa.bytes sb.bytes in
      (
        ka e aead a b qa fa fb ca1 ca2 cb1 cb2 e1 e2 o3 o4 l3 l4,
        ca1,
        ca2,
        kb e aead a b qa fa fb ca1 ca2 cb1 cb2 e1 e2 o3 o4 l3 l4,
        cb1,
        cb2,
        record {
          at_once = wrote_key e aead a b qa fa fb ca1 ca2 cb1 cb2 e1 e2 o3 o4 l3 l4;
          after_key = wrote_secret e aead a b qa fa fb ca1 ca2 cb1 cb2 e1 e2 o3 o4 l3 l4;
          at_end = ended e aead a b qa fa fb ca1 ca2 cb1 cb2 e1 e2 o3 o4 l3 l4;
        },
        record {
          at_once = wrote_key e aead b a qb fb fa cb1 cb2 ca1 ca2 e3 e4 o1 o2 l1 l2;
          after_key = wrote_secret e aead b a qb fb fa cb1 cb2 ca1 ca2 e3 e4 o1 o2 l1 l2;
          at_end =
              subst
                (λ k. ecies e aead b (key_bytes (key_of e aead a) ++ (ca1 ++ ca2)) ≡ (
                  key_bytes (key_of e aead b) ++ (cb1 ++ cb2),
                  succeeds (new_gcm_session aead k (name_of e aead b) (name_of e aead a))
                      (name_of e aead a),
                ))
                (session_key_comm sb.bytes sa.bytes)
                (ended e aead b a qb fb fa cb1 cb2 ca1 ca2 e3 e4 o1 o2 l1 l2);
        },
        (new_gcm_session-Mirrors aead key (name_of e aead a) (name_of e aead b) differ).0,
      )
