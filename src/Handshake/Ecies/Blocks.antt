-- ===== src/Handshake/Ecies/Blocks.antt =====
-- The blocks that the two peers of handshake/ecies.go exchange, and the key of their session.
use aw.Base.{
  ℕ, suc, ◌^◌, ◌<◌, ◌≡◌, refl, sym, ap, ◌∙◌, ◌⊎◌, inl, inr, true, false, List, [], ◌∷◌, ◌++◌, arith,
  ltb, nat_Eq, bytes_Eq, length, take, drop, take-length, drop-length, length-append, ap₂,
}
use aw.Base.Bits.{bit_xor_comm}
use aw.Base.BigEndian.{put_uint, uint_from, length-put_uint, uint_from-put_uint}
use aw.Handshake.Ecies.{PubKey, read_full, session_key}
use aw.Policy.{codes}

pub read_full-append :
    (xs ys : List ℕ) (n : ℕ) → length xs ≡ n → read_full (xs ++ ys) n ≡ inr (xs, ys)
unfolding read_full
read_full-append xs ys n h =
    let l : ltb (length (xs ++ ys)) n ≡ false = ground (arith, length-append xs ys) in
    rw (l, read_full)
      (ap₂ {C = List ℕ ⊎ (List ℕ × List ℕ)} (λ u v. inr (u, v))
        (ap (λ k. take k (xs ++ ys)) (sym h) ∙ take-length xs ys)
        (ap (λ k. drop k (xs ++ ys)) (sym h) ∙ drop-length xs ys))

pub read_full_none : (n : ℕ) → read_full [] (suc n) ≡ inl (codes "EOF")
unfolding read_full
read_full_none n = let l : ltb 0 (suc n) ≡ true = ground arith in rw (l, read_full) refl

pub session_key_comm : (xs ys : List ℕ) → session_key xs ys ≡ session_key ys xs
unfolding session_key
session_key_comm [] [] = refl
session_key_comm [] (y ∷ ys) = refl
session_key_comm (x ∷ xs) [] = refl
session_key_comm (x ∷ xs) (y ∷ ys) =
    ap₂ (λ z zs. z ∷ zs) (bit_xor_comm x y) (session_key_comm xs ys)

-- A public key as it is written.
abbrev pub key_bytes : PubKey → List ℕ
key_bytes (x, y) = put_uint 32 x ++ put_uint 32 y

abbrev pub Fits : PubKey → Type 0
Fits (x, y) = (x < 2 ^ 256) × (y < 2 ^ 256)

pub length-key_bytes : (k : PubKey) → length (key_bytes k) ≡ 64
length-key_bytes (x, y) = omega (
  arith,
  length-append (put_uint 32 x) (put_uint 32 y),
  length-put_uint 32 x,
  length-put_uint 32 y,
)

pub key_bytes-read :
    (k : PubKey)
    → Fits k
    → (uint_from 0 (take 32 (key_bytes k)), uint_from 0 (drop 32 (key_bytes k))) ≡ k
key_bytes-read (x, y) (h, h') =
    let l = length-put_uint 32 x in
    ap₂ {C = PubKey} (λ u v. (u, v))
      (ap (uint_from 0) (
          ap (λ n. take n (put_uint 32 x ++ put_uint 32 y)) (sym l)
          ∙ take-length (put_uint 32 x) (put_uint 32 y))
        ∙ uint_from-put_uint 32 x (omega arith))
      (ap (uint_from 0) (
          ap (λ n. drop n (put_uint 32 x ++ put_uint 32 y)) (sym l)
          ∙ drop-length (put_uint 32 x) (put_uint 32 y))
        ∙ uint_from-put_uint 32 y (omega arith))
