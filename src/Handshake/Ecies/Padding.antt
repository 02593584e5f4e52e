-- ===== src/Handshake/Ecies/Padding.antt =====
-- `paddedTo32` and `readBits` of handshake/ecies.go, which write a big integer as bytes.
use aw.Base.{
  ℕ, zero, suc, ◌/◌, ◌%◌, ◌^◌, ◌≤◌, ◌<◌, ◌≡◌, refl, sym, ap, ◌∙◌, inl, inr, true, false, Option,
  none, some, List, [], ◌∷◌, ◌++◌, arith, ltb, if◌then◌else◌, Bool-cases, ◌==◌, nat_Eq, bytes_Eq,
  length, take, beq-eq, replicate, append_assoc, ap₂, append-nil,
}
use aw.Base.BigEndian.{put_uint}
use native.Mathlib.Nat.{pow-suc, pow-zero}

-- `Bits` of math/big on a machine with words of 64 bits: the words of a number, the lowest first, and
-- none for 0. A number is fuel enough for itself.
unfoldable pub words : ℕ → ℕ → List ℕ
words zero n = []
words (suc fuel) n = let rest = words fuel (n / 2 ^ 64) in if n == 0 then [] else n % 2 ^ 64 ∷ rest

-- `BitLen` of math/big.
unfoldable pub bit_len : ℕ → ℕ → ℕ
bit_len zero n = 0
bit_len (suc fuel) n = let rest = bit_len fuel (n / 2) in if n == 0 then 0 else suc rest

-- The loop over the bytes of a word. The counter `i`, and what is written behind it.
unfoldable pub read_word : ℕ → ℕ → ℕ → List ℕ → ℕ × List ℕ
read_word zero d i written = (i, written)
read_word (suc j) d zero written = (zero, written)
read_word (suc j) d (suc i) written = read_word j (d / 256) i (d % 256 ∷ written)

unfoldable pub read_words : List ℕ → ℕ × List ℕ → ℕ × List ℕ
read_words [] (i, written) = (i, written)
read_words (d ∷ ds) (i, written) = read_words ds (read_word 8 d i written)

unfoldable pub filled : List ℕ → ℕ × List ℕ → List ℕ
filled buf (i, written) = take i buf ++ written

unfoldable pub read_bits : ℕ → List ℕ → List ℕ
read_bits bigint buf = filled buf (read_words (words bigint bigint) (length buf, []))

-- `none` is Go's panic.
unfoldable pub padded_to32 : ℕ → Option (List ℕ)
padded_to32 bigint =
    if ltb 32 (bit_len bigint bigint / 8) then none else some (read_bits bigint (replicate 32 0))

-- Multiples of the bytes of a word, which compute.
abbrev plus : ℕ → ℕ → ℕ
plus zero m = m
plus (suc k) m = suc (plus k m)

abbrev eights : ℕ → ℕ
eights zero = 0
eights (suc k) = plus 8 (eights k)

abbrev shift : ℕ → ℕ → ℕ
shift zero n = n
shift (suc k) n = shift k (n / 256)

read_word-put_uint :
    (k d i : ℕ) (written : List ℕ) → read_word k d (plus k i) written ≡ (i, put_uint k d ++ written)
unfolding read_word put_uint
read_word-put_uint zero d i written = refl
read_word-put_uint (suc k) d i written =
    read_word-put_uint k (d / 256) i (d % 256 ∷ written)
    ∙ ap {B = ℕ × List ℕ} (λ xs. (i, xs))
        (sym (append_assoc (put_uint k (d / 256)) (d % 256 ∷ []) written))

put_uint-plus : (k m n : ℕ) → put_uint (plus k m) n ≡ put_uint m (shift k n) ++ put_uint k n
unfolding put_uint
put_uint-plus zero m n = sym (append-nil (put_uint m n))
put_uint-plus (suc k) m n =
    ap (λ xs. xs ++ (n % 256 ∷ [])) (put_uint-plus k m (n / 256))
    ∙ append_assoc (put_uint m (shift k (n / 256))) (put_uint k (n / 256)) (n % 256 ∷ [])

shift_word : (n : ℕ) → shift 8 n ≡ n / 2 ^ 64
shift_word n = omega arith

put_uint_word : (n : ℕ) → put_uint 8 (n % 2 ^ 64) ≡ put_uint 8 n
unfolding put_uint
put_uint_word n =
    let w = n % 2 ^ 64 in
    let e0 : w % 256 ≡ n % 256 = omega arith in
    let e1 : w / 256 % 256 ≡ n / 256 % 256 = omega arith in
    let e2 : w / 256 / 256 % 256 ≡ n / 256 / 256 % 256 = omega arith in
    let e3 : w / 256 / 256 / 256 % 256 ≡ n / 256 / 256 / 256 % 256 = omega arith in
    let e4 : w / 256 / 256 / 256 / 256 % 256 ≡ n / 256 / 256 / 256 / 256 % 256 = omega arith in
    let e5 : w / 256 / 256 / 256 / 256 / 256 % 256 ≡ n / 256 / 256 / 256 / 256 / 256 % 256 =
      omega arith in
    let e6 : w / 256 / 256 / 256 / 256 / 256 / 256 % 256
        ≡ n / 256 / 256 / 256 / 256 / 256 / 256 % 256 =
      omega arith in
    let e7 : w / 256 / 256 / 256 / 256 / 256 / 256 / 256 % 256
        ≡ n / 256 / 256 / 256 / 256 / 256 / 256 / 256 % 256 =
      omega arith in
    λ i. e7 i ∷ e6 i ∷ e5 i ∷ e4 i ∷ e3 i ∷ e2 i ∷ e1 i ∷ e0 i ∷ []

replicate-snoc : (k : ℕ) → replicate k 0 ++ (0 ∷ []) ≡ replicate {A = ℕ} (suc k) 0
replicate-snoc zero = refl
replicate-snoc (suc k) = ap (◌∷◌ 0) (replicate-snoc k)

put_uint_zero : (k : ℕ) → put_uint k 0 ≡ replicate k 0
unfolding put_uint
put_uint_zero zero = refl
put_uint_zero (suc k) = ap (λ xs. xs ++ (0 ∷ [])) (put_uint_zero k) ∙ replicate-snoc k

read_words_full : (ds : List ℕ) (written : List ℕ) → read_words ds (0, written) ≡ (0, written)
unfolding read_words read_word
read_words_full [] written = refl
read_words_full (d ∷ ds) written = read_words_full ds written

take-replicate : (k n : ℕ) → k ≤ n → take k (replicate {A = ℕ} n 0) ≡ replicate k 0
take-replicate zero n h = refl
take-replicate (suc k) zero h = absurd (omega arith)
take-replicate (suc k) (suc n) h = ap (◌∷◌ 0) (take-replicate k n (omega arith))

put_uint_none : (n : ℕ) (written : List ℕ) → written ≡ put_uint 0 n ++ written
unfolding put_uint
put_uint_none n written = refl

read_words-words :
    (fuel n k size : ℕ) (written : List ℕ)
    → n ≤ fuel
    → eights k ≤ size
    → filled (replicate size 0) (read_words (words fuel n) (eights k, written))
      ≡ put_uint (eights k) n ++ written
unfolding words read_words filled
read_words-words zero n k size written h l =
    let z : n ≡ 0 = omega arith in
    ap (λ xs. xs ++ written)
      (take-replicate (eights k) size l
        ∙ (sym (put_uint_zero (eights k)) ∙ ap (put_uint (eights k)) (sym z)))
read_words-words (suc fuel) n zero size written h l =
    ap (filled (replicate size 0)) (read_words_full (words (suc fuel) n) written)
    ∙ put_uint_none n written
read_words-words (suc fuel) n (suc k) size written h l = elim (Bool-cases (n == 0)) [
  | inl z ↦ rw z (
      ap (λ xs. xs ++ written)
        (take-replicate (eights (suc k)) size l
          ∙ (sym (put_uint_zero (eights (suc k)))
              ∙ ap (put_uint (eights (suc k))) (sym (beq-eq n 0 z)))))
  | inr z ↦ rw z (
      ap (λ x. filled (replicate size 0) (read_words (words fuel (n / 2 ^ 64)) x))
        (read_word-put_uint 8 (n % 2 ^ 64) (eights k) written)
      ∙ (read_words-words fuel (n / 2 ^ 64) k size (put_uint 8 (n % 2 ^ 64) ++ written)
            (ground arith) (omega arith)
          ∙ (sym (append_assoc (put_uint (eights k) (n / 2 ^ 64)) (put_uint 8 (n % 2 ^ 64)) written)
              ∙ ap (λ xs. xs ++ written)
                  (ap₂ (λ a b. put_uint (eights k) a ++ b) (sym (shift_word n)) (put_uint_word n)
                    ∙ sym (put_uint-plus 8 (eights k) n)))))
]

pow_pos : (k : ℕ) → 0 < 2 ^ k
pow_pos zero = omega (arith, pow-zero 2)
pow_pos (suc k) = omega (arith, pow-suc 2 k, pow_pos k)

bit_len-le :
    (fuel n k : ℕ) → n ≤ fuel → (bit_len fuel n ≤ k → n < 2 ^ k) × (n < 2 ^ k → bit_len fuel n ≤ k)
unfolding bit_len
bit_len-le zero n zero h = (λ x. omega (arith, pow-zero 2), λ x. omega arith)
bit_len-le zero n (suc k) h =
    (λ x. omega (arith, pow-suc 2 k, (bit_len-le zero n k h).0 (omega arith)), λ x. omega arith)
bit_len-le (suc fuel) n zero h = elim (Bool-cases (n == 0)) [
  | inl z ↦ rw z (λ x. omega (arith, pow-zero 2, beq-eq n 0 z), λ x. omega arith)
  | inr z ↦ rw z (λ x. absurd (omega arith), λ x. absurd (ground (arith, pow-zero 2)))
]
bit_len-le (suc fuel) n (suc k) h = elim (Bool-cases (n == 0)) [
  | inl z ↦ rw z (λ x. omega (arith, beq-eq n 0 z, pow_pos (suc k)), λ x. omega arith)
  | inr z ↦
      let (p, q) = bit_len-le fuel (n / 2) k (ground arith) in
      rw z (
        λ x. omega (arith, pow-suc 2 k, p (omega arith)),
        λ x. omega (arith, q (omega (arith, pow-suc 2 k))),
      )
]

-- A number below 2 ^ 263 is written as the 32 bytes of its lowest 256 bits, the highest byte first; a
-- larger one panics.
pub padded_to32_lem :
    (n : ℕ)
    → (n < 2 ^ 263 → padded_to32 n ≡ some (put_uint 32 n)) × (2 ^ 263 ≤ n → padded_to32 n ≡ none)
unfolding padded_to32 read_bits
padded_to32_lem n =
    let (p, q) = bit_len-le n n 263 (omega arith) in
    (
      λ h.
          let t : ltb 32 (bit_len n n / 8) ≡ false = ground (arith, q h) in
          rw t (
            ap some (
              read_words-words n n 4 32 [] (omega arith) (omega arith)
              ∙ append-nil (put_uint 32 n))),
      λ h.
          let big : 263 < bit_len n n = elim (Bool-cases (ltb 263 (bit_len n n))) [
            | inl b ↦ ground arith
            | inr b ↦ absurd (omega (arith, h, p (ground arith)))
          ] in
          let t : ltb 32 (bit_len n n / 8) ≡ true = ground arith in rw t refl,
    )
