-- ===== src/Base/Arrays.antt =====
-- Fixed-size byte arrays, Go's `[n]byte`. Two arrays of one size are equal if their bytes are.
use mathlib.Core.HLevel.{is_prop→PathP}
use native.Mathlib.Nat.{ℕ_set}
use aw.Base.{
  ℕ, suc, ◌≡◌, ap, Bool, true, ◌↔◌, List, length, length-replicate, replicate, bytes_eq,
  bytes_eq_iff, Eq, ◌∷◌, ◌++◌, take, drop, length-take, length-append, length-drop, take-length,
  sym, ◌∙◌, arith,
}

pub record Bytes (n : ℕ) : Type 0 where
  pub bytes : List ℕ
  pub size : length bytes ≡ n

pub Bytes-ext : {n : ℕ} (a b : Bytes n) → a.bytes ≡ b.bytes → a ≡ b
Bytes-ext {n} a b e = λ i. record {
  bytes = e i;
  size = is_prop→PathP (λ j. length (e j) ≡ n) (λ j. ℕ_set _ _) a.size b.size i;
}

unfoldable pub beq_Bytes : {n : ℕ} → Bytes n → Bytes n → Bool
beq_Bytes a b = bytes_eq a.bytes b.bytes

pub beq_Bytes_iff : {n : ℕ} (a b : Bytes n) → (beq_Bytes a b ≡ true) ↔ (a ≡ b)
unfolding beq_Bytes
beq_Bytes_iff a b = (
  λ h. Bytes-ext a b ((bytes_eq_iff a.bytes b.bytes).0 h),
  λ e. (bytes_eq_iff a.bytes b.bytes).1 (ap (λ x. x.bytes) e),
)

instance abbrev pub Bytes_Eq : {n : ℕ} → Eq (Bytes n)
Bytes_Eq = record { beq = beq_Bytes; beq_iff = beq_Bytes_iff }

-- An array of zeros that ends in one given byte.
abbrev pub padded : (n : ℕ) → ℕ → Bytes (suc n)
padded n b = record { bytes = b ∷ replicate n 0; size = ap suc (length-replicate n 0) }

pub copied_size :
    {A : Type 0} (n : ℕ) (xs old : List A)
    → length old ≡ n
    → length (take n (xs ++ drop (length xs) old)) ≡ n
copied_size n xs old h = omega (
  arith,
  length-take n (xs ++ drop (length xs) old),
  length-append xs (drop (length xs) old),
  length-drop (length xs) old,
  h,
)

-- Go's `copy` of a slice into an array.
abbrev pub copy_into : {n : ℕ} → Bytes n → List ℕ → Bytes n
copy_into {n} old xs = record {
  bytes = take n (xs ++ drop (length xs) old.bytes);
  size = copied_size n xs old.bytes old.size;
}

pub copy_into-bytes :
    {n : ℕ} (old : Bytes n) (xs : List ℕ) → length xs ≡ n → (copy_into old xs).bytes ≡ xs
copy_into-bytes {n} old xs h =
    ap (λ k. take k (xs ++ drop (length xs) old.bytes)) (sym h)
    ∙ take-length xs (drop (length xs) old.bytes)

abbrev pub zeros : (n : ℕ) → Bytes n
zeros n = record { bytes = replicate n 0; size = length-replicate {A = ℕ} n 0 }
