-- ===== src/Base/BigEndian.antt =====
-- `binary.BigEndian` of Go's standard library: an unsigned integer as bytes, the highest first.
use aw.Base.{
  ℕ, zero, suc, ◌+◌, ◌*◌, ◌/◌, ◌%◌, ◌^◌, ◌<◌, ◌≡◌, refl, List, [], ◌∷◌, ◌++◌, arith, nat_Eq,
  bytes_Eq, length, length-append,
}
use native.Mathlib.Nat.{pow-suc, pow-zero}

unfoldable pub put_uint : ℕ → ℕ → List ℕ
put_uint zero n = []
put_uint (suc k) n = put_uint k (n / 256) ++ (n % 256 ∷ [])

unfoldable pub uint_from : ℕ → List ℕ → ℕ
uint_from acc [] = acc
uint_from acc (b ∷ bs) = uint_from (acc * 256 + b) bs

uint_from-snoc :
    (acc : ℕ) (bs : List ℕ) (b : ℕ) → uint_from acc (bs ++ (b ∷ [])) ≡ uint_from acc bs * 256 + b
unfolding uint_from
uint_from-snoc acc [] b = refl
uint_from-snoc acc (c ∷ bs) b = uint_from-snoc (acc * 256 + c) bs b

pub length-put_uint : (k n : ℕ) → length (put_uint k n) ≡ k
unfolding put_uint
length-put_uint zero n = refl
length-put_uint (suc k) n =
    rw (length-append (put_uint k (n / 256)) (n % 256 ∷ []), length-put_uint k (n / 256))
      (omega arith)

pub uint_from-put_uint : (k n : ℕ) → n < 256 ^ k → uint_from 0 (put_uint k n) ≡ n
unfolding put_uint uint_from
uint_from-put_uint zero n h = omega (arith, rw (pow-zero 256) at h)
uint_from-put_uint (suc k) n h =
    rw
      (
        uint_from-snoc 0 (put_uint k (n / 256)) (n % 256),
        uint_from-put_uint k (n / 256) (omega (arith, rw (pow-suc 256 k) at h)),
      )
      (omega arith)
