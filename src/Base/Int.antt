-- ===== src/Base/Int.antt =====
-- Go's `int` where its sign matters: whole numbers without a bound, by one step up or down.
use aw.Base.{
  ℕ, zero, suc, ◌≡◌, refl, Bool, true, false, ltb, nat_Eq, bytes_Eq, if◌then◌else◌, ◌+◌, ◌<◌, ◌==◌,
  ◌^◌, arith, ◌-◌,
}

-- `negsuc n` is -(n + 1).
pub data ℤ : Type 0 where
  pos : ℕ → ℤ
  negsuc : ℕ → ℤ

unfoldable pub increment : ℤ → ℤ
increment (pos n) = pos (suc n)
increment (negsuc zero) = pos 0
increment (negsuc (suc n)) = negsuc n

unfoldable pub decrement : ℤ → ℤ
decrement (pos zero) = negsuc 0
decrement (pos (suc n)) = pos n
decrement (negsuc n) = negsuc (suc n)

-- The same of an `int64`, which wraps around.
unfoldable pub increment_64 : ℤ → ℤ
increment_64 (pos n) = if n == 2 ^ 63 - 1 then negsuc (2 ^ 63 - 1) else pos (suc n)
increment_64 (negsuc zero) = pos 0
increment_64 (negsuc (suc n)) = negsuc n

unfoldable pub ltb_ℤ : ℤ → ℤ → Bool
ltb_ℤ (pos a) (pos b) = ltb a b
ltb_ℤ (pos a) (negsuc b) = false
ltb_ℤ (negsuc a) (pos b) = true
ltb_ℤ (negsuc a) (negsuc b) = ltb b a

pub increment_64-pos : (n : ℕ) → n + 1 < 2 ^ 63 → increment_64 (pos n) ≡ pos (suc n)
unfolding increment_64
increment_64-pos n h = ground arith

pub decrement-increment : (z : ℤ) → decrement (increment z) ≡ z
unfolding increment decrement
decrement-increment (pos n) = refl
decrement-increment (negsuc zero) = refl
decrement-increment (negsuc (suc n)) = refl
