-- ===== src/Base/Bits.antt =====
-- Exclusive or on numbers of any size: an operand cancels.
use Prim.Native.Nat.{digits, differ, bit_xor-bitwise}
use aw.Base.{ℕ, zero, suc, ◌+◌, ◌*◌, ◌/◌, ◌%◌, ◌≤◌, ◌<◌, ◌≡◌, refl, bit_xor, arith}

xor_digits_fuel :
    (n m a b : ℕ) → a ≤ n → a ≤ m → digits (λ y. y) differ n a b ≡ digits (λ y. y) differ m a b
xor_digits_fuel zero zero a b p q = refl
xor_digits_fuel zero (suc m) zero b p q = refl
xor_digits_fuel zero (suc m) (suc a) b p q = absurd (omega arith)
xor_digits_fuel (suc n) zero zero b p q = refl
xor_digits_fuel (suc n) zero (suc a) b p q = absurd (omega arith)
xor_digits_fuel (suc n) (suc m) zero b p q = refl
xor_digits_fuel (suc n) (suc m) (suc a) b p q =
    omega (arith, xor_digits_fuel n m (suc a / 2) (b / 2) (omega arith) (omega arith))

-- The equation for the lowest digit.
bit_xor_step : (a b : ℕ) → bit_xor a b ≡ bit_xor (a / 2) (b / 2) * 2 + differ (a % 2) (b % 2)
bit_xor_step zero b = simp bit_xor-bitwise (omega arith)
bit_xor_step (suc a) b = omega (
  arith,
  bit_xor-bitwise (suc a) b,
  bit_xor-bitwise (suc a / 2) (b / 2),
  xor_digits_fuel a (suc a / 2) (suc a / 2) (b / 2) (omega arith) (omega arith),
)

differ-lt : (s a : ℕ) → s < 2 → a < 2 → differ s a < 2
differ-lt zero a hs ha = ha
differ-lt (suc s) zero hs ha = hs
differ-lt (suc s) (suc a) hs ha = differ-lt s a (omega arith) (omega arith)

-- On binary digits.
differ-cancel : (s a b : ℕ) → s < 2 → a < 2 → b < 2 → differ s a ≡ differ s b → a ≡ b
differ-cancel zero a b hs ha hb e = e
differ-cancel (suc zero) zero zero hs ha hb e = refl
differ-cancel (suc zero) zero (suc zero) hs ha hb e = absurd (omega arith)
differ-cancel (suc zero) (suc zero) zero hs ha hb e = absurd (omega arith)
differ-cancel (suc zero) (suc zero) (suc zero) hs ha hb e = refl
differ-cancel (suc zero) zero (suc (suc b)) hs ha hb e = absurd (omega arith)
differ-cancel (suc zero) (suc zero) (suc (suc b)) hs ha hb e = absurd (omega arith)
differ-cancel (suc zero) (suc (suc a)) b hs ha hb e = absurd (omega arith)
differ-cancel (suc (suc s)) a b hs ha hb e = absurd (omega arith)

-- By the digits of a bound on all three numbers.
xor_cancel_below : (n s a b : ℕ) → s ≤ n → a ≤ n → b ≤ n → bit_xor s a ≡ bit_xor s b → a ≡ b
xor_cancel_below zero s a b hs ha hb e = omega arith
xor_cancel_below (suc n) s a b hs ha hb e = omega (
  arith,
  digit,
  xor_cancel_below n (s / 2) (a / 2) (b / 2) (omega arith) (omega arith) (omega arith) rest,
)
  where
    low : (x : ℕ) → differ (s % 2) (x % 2) < 2
    low x = differ-lt (s % 2) (x % 2) (omega arith) (omega arith)

    rest : bit_xor (s / 2) (a / 2) ≡ bit_xor (s / 2) (b / 2)
    rest = omega (arith, bit_xor_step s a, bit_xor_step s b, low a, low b)

    digit : a % 2 ≡ b % 2
    digit =
        differ-cancel (s % 2) (a % 2) (b % 2) (omega arith) (omega arith) (omega arith)
          (omega (arith, bit_xor_step s a, bit_xor_step s b, rest))

-- The same operand on the left cancels.
pub bit_xor-cancel : (s a b : ℕ) → bit_xor s a ≡ bit_xor s b → a ≡ b
bit_xor-cancel s a b e =
    xor_cancel_below (s + a + b) s a b (omega arith) (omega arith) (omega arith) e

differ_comm : (a b : ℕ) → a < 2 → b < 2 → differ a b ≡ differ b a
differ_comm zero zero ha hb = refl
differ_comm zero (suc zero) ha hb = refl
differ_comm (suc zero) zero ha hb = refl
differ_comm (suc zero) (suc zero) ha hb = refl
differ_comm zero (suc (suc b)) ha hb = absurd (omega arith)
differ_comm (suc zero) (suc (suc b)) ha hb = absurd (omega arith)
differ_comm (suc (suc a)) b ha hb = absurd (omega arith)

xor_comm_below : (n a b : ℕ) → a ≤ n → b ≤ n → bit_xor a b ≡ bit_xor b a
xor_comm_below zero a b ha hb =
    let p : a ≡ 0 = omega arith in let q : b ≡ 0 = omega arith in rw (p, q) refl
xor_comm_below (suc n) a b ha hb = omega (
  arith,
  bit_xor_step a b,
  bit_xor_step b a,
  differ_comm (a % 2) (b % 2) (omega arith) (omega arith),
  xor_comm_below n (a / 2) (b / 2) (omega arith) (omega arith),
)

pub bit_xor_comm : (a b : ℕ) → bit_xor a b ≡ bit_xor b a
bit_xor_comm a b = xor_comm_below (a + b) a b (omega arith) (omega arith)
