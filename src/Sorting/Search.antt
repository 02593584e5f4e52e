-- ===== src/Sorting/Search.antt =====
-- `sort.Search(n, f)`: the least index in [0, n) at which `f` is true, by bisection; else `n`.
use aw.Base.{
  ℕ, zero, suc, ◌+◌, ◌/◌, ◌≤◌, ◌<◌, ◌≡◌, Bool, true, false, arith, ltb, if◌then◌else◌, Bool-cases,
  inl, inr,
}

-- `for i < j { h := (i + j) / 2; if !f(h) { i = h + 1 } else { j = h } }`
search_loop : ℕ → (ℕ → Bool) → ℕ → ℕ → ℕ
search_loop zero f i j = i
search_loop (suc fuel) f i j =
    let h = (i + j) / 2 in
    let upper = search_loop fuel f (h + 1) j in
    let lower = search_loop fuel f i h in if ltb i j then (if f h then lower else upper) else i

-- Each round shortens the interval, so `n` rounds are enough.
unfoldable pub search : ℕ → (ℕ → Bool) → ℕ
unfolding search_loop
search n f = search_loop n f 0 n

-- `f` changes from false to true once.
abbrev pub IsMonotone : ℕ → (ℕ → Bool) → Type 0
IsMonotone n f = (a b : ℕ) → a ≤ b → b < n → f a ≡ true → f b ≡ true

-- `r` is the place of the change.
pub record Splits (n : ℕ) (f : ℕ → Bool) (r : ℕ) : Type 0 where
  pub bounded : r ≤ n
  pub below : (k : ℕ) → k < r → f k ≡ false
  pub above : (k : ℕ) → r ≤ k → k < n → f k ≡ true

module _ (n : ℕ) (f : ℕ → Bool) (mono : IsMonotone n f) where
  search_loop-Splits :
      (fuel i j : ℕ)
      → j ≤ i + fuel
      → i ≤ j
      → j ≤ n
      → ((k : ℕ) → k < i → f k ≡ false)
      → ((k : ℕ) → j ≤ k → k < n → f k ≡ true)
      → Splits n f (search_loop fuel f i j)
  unfolding search_loop
  search_loop-Splits zero i j short le fits lo hi = record {
    bounded = omega arith;
    below = lo;
    above = λ k p q. hi k (omega arith) q;
  }
  search_loop-Splits (suc fuel) i j short le fits lo hi = elim (Bool-cases (ltb i j)) [
    | inl more ↦ elim (Bool-cases (f ((i + j) / 2))) [
      | inl up ↦
          rw (more, up)
            (search_loop-Splits fuel i ((i + j) / 2) (ground arith) (ground arith) (ground arith) lo
              (λ k p q. mono ((i + j) / 2) k p q up))
      | inr down ↦
          rw (more, down)
            (search_loop-Splits fuel ((i + j) / 2 + 1) j (ground arith) (ground arith) fits
              (λ k p. not_true k ((i + j) / 2) (omega arith) (ground arith) down) hi)
    ]
    | inr done ↦
        rw done
          (record { bounded = omega arith; below = lo; above = λ k p q. hi k (ground arith) q })
  ]
    where
      not_true : (k h : ℕ) → k ≤ h → h < n → f h ≡ false → f k ≡ false
      not_true k h p q e = elim (Bool-cases (f k)) [ inl t ↦ cc (e, mono k h p q t) | inr z ↦ z ]

  pub search-Splits : Splits n f (search n f)
  unfolding search
  search-Splits =
      search_loop-Splits n 0 n (omega arith) (omega arith) (omega arith)
        (λ k p. absurd (omega arith)) (λ k p q. absurd (omega arith))
