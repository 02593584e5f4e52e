-- ===== src/Sorting/Counts.antt =====
-- How many elements of a list pass a test, and lists with one element replaced.
use aw.Base.{
  ℕ, zero, suc, ◌+◌, ◌-◌, ◌<◌, ◌≡◌, refl, ap, ◌≢◌, inl, inr, Bool, true, some, List, [], ◌∷◌, ◌++◌,
  arith, if◌then◌else◌, Bool-cases, nat_Eq, bytes_Eq, length, take, drop, get_elem?,
}
use aw.Sorting.Ordered.{remove_at}

module _ {ℓ} {A : Type ℓ} where
  abbrev pub count_if : (A → Bool) → List A → ℕ
  count_if p [] = 0
  count_if p (x ∷ xs) = (if p x then 1 else 0) + count_if p xs

  pub count_if-pos :
      (p : A → Bool) (xs : List A) (i : ℕ) (x : A)
      → get_elem? xs i ≡ some x
      → p x ≡ true
      → 0 < count_if p xs
  count_if-pos p [] i x e h = cc e
  count_if-pos p (y ∷ ys) zero x e h = let q : y ≡ x = cc e in rw q (rw h (omega arith))
  count_if-pos p (y ∷ ys) (suc i) x e h = omega (arith, count_if-pos p ys i x e h)

  pub count_if-remove_at :
      (p : A → Bool) (xs : List A) (i : ℕ) (x : A)
      → get_elem? xs i ≡ some x
      → count_if p (remove_at i xs) ≡ (if p x then count_if p xs - 1 else count_if p xs)
  unfolding remove_at
  count_if-remove_at p [] i x e = cc e
  count_if-remove_at p (y ∷ ys) zero x e =
      let q : y ≡ x = cc e in
      rw q (elim (Bool-cases (p x)) [ inl b ↦ rw b (omega arith) | inr b ↦ rw b (omega arith) ])
  count_if-remove_at p (y ∷ ys) (suc i) x e =
      let ih = count_if-remove_at p ys i x e in
      elim (Bool-cases (p x)) [
        | inl b ↦
            let k : count_if p (take i ys ++ drop (suc i) ys) ≡ count_if p ys - 1 = rw b at ih in
            rw b (omega (arith, k, count_if-pos p ys i x e b))
        | inr b ↦ rw b (omega (arith, rw b at ih))
      ]

  -- The list stays as it is where there is no such element.
  abbrev pub set_at : ℕ → A → List A → List A
  set_at i a [] = []
  set_at zero a (x ∷ xs) = a ∷ xs
  set_at (suc i) a (x ∷ xs) = x ∷ set_at i a xs

  pub length-set_at : (i : ℕ) (a : A) (xs : List A) → length (set_at i a xs) ≡ length xs
  length-set_at i a [] = refl
  length-set_at zero a (x ∷ xs) = refl
  length-set_at (suc i) a (x ∷ xs) = ap suc (length-set_at i a xs)

  pub get_elem?-set_at :
      (i : ℕ) (a : A) (xs : List A) → i < length xs → get_elem? (set_at i a xs) i ≡ some a
  get_elem?-set_at i a [] h = absurd (omega arith)
  get_elem?-set_at zero a (x ∷ xs) h = refl
  get_elem?-set_at (suc i) a (x ∷ xs) h = get_elem?-set_at i a xs (omega arith)

  pub get_elem?-set_at_other :
      (i j : ℕ) (a : A) (xs : List A) → i ≢ j → get_elem? (set_at i a xs) j ≡ get_elem? xs j
  get_elem?-set_at_other i j a [] h = refl
  get_elem?-set_at_other zero zero a (x ∷ xs) h = absurd (h refl)
  get_elem?-set_at_other zero (suc j) a (x ∷ xs) h = refl
  get_elem?-set_at_other (suc i) zero a (x ∷ xs) h = refl
  get_elem?-set_at_other (suc i) (suc j) a (x ∷ xs) h =
      get_elem?-set_at_other i j a xs (λ e. h (ap suc e))

  pub get_elem?-append :
      (xs ys : List A) (i : ℕ) → i < length xs → get_elem? (xs ++ ys) i ≡ get_elem? xs i
  get_elem?-append [] ys i h = absurd (omega arith)
  get_elem?-append (x ∷ xs) ys zero h = refl
  get_elem?-append (x ∷ xs) ys (suc i) h = get_elem?-append xs ys i (omega arith)
