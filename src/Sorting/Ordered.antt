-- ===== src/Sorting/Ordered.antt =====
-- Lists in strictly ascending order of a strict total order given by a Boolean test.
use aw.Base.{
  ℕ, zero, suc, ◌≤◌, ◌<◌, ◌≡◌, Bool, true, false, arith, ◌||◌, List, [], ◌∷◌, ◌++◌, length, take,
  drop, get_or, All, Eq, ◌==◌,
}
use aw.Sorting.Search.{search, search-Splits, IsMonotone}

pub record StrictOrder {ℓ} (A : Type ℓ) : Type ℓ where
  pub closer : A → A → Bool
  pub irrefl : (a : A) → closer a a ≡ false
  pub trans : (a b c : A) → closer a b ≡ true → closer b c ≡ true → closer a c ≡ true
  pub total : (a b : A) → closer a b ≡ false → closer b a ≡ false → a ≡ b

-- `contains a xs`: is `a` in the list.
unfoldable pub contains {ℓ} : {A : Type ℓ} ⦃e : Eq A⦄ → A → List A → Bool
contains a [] = false
contains a (x ∷ xs) = a == x || contains a xs

unfoldable pub insert_at {ℓ} : {A : Type ℓ} → ℕ → A → List A → List A
insert_at i a xs = take i xs ++ (a ∷ drop i xs)

unfoldable pub remove_at {ℓ} : {A : Type ℓ} → ℕ → List A → List A
remove_at i xs = take i xs ++ drop (suc i) xs

module _ {ℓ} {A : Type ℓ} (o : StrictOrder A) where
  open o use {closer}

  abbrev pub IsAscending : List A → Type 0
  IsAscending [] = Unit {0}
  IsAscending (x ∷ xs) = All (λ y. closer x y ≡ true) xs × IsAscending xs

  -- The index that `sort.Search` finds for `p`.
  unfoldable pub place : A → List A → ℕ
  place p xs = search (length xs) (λ i. closer p (get_or xs i p))

  mono_get :
      (p : A) (xs : List A)
      → IsAscending xs
      → IsMonotone (length xs) (λ i. closer p (get_or xs i p))
  mono_get p [] h a b le lt e = absurd (omega arith)
  mono_get p (x ∷ xs) h zero zero le lt e = e
  mono_get p (x ∷ xs) h zero (suc b) le lt e = after p xs x b h.0 e (omega arith)
    where
      after :
          (p : A) (xs : List A) (x : A) (b : ℕ)
          → All (λ y. closer x y ≡ true) xs
          → closer p x ≡ true
          → b < length xs
          → closer p (get_or xs b p) ≡ true
      after p [] x b h e lt = absurd (omega arith)
      after p (y ∷ ys) x zero h e lt = o.trans p x y e h.0
      after p (y ∷ ys) x (suc b) h e lt = after p ys x b h.1 e (omega arith)
  mono_get p (x ∷ xs) h (suc a) zero le lt e = absurd (omega arith)
  mono_get p (x ∷ xs) h (suc a) (suc b) le lt e =
      mono_get p xs h.1 a b (omega arith) (omega arith) e

  All-below :
      (p : A) (xs : List A) (r : ℕ)
      → r ≤ length xs
      → ((k : ℕ) → k < r → closer p (get_or xs k p) ≡ false)
      → All (λ y. closer p y ≡ false) (take r xs)
  All-below p xs zero le h = tt
  All-below p [] (suc r) le h = tt
  All-below p (x ∷ xs) (suc r) le h =
      (h 0 (omega arith), All-below p xs r (omega arith) (λ k q. h (suc k) (omega arith)))

  All-above :
      (p : A) (xs : List A) (r : ℕ)
      → ((k : ℕ) → r ≤ k → k < length xs → closer p (get_or xs k p) ≡ true)
      → All (λ y. closer p y ≡ true) (drop r xs)
  All-above p [] zero h = tt
  All-above p (x ∷ xs) zero h = (
    h 0 (omega arith) (omega arith),
    All-above p xs zero (λ k a b. h (suc k) (omega arith) (omega arith)),
  )
  All-above p [] (suc r) h = tt
  All-above p (x ∷ xs) (suc r) h = All-above p xs r (λ k a b. h (suc k) (omega arith) (omega arith))

  -- What stands before the place of `p` is not farther than `p`, and what stands behind it is.
  pub record IsPlace (p : A) (xs : List A) (r : ℕ) : Type 0 where
    pub bounded : r ≤ length xs
    pub before : All (λ y. closer p y ≡ false) (take r xs)
    pub behind : All (λ y. closer p y ≡ true) (drop r xs)

  pub place-IsPlace : (p : A) (xs : List A) → IsAscending xs → IsPlace p xs (place p xs)
  unfolding place
  place-IsPlace p xs h =
      let s = search-Splits (length xs) (λ i. closer p (get_or xs i p)) (mono_get p xs h) in
      record {
        bounded = s.bounded;
        before = All-below p xs _ s.bounded s.below;
        behind = All-above p xs _ s.above;
      }
