-- ===== src/Sorting/Edits.antt =====
-- Inserting a new element at its place, and removing the element just before it.
use aw.Base.{
  ℕ, zero, suc, ◌<◌, ◌≡◌, refl, true, false, arith, if◌then◌else◌, ◌||◌, Bool-cases, inl, inr, List,
  [], ◌∷◌, length, take, drop, All, Eq, ◌==◌, beq-eq, All-append, All-take, All-drop, ap,
}
use aw.Sorting.Ordered.{StrictOrder, contains, insert_at, remove_at, IsAscending, IsPlace}

-- The list without the first occurrence of `p`.
pub erase {ℓ} : {A : Type ℓ} ⦃e : Eq A⦄ → A → List A → List A
erase p [] = []
erase p (x ∷ xs) = if p == x then xs else x ∷ erase p xs

module _ {ℓ} {A : Type ℓ} where
  All-insert_at {κ} :
      (P : A → Type κ) (i : ℕ) (a : A) (xs : List A) → P a → All P xs → All P (insert_at i a xs)
  unfolding insert_at
  All-insert_at P i a xs h hs =
      All-append P (take i xs) (a ∷ drop i xs) (All-take P i xs hs) (h, All-drop P i xs hs)

  pub length-insert_at : (i : ℕ) (a : A) (xs : List A) → length (insert_at i a xs) ≡ suc (length xs)
  unfolding insert_at
  length-insert_at zero a xs = refl
  length-insert_at (suc i) a [] = refl
  length-insert_at (suc i) a (x ∷ xs) = ap suc (length-insert_at i a xs)

  pub length-remove_at :
      (i : ℕ) (xs : List A) → i < length xs → suc (length (remove_at i xs)) ≡ length xs
  unfolding remove_at
  length-remove_at i [] h = absurd (omega arith)
  length-remove_at zero (x ∷ xs) h = refl
  length-remove_at (suc i) (x ∷ xs) h = ap suc (length-remove_at i xs (omega arith))

module _ {ℓ} {A : Type ℓ} ⦃e : Eq A⦄ where
  pub contains-insert_at :
      (b : A) (i : ℕ) (a : A) (xs : List A)
      → contains b (insert_at i a xs) ≡ (b == a || contains b xs)
  unfolding insert_at contains
  contains-insert_at b zero a xs = refl
  contains-insert_at b (suc i) a [] = refl
  contains-insert_at b (suc i) a (x ∷ xs) = ground (arith, contains-insert_at b i a xs)

  All-erase {κ} : (P : A → Type κ) (p : A) (xs : List A) → All P xs → All P (erase p xs)
  unfolding erase
  All-erase P p [] h = tt
  All-erase P p (x ∷ xs) h = elim (Bool-cases (p == x)) [
    | inl t ↦ rw t h.1
    | inr f ↦ rw f (h.0, All-erase P p xs h.1)
  ]

  pub length-erase :
      (p : A) (xs : List A) → contains p xs ≡ true → suc (length (erase p xs)) ≡ length xs
  unfolding erase contains
  length-erase p [] h = cc
  length-erase p (x ∷ xs) h = ground (arith, length-erase p xs)

  module _ (o : StrictOrder A) where
    open o use {closer}

    pub contains-behind :
        (p : A) (xs : List A) → All (λ y. closer p y ≡ true) xs → contains p xs ≡ false
    unfolding contains
    contains-behind p [] h = refl
    contains-behind p (y ∷ ys) h = elim (Bool-cases (p == y)) [
      | inl t ↦ cc (beq-eq p y t, h.0, o.irrefl p)
      | inr f ↦ rw f (contains-behind p ys h.1)
    ]

    pub contains_ahead :
        (p x : A) (xs : List A)
        → contains p xs ≡ true
        → All (λ y. closer x y ≡ true) xs
        → closer x p ≡ true
    unfolding contains
    contains_ahead p x [] c h = cc
    contains_ahead p x (y ∷ ys) c h = elim (Bool-cases (p == y)) [
      | inl t ↦ rw (beq-eq p y t) h.0
      | inr f ↦ contains_ahead p x ys (ground (arith)) h.1
    ]

    pub not_contains :
        (p x : A) (xs : List A)
        → contains p (x ∷ xs) ≡ false
        → ((p == x) ≡ false) × (contains p xs ≡ false)
    unfolding contains
    not_contains p x xs h = ground arith

    pub closer_of_ne : (p x : A) → closer p x ≡ false → (p == x) ≡ false → closer x p ≡ true
    closer_of_ne p x c n = elim (Bool-cases (closer x p)) [
      | inl t ↦ t
      | inr f ↦ cc (n, (e.beq_iff p x).1 (o.total p x c f))
    ]

    pub insert_at-IsAscending :
        (p : A) (xs : List A) (r : ℕ)
        → IsAscending o xs
        → contains p xs ≡ false
        → IsPlace o p xs r
        → IsAscending o (insert_at r p xs)
    unfolding insert_at
    insert_at-IsAscending p xs zero h n w = (w.behind, h)
    insert_at-IsAscending p [] (suc r) h n w = (tt, tt)
    insert_at-IsAscending p (x ∷ xs) (suc r) h n w =
        let (ne, rest) = not_contains p x xs n in
        (
          All-insert_at (λ y. closer x y ≡ true) r p xs (closer_of_ne p x w.before.0 ne) h.0,
          insert_at-IsAscending p xs r h.1 rest (record {
            bounded = omega (arith, w.bounded);
            before = w.before.1;
            behind = w.behind;
          }),
        )

    pub place_pos : (p : A) (xs : List A) (r : ℕ) → contains p xs ≡ true → IsPlace o p xs r → 0 < r
    place_pos p xs zero n w = cc (n, contains-behind p xs w.behind)
    place_pos p xs (suc r) n w = omega arith

    pub remove_at-erase :
        (p : A) (xs : List A) (r : ℕ)
        → IsAscending o xs
        → contains p xs ≡ true
        → IsPlace o p xs (suc r)
        → remove_at r xs ≡ erase p xs
    unfolding remove_at erase contains
    remove_at-erase p [] r h n w = cc
    remove_at-erase p (x ∷ xs) zero h n w = elim (Bool-cases (p == x)) [
      | inl t ↦ rw t
      | inr f ↦ cc (rw f at n, contains-behind p xs w.behind)
    ]
    remove_at-erase p (x ∷ []) (suc r) h n w = absurd (omega (arith, w.bounded))
    remove_at-erase p (x ∷ y ∷ xs) (suc r) h n w = elim (Bool-cases (p == x)) [
      | inl t ↦ cc (beq-eq p x t, h.0.0, w.before.1.0)
      | inr f ↦ rw f (
          ap (◌∷◌ x) (
            remove_at-erase p (y ∷ xs) r h.1 (rw f at n) (record {
              bounded = omega (arith, w.bounded);
              before = w.before.1;
              behind = w.behind;
            })))
    ]

    pub erase-IsAscending : (p : A) (xs : List A) → IsAscending o xs → IsAscending o (erase p xs)
    unfolding erase
    erase-IsAscending p [] h = tt
    erase-IsAscending p (x ∷ xs) h = elim (Bool-cases (p == x)) [
      | inl t ↦ rw t h.1
      | inr f ↦ rw f (All-erase _ p xs h.0, erase-IsAscending p xs h.1)
    ]

    pub contains-erase :
        (b p : A) (xs : List A)
        → IsAscending o xs
        → contains b (erase p xs) ≡ (if p == b then false else contains b xs)
    unfolding erase contains
    contains-erase b p [] h = ground arith
    contains-erase b p (x ∷ xs) h = ground (
      arith,
      e.beq_iff p x,
      e.beq_iff p b,
      e.beq_iff b x,
      contains-behind x xs h.0,
      contains-erase b p xs h.1,
    )

  pub contains-take-drop :
      (b : A) (n : ℕ) (xs : List A)
      → contains b xs ≡ (contains b (take n xs) || contains b (drop n xs))
  unfolding contains
  contains-take-drop b zero xs = refl
  contains-take-drop b (suc n) [] = refl
  contains-take-drop b (suc n) (x ∷ xs) = ground (arith, contains-take-drop b n xs)

  pub All_contains {κ} :
      (P : A → Type κ) (b : A) (xs : List A) → All P xs → contains b xs ≡ true → P b
  unfolding contains
  All_contains P b [] h c = cc
  All_contains P b (x ∷ xs) h c = elim (Bool-cases (b == x)) [
    | inl t ↦ rw (beq-eq b x t) h.0
    | inr f ↦ All_contains P b xs h.1 (rw f at c)
  ]

  -- In an ascending list every element of the front is closer than any behind it.
  pub closer_take-drop :
      (o : StrictOrder A) (x y : A) (n : ℕ) (xs : List A)
      → IsAscending o xs
      → contains x (take n xs) ≡ true
      → contains y (drop n xs) ≡ true
      → o.closer x y ≡ true
  unfolding contains
  closer_take-drop o x y zero xs h c d = cc
  closer_take-drop o x y (suc n) [] h c d = cc
  closer_take-drop o x y (suc n) (z ∷ zs) h c d = elim (Bool-cases (x == z)) [
    | inl t ↦ rw (beq-eq x z t) (All_contains _ y (drop n zs) (All-drop _ n zs h.0) d)
    | inr f ↦ closer_take-drop o x y n zs h.1 (rw f at c) d
  ]
