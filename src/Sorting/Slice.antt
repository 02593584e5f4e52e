-- ===== src/Sorting/Slice.antt =====
-- `sort.Slice(s, less)`: the same elements in ascending order. For a strict total order the result
-- does not depend on the algorithm; here it is insertion sort.
use aw.Base.{
  ◌≡◌, inl, inr, Bool, true, false, List, [], ◌∷◌, if◌then◌else◌, Bool-cases, nat_Eq, bytes_Eq, All,
  All-mono,
}
use aw.Sorting.Ordered.{StrictOrder}
use mathlib.Core.List.{Perm}
use mathlib.Core.List.Perm

module _ {ℓ} {A : Type ℓ} where
  put_in_order : (A → A → Bool) → A → List A → List A
  put_in_order less a [] = a ∷ []
  put_in_order less a (x ∷ xs) = if less a x then a ∷ x ∷ xs else x ∷ put_in_order less a xs

  unfoldable pub slice : (A → A → Bool) → List A → List A
  unfolding put_in_order
  slice less [] = []
  slice less (x ∷ xs) = put_in_order less x (slice less xs)

  put_in_order-perm :
      (less : A → A → Bool) (a : A) (xs : List A) → Perm (put_in_order less a xs) (a ∷ xs)
  unfolding put_in_order
  put_in_order-perm less a [] = Perm.refl _
  put_in_order-perm less a (x ∷ xs) = elim (Bool-cases (less a x)) [
    | inl t ↦ rw t (Perm.refl _)
    | inr f ↦ rw f (Perm.trans (Perm.cons x (put_in_order-perm less a xs)) (Perm.swap a x xs))
  ]

  pub slice-perm : (less : A → A → Bool) (xs : List A) → Perm (slice less xs) xs
  unfolding slice
  slice-perm less [] = Perm.refl _
  slice-perm less (x ∷ xs) =
      Perm.trans (put_in_order-perm less x (slice less xs)) (Perm.cons x (slice-perm less xs))

  module _ (o : StrictOrder A) where
    -- No element is closer than one that stands before it.
    abbrev pub IsSorted : List A → Type 0
    IsSorted [] = Unit {0}
    IsSorted (x ∷ xs) = All (λ y. o.closer y x ≡ false) xs × IsSorted xs

    not_closer_trans :
        (a b c : A) → o.closer a b ≡ true → o.closer c b ≡ false → o.closer c a ≡ false
    not_closer_trans a b c p q = elim (Bool-cases (o.closer c a)) [
      | inl t ↦ cc (o.trans c a b t p, q)
      | inr f ↦ f
    ]

    All-put_in_order {κ} :
        (P : A → Type κ) (a : A) (xs : List A) → P a → All P xs → All P (put_in_order o.closer a xs)
    unfolding put_in_order
    All-put_in_order P a [] h hs = (h, tt)
    All-put_in_order P a (x ∷ xs) h hs = elim (Bool-cases (o.closer a x)) [
      | inl t ↦ rw t (h, hs)
      | inr f ↦ rw f (hs.0, All-put_in_order P a xs h hs.1)
    ]

    put_in_order-IsSorted :
        (a : A) (xs : List A) → IsSorted xs → IsSorted (put_in_order o.closer a xs)
    unfolding put_in_order
    put_in_order-IsSorted a [] h = (tt, tt)
    put_in_order-IsSorted a (x ∷ xs) h = elim (Bool-cases (o.closer a x)) [
      | inl t ↦ rw t ((not_after a x t, All-mono _ _ (λ c q. not_closer_trans a x c t q) xs h.0), h)
      | inr f ↦ rw f (All-put_in_order _ a xs f h.0, put_in_order-IsSorted a xs h.1)
    ]
      where
        not_after : (a x : A) → o.closer a x ≡ true → o.closer x a ≡ false
        not_after a x t = elim (Bool-cases (o.closer x a)) [
          | inl u ↦ cc (o.trans a x a t u, o.irrefl a)
          | inr f ↦ f
        ]

    pub slice-IsSorted : (xs : List A) → IsSorted (slice o.closer xs)
    unfolding slice
    slice-IsSorted [] = tt
    slice-IsSorted (x ∷ xs) = put_in_order-IsSorted x (slice o.closer xs) (slice-IsSorted xs)
