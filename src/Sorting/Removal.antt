-- ===== src/Sorting/Removal.antt =====
-- The removal of the element before the place of one that a sorted list does not hold.
use aw.Base.{
  ℕ, zero, suc, ◌≡◌, inl, inr, true, false, List, [], ◌∷◌, arith, Bool-cases, Eq, ◌==◌, nat_Eq,
  bytes_Eq, All, beq_refl, beq-eq,
}
use aw.Sorting.Ordered.{StrictOrder, contains, remove_at, IsAscending, IsPlace}
use aw.Sorting.Edits.{contains_ahead, not_contains, closer_of_ne, contains-behind, All_contains}

module _ {ℓ} {A : Type ℓ} ⦃e : Eq A⦄ (o : StrictOrder A) where
  open o use {closer}

  -- The list `ys` has lost the last element of `xs` that is closer than `p`.
  pub record Loses (p : A) (xs ys : List A) (y : A) : Type ℓ where
    pub held : contains y xs ≡ true
    pub lost : contains y ys ≡ false
    pub nearer : closer y p ≡ true
    pub last : (z : A) → contains z xs ≡ true → closer y z ≡ true → closer p z ≡ true

  after_first :
      (p x z : A) (xs : List A)
      → All (λ y. closer p y ≡ true) xs
      → contains z (x ∷ xs) ≡ true
      → closer x z ≡ true
      → closer p z ≡ true
  unfolding contains
  after_first p x z xs h c l = elim (Bool-cases (z == x)) [
    | inl t ↦ cc (beq-eq z x t, l, o.irrefl x)
    | inr f ↦ All_contains _ z xs h (rw f at c)
  ]

  later-Loses :
      (p x y : A) (xs ys : List A)
      → All (λ z. closer x z ≡ true) xs
      → Loses p xs ys y
      → Loses p (x ∷ xs) (x ∷ ys) y
  unfolding contains
  later-Loses p x y xs ys h l =
      let ahead = contains_ahead o y x xs l.held h in
      record {
        held = ground (arith, l.held);
        lost = elim (Bool-cases (y == x)) [
          | inl t ↦ cc (beq-eq y x t, ahead, o.irrefl x)
          | inr f ↦ rw f l.lost
        ];
        nearer = l.nearer;
        last = λ z c d. elim (Bool-cases (z == x)) [
          | inl t ↦ cc (o.trans x y x ahead (rw (beq-eq z x t) at d), o.irrefl x)
          | inr f ↦ l.last z (rw f at c) d
        ];
      }

  pub remove_at-Loses :
      (p : A) (xs : List A) (r : ℕ)
      → IsAscending o xs
      → contains p xs ≡ false
      → IsPlace o p xs (suc r)
      → (y : A) × Loses p xs (remove_at r xs) y
  unfolding remove_at contains
  remove_at-Loses p [] r h n w = absurd (omega (arith, w.bounded))
  remove_at-Loses p (x ∷ xs) zero h n w =
      let (ne, rest) = not_contains o p x xs n in
      (
        x,
        record {
          held = ground (arith, beq_refl x);
          lost = contains-behind o x xs h.0;
          nearer = closer_of_ne o p x w.before.0 ne;
          last = λ z. after_first p x z xs w.behind;
        },
      )
  remove_at-Loses p (x ∷ xs) (suc r) h n w =
      let (ne, rest) = not_contains o p x xs n in
      let (y, l) =
        remove_at-Loses p xs r h.1 rest
          (record { bounded = omega (arith, w.bounded); before = w.before.1; behind = w.behind }) in
      (y, later-Loses p x y xs (remove_at r xs) h.0 l)
