-- ===== src/Dht/Table/Sampling.antt =====
-- The indices that `RandomPeers` of dht/table.go draws, and the peers at given indices.
use aw.Base.{
  ℕ, zero, suc, ◌+◌, ◌<◌, ◌≡◌, refl, ap, ◌∙◌, ◌≢◌, inl, inr, true, false, some, List, [], ◌∷◌,
  arith, Bool-cases, Eq, ◌==◌, nat_Eq, bytes_Eq, length, take, get_elem?, All, beq_refl, beq-eq,
  All-mono, ne-beq, beq-ne,
}
use aw.Dht.Table.{pick_all, floyd, floyd_index}
use aw.Base.Arrays.{Bytes_Eq, beq_Bytes_iff}
use aw.Sorting.Ordered.{contains, IsAscending}
use aw.Sorting.Edits.{contains-behind}
use aw.Dht.Distance.{Signatory, by_distance}

abbrev pub IsDistinct {ℓ} : {A : Type ℓ} ⦃e : Eq A⦄ → List A → Type 0
IsDistinct [] = Unit {0}
IsDistinct (x ∷ xs) = (contains x xs ≡ false) × IsDistinct xs

-- Distinct indices of a list of `m` elements.
pub record AreIndices (m : ℕ) (is : List ℕ) : Type 0 where
  pub in_range : All (λ i. i < m) is
  pub distinct : IsDistinct is

contains_above : (i : ℕ) (set : List ℕ) → All (λ j. j < i) set → contains i set ≡ false
unfolding contains
contains_above i [] h = refl
contains_above i (j ∷ set) h = ground (arith, contains_above i set h.1)

module _ (intn : ℕ → ℕ) (law : (k : ℕ) → 0 < k → intn k < k) where
  floyd_index_lem :
      (i : ℕ) (set : List ℕ)
      → 0 < i
      → All (λ k. k < i) set
      → (floyd_index intn i set < suc i) × (contains (floyd_index intn i set) set ≡ false)
  unfolding floyd_index
  floyd_index_lem i set pos below = elim (Bool-cases (contains (intn i) set)) [
    | inl taken ↦ rw taken (omega arith, contains_above i set below)
    | inr fresh ↦ rw fresh (omega (arith, law i pos), fresh)
  ]

  All-suc : (i : ℕ) (set : List ℕ) → All (λ k. k < i) set → All (λ k. k < suc i) set
  All-suc i set = All-mono _ _ (λ k h. omega arith) set

  differs :
      (j c : ℕ) (set : List ℕ) → contains j set ≡ true → contains c set ≡ false → (j == c) ≡ false
  differs j c set h fresh = elim (Bool-cases (j == c)) [
    | inl t ↦ cc (h, fresh, ap (λ (k : ℕ). contains k set) (beq-eq j c t))
    | inr f ↦ f
  ]

  -- The indices still to come differ from those in `set`.
  floyd_fresh :
      (rounds i : ℕ) (set : List ℕ) (j : ℕ)
      → 0 < i
      → All (λ k. k < i) set
      → contains j set ≡ true
      → contains j (floyd intn rounds i set) ≡ false
  unfolding floyd contains
  floyd_fresh zero i set j pos below h = refl
  floyd_fresh (suc rounds) i set j pos below h =
      let (small, fresh) = floyd_index_lem i set pos below in
      ground (
        arith,
        differs j (floyd_index intn i set) set h fresh,
        floyd_fresh rounds (suc i) (floyd_index intn i set ∷ set) j (omega arith)
            (small, All-suc i set below) (ground (arith, h)),
      )

  pub floyd-AreIndices :
      (rounds i : ℕ) (set : List ℕ)
      → 0 < i
      → All (λ k. k < i) set
      → AreIndices (i + rounds) (floyd intn rounds i set)
  unfolding floyd contains
  floyd-AreIndices zero i set pos below = record { in_range = tt; distinct = tt }
  floyd-AreIndices (suc rounds) i set pos below =
      let (small, fresh) = floyd_index_lem i set pos below in
      let rest =
        floyd-AreIndices rounds (suc i) (floyd_index intn i set ∷ set) (omega arith)
          (small, All-suc i set below) in
      record {
        in_range = (omega arith, All-mono _ _ (λ k h. omega arith) _ rest.in_range);
        distinct = (
          floyd_fresh rounds (suc i) (floyd_index intn i set ∷ set) (floyd_index intn i set)
              (omega arith) (small, All-suc i set below) (ground arith),
          rest.distinct,
        );
      }

  pub length-floyd : (rounds i : ℕ) (set : List ℕ) → length (floyd intn rounds i set) ≡ rounds
  unfolding floyd
  length-floyd zero i set = refl
  length-floyd (suc rounds) i set = ap suc (length-floyd rounds (suc i) _)

module _ (self : Signatory) where
  not_at :
      (y x : Signatory) (ys : List Signatory) (j : ℕ)
      → All (λ z. (by_distance self).closer y z ≡ true) ys
      → get_elem? ys j ≡ some x
      → y ≢ x
  not_at y x [] j h e p = cc
  not_at y x (z ∷ zs) zero h e p = cc (h.0, p, e, (by_distance self).irrefl y)
  not_at y x (z ∷ zs) (suc j) h e p = not_at y x zs j h.1 e p

  -- An ascending list has each element at one index only.
  get_elem?-injective :
      (xs : List Signatory) (i j : ℕ) (x : Signatory)
      → IsAscending (by_distance self) xs
      → get_elem? xs i ≡ some x
      → get_elem? xs j ≡ some x
      → i ≡ j
  get_elem?-injective [] i j x h a b = cc
  get_elem?-injective (y ∷ ys) zero zero x h a b = refl
  get_elem?-injective (y ∷ ys) zero (suc j) x h a b = absurd (not_at y x ys j h.0 b (cc a))
  get_elem?-injective (y ∷ ys) (suc i) zero x h a b = absurd (not_at y x ys i h.0 a (cc b))
  get_elem?-injective (y ∷ ys) (suc i) (suc j) x h a b =
      ap suc (get_elem?-injective ys i j x h.1 a b)

  -- Picking at indices of an ascending list: as many elements, all of the list, no two the same, and
  -- none that stands at another index.
  pub record ArePicked (xs : List Signatory) (is : List ℕ) (ys : List Signatory) : Type 0 where
    pub count : length ys ≡ length is
    pub members : (y : Signatory) → contains y ys ≡ true → contains y xs ≡ true
    pub distinct : IsDistinct ys
    pub fresh :
        (k : ℕ) (z : Signatory)
        → get_elem? xs k ≡ some z
        → contains k is ≡ false
        → contains z ys ≡ false

  get_in_range :
      (xs : List Signatory) (i : ℕ)
      → i < length xs
      → (x : Signatory) × (get_elem? xs i ≡ some x) × (contains x xs ≡ true)
  unfolding contains
  get_in_range [] i h = absurd (omega arith)
  get_in_range (x ∷ xs) zero h = (x, refl, rw (beq_refl x) refl)
  get_in_range (x ∷ xs) (suc i) h =
      let (y, e, c) = get_in_range xs i (omega arith) in (y, e, ground (arith, c))

  not_first :
      (xs : List Signatory) (i k : ℕ) (x z : Signatory)
      → IsAscending (by_distance self) xs
      → get_elem? xs i ≡ some x
      → get_elem? xs k ≡ some z
      → (k == i) ≡ false
      → (z == x) ≡ false
  not_first xs i k x z h e f n =
      ne-beq z x λ p. beq-ne k i n (get_elem?-injective xs k i x h (f ∙ ap some p) e)

  pub pick_all-ArePicked :
      (xs : List Signatory) (is : List ℕ)
      → IsAscending (by_distance self) xs
      → AreIndices (length xs) is
      → (ys : List Signatory) × (pick_all xs is ≡ some ys) × ArePicked xs is ys
  unfolding contains pick_all
  pick_all-ArePicked xs [] h ok = (
    [],
    refl,
    record { count = refl; members = λ y c. cc; distinct = tt; fresh = λ k z f n. refl },
  )
  pick_all-ArePicked xs (i ∷ is) h ok =
      let (x, e, c) = get_in_range xs i ok.in_range.0 in
      let (ys, p, r) =
        pick_all-ArePicked xs is h
          (record { in_range = ok.in_range.1; distinct = ok.distinct.1 }) in
      (
        x ∷ ys,
        rw (e, p, pick_all),
        record {
          count = ap suc r.count;
          members = λ y m. ground (arith, m, c, r.members y, beq_Bytes_iff y x);
          distinct = (r.fresh i x e ok.distinct.0, r.distinct);
          fresh = λ k z f n. ground (arith, not_first xs i k x z h e f, r.fresh k z f, n);
        },
      )

  pub ascending-IsDistinct :
      (xs : List Signatory) → IsAscending (by_distance self) xs → IsDistinct xs
  ascending-IsDistinct [] h = tt
  ascending-IsDistinct (x ∷ xs) h =
      (contains-behind (by_distance self) x xs h.0, ascending-IsDistinct xs h.1)

contains-take : (i n : ℕ) (is : List ℕ) → contains i is ≡ false → contains i (take n is) ≡ false
unfolding contains
contains-take i zero is h = refl
contains-take i (suc n) [] h = refl
contains-take i (suc n) (j ∷ is) h = ground (arith, contains-take i n is)

pub take-IsDistinct : (n : ℕ) (is : List ℕ) → IsDistinct is → IsDistinct (take n is)
take-IsDistinct zero is h = tt
take-IsDistinct (suc n) [] h = tt
take-IsDistinct (suc n) (i ∷ is) h = (contains-take i n is h.0, take-IsDistinct n is h.1)
