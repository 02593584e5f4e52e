-- ===== src/Dht/Table/Random.antt =====
-- `RandomPeers` of dht/table.go: on both of its sampling branches.
use aw.Base.{
  ℕ, ◌+◌, ◌-◌, ◌/◌, ◌<◌, ◌≡◌, sym, ◌∙◌, inl, inr, true, false, ◌||◌, some, List, [], arith, leb,
  Bool-cases, ◌==◌, nat_Eq, bytes_Eq, length, take, min, All-take, length-take, subst,
}
use aw.Dht.Table.{is_some, peer_address, num_peers, InMemTable, floyd, random_peers}
use aw.Dht.Table.Peers.{IsValid}
use aw.Base.Arrays.{Bytes_Eq}
use aw.Sorting.Ordered.{contains}
use aw.Dht.Distance.{Signatory}
use aw.Dht.Table.Sampling.{
  IsDistinct, AreIndices, floyd-AreIndices, length-floyd, ArePicked, pick_all-ArePicked,
  ascending-IsDistinct, take-IsDistinct,
}

-- What `RandomPeers(n)` may return.
pub record IsSample (t : InMemTable) (n : ℕ) (ys : List Signatory) : Type 0 where
  pub count : length ys ≡ min n (num_peers t)
  pub members : (y : Signatory) → contains y ys ≡ true → is_some (peer_address t y) ≡ true
  pub distinct : IsDistinct ys

picked-IsSample :
    (t : InMemTable) (n : ℕ) (is : List ℕ) (xs : List Signatory)
    → IsValid t
    → ArePicked t.self t.sorted is xs
    → length is ≡ min n (length t.sorted)
    → IsSample t n xs
unfolding num_peers peer_address
picked-IsSample t n is xs v r e = record {
  count = omega (arith, r.count, e, v.counted);
  members = λ y c. sym (v.same_keys y) ∙ r.members y c;
  distinct = r.distinct;
}

none-IsSample : (t : InMemTable) (n : ℕ) → (n == 0) ≡ true → IsSample t n []
unfolding contains
none-IsSample t n h = record { count = ground arith; members = λ y c. cc; distinct = tt }

all-IsSample :
    (t : InMemTable) (n : ℕ) → IsValid t → leb (length t.sorted) n ≡ true → IsSample t n t.sorted
unfolding num_peers peer_address
all-IsSample t n v h = record {
  count = ground (arith, v.counted);
  members = λ y c. sym (v.same_keys y) ∙ c;
  distinct = ascending-IsDistinct t.self t.sorted v.ascending;
}

take-AreIndices : (m n : ℕ) (is : List ℕ) → AreIndices m is → AreIndices m (take n is)
take-AreIndices m n is a = record {
  in_range = All-take _ n is a.in_range;
  distinct = take-IsDistinct n is a.distinct;
}

sample-AreIndices :
    (intn : ℕ → ℕ) (m n : ℕ)
    → ((k : ℕ) → 0 < k → intn k < k)
    → leb m n ≡ false
    → AreIndices m (floyd intn n (m - n) [])
sample-AreIndices intn m n law h =
    subst (λ k. AreIndices k (floyd intn n (m - n) [])) (below m n h)
      (floyd-AreIndices intn law n (m - n) [] (ground arith) tt)
  where
    below : (m n : ℕ) → leb m n ≡ false → m - n + n ≡ m
    below m n h = ground arith

-- `RandomPeers(n)` does not panic, whatever the random numbers are: it returns as many peers as it can
-- up to `n`, all of the table, no two the same. `rand.Perm(m)` is a permutation of the indices below
-- `m`, and `Intn(k)` is below `k`.
pub random_peers_lem :
    (perm : ℕ → List ℕ) (intn : ℕ → ℕ) (t : InMemTable) (n : ℕ)
    → IsValid t
    → ((m : ℕ) → AreIndices m (perm m) × (length (perm m) ≡ m))
    → ((k : ℕ) → 0 < k → intn k < k)
    → (ys : List Signatory) × (random_peers perm intn t n ≡ some ys) × IsSample t n ys
unfolding random_peers
random_peers_lem perm intn t n v lawful law =
    let m = length t.sorted in
    elim (Bool-cases (n == 0)) [
      | inl none_asked ↦ ([], rw (none_asked, random_peers), none-IsSample t n none_asked)
      | inr asked ↦ elim (Bool-cases (leb m n)) [
        | inl every ↦ (t.sorted, rw (asked, every, random_peers), all-IsSample t n v every)
        | inr fewer ↦ elim (Bool-cases (leb m 10000 || leb (m / 50) n)) [
          | inl short ↦
              let (ys, e, r) =
                pick_all-ArePicked t.self t.sorted (take n (perm m)) v.ascending
                  (take-AreIndices m n (perm m) (lawful m).0) in
              (
                ys,
                rw (asked, fewer, short, random_peers) e,
                picked-IsSample t n (take n (perm m)) ys v r
                    (omega (arith, length-take n (perm m), (lawful m).1)),
              )
          | inr long ↦
              let (ys, e, r) =
                pick_all-ArePicked t.self t.sorted (floyd intn n (m - n) []) v.ascending
                  (sample-AreIndices intn m n law fewer) in
              (
                ys,
                rw (asked, fewer, long, random_peers) e,
                picked-IsSample t n (floyd intn n (m - n) []) ys v r
                    (length-floyd intn law n (m - n) [] ∙ ground arith),
              )
        ]
      ]
    ]
