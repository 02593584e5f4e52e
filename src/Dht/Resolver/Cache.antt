-- ===== src/Dht/Resolver/Cache.antt =====
-- What the double cache of dht/resolver.go promises: how much it holds, and how long it remembers.
use mathlib.Core.Option
use aw.Base.{
  ℕ, ◌+◌, ◌/◌, ◌≤◌, ◌<◌, ◌≡◌, refl, ap, ◌∙◌, ◌≢◌, ◌⊎◌, inl, inr, false, Option, none, some, List,
  [], ◌∷◌, arith, ltb, Bool-cases, nat_Eq, bytes_Eq, length, All, beq_refl, ne-beq,
}
use aw.Base.Maps.{Map, lookup, insert, lookup-insert}
use aw.Dht.Resolver.{
  ContentResolver, DoubleCache, new_double_cache, insert_next, rotate, insert_front, insert_content,
  query_content, with_capacity,
}

-- The bytes of all contents of a cache.
unfoldable pub total_bytes : Map (List ℕ) (List ℕ) → ℕ
total_bytes [] = 0
total_bytes ((id, content) ∷ m) = length content + total_bytes m

total_bytes-insert :
    (id content : List ℕ) (m : Map (List ℕ) (List ℕ))
    → total_bytes (insert id content m) ≤ total_bytes m + length content
unfolding total_bytes insert
total_bytes-insert id content [] = omega arith
total_bytes-insert id content ((j, w) ∷ m) = ground (arith, total_bytes-insert id content m)

module _ (c : ContentResolver) where
  -- The size that is counted covers the front, and neither cache is over the capacity.
  pub record IsBounded (r : DoubleCache c) : Type 0 where
    pub front : total_bytes r.cache_front ≤ r.cache_front_size
    pub front_size : r.cache_front_size ≤ r.capacity
    pub back : total_bytes r.cache_back ≤ r.capacity

  -- A new cache holds nothing.
  new_double_cache-IsBounded :
      (capacity : ℕ) (next : Option c.State) → IsBounded (new_double_cache c capacity next)
  unfolding new_double_cache total_bytes
  new_double_cache-IsBounded capacity next = omega arith

  -- If each of the two caches holds at most the capacity, and the front no more than it counts, then
  -- this is so after an insertion, of whatever size.
  pub insert_content-IsBounded :
      (r : DoubleCache c) (id content : List ℕ)
      → IsBounded r
      → IsBounded (insert_content c r id content)
  unfolding insert_content insert_next rotate insert_front total_bytes
  insert_content-IsBounded r id content v = elim (Bool-cases (ltb r.capacity (length content))) [
    | inl large ↦ rw large (record { front = v.front; front_size = v.front_size; back = v.back })
    | inr fits ↦ elim (Bool-cases (ltb r.capacity (r.cache_front_size + length content))) [
      | inl full ↦
          rw (fits, full)
            (record {
              front = omega (arith, total_bytes-insert id content []);
              front_size = ground arith;
              back = omega (arith, v.front, v.front_size);
            })
      | inr room ↦
          rw (fits, room)
            (record {
              front = omega (arith, total_bytes-insert id content r.cache_front, v.front);
              front_size = ground arith;
              back = v.back;
            })
    ]
  ]

  -- One call of `InsertContent` for each pair, in order.
  abbrev pub insert_all : DoubleCache c → List (List ℕ × List ℕ) → DoubleCache c
  insert_all r [] = r
  insert_all r ((id, content) ∷ items) = insert_all (insert_content c r id content) items

  abbrev pub sizes : List (List ℕ × List ℕ) → ℕ
  sizes [] = 0
  sizes ((id, content) ∷ items) = length content + sizes items

  insert_all-IsBounded :
      (items : List (List ℕ × List ℕ)) (r : DoubleCache c)
      → IsBounded r
      → IsBounded (insert_all r items)
  insert_all-IsBounded [] r v = v
  insert_all-IsBounded ((id, content) ∷ items) r v =
      insert_all-IsBounded items (insert_content c r id content)
        (insert_content-IsBounded r id content v)

  capacity_kept :
      (r : DoubleCache c) (id content : List ℕ)
      → (insert_content c r id content).capacity ≡ r.capacity
  unfolding insert_content insert_next rotate insert_front
  capacity_kept r id content = ground arith

  all_capacity_kept :
      (items : List (List ℕ × List ℕ)) (r : DoubleCache c)
      → (insert_all r items).capacity ≡ r.capacity
  all_capacity_kept [] r = refl
  all_capacity_kept ((id, content) ∷ items) r =
      all_capacity_kept items (insert_content c r id content) ∙ capacity_kept r id content

  -- With `WithCapacity(n)` the two caches together never hold more than `n` bytes of contents, whatever
  -- is inserted.
  pub total_bytes-with_capacity :
      (n : ℕ) (next : Option c.State) (items : List (List ℕ × List ℕ))
      → let r = insert_all (new_double_cache c (with_capacity n) next) items in
        total_bytes r.cache_front + total_bytes r.cache_back ≤ n
  unfolding with_capacity new_double_cache
  total_bytes-with_capacity n next items =
      let start = new_double_cache c (with_capacity n) next in
      omega (
        arith,
        insert_all-IsBounded items start (new_double_cache-IsBounded (n / 2) next),
        all_capacity_kept items start,
      )

  -- Where a content stands while `budget` more bytes may come.
  pub record Remembers (id content : List ℕ) (budget : ℕ) (r : DoubleCache c) : Type 0 where
    pub fits : budget ≤ r.capacity
    pub place :
        (lookup id r.cache_front ≡ some content)
        ⊎ ((lookup id r.cache_front ≡ none)
            × (lookup id r.cache_back ≡ some content)
            × (r.cache_front_size + budget ≤ r.capacity))

  lookup_other :
      (id j x : List ℕ) (m : Map (List ℕ) (List ℕ))
      → j ≢ id
      → lookup id (insert j x m) ≡ lookup id m
  lookup_other id j x m n = lookup-insert j id x m ∙ rw (ne-beq j id n) refl

  Remembers-step :
      (r : DoubleCache c) (id content j x : List ℕ) (budget : ℕ)
      → j ≢ id
      → Remembers id content (length x + budget) r
      → Remembers id content budget (insert_content c r j x)
  unfolding insert_content insert_next rotate insert_front lookup
  Remembers-step r id content j x budget n m =
      let small : ltb r.capacity (length x) ≡ false = ground (arith, m.fits) in
      elim (Bool-cases (ltb r.capacity (r.cache_front_size + length x))) [
        | inl full ↦
            rw (small, full)
              (elim m.place [
                | inl front ↦ record {
                  fits = omega (arith, m.fits);
                  place = inr (lookup_other id j x [] n, front, omega (arith, m.fits));
                }
                | inr (_, _, room) ↦ absurd (ground (arith, room))
              ])
        | inr room ↦
            rw (small, room)
              (elim m.place [
                | inl front ↦ record {
                  fits = omega (arith, m.fits);
                  place = inl (lookup_other id j x r.cache_front n ∙ front);
                }
                | inr (out, back, left) ↦ record {
                  fits = omega (arith, m.fits);
                  place =
                      inr (lookup_other id j x r.cache_front n ∙ out, back, omega (arith, left));
                }
              ])
      ]

  Remembers-start :
      (r : DoubleCache c) (id content : List ℕ) (budget : ℕ)
      → length content ≤ r.capacity
      → budget ≤ r.capacity
      → Remembers id content budget (insert_content c r id content)
  unfolding insert_content insert_next rotate insert_front
  Remembers-start r id content budget fits small =
      let here : (m : Map (List ℕ) (List ℕ)) → lookup id (insert id content m) ≡ some content =
        λ m. lookup-insert id id content m ∙ rw (beq_refl id) refl in
      let caches : ltb r.capacity (length content) ≡ false = ground arith in
      elim (Bool-cases (ltb r.capacity (r.cache_front_size + length content))) [
        | inl full ↦ rw (caches, full) (record { fits = small; place = inl (here []) })
        | inr room ↦ rw (caches, room) (record { fits = small; place = inl (here r.cache_front) })
      ]

  Remembers-found :
      (r : DoubleCache c) (id content : List ℕ) (budget : ℕ)
      → Remembers id content budget r
      → query_content c r id ≡ some content
  unfolding query_content
  Remembers-found r id content budget m = ground (arith, m.place)

  Remembers-All :
      (items : List (List ℕ × List ℕ)) (r : DoubleCache c) (id content : List ℕ)
      → All (λ item. item.0 ≢ id) items
      → Remembers id content (sizes items) r
      → Remembers id content 0 (insert_all r items)
  Remembers-All [] r id content n m = m
  Remembers-All ((j, x) ∷ items) r id content n m =
      Remembers-All items (insert_content c r j x) id content n.1
        (Remembers-step r id content j x (sizes items) n.0 m)

  -- A content that fits the capacity is found after it was inserted, and stays so while the contents
  -- that are inserted under other ids after it come to no more bytes than the capacity.
  pub query_content-insert_all :
      (r : DoubleCache c) (id content : List ℕ) (items : List (List ℕ × List ℕ))
      → length content ≤ r.capacity
      → All (λ item. item.0 ≢ id) items
      → sizes items ≤ r.capacity
      → query_content c (insert_all (insert_content c r id content) items) id ≡ some content
  query_content-insert_all r id content items fits others few =
      Remembers-found (insert_all (insert_content c r id content) items) id content 0 (
        Remembers-All items (insert_content c r id content) id content others
          (Remembers-start r id content (sizes items) fits few))

  -- A content above the capacity reaches the next resolver only: the cache answers as before, so
  -- that a query finds what was cached under the id, and else what the next resolver now holds.
  pub query_content-oversize :
      (r : DoubleCache c) (s : c.State) (id content : List ℕ)
      → r.capacity < length content
      → r.next ≡ some s
      → query_content c (insert_content c r id content) id ≡ (elim (lookup id r.cache_front) [
        | some old ↦ some old
        | none ↦ elim (lookup id r.cache_back) [
          | some old ↦ some old
          | none ↦ c.query_content (c.insert_content s id content) id
        ]
      ])
  unfolding query_content insert_content insert_next
  query_content-oversize r s id content large next =
      ground (arith, next, ap (Option.map (λ (u : c.State). c.insert_content u id content)) next)
