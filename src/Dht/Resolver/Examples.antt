-- ===== src/Dht/Resolver/Examples.antt =====
-- The double cache over a resolver that keeps what it was given last.
use aw.Base.{ℕ, ◌+◌, ◌≤◌, ◌≡◌, Option, none, some, List, [], ◌∷◌, arith, nat_Eq, bytes_Eq}
use aw.Dht.Resolver.{
  ContentResolver, DoubleCache, new_double_cache, insert_content, query_content, with_capacity,
}
use aw.Dht.Resolver.Cache.{
  total_bytes, insert_all, total_bytes-with_capacity, query_content-insert_all,
}

abbrev last_given : ContentResolver
last_given = record {
  State = Option (List ℕ);
  insert_content = λ s id content. some content;
  query_content = λ s id. s;
}

-- A cache for 4 bytes, with 3 in the front.
abbrev small_cache : DoubleCache last_given
small_cache = record {
  capacity = 4;
  next = some none;
  cache_front_size = 3;
  cache_front = (1 ∷ [], 7 ∷ 8 ∷ 9 ∷ []) ∷ [];
  cache_back = [];
}

total_bytes-with_capacity_example :
    let r =
      insert_all last_given
        (new_double_cache last_given (with_capacity 8) none)
        ((1 ∷ [], 7 ∷ 8 ∷ []) ∷ []) in
    total_bytes r.cache_front + total_bytes r.cache_back ≤ 8
total_bytes-with_capacity_example =
    total_bytes-with_capacity last_given 8 none ((1 ∷ [], 7 ∷ 8 ∷ []) ∷ [])

query_content-insert_all_example :
    query_content last_given
      (insert_content last_given
        (insert_content last_given small_cache (2 ∷ []) (5 ∷ 6 ∷ []))
        (3 ∷ [])
        (4 ∷ 4 ∷ 4 ∷ []))
      (2 ∷ [])
    ≡ some (5 ∷ 6 ∷ [])
query_content-insert_all_example =
    query_content-insert_all last_given small_cache (2 ∷ []) (5 ∷ 6 ∷ [])
      ((3 ∷ [], 4 ∷ 4 ∷ 4 ∷ []) ∷ []) (omega arith) (λ e. cc, tt) (omega arith)
