-- ===== src/Dht/Resolver.antt =====
-- The content resolvers of dht/resolver.go: the double cache, and the resolver made of callbacks.
pub mod Cache
mod Examples
use mathlib.Core.Option
use aw.Base.{
  ℕ, zero, suc, ◌+◌, ◌-◌, ◌*◌, ◌/◌, ◌%◌, ◌^◌, ◌≤◌, ◌<◌, ◌≡◌, refl, sym, ap, ◌∙◌, ◌≢◌, ◌↔◌, ◌⊎◌, inl,
  inr, Bool, true, false, not, ◌&&◌, ◌||◌, Option, none, some, List, [], ◌∷◌, ◌++◌, arith, ltb, leb,
  if◌then◌else◌, Bool-cases, Option-cases, Eq, ◌==◌, nat_Eq, bytes_Eq, length, take, drop,
  get_elem?, All, beq_refl, beq-eq,
}
use aw.Base.Maps.{Map, lookup, insert}

-- A content resolver as a state: what `InsertContent` makes of it, and what `QueryContent` returns.
-- It stands for the resolver behind a cache, which may be any.
pub record ContentResolver : Type 1 where
  pub State : Type 0
  pub insert_content : State → List ℕ → List ℕ → State
  pub query_content : State → List ℕ → Option (List ℕ)

abbrev pub default_capacity : ℕ
default_capacity = 16 * 1024 * 1024

-- `WithCapacity`. A negative capacity behaves as 0 does for contents that are not empty.
unfoldable pub with_capacity : ℕ → ℕ
with_capacity capacity = capacity / 2

module _ (c : ContentResolver) where
  -- `next` is `none` where there is no next resolver. Keys are content ids.
  pub record DoubleCache : Type 0 where
    pub capacity : ℕ
    pub next : Option c.State
    pub cache_front_size : ℕ
    pub cache_front : Map (List ℕ) (List ℕ)
    pub cache_back : Map (List ℕ) (List ℕ)

  unfoldable pub new_double_cache : ℕ → Option c.State → DoubleCache
  new_double_cache capacity next = record {
    capacity = capacity;
    next = next;
    cache_front_size = 0;
    cache_front = [];
    cache_back = [];
  }

  -- `if r.next != nil { r.next.InsertContent(id, content) }`
  unfoldable pub insert_next : DoubleCache → List ℕ → List ℕ → DoubleCache
  insert_next r id content = record r {
    next = Option.map (λ s. c.insert_content s id content) r.next;
  }

  unfoldable pub rotate : DoubleCache → DoubleCache
  rotate r = record r { cache_back = r.cache_front; cache_front_size = 0; cache_front = [] }

  unfoldable pub insert_front : DoubleCache → List ℕ → List ℕ → DoubleCache
  insert_front r id content = record r {
    cache_front_size = r.cache_front_size + length content;
    cache_front = insert id content r.cache_front;
  }

  unfoldable pub insert_content : DoubleCache → List ℕ → List ℕ → DoubleCache
  insert_content r id content =
      if ltb r.capacity (length content)
      then insert_next r id content
      else (let r' = if ltb r.capacity (r.cache_front_size + length content) then rotate r else r in
          insert_next (insert_front r' id content) id content)

  unfoldable pub query_content : DoubleCache → List ℕ → Option (List ℕ)
  query_content r id = elim (lookup id r.cache_front) [
    | some content ↦ some content
    | none ↦ elim (lookup id r.cache_back) [
      | some content ↦ some content
      | none ↦ elim r.next [ none ↦ none | some s ↦ c.query_content s id ]
    ]
  ]

-- `CallbackContentResolver`: a callback is `none` where the field is nil.
unfoldable pub callback_insert :
    {S : Type 0} → Option (S → List ℕ → List ℕ → S) → S → List ℕ → List ℕ → S
callback_insert none s id content = s
callback_insert (some f) s id content = f s id content

unfoldable pub callback_query :
    {S : Type 0} → Option (S → List ℕ → Option (List ℕ)) → S → List ℕ → Option (List ℕ)
callback_query none s id = none
callback_query (some f) s id = f s id
