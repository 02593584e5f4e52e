-- ===== src/Dht/Table.antt =====
-- `InMemTable` of dht/table.go. Each method locks what it reads and writes, so a call is one step on
-- the state; the clock and the random numbers are arguments. Durations are counted from 0 up, and the
-- monotonic clock never goes back.
pub mod Peers
pub mod Expire
pub mod Expired
pub mod Subnets
pub mod Sampling
pub mod Random
mod Examples
use mathlib.Core.Option
use aw.Sorting.Slice.{slice}
use aw.Base.{
  zero, ℕ, ◌-◌, Bool, true, false, Option, none, some, List, [], ltb, if◌then◌else◌, ◌==◌, nat_Eq,
  length, take, get_or, leb, suc, ◌∷◌, get_elem?, ◌||◌, ◌/◌,
}
use aw.Base.Arrays.{Bytes_Eq}
use aw.Base.Maps.{Map, lookup, insert, delete}
use aw.Wire.Address.{Address}
use aw.Sorting.Search.{search}
use aw.Sorting.Ordered.{insert_at, remove_at, contains}
use aw.Dht.Distance.{Signatory, Hash, is_closer}

pub record Expiry : Type 0 where
  pub minimum_expiry_age : ℕ
  pub timestamp : ℕ

pub record InMemTable : Type 0 where
  pub self : Signatory
  pub sorted : List Signatory
  pub addrs_by_signatory : Map Signatory Address
  pub expiry_by_signatory : Map Signatory Expiry
  pub subnets_by_hash : Map Hash (List Signatory)

unfoldable pub new_in_mem_table : Signatory → InMemTable
new_in_mem_table self = record {
  self = self;
  sorted = [];
  addrs_by_signatory = [];
  expiry_by_signatory = [];
  subnets_by_hash = [];
}

abbrev pub is_some {ℓ} : {A : Type ℓ} → Option A → Bool
is_some none = false
is_some (some a) = true

-- The index of `sort.Search` with `isCloser(peerID, sorted[i])`. The search never leaves the slice, so
-- the value that stands in for an element out of range is not read.
unfoldable pub search_index : InMemTable → Signatory → ℕ
search_index table peer_id =
    search (length table.sorted) (λ i. is_closer table.self peer_id (get_or table.sorted i peer_id))

unfoldable pub add_peer : InMemTable → Signatory → Address → InMemTable
add_peer table peer_id peer_addr =
    if table.self == peer_id
    then table
    else (if is_some (lookup peer_id table.addrs_by_signatory)
        then record table { addrs_by_signatory = insert peer_id peer_addr table.addrs_by_signatory }
        else record table {
          addrs_by_signatory = insert peer_id peer_addr table.addrs_by_signatory;
          sorted = insert_at (search_index table peer_id) peer_id table.sorted;
        })

-- `removeIndex := i - 1; if removeIndex >= 0 { ... }`
unfoldable pub remove_before : ℕ → List Signatory → List Signatory
remove_before i sorted = if ltb 0 i then remove_at (i - 1) sorted else sorted

unfoldable pub delete_peer : InMemTable → Signatory → InMemTable
delete_peer table peer_id = record table {
  addrs_by_signatory = delete peer_id table.addrs_by_signatory;
  sorted = remove_before (search_index table peer_id) table.sorted;
}

unfoldable pub peer_address : InMemTable → Signatory → Option Address
peer_address table peer_id = lookup peer_id table.addrs_by_signatory

-- A negative count is treated as 0 is.
unfoldable pub peers : InMemTable → ℕ → List Signatory
peers table n = if n == 0 then [] else take n table.sorted

unfoldable pub num_peers : InMemTable → ℕ
num_peers table = length table.addrs_by_signatory

-- `now` is what `time.Now()` returns.
unfoldable pub handle_expired : InMemTable → Signatory → ℕ → InMemTable × Bool
handle_expired table peer_id now = elim (lookup peer_id table.expiry_by_signatory) [
  | none ↦ (table, false)
  | some expiry ↦
      if ltb expiry.minimum_expiry_age (now - expiry.timestamp)
      then (
        record (delete_peer table peer_id) {
          expiry_by_signatory = delete peer_id table.expiry_by_signatory;
        },
        true,
      )
      else (table, false)
]

unfoldable pub add_expiry : InMemTable → Signatory → ℕ → ℕ → InMemTable
unfolding peer_address
add_expiry table peer_id duration now =
    if is_some (peer_address table peer_id)
    then (if is_some (lookup peer_id table.expiry_by_signatory) then table else record table {
      expiry_by_signatory =
          insert peer_id (record { minimum_expiry_age = duration; timestamp = now })
            table.expiry_by_signatory;
    })
    else table

unfoldable pub delete_expiry : InMemTable → Signatory → InMemTable
delete_expiry table peer_id = record table {
  expiry_by_signatory = delete peer_id table.expiry_by_signatory;
}

-- The hash of the peers as they were given: `id.NewMerkleHashFromSignatories` is a parameter.
unfoldable pub add_subnet :
    (List Signatory → Hash) → InMemTable → List Signatory → InMemTable × Hash
add_subnet merkle table signatories =
    let hash = merkle signatories in
    (
      record table {
        subnets_by_hash =
            insert hash (slice (is_closer table.self) signatories) table.subnets_by_hash;
      },
      hash,
    )

unfoldable pub delete_subnet : InMemTable → Hash → InMemTable
delete_subnet table hash = record table { subnets_by_hash = delete hash table.subnets_by_hash }

unfoldable pub subnet : InMemTable → Hash → List Signatory
subnet table hash = elim (lookup hash table.subnets_by_hash) [
  | none ↦ []
  | some signatories ↦ signatories
]

-- `sorted[index]` for each index; `none` is Go's panic at an index out of range.
unfoldable pub pick_all : List Signatory → List ℕ → Option (List Signatory)
pick_all sorted [] = some []
pick_all sorted (i ∷ is) =
    let rest = pick_all sorted is in
    elim (get_elem? sorted i) [ none ↦ none | some x ↦ Option.map (λ xs. x ∷ xs) rest ]

-- The index of one round of Floyd's sampling, with the counter `i` and the indices taken; `intn i` is
-- what `Intn(i)` returns in that round.
unfoldable pub floyd_index : (ℕ → ℕ) → ℕ → List ℕ → ℕ
floyd_index intn i set = if contains (intn i) set then i else intn i

-- The rounds from the counter `i` on.
unfoldable pub floyd : (ℕ → ℕ) → ℕ → ℕ → List ℕ → List ℕ
floyd intn zero i set = []
floyd intn (suc rounds) i set =
    let index = floyd_index intn i set in index ∷ floyd intn rounds (suc i) (index ∷ set)

-- `perm m` is what `rand.Perm(m)` returns. A negative count is treated as 0 is.
unfoldable pub random_peers : (ℕ → List ℕ) → (ℕ → ℕ) → InMemTable → ℕ → Option (List Signatory)
random_peers perm intn table n =
    let m = length table.sorted in
    if n == 0
    then some []
    else (if leb m n
        then some table.sorted
        else (if leb m 10000 || leb (m / 50) n
            then pick_all table.sorted (take n (perm m))
            else pick_all table.sorted (floyd intn n (m - n) [])))
