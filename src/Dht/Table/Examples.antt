-- ===== src/Dht/Table/Examples.antt =====
-- The table at concrete peers: tests of the methods, and the theorems at inputs.
use aw.Base.{
  ℕ, zero, suc, ◌+◌, ◌-◌, ◌≤◌, ◌<◌, ◌≡◌, ◌↔◌, refl, ap, true, false, none, some, List, [], ◌∷◌,
  arith, nat_Eq, bytes_Eq, length,
}
use aw.Base.Arrays.{padded, beq_Bytes, Bytes_Eq}
use aw.Base.Maps.{lookup, insert, delete}
use aw.Wire.Address.{Address, tcp, empty_signature}
use aw.Sorting.Search.{search}
use aw.Sorting.Ordered.{contains, insert_at}
use aw.Dht.Distance.{Signatory, is_closer}
use aw.Dht.Table.{
  InMemTable, is_some, new_in_mem_table, search_index, add_peer, delete_peer, peers, peer_address,
  handle_expired, add_expiry, random_peers,
}
use aw.Dht.Table.Peers.{IsValid, delete_peer_absent, peers-AreNearest, AreNearest}
use aw.Dht.Table.Expire.{Reach, start, later, adds_peer, adds_expiry, Reach-Keeps, IsTracked}
use aw.Dht.Table.Expired.{IsOver, Drops, handle_expired_lem}
use aw.Dht.Table.Random.{random_peers_lem, IsSample}
use aw.Dht.Table.Sampling.{AreIndices}

abbrev local : Signatory
local = padded 31 7

abbrev near : Signatory
near = padded 31 6

abbrev far : Signatory
far = padded 31 1

abbrev home : Address
home = record { protocol = tcp; value = []; nonce = 3; signature = empty_signature }

two_peers : InMemTable
two_peers = add_peer (add_peer (new_in_mem_table local) far home) near home

two_peers_reached : Reach local two_peers
unfolding two_peers
two_peers_reached = later (later start (adds_peer far home refl)) (adds_peer near home refl)

two_peers_sorted : two_peers.sorted ≡ near ∷ far ∷ []
unfolding two_peers add_peer new_in_mem_table search_index search is_closer insert_at lookup insert
    beq_Bytes
two_peers_sorted = refl

Reach-Keeps_example : IsValid two_peers × IsTracked two_peers
Reach-Keeps_example = Reach-Keeps two_peers_reached

two_peers-IsValid : IsValid two_peers
two_peers-IsValid = (Reach-Keeps two_peers_reached).0

abbrev stranger : Signatory
stranger = padded 31 0

delete_peer_absent_example :
    (y : Signatory) × (contains y two_peers.sorted ≡ true)
    × (contains y (delete_peer two_peers stranger).sorted ≡ false)
    × (is_some (peer_address (delete_peer two_peers stranger) y) ≡ true)
    × (is_closer local y stranger ≡ true)
    × ((z : Signatory)
        → is_some (peer_address two_peers z) ≡ true
        → is_closer local y z ≡ true
        → is_closer local stranger z ≡ true)
unfolding two_peers add_peer new_in_mem_table lookup insert beq_Bytes
delete_peer_absent_example =
    delete_peer_absent two_peers stranger near two_peers-IsValid
      (unfold two_peers peer_address add_peer new_in_mem_table lookup insert beq_Bytes in refl)
      (unfold two_peers peer_address add_peer new_in_mem_table lookup insert beq_Bytes in refl)
      (unfold two_peers add_peer new_in_mem_table lookup insert beq_Bytes is_closer in refl)

peers-AreNearest_example : AreNearest two_peers 1 (peers two_peers 1)
peers-AreNearest_example = peers-AreNearest two_peers 1 two_peers-IsValid

abbrev dated : InMemTable
dated = add_expiry two_peers near 10 50

dated-Keeps : IsValid dated × IsTracked dated
dated-Keeps = Reach-Keeps (later two_peers_reached (adds_expiry near 10 50 refl))

handle_expired_example :
    (((handle_expired dated near 100).1 ≡ true) ↔ IsOver dated near 100)
    × Drops dated (handle_expired dated near 100).0 near (handle_expired dated near 100).1
handle_expired_example = handle_expired_lem dated near 100 dated-Keeps.0 dated-Keeps.1

-- After its time has passed the peer is gone.
late_expiry : peer_address (handle_expired (add_expiry two_peers near 10 50) near 61).0 near ≡ none
unfolding two_peers add_peer new_in_mem_table lookup insert delete beq_Bytes peer_address
    handle_expired add_expiry delete_peer
late_expiry = refl

-- 0, 1, and so on, `n` numbers from `i`.
abbrev count_from : ℕ → ℕ → List ℕ
count_from i zero = []
count_from i (suc n) = i ∷ count_from (suc i) n

count_from_above : (n i j : ℕ) → j < i → contains j (count_from i n) ≡ false
unfolding contains
count_from_above zero i j h = refl
count_from_above (suc n) i j h = ground (arith, count_from_above n (suc i) j)

count_from-AreIndices :
    (n i m : ℕ) → i + n ≤ m → AreIndices m (count_from i n) × (length (count_from i n) ≡ n)
count_from-AreIndices zero i m h = (record { in_range = tt; distinct = tt }, refl)
count_from-AreIndices (suc n) i m h =
    let (r, e) = count_from-AreIndices n (suc i) m (omega arith) in
    (
      record {
        in_range = (omega arith, r.in_range);
        distinct = (count_from_above n (suc i) i (omega arith), r.distinct);
      },
      ap suc e,
    )

random_peers_example :
    (ys : List Signatory) × (random_peers (count_from 0) (λ k. k - 1) two_peers 1 ≡ some ys)
    × IsSample two_peers 1 ys
random_peers_example =
    random_peers_lem (count_from 0) (λ k. k - 1) two_peers 1 two_peers-IsValid
      (λ m. count_from-AreIndices m 0 m (omega arith)) (λ k h. omega arith)
