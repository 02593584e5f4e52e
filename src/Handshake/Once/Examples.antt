-- ===== src/Handshake/Once/Examples.antt =====
-- Two peers that hold no connection with each other.
use aw.Base.{ℕ, ◌≡◌, refl, inl, inr, none, some, List, [], if◌then◌else◌, nat_Eq, bytes_Eq}
use aw.Base.Arrays.{padded}
use aw.Handshake.Once.{OncePool, OnceResult, new_once_pool, decide, keep_alive, once}
use aw.Handshake.Once.Agreement.{held, is_established, once-agrees}
use aw.Base.Maps.{lookup}
use aw.Dht.Distance.{Signatory}

abbrev print : Signatory → List ℕ
print x = x.bytes

no_connections : held (new_once_pool 60) (padded 31 2) ≡ held (new_once_pool 60) (padded 31 1)
unfolding new_once_pool lookup
no_connections = refl

once-agrees_example :
    let byte = keep_alive (decide (new_once_pool 60) (padded 31 1) 5 8).1 in
    (s : OncePool × OnceResult) × (l : OncePool × OnceResult) × (once print
        (padded 31 1)
        (new_once_pool 60)
        (inr (padded 31 2))
        5
        7
        (inr byte)
        none
      ≡ some s)
    × (once print (padded 31 2) (new_once_pool 60) (inr (padded 31 1)) 5 8 (inl []) none ≡ some l)
    × (is_established s.1 ≡ is_established l.1)
    × (held s.0 (padded 31 2) ≡ held l.0 (padded 31 1))
    × (held l.0 (padded 31 1)
        ≡ (if is_established l.1 then some 5 else held (new_once_pool 60) (padded 31 1)))
once-agrees_example =
    once-agrees print (padded 31 1) (padded 31 2) (new_once_pool 60) (new_once_pool 60) 5 7 8 none
      (inl []) refl no_connections
