-- ===== src/Dht/Table/Subnets.antt =====
-- `AddSubnet`, `DeleteSubnet` and `Subnet` of dht/table.go.
use aw.Base.{
  ◌≡◌, refl, ◌∙◌, ◌≢◌, List, [], arith, if◌then◌else◌, ◌==◌, nat_Eq, bytes_Eq, beq_refl, ne-beq,
}
use mathlib.Core.List.{Perm}
use aw.Base.Arrays.{Bytes_Eq}
use aw.Base.Maps.{lookup-insert, lookup-delete}
use aw.Sorting.Slice.{slice, slice-perm, IsSorted, slice-IsSorted}
use aw.Dht.Distance.{Signatory, Hash, is_closer, by_distance}
use aw.Dht.Table.{InMemTable, add_subnet, delete_subnet, subnet}

subnet_stored :
    (merkle : List Signatory → Hash) (t : InMemTable) (s : List Signatory) (h : Hash)
    → subnet (add_subnet merkle t s).0 h
      ≡ (if merkle s == h then slice (is_closer t.self) s else subnet t h)
unfolding add_subnet subnet
subnet_stored merkle t s h =
    ground (arith, lookup-insert (merkle s) h (slice (is_closer t.self) s) t.subnets_by_hash)

-- The table `u` and the hash that `AddSubnet` returns for the peers `s`.
pub record IsStored (merkle : List Signatory → Hash) (t : InMemTable) (s : List Signatory)
    (u : InMemTable) (hash : Hash) : Type 0 where
  pub hashed : hash ≡ merkle s
  pub same_peers : Perm (subnet u hash) s
  pub by_nearness : IsSorted (by_distance t.self) (subnet u hash)
  pub others_kept : (h : Hash) → hash ≢ h → subnet u h ≡ subnet t h

-- The hash that `AddSubnet` returns is that of the peers as given. Under it `Subnet` then returns the
-- same peers with none closer to the local peer than one before it, and no other subnet changes.
pub subnet-add_subnet :
    (merkle : List Signatory → Hash) (t : InMemTable) (s : List Signatory)
    → IsStored merkle t s (add_subnet merkle t s).0 (add_subnet merkle t s).1
unfolding add_subnet by_distance
subnet-add_subnet merkle t s = record {
  hashed = refl;
  same_peers = rw here (slice-perm (is_closer t.self) s);
  by_nearness = rw here (slice-IsSorted (by_distance t.self) s);
  others_kept = λ h n. subnet_stored merkle t s h ∙ rw (ne-beq (merkle s) h n) refl;
}
  where
    here : subnet (add_subnet merkle t s).0 (merkle s) ≡ slice (is_closer t.self) s
    here = subnet_stored merkle t s (merkle s) ∙ rw (beq_refl (merkle s)) refl

-- A deleted subnet reads as empty, and no other subnet changes.
pub subnet-delete_subnet :
    (t : InMemTable) (hash h : Hash)
    → subnet (delete_subnet t hash) h ≡ (if hash == h then [] else subnet t h)
unfolding delete_subnet subnet
subnet-delete_subnet t hash h = ground (arith, lookup-delete hash h t.subnets_by_hash)
