-- ===== src/Dht/Table/Peers.antt =====
-- The peers of the table: the order of `sorted`, and its agreement with the map of addresses.
use aw.Base.{
  ℕ, zero, suc, ◌-◌, ◌≡◌, refl, true, false, none, some, List, arith, if◌then◌else◌, ◌==◌, length,
  take, Bool-cases, Option-cases, inl, inr, sym, ◌∙◌, ap, min, length-take,
}
use aw.Base.Arrays.{Bytes_Eq, beq_Bytes_iff}
use aw.Base.Maps.{
  lookup, delete, lookup-insert, lookup-delete, IsMap, insert-IsMap, delete-IsMap, length-insert,
  length-delete, delete_absent, Map,
}
use aw.Wire.Address.{Address}
use aw.Sorting.Ordered.{contains, IsAscending, IsPlace, place, place-IsPlace, remove_at}
use aw.Sorting.Edits.{
  All_contains, contains-take-drop, closer_take-drop, erase, insert_at-IsAscending,
  contains-insert_at, length-insert_at, remove_at-erase, place_pos, erase-IsAscending,
  contains-erase, length-erase,
}
use aw.Sorting.Removal.{Loses, remove_at-Loses}
use aw.Dht.Distance.{is_closer-asym, Signatory, by_distance, is_closer}
use aw.Dht.Table.{
  InMemTable, is_some, search_index, add_peer, remove_before, delete_peer, peers, num_peers,
  peer_address,
}

-- `sorted` holds the keys of the map of addresses, nearest to the local peer first, each once, and
-- the local peer is not among them.
pub record Agree (self : Signatory) (sorted : List Signatory) (addrs : Map Signatory Address)
    : Type 0 where
  pub ascending : IsAscending (by_distance self) sorted
  pub same_keys : (p : Signatory) → contains p sorted ≡ is_some (lookup p addrs)
  pub no_self : lookup self addrs ≡ none
  pub is_map : IsMap addrs
  pub counted : length sorted ≡ length addrs

abbrev pub IsValid : InMemTable → Type 0
IsValid t = Agree t.self t.sorted t.addrs_by_signatory

pub search_index-IsPlace :
    (t : InMemTable) (p : Signatory)
    → IsAscending (by_distance t.self) t.sorted
    → IsPlace (by_distance t.self) p t.sorted (search_index t p)
unfolding search_index place by_distance
search_index-IsPlace t p h = place-IsPlace (by_distance t.self) p t.sorted h

-- Adding any peer, new, known or the local one, keeps the table valid.
pub add_peer-IsValid :
    (t : InMemTable) (p : Signatory) (a : Address) → IsValid t → IsValid (add_peer t p a)
unfolding add_peer
add_peer-IsValid t p a v = elim (Bool-cases (t.self == p)) [
  | inl own ↦ rw own v
  | inr other ↦ elim (Option-cases (lookup p t.addrs_by_signatory)) [
    | inl new ↦
        rw (other, new)
          (record {
            ascending =
                insert_at-IsAscending (by_distance t.self) p t.sorted _ v.ascending
                  (rw new at (v.same_keys p)) (search_index-IsPlace t p v.ascending);
            same_keys = λ q.
                rw
                  (
                    contains-insert_at q (search_index t p) p t.sorted,
                    lookup-insert p q a t.addrs_by_signatory,
                    v.same_keys q,
                  )
                  (ground (arith, beq_Bytes_iff p q, beq_Bytes_iff q p));
            no_self = ground (
              arith,
              lookup-insert p t.self a t.addrs_by_signatory,
              v.no_self,
              beq_Bytes_iff p t.self,
              beq_Bytes_iff t.self p,
              other,
            );
            is_map = insert-IsMap p a t.addrs_by_signatory v.is_map;
            counted = omega (
              arith,
              length-insert_at (search_index t p) p t.sorted,
              rw new at (length-insert p a t.addrs_by_signatory),
              v.counted,
            );
          })
    | inr (b, old) ↦
        rw (other, old)
          (record {
            ascending = v.ascending;
            same_keys = λ q. ground (
              arith,
              lookup-insert p q a t.addrs_by_signatory,
              v.same_keys q,
              v.same_keys p,
              old,
              beq_Bytes_iff p q,
            );
            no_self = ground (
              arith,
              lookup-insert p t.self a t.addrs_by_signatory,
              v.no_self,
              beq_Bytes_iff p t.self,
              beq_Bytes_iff t.self p,
              other,
            );
            is_map = insert-IsMap p a t.addrs_by_signatory v.is_map;
            counted = omega (arith, rw old at (length-insert p a t.addrs_by_signatory), v.counted);
          })
  ]
]

suc_pred : (i : ℕ) → suc i - 1 ≡ i
suc_pred i = omega arith

delete_sorted :
    (t : InMemTable) (p : Signatory)
    → IsValid t
    → contains p t.sorted ≡ true
    → remove_before (search_index t p) t.sorted ≡ erase p t.sorted
unfolding remove_before
delete_sorted t p v h = go (search_index t p) (search_index-IsPlace t p v.ascending)
  where
    go :
        (i : ℕ)
        → IsPlace (by_distance t.self) p t.sorted i
        → remove_before i t.sorted ≡ erase p t.sorted
    go zero w = absurd (omega (arith, place_pos (by_distance t.self) p t.sorted 0 h w))
    go (suc i) w = ground (
      arith,
      remove_at-erase (by_distance t.self) p t.sorted i v.ascending h w,
      ap (λ (k : ℕ). remove_at k t.sorted) (suc_pred i),
    )

delete_counted :
    (t : InMemTable) (p : Signatory)
    → IsValid t
    → is_some (lookup p t.addrs_by_signatory) ≡ true
    → length (remove_before (search_index t p) t.sorted) ≡ length (delete p t.addrs_by_signatory)
delete_counted t p v h = elim (Option-cases (lookup p t.addrs_by_signatory)) [
  | inl new ↦ cc (new, h)
  | inr (a, old) ↦ omega (
    arith,
    ap length (delete_sorted t p v (v.same_keys p ∙ h)),
    length-erase p t.sorted (v.same_keys p ∙ h),
    length-delete p t.addrs_by_signatory a v.is_map old,
    v.counted,
  )
]

-- Deleting a peer that the table holds keeps the table valid.
pub delete_peer-IsValid :
    (t : InMemTable) (p : Signatory)
    → IsValid t
    → is_some (lookup p t.addrs_by_signatory) ≡ true
    → IsValid (delete_peer t p)
unfolding delete_peer
delete_peer-IsValid t p v h = record {
  ascending =
      rw (delete_sorted t p v (v.same_keys p ∙ h))
        (erase-IsAscending (by_distance t.self) p t.sorted v.ascending);
  same_keys = λ q.
      rw
        (
          delete_sorted t p v (v.same_keys p ∙ h),
          contains-erase (by_distance t.self) q p t.sorted v.ascending,
          lookup-delete p q t.addrs_by_signatory,
          v.same_keys q,
        )
        (ground (arith, beq_Bytes_iff p q));
  no_self = ground (arith, lookup-delete p t.self t.addrs_by_signatory, v.no_self);
  is_map = delete-IsMap p t.addrs_by_signatory v.is_map;
  counted = delete_counted t p v h;
}

remove_before-suc : (i : ℕ) (xs : List Signatory) → remove_before (suc i) xs ≡ remove_at i xs
unfolding remove_before
remove_before-suc i xs = ground (arith, ap (λ (k : ℕ). remove_at k xs) (suc_pred i))

delete_place :
    (t : InMemTable) (p x : Signatory)
    → IsValid t
    → peer_address t p ≡ none
    → is_some (peer_address t x) ≡ true
    → is_closer t.self x p ≡ true
    → (i : ℕ) → IsPlace (by_distance t.self) p t.sorted i
    → (y : Signatory) × Loses (by_distance t.self) p t.sorted (remove_before i t.sorted) y
unfolding peer_address by_distance
delete_place t p x v absent held near zero w =
    absurd
      (is_closer-asym t.self x p near (All_contains _ x t.sorted w.behind (v.same_keys x ∙ held)))
delete_place t p x v absent held near (suc i) w = rw (remove_before-suc i t.sorted) (
    remove_at-Loses (by_distance t.self) p t.sorted i v.ascending
      (v.same_keys p ∙ ap is_some absent) w)

-- Deleting a peer `p` that the table does not hold, while it holds a nearer one, removes a peer `y` of
-- the table from `sorted`, though not from the addresses: `y` is not `p`, its address is still known,
-- it is nearer than `p`, and no peer of the table is between them.
pub delete_peer_absent :
    (t : InMemTable) (p x : Signatory)
    → IsValid t
    → peer_address t p ≡ none
    → is_some (peer_address t x) ≡ true
    → is_closer t.self x p ≡ true
    → (y : Signatory) × (contains y t.sorted ≡ true)
      × (contains y (delete_peer t p).sorted ≡ false)
      × (is_some (peer_address (delete_peer t p) y) ≡ true)
      × (is_closer t.self y p ≡ true)
      × ((z : Signatory)
          → is_some (peer_address t z) ≡ true
          → is_closer t.self y z ≡ true
          → is_closer t.self p z ≡ true)
unfolding delete_peer peer_address by_distance
delete_peer_absent t p x v absent held near =
    let (y, l) =
      delete_place t p x v absent held near (search_index t p)
        (search_index-IsPlace t p v.ascending) in
    (
      y,
      l.held,
      l.lost,
      rw (delete_absent p t.addrs_by_signatory absent) (sym (v.same_keys y) ∙ l.held),
      l.nearer,
      λ z k. l.last z (v.same_keys z ∙ k),
    )

-- After `AddPeer` the address of the added peer is the new one, unless it is the local peer, and the
-- other addresses are as before.
pub peer_address-add_peer :
    (t : InMemTable) (p q : Signatory) (a : Address)
    → peer_address (add_peer t p a) q
      ≡ (if t.self == p then peer_address t q else if p == q then some a else peer_address t q)
unfolding peer_address add_peer
peer_address-add_peer t p q a = ground (arith, lookup-insert p q a t.addrs_by_signatory)

pub peers-take : (t : InMemTable) (n : ℕ) → peers t n ≡ take n t.sorted
unfolding peers
peers-take t zero = refl
peers-take t (suc n) = ground arith

-- As many peers as there are, up to `n`: each is a peer of the table, and is nearer to the local peer
-- than any peer of the table that is not among them.
pub record AreNearest (t : InMemTable) (n : ℕ) (ys : List Signatory) : Type 0 where
  pub count : length ys ≡ min n (num_peers t)
  pub members : (x : Signatory) → contains x ys ≡ true → is_some (peer_address t x) ≡ true
  pub nearest :
      (x y : Signatory)
      → contains x ys ≡ true
      → is_some (peer_address t y) ≡ true
      → contains y ys ≡ false
      → is_closer t.self x y ≡ true

-- In a valid table `Peers(n)` returns the nearest peers.
pub peers-AreNearest : (t : InMemTable) (n : ℕ) → IsValid t → AreNearest t n (peers t n)
unfolding num_peers peer_address by_distance
peers-AreNearest t n v = rw (peers-take t n) (record {
  count = omega (arith, length-take n t.sorted, v.counted);
  members = λ x h. sym (v.same_keys x) ∙ ground (arith, contains-take-drop x n t.sorted);
  nearest = λ x y h k l.
      closer_take-drop (by_distance t.self) x y n t.sorted v.ascending h
        (ground (arith, contains-take-drop y n t.sorted, v.same_keys y));
})
