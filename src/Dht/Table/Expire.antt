-- ===== src/Dht/Table/Expire.antt =====
-- Expiries, and the histories of the table as the program uses it: package peer adds peers, package
-- transport adds and deletes expiries and lets expired peers go, and the application manages subnets.
-- There is no other call of `DeletePeer`.
use aw.Base.{
  ℕ, ◌+◌, ◌-◌, ◌≤◌, ◌<◌, ◌≡◌, refl, inl, inr, true, false, Option, none, some, List, arith, ltb,
  Bool-cases, Option-cases, nat_Eq, bytes_Eq, Bool,
}
use aw.Base.Arrays.{Bytes_Eq, beq_Bytes_iff}
use aw.Base.Maps.{lookup, delete, lookup-insert, lookup-delete}
use aw.Wire.Address.{Address}
use aw.Sorting.Ordered.{contains}
use aw.Dht.Distance.{Signatory, Hash}
use aw.Dht.Table.{
  InMemTable, Expiry, is_some, add_peer, delete_peer, handle_expired, add_expiry, delete_expiry,
  add_subnet, delete_subnet, new_in_mem_table,
}
use aw.Dht.Table.Peers.{IsValid, add_peer-IsValid, delete_peer-IsValid}

-- Only peers of the table have an expiry.
pub record IsTracked (t : InMemTable) : Type 0 where
  pub known :
      (p : Signatory)
      → is_some (lookup p t.expiry_by_signatory) ≡ true
      → is_some (lookup p t.addrs_by_signatory) ≡ true

pub data Step (t : InMemTable) (u : InMemTable) : Type 0 where
  adds_peer : (p : Signatory) (a : Address) → u ≡ add_peer t p a → Step t u
  expires : (p : Signatory) (now : ℕ) → u ≡ (handle_expired t p now).0 → Step t u
  adds_expiry : (p : Signatory) (duration now : ℕ) → u ≡ add_expiry t p duration now → Step t u
  deletes_expiry : (p : Signatory) → u ≡ delete_expiry t p → Step t u
  adds_subnet :
      (merkle : List Signatory → Hash) (s : List Signatory)
      → u ≡ (add_subnet merkle t s).0
      → Step t u
  deletes_subnet : (h : Hash) → u ≡ delete_subnet t h → Step t u

pub data Reach (self : Signatory) : InMemTable → Type 0 where
  start : Reach self (new_in_mem_table self)
  later : {t u : InMemTable} → Reach self t → Step t u → Reach self u

-- The three ways in which `HandleExpired` ends.
pub data Handles (t : InMemTable) (p : Signatory) (now : ℕ) (r : InMemTable × Bool) : Type 0 where
  no_expiry : lookup p t.expiry_by_signatory ≡ none → r ≡ (t, false) → Handles t p now r
  too_early :
      (e : Expiry)
      → lookup p t.expiry_by_signatory ≡ some e
      → now ≤ e.timestamp + e.minimum_expiry_age
      → r ≡ (t, false)
      → Handles t p now r
  expired :
      (e : Expiry)
      → lookup p t.expiry_by_signatory ≡ some e
      → e.timestamp + e.minimum_expiry_age < now
      → r
        ≡ (record (delete_peer t p) { expiry_by_signatory = delete p t.expiry_by_signatory }, true)
      → Handles t p now r

pub handle_expired-Handles :
    (t : InMemTable) (p : Signatory) (now : ℕ) → Handles t p now (handle_expired t p now)
unfolding handle_expired
handle_expired-Handles t p now = elim (Option-cases (lookup p t.expiry_by_signatory)) [
  | inl e ↦ no_expiry e (rw (e, handle_expired))
  | inr (x, e) ↦ elim (Bool-cases (ltb x.minimum_expiry_age (now - x.timestamp))) [
    | inl late ↦ expired x e (ground arith) (rw (e, handle_expired, late))
    | inr early ↦ too_early x e (ground arith) (rw (e, handle_expired, early))
  ]
]

add_peer-IsTracked :
    (t : InMemTable) (p : Signatory) (a : Address) → IsTracked t → IsTracked (add_peer t p a)
unfolding add_peer
add_peer-IsTracked t p a k = record {
  known = λ q h. ground (arith, lookup-insert p q a t.addrs_by_signatory, k.known q);
}

add_expiry-IsTracked :
    (t : InMemTable) (p : Signatory) (d now : ℕ) → IsTracked t → IsTracked (add_expiry t p d now)
unfolding add_expiry
add_expiry-IsTracked t p d now k = record {
  known = λ q h. ground (
    arith,
    lookup-insert p q (record { minimum_expiry_age = d; timestamp = now }) t.expiry_by_signatory,
    k.known q,
    beq_Bytes_iff p q,
  );
}

delete_expiry-IsTracked :
    (t : InMemTable) (p : Signatory) → IsTracked t → IsTracked (delete_expiry t p)
unfolding delete_expiry
delete_expiry-IsTracked t p k = record {
  known = λ q h. ground (arith, lookup-delete p q t.expiry_by_signatory, k.known q);
}

is_some_of {ℓ} : {A : Type ℓ} {a : A} (o : Option A) → o ≡ some a → is_some o ≡ true
is_some_of none e = cc
is_some_of (some a) e = refl

expired-IsTracked :
    (t : InMemTable) (p : Signatory)
    → IsTracked t
    → IsTracked (record (delete_peer t p) { expiry_by_signatory = delete p t.expiry_by_signatory })
unfolding delete_peer
expired-IsTracked t p k = record {
  known = λ q m. ground (
    arith,
    k.known q,
    lookup-delete p q t.expiry_by_signatory,
    lookup-delete p q t.addrs_by_signatory,
  );
}

handle_expired-Keeps :
    (t : InMemTable) (p : Signatory) (now : ℕ)
    → IsValid t × IsTracked t
    → IsValid (handle_expired t p now).0 × IsTracked (handle_expired t p now).0
handle_expired-Keeps t p now (v, k) = elim (handle_expired-Handles t p now) [
  | no_expiry _ e ↦ rw e (v, k)
  | too_early x _ _ e ↦ rw e (v, k)
  | expired x h _ e ↦
      rw e (delete_peer-IsValid t p v (k.known p (is_some_of _ h)), expired-IsTracked t p k)
]

add_expiry-IsValid :
    (t : InMemTable) (p : Signatory) (d now : ℕ) → IsValid t → IsValid (add_expiry t p d now)
unfolding add_expiry
add_expiry-IsValid t p d now v = elim (Bool-cases (is_some (lookup p t.addrs_by_signatory))) [
  | inl held ↦ elim (Bool-cases (is_some (lookup p t.expiry_by_signatory))) [
    | inl old ↦ rw (held, old) v
    | inr new ↦ rw (held, new) v
  ]
  | inr absent ↦ rw absent v
]

Step-Keeps : {t u : InMemTable} → Step t u → IsValid t × IsTracked t → IsValid u × IsTracked u
unfolding delete_expiry add_subnet delete_subnet
Step-Keeps {t} (adds_peer p a e) (v, k) =
    rw e (add_peer-IsValid t p a v, add_peer-IsTracked t p a k)
Step-Keeps {t} (expires p now e) h = rw e (handle_expired-Keeps t p now h)
Step-Keeps {t} (adds_expiry p d now e) (v, k) =
    rw e (add_expiry-IsValid t p d now v, add_expiry-IsTracked t p d now k)
Step-Keeps {t} (deletes_expiry p e) (v, k) = rw e (v, delete_expiry-IsTracked t p k)
Step-Keeps {t} (adds_subnet m s e) (v, k) = rw e (v, record { known = k.known })
Step-Keeps {t} (deletes_subnet h e) (v, k) = rw e (v, record { known = k.known })

start-Keeps :
    (self : Signatory) → IsValid (new_in_mem_table self) × IsTracked (new_in_mem_table self)
unfolding new_in_mem_table contains lookup
start-Keeps self = (
  record { ascending = tt; same_keys = λ p. refl; no_self = refl; is_map = tt; counted = refl },
  record { known = λ q h. cc },
)

-- After any history of these calls, in any order, the table is valid and only peers of
-- the table have an expiry.
pub Reach-Keeps : {self : Signatory} {t : InMemTable} → Reach self t → IsValid t × IsTracked t
Reach-Keeps {self} start = start-Keeps self
Reach-Keeps (later r s) = Step-Keeps s (Reach-Keeps r)
