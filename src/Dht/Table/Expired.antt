-- ===== src/Dht/Table/Expired.antt =====
-- What `HandleExpired` of dht/table.go does to the peers, the addresses and the expiries.
use aw.Base.{
  ℕ, ◌+◌, ◌≤◌, ◌<◌, ◌≡◌, refl, ap, ◌↔◌, Bool, true, false, ◌&&◌, none, some, arith, if◌then◌else◌,
  ◌==◌, nat_Eq, bytes_Eq,
}
use aw.Base.Arrays.{Bytes_Eq}
use aw.Base.Maps.{lookup, delete, lookup-delete}
use aw.Sorting.Ordered.{contains}
use aw.Dht.Distance.{Signatory}
use aw.Dht.Table.{InMemTable, Expiry, is_some, delete_peer, peer_address, handle_expired}
use aw.Dht.Table.Peers.{IsValid, delete_peer-IsValid}
use aw.Dht.Table.Expire.{IsTracked, no_expiry, too_early, expired, handle_expired-Handles}

-- The peer has an expiry, and more than its age has passed since its time.
abbrev pub IsOver : InMemTable → Signatory → ℕ → Type 0
IsOver t p now =
    (e : Expiry) × (lookup p t.expiry_by_signatory ≡ some e)
    × (e.timestamp + e.minimum_expiry_age < now)

-- The table `u` is `t` where `p` is gone if `gone`, and all else is as it was.
pub record Drops (t u : InMemTable) (p : Signatory) (gone : Bool) : Type 0 where
  pub in_sorted :
      (q : Signatory)
      → contains q u.sorted ≡ (if gone && p == q then false else contains q t.sorted)
  pub addresses :
      (q : Signatory) → peer_address u q ≡ (if gone && p == q then none else peer_address t q)
  pub expiries :
      (q : Signatory)
      → lookup q u.expiry_by_signatory
        ≡ (if gone && p == q then none else lookup q t.expiry_by_signatory)
  pub same_self : u.self ≡ t.self
  pub same_subnets : u.subnets_by_hash ≡ t.subnets_by_hash

Drops-refl : (t : InMemTable) (p : Signatory) → Drops t t p false
Drops-refl t p = record {
  in_sorted = λ q. refl;
  addresses = λ q. refl;
  expiries = λ q. refl;
  same_self = refl;
  same_subnets = refl;
}

Drops-expired :
    (t : InMemTable) (p : Signatory)
    → IsValid t
    → is_some (lookup p t.addrs_by_signatory) ≡ true
    → Drops t
        (record (delete_peer t p) { expiry_by_signatory = delete p t.expiry_by_signatory })
        p
        true
unfolding peer_address delete_peer
Drops-expired t p v k =
    let w = delete_peer-IsValid t p v k in
    record {
      in_sorted =
          λ q. ground (arith, w.same_keys q, v.same_keys q, lookup-delete p q t.addrs_by_signatory);
      addresses = λ q. ground (arith, lookup-delete p q t.addrs_by_signatory);
      expiries = λ q. ground (arith, lookup-delete p q t.expiry_by_signatory);
      same_self = refl;
      same_subnets = refl;
    }

not_over :
    (t : InMemTable) (p : Signatory) (now : ℕ) (e : Expiry)
    → lookup p t.expiry_by_signatory ≡ some e
    → now ≤ e.timestamp + e.minimum_expiry_age
    → IsOver t p now
    → ⊥
not_over t p now e h l (e', h', l') =
    let i : e ≡ e' = cc (h, h') in
    omega (arith, l, l', ap (λ x. x.timestamp) i, ap (λ x. x.minimum_expiry_age) i)

-- In a table that is valid, and where only peers have an expiry, `HandleExpired` returns true exactly
-- if the peer has an expiry whose age has passed. If so, the peer, its address and its expiry are no
-- longer in the table; otherwise they are as before. All other peers, addresses and expiries stay.
pub handle_expired_lem :
    (t : InMemTable) (p : Signatory) (now : ℕ)
    → IsValid t
    → IsTracked t
    → (((handle_expired t p now).1 ≡ true) ↔ IsOver t p now)
      × Drops t (handle_expired t p now).0 p (handle_expired t p now).1
handle_expired_lem t p now v k = elim (handle_expired-Handles t p now) [
  | no_expiry h e ↦ rw e ((λ f. cc f, λ (e', h', l). cc (h, h')), Drops-refl t p)
  | too_early x h l e ↦ rw e ((λ f. cc f, λ o. absurd (not_over t p now x h l o)), Drops-refl t p)
  | expired x h l e ↦
      rw e ((λ f. (x, h, l), λ o. refl), Drops-expired t p v (k.known p (ap is_some h)))
]
