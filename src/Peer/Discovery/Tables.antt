-- ===== src/Peer/Discovery/Tables.antt =====
-- What the handlers of peer/peerdiscovery.go do to the table, peer by peer.
use aw.Base.{
  ℕ, ◌≡◌, refl, sym, ap, ◌∙◌, inl, inr, Bool, true, false, Option, none, some, List, [], ◌∷◌, arith,
  if◌then◌else◌, Bool-cases, Option-cases, ◌==◌, nat_Eq, bytes_Eq, beq_refl, beq-eq,
}
use aw.Base.Arrays.{Bytes_Eq}
use aw.Base.Maps.{lookup, lookup-insert}
use aw.Dht.Distance.{Signatory}
use aw.Dht.Table.{InMemTable, add_peer, peer_address, is_some, peers}
use aw.Dht.Table.Peers.{IsValid, add_peer-IsValid, peers-AreNearest}
use aw.Sorting.Ordered.{contains}
use aw.Peer.Discovery.{
  acknowledged, add_all, are_known, Formats, accept_ping, answer_ping, pinged_address,
}
use aw.Wire.Address.{Address}
use aw.Wire.SigAddr.{SignatoryAndAddress}

pub peer_address-add_peer :
    (t : InMemTable) (p q : Signatory) (a : Address)
    → peer_address (add_peer t p a) q
      ≡ (if t.self == p then peer_address t q else (if p == q then some a else peer_address t q))
unfolding add_peer peer_address
peer_address-add_peer t p q a = elim (Bool-cases (t.self == p)) [
  | inl own ↦ rw own refl
  | inr other ↦ rw other (elim (Bool-cases (is_some (lookup p t.addrs_by_signatory))) [
    | inl old ↦ rw old (lookup-insert p q a t.addrs_by_signatory)
    | inr new ↦ rw new (lookup-insert p q a t.addrs_by_signatory)
  ])
]

pub self-add_peer : (t : InMemTable) (p : Signatory) (a : Address) → (add_peer t p a).self ≡ t.self
unfolding add_peer
self-add_peer t p a = elim (Bool-cases (t.self == p)) [
  | inl own ↦ rw own refl
  | inr other ↦ rw other (elim (Bool-cases (is_some (lookup p t.addrs_by_signatory))) [
    | inl old ↦ rw old refl
    | inr new ↦ rw new refl
  ])
]

pub add_all-IsValid :
    (t : InMemTable) (xs : List SignatoryAndAddress)
    → IsValid t
    → IsValid (add_all t xs) × ((add_all t xs).self ≡ t.self)
unfolding add_all
add_all-IsValid t [] v = (v, refl)
add_all-IsValid t (x ∷ xs) v =
    let (v', e) =
      add_all-IsValid (add_peer t x.signatory x.address) xs
        (add_peer-IsValid t x.signatory x.address v) in
    (v', e ∙ self-add_peer t x.signatory x.address)

-- The last address that a list gives a peer, else the one before it.
abbrev pub latest : List SignatoryAndAddress → Signatory → Option Address → Option Address
latest [] q before = before
latest (x ∷ xs) q before = latest xs q (if x.signatory == q then some x.address else before)

-- The local peer is never added.
one_more :
    (own same : Bool) (a : Address) (o : Option Address)
    → (own ≡ true → same ≡ false)
    → (if own then o else (if same then some a else o)) ≡ (if same then some a else o)
one_more true true a o h = cc (h refl)
one_more true false a o h = refl
one_more false same a o h = refl

other_than : (s p q : Signatory) → (s == q) ≡ false → (s == p) ≡ true → (p == q) ≡ false
other_than s p q h e = ap (λ x. x == q) (sym (beq-eq s p e)) ∙ h

pub peer_address-add_all :
    (t : InMemTable) (xs : List SignatoryAndAddress) (q : Signatory)
    → (t.self == q) ≡ false
    → peer_address (add_all t xs) q ≡ latest xs q (peer_address t q)
unfolding add_all
peer_address-add_all t [] q h = refl
peer_address-add_all t (x ∷ xs) q h =
    let t' = add_peer t x.signatory x.address in
    let own : (t'.self == q) ≡ false =
      ap (λ s. s == q) (self-add_peer t x.signatory x.address) ∙ h in
    let step =
      peer_address-add_peer t x.signatory q x.address
      ∙ one_more (t.self == x.signatory) (x.signatory == q) x.address (peer_address t q)
          (other_than t.self x.signatory q h) in
    peer_address-add_all t' xs q own ∙ ap (latest xs q) step

All_is_known :
    (t : InMemTable) (sigs : List Signatory)
    → ((q : Signatory) → contains q sigs ≡ true → is_some (peer_address t q) ≡ true)
    → are_known t sigs ≡ true
unfolding are_known contains
All_is_known t [] h = refl
All_is_known t (p ∷ ps) h = elim (Option-cases (peer_address t p)) [
  | inl n ↦ cc (h p (ground (arith, beq_refl p)), n)
  | inr (a, k) ↦ rw (k, are_known) (All_is_known t ps (λ q c. h q (ground (arith, c))))
]

-- The addresses of the peers of a valid table are known.
peers-are_known : (t : InMemTable) (n : ℕ) → IsValid t → are_known t (peers t n) ≡ true
peers-are_known t n v = All_is_known t (peers t n) (peers-AreNearest t n v).members

-- Over a valid table a ping comes to no `DPanic`.
pub accept-known :
    (f : Formats) (max_expected_peers : ℕ) (t : InMemTable) (from : Signatory) (ip : List ℕ)
    (port now : ℕ)
    → IsValid t
    → let t' = add_peer t from (pinged_address f.print ip port now) in
      accept_ping f max_expected_peers t from (some ip) port now
      ≡ answer_ping t' from (f.to_binary (acknowledged t' (peers t' max_expected_peers)))
unfolding accept_ping
accept-known f n t from ip port now v =
    let a = pinged_address f.print ip port now in
    let known = peers-are_known (add_peer t from a) n (add_peer-IsValid t from a v) in
    rw (known, accept_ping) (ground arith)

-- What a table knows of a peer, else what was known before.
abbrev pub prefer : Option Address → Option Address → Option Address
prefer none before = before
prefer (some a) before = some a

prefer_known :
    (b : Bool) (o before : Option Address) (a : Address)
    → o ≡ some a
    → (if b then prefer o (some a) else some a) ≡ prefer o before
prefer_known true none before a e = cc e
prefer_known true (some x) before a e = refl
prefer_known false o before a e = sym (ap (λ x. prefer x before) e)

unknown :
    (b : Bool) (o before : Option Address)
    → o ≡ none
    → (if b then prefer o before else before) ≡ prefer o before
unknown true o before e = refl
unknown false o before e = sym (ap (λ x. prefer x before) e)

same_test : (p q : Signatory) (b : Bool) → (p == q) ≡ b → (q == p) ≡ b
same_test p q true e = ap (λ x. q == x) (beq-eq p q e) ∙ beq_refl q
same_test p q false e = elim (Bool-cases (q == p)) [
  | inl t ↦ absurd (cc (sym (ap (λ x. x == q) (sym (beq-eq q p t)) ∙ beq_refl q) ∙ e))
  | inr f ↦ f
]

pub latest-acknowledged :
    (t : InMemTable) (sigs : List Signatory) (q : Signatory) (before : Option Address)
    → latest (acknowledged t sigs) q before
      ≡ (if contains q sigs then prefer (peer_address t q) before else before)
unfolding acknowledged contains
latest-acknowledged t [] q before = refl
latest-acknowledged t (p ∷ ps) q before = elim (Bool-cases (p == q)) [
  | inl same ↦
      let e : peer_address t q ≡ peer_address t p = ap (peer_address t) (sym (beq-eq p q same)) in
      elim (Option-cases (peer_address t p)) [
        | inl n ↦
            rw (n, acknowledged)
              (latest-acknowledged t ps q before
                ∙ (unknown (contains q ps) (peer_address t q) before (e ∙ n)
                    ∙ sym (rw (same_test p q true same) refl)))
        | inr (a, k) ↦
            rw (k, acknowledged)
              (rw same (
                latest-acknowledged t ps q (some a)
                ∙ (prefer_known (contains q ps) (peer_address t q) before a (e ∙ k)
                    ∙ sym (rw (same_test p q true same) refl))))
      ]
  | inr other ↦ elim (Option-cases (peer_address t p)) [
    | inl n ↦
        rw (n, acknowledged)
          (latest-acknowledged t ps q before ∙ sym (rw (same_test p q false other) refl))
    | inr (a, k) ↦
        rw (k, acknowledged)
          (rw other (latest-acknowledged t ps q before ∙ sym (rw (same_test p q false other) refl)))
  ]
]
