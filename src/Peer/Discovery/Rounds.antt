-- ===== src/Peer/Discovery/Rounds.antt =====
-- Which peers a round of peer/peerdiscovery.go pings, and when the rounds end.
use aw.Base.{
  All-take, ℕ, zero, suc, ◌≤◌, ◌<◌, ◌≡◌, refl, ap, ◌⊎◌, inl, inr, Bool, true, false, ◌||◌, some,
  List, [], ◌∷◌, arith, if◌then◌else◌, Bool-cases, ◌==◌, nat_Eq, bytes_Eq, length, take, All, map,
}
use aw.Dht.Distance.{Signatory, by_distance}
use aw.Peer.Gossip.{Sends}
use aw.Dht.Table.{peers, InMemTable}
use aw.Dht.Table.Peers.{IsValid, AreNearest, peers-AreNearest, peers-take}
use aw.Sorting.Ordered.{StrictOrder, IsAscending}
use aw.Peer.Discovery.{
  Pinged, ping_all, ping_msg, Round, discover_peers, discover_rounds, continues,
}

abbrev pub pings : ℕ → List Signatory → Sends
pings port sigs = map (λ s. (s, ping_msg port s)) sigs

-- The ping after which a round does not go on to the next peer.
abbrev pub IsLast : Pinged → Type 0
IsLast o = (o.context_error ≡ true) ⊎ (o.ticked ≡ true)

-- Of `m` peers, the first `n` are pinged: the round goes on to the next peer after each ping that met
-- neither an error of the context nor a tick, and only after such a ping.
pub record Tries (outcome : ℕ → Pinged) (m n : ℕ) : Type 0 where
  pub bounded : n ≤ m
  pub goes_on :
      (i : ℕ) → suc i < n → ((outcome i).context_error ≡ false) × ((outcome i).ticked ≡ false)
  pub stops : (n ≡ m) ⊎ ((i : ℕ) × (n ≡ suc i) × IsLast (outcome i))

-- The last of the `n` pings met no error of the context, and the ticker ticked after it.
abbrev pub IsTicked : (ℕ → Pinged) → ℕ → Type 0
IsTicked outcome n =
    (i : ℕ) × (n ≡ suc i) × ((outcome i).context_error ≡ false) × ((outcome i).ticked ≡ true)

-- What one round sends: pings to the first `n` of the nearest peers of the table, nearest first.
pub record Pings (port alpha : ℕ) (r : Round) (sends : Sends) (n : ℕ) : Type 0 where
  pub nearest : List Signatory
  pub are_nearest : AreNearest r.table alpha nearest
  pub ascending : IsAscending (by_distance r.table.self) nearest
  pub tries : Tries r.outcome (length nearest) n
  pub sent : sends ≡ pings port (take n nearest)

-- What the rounds send, one after the other: the context is looked at only after a round that no tick
-- ended, and the first such round that finds it done is the last.
pub data RoundsSend (port alpha : ℕ) : List Round → List Sends → Type 0 where
  no_round : RoundsSend port alpha [] []
  last_round :
      {r : Round} {rs : List Round} {sends : Sends}
      → (n : ℕ) → Pings port alpha r sends n
      → (IsTicked r.outcome n → ⊥)
      → r.done ≡ true
      → RoundsSend port alpha (r ∷ rs) (sends ∷ [])
  next_round :
      {r : Round} {rs : List Round} {sends : Sends} {rest : List Sends}
      → (n : ℕ) → Pings port alpha r sends n
      → IsTicked r.outcome n ⊎ (r.done ≡ false)
      → RoundsSend port alpha rs rest
      → RoundsSend port alpha (r ∷ rs) (sends ∷ rest)

-- What is known of the pings of a round over the peers `sigs`.
record Tried (port : ℕ) (sigs : List Signatory) (outcome : ℕ → Pinged) (n : ℕ) : Type 0 where
  pub tries : Tries outcome (length sigs) n
  pub sent : ping_all port sigs outcome ≡ pings port (take n sigs)
  pub ticked : continues sigs outcome ≡ true → IsTicked outcome n
  pub not_ticked : continues sigs outcome ≡ false → IsTicked outcome n → ⊥

stop_first :
    (port : ℕ) (s : Signatory) (ss : List Signatory) (outcome : ℕ → Pinged)
    → ((outcome 0).context_error || (outcome 0).ticked) ≡ true
    → Tried port (s ∷ ss) outcome 1
unfolding ping_all continues
stop_first port s ss outcome e = record {
  tries = record {
    bounded = omega arith;
    goes_on = λ i h. absurd (omega arith);
    stops = inr (0, refl, ground arith);
  };
  sent = rw e refl;
  ticked = λ c. (0, refl, ground arith, ground arith);
  not_ticked = λ c (i, p, q, t). not_now c i p q t;
}
  where
    not_now :
        (if (outcome 0).context_error
            then false
            else (if (outcome 0).ticked then true else continues ss (λ i. outcome (suc i))))
          ≡ false
        → (i : ℕ) → 1 ≡ suc i
        → (outcome i).context_error ≡ false
        → (outcome i).ticked ≡ true
        → ⊥
    not_now c zero p q t = ground arith
    not_now c (suc i) p q t = absurd (omega arith)

later-goes_on :
    (outcome : ℕ → Pinged) (m n i : ℕ)
    → (outcome 0).context_error ≡ false
    → (outcome 0).ticked ≡ false
    → Tries (λ i. outcome (suc i)) m n
    → suc i < suc n
    → ((outcome i).context_error ≡ false) × ((outcome i).ticked ≡ false)
later-goes_on outcome m n zero e t h l = (e, t)
later-goes_on outcome m n (suc i) e t h l = h.goes_on i (omega (arith, l))

later_tick :
    (outcome : ℕ → Pinged) (n : ℕ)
    → (outcome 0).ticked ≡ false
    → IsTicked outcome (suc n)
    → IsTicked (λ i. outcome (suc i)) n
later_tick outcome n f (zero, p, e, t) = cc (f, t)
later_tick outcome n f (suc i, p, e, t) = (i, omega (arith, p), e, t)

go_on :
    (port : ℕ) (s : Signatory) (ss : List Signatory) (outcome : ℕ → Pinged) (n : ℕ)
    → (outcome 0).context_error ≡ false
    → (outcome 0).ticked ≡ false
    → Tried port ss (λ i. outcome (suc i)) n
    → Tried port (s ∷ ss) outcome (suc n)
unfolding ping_all continues
go_on port s ss outcome n e t h = record {
  tries = record {
    bounded = omega (arith, h.tries.bounded);
    goes_on = λ i. later-goes_on outcome (length ss) n i e t h.tries;
    stops = elim h.tries.stops [
      | inl whole ↦ inl (ap suc whole)
      | inr (i, p, l) ↦ inr (suc i, ap suc p, l)
    ];
  };
  sent = rw (e, t) (ap (λ xs. (s, ping_msg port s) ∷ xs) h.sent);
  ticked = rw (e, t) (λ c. let (i, p, q, k) = h.ticked c in (suc i, ap suc p, q, k));
  not_ticked = rw (e, t) (λ c k. h.not_ticked c (later_tick outcome n t k));
}

ping_all-Tried :
    (port : ℕ) (sigs : List Signatory) (outcome : ℕ → Pinged) → (n : ℕ) × Tried port sigs outcome n
ping_all-Tried port [] outcome = (
  0,
  record {
    tries = record {
      bounded = omega arith;
      goes_on = λ i h. absurd (omega arith);
      stops = inl refl;
    };
    sent = unfold ping_all in refl;
    ticked = unfold continues in λ c. cc c;
    not_ticked = λ c (i, p, q, k). absurd (omega arith);
  },
)
ping_all-Tried port (s ∷ ss) outcome =
    elim (Bool-cases ((outcome 0).context_error || (outcome 0).ticked)) [
      | inl e ↦ (1, stop_first port s ss outcome e)
      | inr e ↦
          let (n, h) = ping_all-Tried port ss (λ i. outcome (suc i)) in
          (suc n, go_on port s ss outcome n (ground arith) (ground arith) h)
    ]

take-IsAscending {ℓ} :
    {A : Type ℓ} (o : StrictOrder A) (n : ℕ) (xs : List A)
    → IsAscending o xs
    → IsAscending o (take n xs)
take-IsAscending o zero xs h = tt
take-IsAscending o (suc n) [] h = tt
take-IsAscending o (suc n) (x ∷ xs) h = (All-take _ n xs h.0, take-IsAscending o n xs h.1)

peers-IsAscending :
    (t : InMemTable) (n : ℕ) → IsValid t → IsAscending (by_distance t.self) (peers t n)
peers-IsAscending t n v =
    rw (peers-take t n) (take-IsAscending (by_distance t.self) n t.sorted v.ascending)

round-Pings :
    (port alpha : ℕ) (r : Round) (n : ℕ)
    → IsValid r.table
    → Tried port (peers r.table alpha) r.outcome n
    → Pings port alpha r (ping_all port (peers r.table alpha) r.outcome) n
round-Pings port alpha r n v h = record {
  nearest = peers r.table alpha;
  are_nearest = peers-AreNearest r.table alpha v;
  ascending = peers-IsAscending r.table alpha v;
  tries = h.tries;
  sent = h.sent;
}

look_at_context :
    {port alpha : ℕ} {r : Round} {rs : List Round} {sends : Sends} {rest : List Sends} (n : ℕ)
    → Pings port alpha r sends n
    → (IsTicked r.outcome n → ⊥)
    → (d : Bool) → r.done ≡ d
    → RoundsSend port alpha rs rest
    → RoundsSend port alpha (r ∷ rs) (sends ∷ (if d then [] else rest))
look_at_context n sent k true d rest = last_round n sent k d
look_at_context n sent k false d rest = next_round n sent (inr d) rest

rounds-RoundsSend :
    (port alpha : ℕ) (rs : List Round)
    → All (λ r. IsValid r.table) rs
    → RoundsSend port alpha rs (discover_rounds port alpha rs)
unfolding discover_rounds
rounds-RoundsSend port alpha [] v = no_round
rounds-RoundsSend port alpha (r ∷ rs) v =
    let sigs = peers r.table alpha in
    let (n, h) = ping_all-Tried port sigs r.outcome in
    let sent = round-Pings port alpha r n v.0 h in
    let rest = rounds-RoundsSend port alpha rs v.1 in
    elim (Bool-cases (continues sigs r.outcome)) [
      | inl c ↦ rw c (next_round n sent (inl (h.ticked c)) rest)
      | inr c ↦ rw c (look_at_context n sent (h.not_ticked c) r.done refl rest)
    ]

-- `DiscoverPeers` with a positive alpha, over valid tables: each round pings the nearest peers of the
-- table of that moment, at most alpha, nearest first, up to the first ping that ends with an error of the
-- context or after which the ticker has ticked. The rounds go on until one that no tick ended finds
-- the context done.
pub discover_peers-RoundsSend :
    (port alpha : ℕ) (rs : List Round)
    → 0 < alpha
    → All (λ r. IsValid r.table) rs
    → (sends : List Sends) × (discover_peers port alpha rs ≡ some sends)
      × RoundsSend port alpha rs sends
unfolding discover_peers
discover_peers-RoundsSend port alpha rs l v =
    let z : (alpha == 0) ≡ false = ground arith in
    (discover_rounds port alpha rs, rw (z, discover_peers) refl, rounds-RoundsSend port alpha rs v)
