-- ===== src/Transport/Dial/Rounds.antt =====
-- How `dial` of transport/transport.go ends, and when it does not.
use aw.Base.{
  ℕ, ◌≡◌, refl, sym, ap, ◌∙◌, ◌≢◌, inl, inr, true, false, none, some, List, [], ◌∷◌, Bool-cases,
  ◌==◌, nat_Eq, bytes_Eq, All, beq_refl, subst,
}
use aw.Base.Arrays.{Bytes_Eq}
use aw.Base.Maps.{lookup, lookup-delete}
use aw.Dht.Distance.{Signatory}
use aw.Dht.Table.Expire.{no_expiry, too_early, expired, handle_expired-Handles}
use aw.Dht.Table.{InMemTable, add_expiry, handle_expired, delete_peer, peer_address}
use aw.Wire.Address.{Address}
use aw.Transport.Dial.{
  Failure, Round, exit, retry_done, dial_done, Ending, fails, handled, DialState, handle_failure,
  handle_failures, DialResult, panics, goes_on, end_round, dial_round, after_failures, then_rounds,
  dial_rounds, dial, tcp,
}

-- The table does not know the peer: no address, no expiry.
abbrev pub IsGone : InMemTable → Signatory → Type 0
IsGone table remote =
    (lookup remote table.addrs_by_signatory ≡ none)
    × (lookup remote table.expiry_by_signatory ≡ none)

add_expiry-gone :
    (table : InMemTable) (remote : Signatory) (duration now : ℕ)
    → IsGone table remote
    → add_expiry table remote duration now ≡ table
unfolding add_expiry peer_address
add_expiry-gone table remote duration now (a, e) = rw (a, add_expiry) refl

handle_expired-gone :
    (table : InMemTable) (remote : Signatory) (now : ℕ)
    → IsGone table remote
    → handle_expired table remote now ≡ (table, false)
unfolding handle_expired
handle_expired-gone table remote now (a, e) = rw (e, handle_expired) refl

-- A peer that expires is gone.
handle_expired-IsGone :
    (table : InMemTable) (remote : Signatory) (now : ℕ)
    → (handle_expired table remote now).1 ≡ true
    → IsGone (handle_expired table remote now).0 remote
unfolding delete_peer
handle_expired-IsGone table remote now h = elim (handle_expired-Handles table remote now) [
  | no_expiry e q ↦ cc (sym (ap (λ r. r.1) q) ∙ h)
  | too_early x e l q ↦ cc (sym (ap (λ r. r.1) q) ∙ h)
  | expired x e l q ↦ rw q (
    rw (lookup-delete remote remote table.addrs_by_signatory, beq_refl remote) refl,
    rw (lookup-delete remote remote table.expiry_by_signatory, beq_refl remote) refl,
  )
]

-- What is done to the table does not add a peer that is gone.
abbrev pub Forgets : Signatory → (InMemTable → InMemTable) → Type 0
Forgets remote others = (table : InMemTable) → IsGone table remote → IsGone (others table) remote

module _ (duration : ℕ) (remote : Signatory) where
  -- If the exit channel is closed, then the peer is gone.
  abbrev pub Exits : DialState → Type 0
  Exits s = s.exit_closed ≡ true → IsGone s.table remote

  abbrev pub FailureForgets : Failure → Type 0
  FailureForgets f = Forgets remote f.before × Forgets remote f.between

  -- What `HandleExpired` is called on.
  abbrev dated : DialState → Failure → InMemTable
  dated s f = f.between (add_expiry (f.before s.table) remote duration f.added_at)

  dated-IsGone :
      (s : DialState) (f : Failure)
      → FailureForgets f
      → IsGone s.table remote
      → IsGone (dated s f) remote
  dated-IsGone s f (k, k') g =
      let g' = k s.table g in
      k' (add_expiry (f.before s.table) remote duration f.added_at)
        (rw (add_expiry-gone (f.before s.table) remote duration f.added_at g') g')

  not_expired :
      (s : DialState) (f : Failure)
      → (handle_expired (dated s f) remote f.handled_at).1 ≡ false
      → handle_failure duration remote s f
        ≡ some (record {
          table = (handle_expired (dated s f) remote f.handled_at).0;
          exit_closed = s.exit_closed;
        })
  unfolding handle_failure
  not_expired s f e = rw e refl

  is_expired :
      (s : DialState) (f : Failure)
      → (handle_expired (dated s f) remote f.handled_at).1 ≡ true
      → s.exit_closed ≡ false
      → handle_failure duration remote s f
        ≡ some (record {
          table = (handle_expired (dated s f) remote f.handled_at).0;
          exit_closed = true;
        })
  unfolding handle_failure
  is_expired s f e c = rw (e, c) refl

  handle_failure-IsGone :
      (s : DialState) (f : Failure)
      → FailureForgets f
      → IsGone s.table remote
      → (s' : DialState) × (handle_failure duration remote s f ≡ some s') × IsGone s'.table remote
  handle_failure-IsGone s f k g =
      let g' = dated-IsGone s f k g in
      let e = handle_expired-gone (dated s f) remote f.handled_at g' in
      (
        record {
          table = (handle_expired (dated s f) remote f.handled_at).0;
          exit_closed = s.exit_closed;
        },
        not_expired s f (ap (λ r. r.1) e),
        subst (λ t. IsGone t remote) (sym (ap (λ r. r.0) e)) g',
      )

  handle_failure-Exits :
      (s : DialState) (f : Failure)
      → FailureForgets f
      → Exits s
      → (s' : DialState) × (handle_failure duration remote s f ≡ some s') × Exits s'
  handle_failure-Exits s f k x = elim (Bool-cases s.exit_closed) [
    | inl c ↦ let (s', e, g) = handle_failure-IsGone s f k (x c) in (s', e, λ y. g)
    | inr c ↦
        let h = handle_expired (dated s f) remote f.handled_at in
        elim (Bool-cases h.1) [
          | inl e ↦ (
            record { table = h.0; exit_closed = true },
            is_expired s f e c,
            λ y. handle_expired-IsGone (dated s f) remote f.handled_at e,
          )
          | inr e ↦ (
            record { table = h.0; exit_closed = s.exit_closed },
            not_expired s f e,
            λ y. cc (sym c ∙ y),
          )
        ]
  ]

  handle_failures-Exits :
      (s : DialState) (fs : List Failure)
      → All FailureForgets fs
      → Exits s
      → (s' : DialState) × (handle_failures duration remote s fs ≡ some s') × Exits s'
  unfolding handle_failures
  handle_failures-Exits s [] k x = (s, refl, x)
  handle_failures-Exits s (f ∷ fs) k x =
      let (s1, e, x1) = handle_failure-Exits s f k.0 x in
      let (s2, e', x2) = handle_failures-Exits s1 fs k.1 x1 in (s2, rw (e, handle_failures) e', x2)

  handle_failures-IsGone :
      (s : DialState) (fs : List Failure)
      → All FailureForgets fs
      → IsGone s.table remote
      → (s' : DialState) × (handle_failures duration remote s fs ≡ some s') × IsGone s'.table remote
  unfolding handle_failures
  handle_failures-IsGone s [] k g = (s, refl, g)
  handle_failures-IsGone s (f ∷ fs) k g =
      let (s1, e, g1) = handle_failure-IsGone s f k.0 g in
      let (s2, e', g2) = handle_failures-IsGone s1 fs k.1 g1 in (s2, rw (e, handle_failures) e', g2)

  -- Nobody adds the peer again once it is gone, whenever in the round it is.
  abbrev pub RoundForgets : Round → Type 0
  RoundForgets r = All FailureForgets r.failures × Forgets remote r.others

  safe_end :
      (ending : Ending) (s : DialState) (next : DialState → DialResult)
      → next s ≢ panics
      → then_rounds (end_round remote ending s) next ≢ panics
  unfolding then_rounds end_round
  safe_end handled s next h e = cc
  safe_end (fails exit) s next h e = cc
  safe_end (fails retry_done) s next h e = cc
  safe_end (fails (dial_done true)) s next h e = cc
  safe_end (fails (dial_done false)) s next h e = h e

  -- The state at the end of a round.
  abbrev ended : Round → DialState → DialState
  ended r s = record s { table = r.others s.table }

  round_from :
      (s : DialState) (r : Round) (s1 : DialState)
      → handle_failures duration remote s r.failures ≡ some s1
      → dial_round duration remote s r ≡ end_round remote r.ending (ended r s1)
  unfolding dial_round after_failures
  round_from s r s1 e = ap (after_failures remote r) e

  dial_rounds-safe :
      (s : DialState) (rs : List Round)
      → Exits s
      → All RoundForgets rs
      → dial_rounds duration remote s rs ≢ panics
  unfolding dial_rounds
  dial_rounds-safe s [] x h = λ e. cc e
  dial_rounds-safe s (r ∷ rs) x h =
      let next : DialState → DialResult = λ s'. dial_rounds duration remote s' rs in
      let (s1, e, x1) = handle_failures-Exits s r.failures h.0.0 x in
      subst (λ o. then_rounds o next ≢ panics) (sym (round_from s r s1 e))
        (safe_end r.ending (ended r s1) next
          (dial_rounds-safe (ended r s1) rs (λ c. h.0.1 s1.table (x1 c)) h.1))

  -- If nobody adds the peer again once the table does not know it, then `dial` never panics.
  pub dial-ne-panics :
      (table : InMemTable) (addr : Address) (rs : List Round)
      → All RoundForgets rs
      → dial duration table remote addr rs ≢ panics
  unfolding dial
  dial-ne-panics table addr rs h = elim (Bool-cases (addr.protocol == tcp)) [
    | inl p ↦
        rw p (dial_rounds-safe (record { table = table; exit_closed = false }) rs (λ e. cc e) h)
    | inr p ↦ rw p (λ e. cc e)
  ]

  -- A round that fails, is not waited for by a connection, and does not see that the exit is closed.
  abbrev pub Misses : Round → Type 0
  Misses r = (r.ending ≡ fails (dial_done false)) × RoundForgets r

  -- If the table does not know the peer, nobody adds it, and in each round the attempts fail and
  -- `select` takes the case of the dial context while there is no connection, then these rounds,
  -- however many, do not end `dial`, and the table still does not know the peer.
  pub dial_rounds-goes_on :
      (s : DialState) (rs : List Round)
      → IsGone s.table remote
      → All Misses rs
      → (s' : DialState) × (dial_rounds duration remote s rs ≡ goes_on s') × IsGone s'.table remote
  unfolding dial_rounds then_rounds end_round
  dial_rounds-goes_on s [] g h = (s, refl, g)
  dial_rounds-goes_on s (r ∷ rs) g h =
      let (s1, e, g1) = handle_failures-IsGone s r.failures h.0.1.0 g in
      let step : dial_round duration remote s r ≡ goes_on (ended r s1) =
        round_from s r s1 e ∙ ap (λ x. end_round remote x (ended r s1)) h.0.0 in
      let (s', e', g') = dial_rounds-goes_on (ended r s1) rs (h.0.1.1 s1.table g1) h.1 in
      (s', ap (λ x. then_rounds x (λ y. dial_rounds duration remote y rs)) step ∙ e', g')
