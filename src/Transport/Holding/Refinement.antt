-- ===== src/Transport/Holding/Refinement.antt =====
-- What the transport at work promises of each peer: when its channel is bound, and whether it counts
-- as connected.
use aw.Base.{
  ℕ, suc, ◌+◌, ◌-◌, ◌^◌, ◌≤◌, ◌<◌, ◌≡◌, refl, sym, ap, ◌∙◌, inl, inr, true, false, none, some, List,
  [], ◌∷◌, arith, ltb, if◌then◌else◌, Bool-cases, Option-cases, ◌==◌, nat_Eq, bytes_Eq, length,
  get_elem?, subst,
}
use aw.Base.Arrays.{Bytes_Eq}
use aw.Base.Maps.{lookup, insert, delete}
use aw.Channel.Client.{is_bound, kill, bind, unbind}
use aw.Channel.Client.Counting.{Counts, kill-Counts, bind-Counts, unbind-Counts, is_bound-Counts}
use aw.Dht.Distance.{Signatory}
use aw.Dht.Table.{InMemTable}
use aw.Sorting.Ordered.{remove_at}
use aw.Transport.{
  Transport, new_transport, is_linked, is_connected, bind_client, unbind_client, connect,
  disconnect,
}
use aw.Transport.Holding.{
  System, Action, links, unlinks, holds, releases, attaches, detaches, kills, release, detach, act,
  acts,
}
use aw.Sorting.Counts.{count_if-pos, count_if-remove_at}
use aw.Transport.Holding.Tally.{count, tally, is_connected-tally, connect-tally, disconnect-tally}
use aw.Transport.Holding.Views.{
  view, bindings, Keeps, Small, recount, is_linked-insert, is_linked-delete, link-linked,
  link-unlinked, unlink-linked, unlink-unlinked, link_count, unlink_count, hold_count, attach_count,
  release_count, grown, shrunk, at_same, weaken, disconnect-eq, ap_back,
}

module _ (k : ℕ) (small : Small k) (s : System) (r : Signatory) (h : Keeps k s r) where
  -- A change of the bindings and of nothing else.
  rebind :
      (t : Transport) (holding : List Signatory) (n : ℕ)
      → t.conns ≡ s.transport.conns
      → Counts t.client r n
      → n ≤ suc k
      → n ≡ (if is_linked t r then 1 else 0) + count r holding
      → Keeps (suc k) (record s { transport = t; holding = holding }) r
  rebind t holding n c b f e = record {
    bound = recount t.client r n ((if is_linked t r then 1 else 0) + count r holding) e b;
    counted = ap (lookup r) c ∙ h.counted;
    few_bindings = omega (arith, e, f);
    few_attachments = omega (arith, h.few_attachments);
  }

  links-Keeps : (r' : Signatory) → Keeps (suc k) (act s (links r')) r
  unfolding act
  links-Keeps r' = elim (Bool-cases (is_linked s.transport r')) [
    | inl l ↦ rw (link-linked s.transport r' l) (weaken k s r h)
    | inr l ↦
        let v = view s r in
        let n = if r' == r then bindings v + 1 else bindings v in
        let t : Transport = record s.transport {
          client = bind s.transport.client r';
          links = insert r' true s.transport.links;
        } in
        let e : n ≡ (if is_linked t r then 1 else 0) + count r s.holding =
          link_count (r' == r) v.linked v.held (at_same (is_linked s.transport) r' r false l)
          ∙ ap (λ b. (if b then 1 else 0) + v.held)
              (sym (is_linked-insert s.transport (bind s.transport.client r') r' r)) in
        rw (link-unlinked s.transport r' l) (
          rebind t s.holding n refl
            (bind-Counts s.transport.client r' r (bindings v) (omega (arith, small, h.few_bindings))
              h.bound)
            (grown (r' == r) (bindings v) k h.few_bindings) e)
  ]

  unlinks-Keeps : (r' : Signatory) → Keeps (suc k) (act s (unlinks r')) r
  unfolding act
  unlinks-Keeps r' = elim (Bool-cases (is_linked s.transport r')) [
    | inr l ↦ rw (unlink-unlinked s.transport r' l) (weaken k s r h)
    | inl l ↦
        let v = view s r in
        let n = if r' == r then bindings v - 1 else bindings v in
        let t : Transport = record s.transport {
          client = (unbind s.transport.client r').0;
          links = delete r' s.transport.links;
        } in
        let e : n ≡ (if is_linked t r then 1 else 0) + count r s.holding =
          unlink_count (r' == r) v.linked v.held (at_same (is_linked s.transport) r' r true l)
          ∙ ap (λ b. (if b then 1 else 0) + v.held)
              (sym (is_linked-delete s.transport (unbind s.transport.client r').0 r' r)) in
        rw (unlink-linked s.transport r' l) (
          rebind t s.holding n refl
            (unbind-Counts s.transport.client r' r (bindings v)
              (omega (arith, small, h.few_bindings)) h.bound)
            (shrunk (r' == r) (bindings v) k h.few_bindings) e)
  ]

  holds-Keeps : (r' : Signatory) → Keeps (suc k) (act s (holds r')) r
  unfolding act bind_client is_linked
  holds-Keeps r' =
      let v = view s r in
      rebind (record s.transport { client = bind s.transport.client r' }) (r' ∷ s.holding)
        (if r' == r then bindings v + 1 else bindings v) refl
        (bind-Counts s.transport.client r' r (bindings v) (omega (arith, small, h.few_bindings))
          h.bound)
        (grown (r' == r) (bindings v) k h.few_bindings)
        (hold_count (r' == r) (if v.linked then 1 else 0) v.held)

  release-Keeps :
      (i : ℕ) (r' : Signatory)
      → get_elem? s.holding i ≡ some r'
      → Keeps (suc k) (release s i (some r')) r
  unfolding release unbind_client is_linked
  release-Keeps i r' e =
      let v = view s r in
      rebind (record s.transport { client = (unbind s.transport.client r').0 })
        (remove_at i s.holding) (if r' == r then bindings v - 1 else bindings v) refl
        (unbind-Counts s.transport.client r' r (bindings v) (omega (arith, small, h.few_bindings))
          h.bound)
        (shrunk (r' == r) (bindings v) k h.few_bindings)
        (release_count (r' == r) (if v.linked then 1 else 0) v.held
            (count_if-pos (λ x. x == r) s.holding i r' e)
          ∙ ap (◌+◌ (if v.linked then 1 else 0))
              (sym (count_if-remove_at (λ x. x == r) s.holding i r' e)))

  releases-Keeps : (i : ℕ) → Keeps (suc k) (act s (releases i)) r
  unfolding act release
  releases-Keeps i = elim (Option-cases (get_elem? s.holding i)) [
    | inl e ↦ ap_back (release s i) e (weaken k s r h)
    | inr (r', e) ↦ ap_back (release s i) e (release-Keeps i r' e)
  ]

  -- A change of the connections and of nothing else.
  reattach :
      (t : Transport) (attached : List Signatory) (n : ℕ)
      → t ≡ record s.transport { conns = t.conns }
      → lookup r t.conns ≡ tally n
      → n ≤ suc k
      → n ≡ count r attached
      → Keeps (suc k) (record s { transport = t; attached = attached }) r
  unfolding is_linked
  reattach t attached n c b f e = record {
    bound =
        subst (λ x. Counts x.client r ((if is_linked x r then 1 else 0) + count r s.holding))
          (sym c) h.bound;
    counted = b ∙ ap tally e;
    few_bindings =
        subst (λ x. (if is_linked x r then 1 else 0) + count r s.holding ≤ suc k) (sym c)
          (omega (arith, h.few_bindings));
    few_attachments = omega (arith, e, f);
  }

  attaches-Keeps : (r' : Signatory) → Keeps (suc k) (act s (attaches r')) r
  unfolding act connect
  attaches-Keeps r' =
      let n = count r s.attached in
      reattach (connect s.transport r') (r' ∷ s.attached) (if r' == r then n + 1 else n) refl
        (connect-tally s.transport r' r n (omega (arith, small, h.few_attachments)) h.counted)
        (grown (r' == r) n k h.few_attachments) (attach_count (r' == r) n)

  detach-Keeps :
      (i : ℕ) (r' : Signatory)
      → get_elem? s.attached i ≡ some r'
      → Keeps (suc k) (detach s i (some r')) r
  unfolding detach
  detach-Keeps i r' e =
      let n = count r s.attached in
      reattach (disconnect s.transport r') (remove_at i s.attached) (if r' == r then n - 1 else n)
        (disconnect-eq s.transport r') (disconnect-tally s.transport r' r n h.counted)
        (shrunk (r' == r) n k h.few_attachments)
        (sym (count_if-remove_at (λ x. x == r) s.attached i r' e))

  detaches-Keeps : (i : ℕ) → Keeps (suc k) (act s (detaches i)) r
  unfolding act detach
  detaches-Keeps i = elim (Option-cases (get_elem? s.attached i)) [
    | inl e ↦ ap_back (detach s i) e (weaken k s r h)
    | inr (r', e) ↦ ap_back (detach s i) e (detach-Keeps i r' e)
  ]

  kills-Keeps : (r' : Signatory) → Keeps (suc k) (act s (kills r')) r
  unfolding act is_linked
  kills-Keeps r' =
      rebind (record s.transport { client = kill s.transport.client r' }) s.holding
        (bindings (view s r)) refl
        (kill-Counts s.transport.client r' r (bindings (view s r)) h.bound)
        (omega (arith, h.few_bindings)) refl

  act-Keeps : (a : Action) → Keeps (suc k) (act s a) r
  act-Keeps (links r') = links-Keeps r'
  act-Keeps (unlinks r') = unlinks-Keeps r'
  act-Keeps (holds r') = holds-Keeps r'
  act-Keeps (releases i) = releases-Keeps i
  act-Keeps (attaches r') = attaches-Keeps r'
  act-Keeps (detaches i) = detaches-Keeps i
  act-Keeps (kills r') = kills-Keeps r'

acts-Keeps :
    (k : ℕ) (s : System) (as' : List Action) (r : Signatory)
    → k + length as' + 1 < 2 ^ 63
    → Keeps k s r
    → Keeps (k + length as') (acts s as') r
unfolding acts
acts-Keeps k s [] r l h = let e : k ≡ k + 0 = omega arith in subst (λ n. Keeps n s r) e h
acts-Keeps k s (a ∷ as') r l h =
    let e : suc k + length as' ≡ k + suc (length as') = omega arith in
    subst (λ n. Keeps n (acts (act s a) as') r) e
      (acts-Keeps (suc k) (act s a) as' r (omega arith) (act-Keeps k (omega arith) s r h a))

abbrev pub at_start : InMemTable → System
at_start table = record { transport = new_transport [] table; holding = []; attached = [] }

start-Keeps : (table : InMemTable) (r : Signatory) → Keeps 0 (at_start table) r
unfolding new_transport is_linked lookup
start-Keeps table r = record {
  bound = inl (refl, refl);
  counted = refl;
  few_bindings = omega arith;
  few_attachments = omega arith;
}

-- Whatever the links, goroutines and receivers of a new transport did, in any order (fewer than 2 ^
-- 63 - 1 actions): the channel of a peer is bound exactly if the peer is linked or some goroutine
-- holds it (`IsBound` panics otherwise), its reference counter is the number of these, and
-- `IsConnected` says whether a connection with it is attached.
pub acts-refines :
    (table : InMemTable) (as' : List Action) (r : Signatory)
    → length as' + 1 < 2 ^ 63
    → let s = acts (at_start table) as' in
      Counts s.transport.client r (bindings (view s r))
      × (is_bound s.transport.client r ≡ (if bindings (view s r) == 0 then none else some true))
      × (is_connected s.transport r ≡ ltb 0 (view s r).attachments)
acts-refines table as' r l =
    let h = acts-Keeps 0 (at_start table) as' r (omega arith) (start-Keeps table r) in
    let s = acts (at_start table) as' in
    (
      h.bound,
      is_bound-Counts s.transport.client r (bindings (view s r)) h.bound,
      is_connected-tally s.transport r (count r s.attached) h.counted,
    )
