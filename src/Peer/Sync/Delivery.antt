-- ===== src/Peer/Sync/Delivery.antt =====
-- What holds of the goroutines of peer/sync.go at any time.
use aw.Base.{
  ℕ, zero, suc, ◌+◌, ◌-◌, ◌<◌, ◌≡◌, refl, sym, ap, ◌∙◌, inl, inr, Bool, true, false, Option, none,
  some, List, [], ◌∷◌, arith, if◌then◌else◌, Option-cases, ◌==◌, nat_Eq, bytes_Eq, get_elem?,
  beq_refl,
}
use aw.Base.Maps.{lookup}
use aw.Channel.Filter.{filter}
use aw.Channel.Filter.Pairing.{count, allow-count, deny-count, filter-sync}
use aw.Sorting.Counts.{count_if, count_if-pos, count_if-remove_at}
use aw.Sorting.Ordered.{remove_at}
use aw.Policy.{is_none}
use aw.Wire.Msg.{Msg, msg_type_sync}
use aw.Peer.Sync.{Syncer, new_syncer, join, forget, signal, did_receive_message}
use aw.Peer.Sync.Objects.{join_old, join_new, ignored, signalled, did_receive_message-Receives}
use aw.Peer.Sync.Waiting.{
  Call, Syncing, Action, enters, allows, returns, cancels, denies, receives, gossip_allows,
  gossip_denies, enter, allow_call, end_call, return_call, deny_wiggling, deny_other, returned, act,
  acts, at_start,
}

-- The open allowances of a content: of the calls that wait or wiggle, and of the gossiper.
abbrev pub allowances : Syncing → List ℕ → ℕ
allowances s id =
    count_if (λ c. c.content_id == id) s.waiting
    + (count_if (λ x. x == id) s.wiggling + count_if (λ x. x == id) s.others)

abbrev pub Counted : List ℕ → Syncing → Type 0
Counted id s = lookup id s.syncer.sync_filter ≡ count (allowances s id)

join_filter : (s : Syncer) (id : List ℕ) → (join s id).0.sync_filter ≡ s.sync_filter
join_filter s id = elim (Option-cases (lookup id s.pending)) [
  | inl e ↦ ap (λ x. x.0.sync_filter) (join_new s id e)
  | inr (o, e) ↦ ap (λ x. x.0.sync_filter) (join_old s id o e)
]

receive_filter : (s : Syncer) (msg : Msg) → (did_receive_message s msg).sync_filter ≡ s.sync_filter
unfolding signal
receive_filter s msg = elim (did_receive_message-Receives s msg) [
  | ignored e ↦ ap (λ x. x.sync_filter) e
  | signalled o c _ _ e ↦ ap (λ x. x.sync_filter) e
]

one_more :
    (b : Bool) (n m : ℕ) → (if b then suc (n + m) else n + m) ≡ ((if b then 1 else 0) + n) + m
one_more b n m = ground arith

one_moved :
    (b : Bool) (n n' m : ℕ)
    → (b ≡ true → 0 < n)
    → n' ≡ (if b then n - 1 else n)
    → n + m ≡ n' + ((if b then 1 else 0) + m)
one_moved true n n' m h e = omega (arith, h refl, e)
one_moved false n n' m h e = omega (arith, e)

one_less :
    (b : Bool) (n n' m : ℕ)
    → (b ≡ true → 0 < n)
    → n' ≡ (if b then n - 1 else n)
    → (if b then m + n - 1 else m + n) ≡ m + n'
one_less true n n' m h e = omega (arith, h refl, e)
one_less false n n' m h e = omega (arith, e)

module _ (id : List ℕ) where
  allow-Counted :
      (s : Syncing) (i : ℕ) (c : Option Call) → Counted id s → Counted id (allow_call s i c)
  unfolding allow_call
  allow-Counted s i none h = h
  allow-Counted s i (some c) h =
      let m = count_if (λ x. x == id) s.wiggling + count_if (λ x. x == id) s.others in
      allow-count s.syncer.sync_filter c.content_id id (allowances s id) h
      ∙ ap count (one_more (c.content_id == id) (count_if (λ x. x.content_id == id) s.waiting) m)

  end-Counted :
      (s : Syncing) (i : ℕ) (c : Option Call)
      → get_elem? s.waiting i ≡ c
      → Counted id s
      → Counted id (end_call s i c)
  unfolding end_call forget
  end-Counted s i none e h = h
  end-Counted s i (some c) e h =
      let p : Call → Bool = λ x. x.content_id == id in
      let w = count_if (λ x. x == id) s.wiggling in
      let o = count_if (λ x. x == id) s.others in
      h
      ∙ ap count (
          one_moved (c.content_id == id) (count_if p s.waiting) (count_if p (remove_at i s.waiting))
            (w + o) (count_if-pos p s.waiting i c e) (count_if-remove_at p s.waiting i c e)
          ∙ regroup (count_if p (remove_at i s.waiting)) (if c.content_id == id then 1 else 0) w o)
    where
      regroup : (a b c d : ℕ) → a + (b + (c + d)) ≡ a + ((b + c) + d)
      regroup a b c d = omega arith

  return-Counted :
      (s : Syncing) (i : ℕ) (r : Option (List ℕ)) → Counted id s → Counted id (return_call s i r)
  unfolding return_call
  return-Counted s i none h = h
  return-Counted s i (some c) h = end-Counted s i (get_elem? s.waiting i) refl h

  wiggle-Counted :
      (s : Syncing) (i : ℕ) (x : Option (List ℕ))
      → get_elem? s.wiggling i ≡ x
      → Counted id s
      → Counted id (deny_wiggling s i x)
  unfolding deny_wiggling
  wiggle-Counted s i none e h = h
  wiggle-Counted s i (some x) e h =
      let p : List ℕ → Bool = λ y. y == id in
      let n = count_if p s.wiggling in
      let rest = count_if (λ c. c.content_id == id) s.waiting + count_if p s.others in
      let swap : rest + n ≡ allowances s id = omega arith in
      let back : rest + count_if p (remove_at i s.wiggling)
          ≡ count_if (λ c. c.content_id == id) s.waiting
            + (count_if p (remove_at i s.wiggling) + count_if p s.others) =
        omega arith in
      deny-count s.syncer.sync_filter x id (rest + n)
        (λ q. omega (arith, count_if-pos p s.wiggling i x e (rw q (beq_refl id))))
        (h ∙ ap count (sym swap))
      ∙ ap count (
          one_less (x == id) n (count_if p (remove_at i s.wiggling)) rest
            (count_if-pos p s.wiggling i x e) (count_if-remove_at p s.wiggling i x e)
          ∙ back)

  other-Counted :
      (s : Syncing) (i : ℕ) (x : Option (List ℕ))
      → get_elem? s.others i ≡ x
      → Counted id s
      → Counted id (deny_other s i x)
  unfolding deny_other
  other-Counted s i none e h = h
  other-Counted s i (some x) e h =
      let p : List ℕ → Bool = λ y. y == id in
      let n = count_if p s.others in
      let rest = count_if (λ c. c.content_id == id) s.waiting + count_if p s.wiggling in
      let swap : rest + n ≡ allowances s id = omega arith in
      let back : rest + count_if p (remove_at i s.others)
          ≡ count_if (λ c. c.content_id == id) s.waiting
            + (count_if p s.wiggling + count_if p (remove_at i s.others)) =
        omega arith in
      deny-count s.syncer.sync_filter x id (rest + n)
        (λ q. omega (arith, count_if-pos p s.others i x e (rw q (beq_refl id))))
        (h ∙ ap count (sym swap))
      ∙ ap count (
          one_less (x == id) n (count_if p (remove_at i s.others)) rest
            (count_if-pos p s.others i x e) (count_if-remove_at p s.others i x e)
          ∙ back)

  gossip-Counted : (s : Syncing) (x : List ℕ) → Counted id s → Counted id (act s (gossip_allows x))
  unfolding act
  gossip-Counted s x h =
      let w = count_if (λ c. c.content_id == id) s.waiting in
      let g = count_if (λ y. y == id) s.wiggling in
      let o = count_if (λ y. y == id) s.others in
      allow-count s.syncer.sync_filter x id (allowances s id) h ∙ ap count (added (x == id) w g o)
    where
      added :
          (b : Bool) (w g o : ℕ)
          → (if b then suc (w + (g + o)) else w + (g + o)) ≡ w + (g + ((if b then 1 else 0) + o))
      added true w g o = omega arith
      added false w g o = omega arith

  act-Counted : (s : Syncing) (a : Action) → Counted id s → Counted id (act s a)
  unfolding act enter
  act-Counted s (enters x) h = ap (lookup id) (join_filter s.syncer x) ∙ h
  act-Counted s (allows i) h = allow-Counted s i (get_elem? s.entered i) h
  act-Counted s (returns i) h = return-Counted s i (returned s i) h
  act-Counted s (cancels i) h = end-Counted s i (get_elem? s.waiting i) refl h
  act-Counted s (denies i) h = wiggle-Counted s i (get_elem? s.wiggling i) refl h
  act-Counted s (receives msg) h = ap (lookup id) (receive_filter s.syncer msg) ∙ h
  act-Counted s (gossip_allows x) h = gossip-Counted s x h
  act-Counted s (gossip_denies i) h = other-Counted s i (get_elem? s.others i) refl h

  acts-Counted : (s : Syncing) (as' : List Action) → Counted id s → Counted id (acts s as')
  unfolding acts
  acts-Counted s [] h = h
  acts-Counted s (a ∷ as') h = acts-Counted (act s a) as' (act-Counted s a h)

  start-Counted : Counted id at_start
  unfolding at_start new_syncer lookup
  start-Counted = refl

empty_count : (n : ℕ) → is_none (count n) ≡ (n == 0)
empty_count zero = refl
empty_count (suc n) = ground arith

-- Whatever the calls of `Sync`, the receivers and the gossiper did, in any order: a synchronisation
-- message is filtered out exactly if no call waits for its content, no call for it has ended whose
-- allowance is not yet withdrawn, and the gossiper has not allowed it.
pub filter-acts :
    (as' : List Action) (msg : Msg)
    → msg.msg_type ≡ msg_type_sync
    → let s = acts at_start as' in
      filter s.syncer.sync_filter msg ≡ (allowances s msg.msg_data == 0)
filter-acts as' msg t =
    let s = acts at_start as' in
    filter-sync s.syncer.sync_filter msg t
    ∙ (ap is_none (acts-Counted msg.msg_data at_start as' (start-Counted msg.msg_data))
        ∙ empty_count (allowances s msg.msg_data))
