-- ===== src/Peer/Sync/Soundness.antt =====
-- The calls of peer/sync.go and their pending objects: who is awakened, and who is not.
use aw.Base.{
  ℕ, ◌<◌, ◌≡◌, refl, sym, ap, ◌∙◌, inl, inr, Bool, true, false, Option, none, some, List, [], ◌∷◌,
  arith, if◌then◌else◌, Bool-cases, ◌==◌, nat_Eq, bytes_Eq, length, get_elem?, beq_refl, subst,
}
use aw.Base.Maps.{lookup, lookup-delete}
use aw.Channel.Filter.{filter}
use aw.Sorting.Counts.{count_if-pos}
use aw.Wire.Msg.{Msg, msg_type_sync}
use aw.Peer.Sync.{Syncer, new_syncer, forget, content_at, signal, signal_if, did_receive_message}
use aw.Peer.Sync.Objects.{
  IsSound, join-IsSound, forget-IsSound, did_receive_message-IsSound, content_at-signal,
}
use aw.Peer.Sync.Orphans.{Orphan, acts-Orphan}
use aw.Peer.Sync.Delivery.{filter-acts, allowances}
use aw.Peer.Sync.Waiting.{
  Call, Syncing, Action, enters, allows, returns, cancels, denies, receives, gossip_allows,
  gossip_denies, enter, allow_call, end_call, return_call, deny_wiggling, deny_other, returned, act,
  acts, at_start, allowed, denied,
}

same_map :
    (s s' : Syncer) → s'.pending ≡ s.pending → s'.objects ≡ s.objects → IsSound s → IsSound s'
same_map s s' p q h = record {
  bounded =
      λ id o e. subst (λ x. o < length x) (sym q) (h.bounded id o (ap (lookup id) (sym p) ∙ e));
  distinct =
      λ i j o e e'. h.distinct i j o (ap (lookup i) (sym p) ∙ e) (ap (lookup j) (sym p) ∙ e');
}

end-IsSound :
    (s : Syncing) (i : ℕ) (c : Option Call) → IsSound s.syncer → IsSound (end_call s i c).syncer
unfolding end_call
end-IsSound s i none h = h
end-IsSound s i (some c) h = forget-IsSound s.syncer c.content_id h

return-IsSound :
    (s : Syncing) (i : ℕ) (r : Option (List ℕ))
    → IsSound s.syncer
    → IsSound (return_call s i r).syncer
unfolding return_call
return-IsSound s i none h = h
return-IsSound s i (some c) h = end-IsSound s i (get_elem? s.waiting i) h

allow-IsSound :
    (s : Syncing) (i : ℕ) (c : Option Call) → IsSound s.syncer → IsSound (allow_call s i c).syncer
unfolding allow_call
allow-IsSound s i none h = h
allow-IsSound s i (some c) h = same_map s.syncer (allowed s.syncer c.content_id) refl refl h

wiggle-IsSound :
    (s : Syncing) (i : ℕ) (x : Option (List ℕ))
    → IsSound s.syncer
    → IsSound (deny_wiggling s i x).syncer
unfolding deny_wiggling
wiggle-IsSound s i none h = h
wiggle-IsSound s i (some x) h = same_map s.syncer (denied s.syncer x) refl refl h

other-IsSound :
    (s : Syncing) (i : ℕ) (x : Option (List ℕ))
    → IsSound s.syncer
    → IsSound (deny_other s i x).syncer
unfolding deny_other
other-IsSound s i none h = h
other-IsSound s i (some x) h = same_map s.syncer (denied s.syncer x) refl refl h

act-IsSound : (s : Syncing) (a : Action) → IsSound s.syncer → IsSound (act s a).syncer
unfolding act enter
act-IsSound s (enters id) h = join-IsSound s.syncer id h
act-IsSound s (allows i) h = allow-IsSound s i (get_elem? s.entered i) h
act-IsSound s (returns i) h = return-IsSound s i (returned s i) h
act-IsSound s (cancels i) h = end-IsSound s i (get_elem? s.waiting i) h
act-IsSound s (denies i) h = wiggle-IsSound s i (get_elem? s.wiggling i) h
act-IsSound s (receives msg) h = did_receive_message-IsSound s.syncer msg h
act-IsSound s (gossip_allows id) h = same_map s.syncer (allowed s.syncer id) refl refl h
act-IsSound s (gossip_denies i) h = other-IsSound s i (get_elem? s.others i) h

acts-IsSound : (s : Syncing) (as' : List Action) → IsSound s.syncer → IsSound (acts s as').syncer
unfolding acts
acts-IsSound s [] h = h
acts-IsSound s (a ∷ as') h = acts-IsSound (act s a) as' (act-IsSound s a h)

start-IsSound : IsSound at_start.syncer
unfolding at_start new_syncer lookup
start-IsSound = record { bounded = λ id o e. cc e; distinct = λ i j o e e'. cc e }

received :
    (s : Syncer) (msg : Msg) (o : ℕ) (content : List ℕ)
    → msg.msg_type ≡ msg_type_sync
    → filter s.sync_filter msg ≡ false
    → lookup msg.msg_data s.pending ≡ some o
    → msg.sync_data ≡ some content
    → did_receive_message s msg ≡ signal s o content
unfolding did_receive_message signal_if
received s msg o content t f e d =
    let x = signal_if s (lookup msg.msg_data s.pending) msg.sync_data in
    let t' : (msg.msg_type == msg_type_sync) ≡ true = rw t refl in
    ap (λ b. if b then (if filter s.sync_filter msg then s else x) else s) t'
    ∙ (ap (λ b. if b then s else x) f
        ∙ (ap (λ y. signal_if s y msg.sync_data) e ∙ ap (signal_if s (some o)) d))

returned-at :
    (s : Syncing) (j : ℕ) (c : Call)
    → get_elem? s.waiting j ≡ some c
    → returned s j ≡ content_at s.syncer c.object
unfolding returned
returned-at s j c e = rw (e, returned) refl

-- If a call of `Sync` waits, and its pending object is still the one of its content, then whatever
-- happened before: after a synchronisation message with that content, each call that waits for that
-- object returns what the message brought.
pub receives-returned :
    (as' : List Action) (msg : Msg) (content : List ℕ) (i j : ℕ) (c d : Call)
    → let s = acts at_start as' in
      get_elem? s.waiting i ≡ some c
      → lookup c.content_id s.syncer.pending ≡ some c.object
      → get_elem? s.waiting j ≡ some d
      → d.object ≡ c.object
      → msg.msg_type ≡ msg_type_sync
      → msg.msg_data ≡ c.content_id
      → msg.sync_data ≡ some content
      → returned (act s (receives msg)) j ≡ some content
unfolding act
receives-returned as' msg content i j c d w e w' o t m x =
    let s = acts at_start as' in
    let p : Call → Bool = λ y. y.content_id == msg.msg_data in
    let pos = count_if-pos p s.waiting i c w (rw m (beq_refl c.content_id)) in
    let open' : (allowances s msg.msg_data == 0) ≡ false = ground arith in
    let e' : lookup msg.msg_data s.syncer.pending ≡ some c.object =
      ap (λ y. lookup y s.syncer.pending) m ∙ e in
    let r = received s.syncer msg c.object content t (filter-acts as' msg t ∙ open') e' x in
    let h = acts-IsSound at_start as' start-IsSound in
    returned-at (record s { syncer = did_receive_message s.syncer msg }) j d w'
    ∙ (ap (λ y. content_at y d.object) r
        ∙ (ap (content_at (signal s.syncer c.object content)) o
            ∙ content_at-signal s.syncer c.object content (h.bounded c.content_id c.object e)))

ended-Orphan :
    (s : Syncing) (i : ℕ) (c : Call)
    → IsSound s.syncer
    → lookup c.content_id s.syncer.pending ≡ some c.object
    → Orphan c.object (content_at s.syncer c.object) (end_call s i (some c)).syncer
unfolding end_call forget content_at
ended-Orphan s i c h e = record {
  stored = h.bounded c.content_id c.object e;
  unknown = λ j k. elim (Bool-cases (c.content_id == j)) [
    | inl b ↦ cc (sym (rw b at (lookup-delete c.content_id j s.syncer.pending)) ∙ k)
    | inr b ↦
        let k' = sym (rw b at (lookup-delete c.content_id j s.syncer.pending)) ∙ k in
        let same : c.content_id ≡ j = h.distinct c.content_id j c.object e k' in
        cc (sym b ∙ (ap (λ y. c.content_id == y) (sym same) ∙ beq_refl c.content_id))
  ];
  has = refl;
}

-- If a call of `Sync` whose pending object is still the one of its content is cancelled, then
-- nothing that is received or called later changes the content of that object, which other calls
-- may wait for: if it has none, it never gets any.
pub cancels-content_at :
    (as' later : List Action) (i : ℕ) (c : Call)
    → let s = acts at_start as' in
      get_elem? s.waiting i ≡ some c
      → lookup c.content_id s.syncer.pending ≡ some c.object
      → content_at (acts (act s (cancels i)) later).syncer c.object ≡ content_at s.syncer c.object
unfolding act
cancels-content_at as' later i c w e =
    let s = acts at_start as' in
    let o = ended-Orphan s i c (acts-IsSound at_start as' start-IsSound) e in
    let o' =
      subst (λ x. Orphan c.object (content_at s.syncer c.object) (end_call s i x).syncer) (sym w)
        o in
    (acts-Orphan c.object (content_at s.syncer c.object) (end_call s i (get_elem? s.waiting i))
      later o').has
