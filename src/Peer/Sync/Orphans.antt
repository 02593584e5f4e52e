-- ===== src/Peer/Sync/Orphans.antt =====
-- Pending objects of peer/sync.go that no entry of the map leads to any more.
use aw.Base.{
  ℕ, ◌<◌, ◌≡◌, refl, sym, ap, ◌∙◌, ◌≢◌, inl, inr, Option, none, some, List, [], ◌∷◌, arith,
  Bool-cases, Option-cases, ◌==◌, nat_Eq, bytes_Eq, length, get_elem?, length-append, subst,
}
use aw.Base.Maps.{lookup, lookup-insert, lookup-delete}
use aw.Sorting.Counts.{length-set_at, get_elem?-append}
use aw.Wire.Msg.{Msg}
use aw.Peer.Sync.{Syncer, join, forget, content_at, signal, did_receive_message}
use aw.Peer.Sync.Objects.{
  joined_new, join_old, join_new, ignored, signalled, did_receive_message-Receives,
  content_at-signal_other,
}
use aw.Peer.Sync.Waiting.{
  Call, Syncing, Action, enters, allows, returns, cancels, denies, receives, gossip_allows,
  gossip_denies, enter, allow_call, end_call, return_call, deny_wiggling, deny_other, returned, act,
  acts, allowed, denied,
}

-- An object that is in the store, and that no entry leads to, with the content that it has.
pub record Orphan (o : ℕ) (content : Option (List ℕ)) (s : Syncer) : Type 0 where
  pub stored : o < length s.objects
  pub unknown : (id : List ℕ) → lookup id s.pending ≢ some o
  pub has : content_at s o ≡ content

module _ (o : ℕ) (content : Option (List ℕ)) where
  same_objects :
      (s s' : Syncer)
      → s'.pending ≡ s.pending
      → s'.objects ≡ s.objects
      → Orphan o content s
      → Orphan o content s'
  unfolding content_at
  same_objects s s' p q h = record {
    stored = subst (λ x. o < length x) (sym q) h.stored;
    unknown = λ id e. h.unknown id (ap (lookup id) (sym p) ∙ e);
    has = ap (λ x. elim (get_elem? x o) [ none ↦ none | some c ↦ c ]) q ∙ h.has;
  }

  joined-Orphan :
      (s : Syncer) (id : List ℕ) → Orphan o content s → Orphan o content (joined_new s id)
  unfolding content_at
  joined-Orphan s id h = record {
    stored = omega (arith, length-append s.objects (none ∷ []), h.stored);
    unknown = λ j e. elim (Bool-cases (id == j)) [
      | inl b ↦
          let k : some (length s.objects) ≡ some o =
            sym (rw b at (lookup-insert id j (length s.objects) s.pending)) ∙ e in
          omega (arith, h.stored, some_inj (length s.objects) o k)
      | inr b ↦ h.unknown j (sym (rw b at (lookup-insert id j (length s.objects) s.pending)) ∙ e)
    ];
    has =
        ap (λ x. elim x [ none ↦ none | some c ↦ c ])
          (get_elem?-append s.objects (none ∷ []) o h.stored)
        ∙ h.has;
  }
    where
      some_inj : (m n : ℕ) → some m ≡ some n → m ≡ n
      some_inj m n e = cc e

  join-Orphan : (s : Syncer) (id : List ℕ) → Orphan o content s → Orphan o content (join s id).0
  join-Orphan s id h = elim (Option-cases (lookup id s.pending)) [
    | inl e ↦ subst (λ x. Orphan o content x.0) (sym (join_new s id e)) (joined-Orphan s id h)
    | inr (j, e) ↦ subst (λ x. Orphan o content x.0) (sym (join_old s id j e)) h
  ]

  forget-Orphan : (s : Syncer) (id : List ℕ) → Orphan o content s → Orphan o content (forget s id)
  unfolding forget content_at
  forget-Orphan s id h = record {
    stored = h.stored;
    unknown = λ j e. elim (Bool-cases (id == j)) [
      | inl b ↦ cc (sym (rw b at (lookup-delete id j s.pending)) ∙ e)
      | inr b ↦ h.unknown j (sym (rw b at (lookup-delete id j s.pending)) ∙ e)
    ];
    has = h.has;
  }

  receive-Orphan :
      (s : Syncer) (msg : Msg) → Orphan o content s → Orphan o content (did_receive_message s msg)
  unfolding signal
  receive-Orphan s msg h = elim (did_receive_message-Receives s msg) [
    | ignored e ↦ subst (Orphan o content) (sym e) h
    | signalled j c k _ e ↦ subst (Orphan o content) (sym e) (record {
      stored = omega (arith, length-set_at j (some c) s.objects, h.stored);
      unknown = h.unknown;
      has = content_at-signal_other s j o c (λ q. h.unknown msg.msg_data (k ∙ ap some q)) ∙ h.has;
    })
  ]

  end-Orphan :
      (s : Syncing) (i : ℕ) (c : Option Call)
      → Orphan o content s.syncer
      → Orphan o content (end_call s i c).syncer
  unfolding end_call
  end-Orphan s i none h = h
  end-Orphan s i (some c) h = forget-Orphan s.syncer c.content_id h

  return-Orphan :
      (s : Syncing) (i : ℕ) (r : Option (List ℕ))
      → Orphan o content s.syncer
      → Orphan o content (return_call s i r).syncer
  unfolding return_call
  return-Orphan s i none h = h
  return-Orphan s i (some c) h = end-Orphan s i (get_elem? s.waiting i) h

  allow-Orphan :
      (s : Syncing) (i : ℕ) (c : Option Call)
      → Orphan o content s.syncer
      → Orphan o content (allow_call s i c).syncer
  unfolding allow_call
  allow-Orphan s i none h = h
  allow-Orphan s i (some c) h = same_objects s.syncer (allowed s.syncer c.content_id) refl refl h

  wiggle-Orphan :
      (s : Syncing) (i : ℕ) (id : Option (List ℕ))
      → Orphan o content s.syncer
      → Orphan o content (deny_wiggling s i id).syncer
  unfolding deny_wiggling
  wiggle-Orphan s i none h = h
  wiggle-Orphan s i (some id) h = same_objects s.syncer (denied s.syncer id) refl refl h

  other-Orphan :
      (s : Syncing) (i : ℕ) (id : Option (List ℕ))
      → Orphan o content s.syncer
      → Orphan o content (deny_other s i id).syncer
  unfolding deny_other
  other-Orphan s i none h = h
  other-Orphan s i (some id) h = same_objects s.syncer (denied s.syncer id) refl refl h

  act-Orphan :
      (s : Syncing) (a : Action) → Orphan o content s.syncer → Orphan o content (act s a).syncer
  unfolding act enter
  act-Orphan s (enters id) h = join-Orphan s.syncer id h
  act-Orphan s (allows i) h = allow-Orphan s i (get_elem? s.entered i) h
  act-Orphan s (returns i) h = return-Orphan s i (returned s i) h
  act-Orphan s (cancels i) h = end-Orphan s i (get_elem? s.waiting i) h
  act-Orphan s (denies i) h = wiggle-Orphan s i (get_elem? s.wiggling i) h
  act-Orphan s (receives msg) h = receive-Orphan s.syncer msg h
  act-Orphan s (gossip_allows id) h = same_objects s.syncer (allowed s.syncer id) refl refl h
  act-Orphan s (gossip_denies i) h = other-Orphan s i (get_elem? s.others i) h

  pub acts-Orphan :
      (s : Syncing) (as' : List Action)
      → Orphan o content s.syncer
      → Orphan o content (acts s as').syncer
  unfolding acts
  acts-Orphan s [] h = h
  acts-Orphan s (a ∷ as') h = acts-Orphan (act s a) as' (act-Orphan s a h)
