-- ===== src/Peer/Sync/Objects.antt =====
-- The pending objects of peer/sync.go, and the map that leads to them.
use aw.Base.{
  ℕ, ◌<◌, ◌≡◌, refl, sym, ap, ◌∙◌, ◌≢◌, ◌⊎◌, inl, inr, Bool, true, false, Option, none, some, List,
  [], ◌∷◌, ◌++◌, arith, if◌then◌else◌, Bool-cases, Option-cases, ◌==◌, nat_Eq, bytes_Eq, length,
  beq-eq, length-append, subst,
}
use aw.Base.Maps.{lookup, insert, delete, lookup-insert, lookup-delete}
use aw.Channel.Filter.{filter}
use aw.Sorting.Counts.{length-set_at, get_elem?-set_at, get_elem?-set_at_other}
use aw.Wire.Msg.{Msg, msg_type_sync}
use aw.Peer.Sync.{Syncer, join, forget, content_at, signal, signal_if, did_receive_message}

-- An entry of the map leads to an object of the store, and no other entry to the same.
pub record IsSound (s : Syncer) : Type 0 where
  pub bounded : (id : List ℕ) (o : ℕ) → lookup id s.pending ≡ some o → o < length s.objects
  pub distinct :
      (id id' : List ℕ) (o : ℕ)
      → lookup id s.pending ≡ some o
      → lookup id' s.pending ≡ some o
      → id ≡ id'

-- What an entry leads to after a call of `Sync` for a new content.
inserted :
    (b : Bool) (n o : ℕ) (before : Option ℕ)
    → (if b then some n else before) ≡ some o
    → ((b ≡ true) × (n ≡ o)) ⊎ (before ≡ some o)
inserted true n o before e = inl (refl, cc e)
inserted false n o before e = inr e

deleted :
    (b : Bool) (o : ℕ) (before : Option ℕ)
    → (if b then none else before) ≡ some o
    → ((b ≡ false) × (before ≡ some o))
deleted true o before e = cc e
deleted false o before e = (refl, e)

abbrev pub joined_new : Syncer → List ℕ → Syncer
joined_new s id = record s {
  pending = insert id (length s.objects) s.pending;
  objects = s.objects ++ (none ∷ []);
}

pub join_old :
    (s : Syncer) (id : List ℕ) (o : ℕ) → lookup id s.pending ≡ some o → join s id ≡ (s, (o, true))
unfolding join
join_old s id o e = rw (e, join) refl

pub join_new :
    (s : Syncer) (id : List ℕ)
    → lookup id s.pending ≡ none
    → join s id ≡ (joined_new s id, (length s.objects, false))
unfolding join
join_new s id e = rw (e, join) refl

joined_new-IsSound : (s : Syncer) (id : List ℕ) → IsSound s → IsSound (joined_new s id)
joined_new-IsSound s id h = record {
  bounded = λ j o e. elim (from j o e) [
    | inl (b, n) ↦ omega (arith, length-append s.objects (none ∷ []), n)
    | inr k ↦ omega (arith, length-append s.objects (none ∷ []), h.bounded j o k)
  ];
  distinct = λ i j o e e'. elim (from i o e) [
    | inl (b, n) ↦ elim (from j o e') [
      | inl (b', n') ↦ sym (beq-eq id i b) ∙ beq-eq id j b'
      | inr k ↦ absurd (omega (arith, n, h.bounded j o k))
    ]
    | inr k ↦ elim (from j o e') [
      | inl (b', n') ↦ absurd (omega (arith, n', h.bounded i o k))
      | inr k' ↦ h.distinct i j o k k'
    ]
  ];
}
  where
    from :
        (j : List ℕ) (o : ℕ)
        → lookup j (insert id (length s.objects) s.pending) ≡ some o
        → (((id == j) ≡ true) × (length s.objects ≡ o)) ⊎ (lookup j s.pending ≡ some o)
    from j o e =
        inserted (id == j) (length s.objects) o (lookup j s.pending)
          (sym (lookup-insert id j (length s.objects) s.pending) ∙ e)

pub join-IsSound : (s : Syncer) (id : List ℕ) → IsSound s → IsSound (join s id).0
join-IsSound s id h = elim (Option-cases (lookup id s.pending)) [
  | inl e ↦ subst (λ x. IsSound x.0) (sym (join_new s id e)) (joined_new-IsSound s id h)
  | inr (o, e) ↦ subst (λ x. IsSound x.0) (sym (join_old s id o e)) h
]

-- The object of a call is in the store.
pub join-object :
    (s : Syncer) (id : List ℕ) → IsSound s → (join s id).1.0 < length (join s id).0.objects
join-object s id h = elim (Option-cases (lookup id s.pending)) [
  | inl e ↦
      subst (λ x. x.1.0 < length x.0.objects) (sym (join_new s id e))
        (omega (arith, length-append s.objects (none ∷ [])))
  | inr (o, e) ↦
      subst (λ x. x.1.0 < length x.0.objects) (sym (join_old s id o e)) (h.bounded id o e)
]

forgotten :
    (s : Syncer) (id j : List ℕ) (o : ℕ)
    → lookup j (delete id s.pending) ≡ some o
    → ((id == j) ≡ false) × (lookup j s.pending ≡ some o)
forgotten s id j o e =
    deleted (id == j) o (lookup j s.pending) (sym (lookup-delete id j s.pending) ∙ e)

pub forget-IsSound : (s : Syncer) (id : List ℕ) → IsSound s → IsSound (forget s id)
unfolding forget
forget-IsSound s id h = record {
  bounded = λ j o e. h.bounded j o (forgotten s id j o e).1;
  distinct = λ i j o e e'. h.distinct i j o (forgotten s id i o e).1 (forgotten s id j o e').1;
}

-- What receiving a message does: nothing, or one signal.
pub data Receives (s : Syncer) (msg : Msg) (s' : Syncer) : Type 0 where
  ignored : s' ≡ s → Receives s msg s'
  signalled :
      (o : ℕ) (content : List ℕ)
      → lookup msg.msg_data s.pending ≡ some o
      → msg.sync_data ≡ some content
      → s' ≡ signal s o content
      → Receives s msg s'

signal_if-Receives :
    (s : Syncer) (msg : Msg)
    → Receives s msg (signal_if s (lookup msg.msg_data s.pending) msg.sync_data)
unfolding signal_if
signal_if-Receives s msg = elim (Option-cases (lookup msg.msg_data s.pending)) [
  | inl e ↦ ignored (ap (λ x. signal_if s x msg.sync_data) e)
  | inr (o, e) ↦ elim (Option-cases msg.sync_data) [
    | inl n ↦ ignored (ap (λ x. signal_if s x msg.sync_data) e ∙ ap (signal_if s (some o)) n)
    | inr (c, k) ↦
        signalled o c e k (ap (λ x. signal_if s x msg.sync_data) e ∙ ap (signal_if s (some o)) k)
  ]
]

pub did_receive_message-Receives :
    (s : Syncer) (msg : Msg) → Receives s msg (did_receive_message s msg)
unfolding did_receive_message
did_receive_message-Receives s msg = elim (Bool-cases (msg.msg_type == msg_type_sync)) [
  | inr n ↦ rw n (ignored refl)
  | inl t ↦ rw t (elim (Bool-cases (filter s.sync_filter msg)) [
    | inl f ↦ rw f (ignored refl)
    | inr f ↦ rw f (signal_if-Receives s msg)
  ])
]

pub did_receive_message-IsSound :
    (s : Syncer) (msg : Msg) → IsSound s → IsSound (did_receive_message s msg)
unfolding signal
did_receive_message-IsSound s msg h = elim (did_receive_message-Receives s msg) [
  | ignored e ↦ subst IsSound (sym e) h
  | signalled o c _ _ e ↦ subst IsSound (sym e) (record {
    bounded = λ j o' k. omega (arith, length-set_at o (some c) s.objects, h.bounded j o' k);
    distinct = h.distinct;
  })
]

pub content_at-signal :
    (s : Syncer) (o : ℕ) (c : List ℕ) → o < length s.objects → content_at (signal s o c) o ≡ some c
unfolding content_at signal
content_at-signal s o c h = rw (get_elem?-set_at o (some c) s.objects h, content_at) refl

pub content_at-signal_other :
    (s : Syncer) (o j : ℕ) (c : List ℕ) → o ≢ j → content_at (signal s o c) j ≡ content_at s j
unfolding content_at signal
content_at-signal_other s o j c h =
    rw (get_elem?-set_at_other o j (some c) s.objects h, content_at) refl
