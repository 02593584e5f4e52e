-- ===== src/Channel/WriteLoop/Order.antt =====
-- The messages that the write loop of channel/channel.go is given, and what becomes of them.
use aw.Base.{
  ℕ, ◌≡◌, refl, sym, ap, ◌∙◌, inl, inr, Bool, true, Option, none, some, List, [], ◌∷◌, ◌++◌,
  if◌then◌else◌, Bool-cases, Option-cases, nat_Eq, bytes_Eq, append-nil, append_assoc,
}
use aw.Wire.Msg.{Msg}
use aw.Channel.WriteLoop.{
  Attached, LoopState, Event, queues, attaches, writes, put_msg, write, take_next, take_message,
  write_step, step, run,
}

module _ (a : Attached) where
  abbrev pub left : Option Msg → List Msg
  left none = []
  left (some m) = m ∷ []

  -- The messages that are still to be written: the one that is left over, and those in `outbound`.
  abbrev pub waiting : LoopState a → List Msg
  waiting s = left s.m ++ s.outbound

  abbrev pub queued : List (Event a) → List Msg
  queued [] = []
  queued (queues m ∷ es) = m ∷ queued es
  queued (attaches v ∷ es) = queued es
  queued (writes ∷ es) = queued es

  -- A writer settles a message if the message cannot be marshalled, or if the writer takes all of it
  -- without an error.
  abbrev pub settles : a.Writer → Msg → Bool
  settles w m = elim (a.marshal m) [ none ↦ true | some buf ↦ (put_msg a w m buf).0 ]

  -- What one round settles: nothing without a writer, or the message that comes first.
  abbrev pub settled_once : Option a.Writer → List Msg → List Msg
  settled_once none ms = []
  settled_once (some w) [] = []
  settled_once (some w) (m ∷ ms) = if settles w m then m ∷ [] else []

  -- The messages that are settled in a history, each by the writer that is attached at that moment.
  unfoldable pub settled : LoopState a → List (Event a) → List Msg
  settled s [] = []
  settled s (queues m ∷ es) = settled (step a s (queues m)) es
  settled s (attaches v ∷ es) = settled (step a s (attaches v)) es
  settled s (writes ∷ es) = settled_once s.w (waiting s) ++ settled (step a s writes) es

  settles-dropped : (w : a.Writer) (m : Msg) → a.marshal m ≡ none → settles w m ≡ true
  settles-dropped w m e = rw (e, settles) refl

  settles-put :
      (w : a.Writer) (m : Msg) {buf : List ℕ}
      → a.marshal m ≡ some buf
      → settles w m ≡ (put_msg a w m buf).0
  settles-put w m e = rw (e, settles) refl

  write-waiting :
      (w : a.Writer) (m : Msg) (s : LoopState a)
      → settled_once (some w) (m ∷ s.outbound) ++ waiting (write a w m s) ≡ m ∷ s.outbound
  unfolding write
  write-waiting w m s = elim (Option-cases (a.marshal m)) [
    | inl e ↦
        rw (e, write) (ap (λ b. (if b then m ∷ [] else []) ++ s.outbound) (settles-dropped w m e))
    | inr (buf, e) ↦ elim (Bool-cases (put_msg a w m buf).0) [
      | inl ok ↦
          rw (e, write)
            (rw (ok, write)
              (ap (λ b. (if b then m ∷ [] else []) ++ s.outbound) (settles-put w m e ∙ ok)))
      | inr ok ↦
          rw (e, write)
            (rw (ok, write)
              (ap (λ b. (if b then m ∷ [] else []) ++ (m ∷ s.outbound)) (settles-put w m e ∙ ok)))
    ]
  ]

  take_next-waiting :
      (w : a.Writer) (ms : List Msg) (s : LoopState a)
      → s.m ≡ none
      → s.outbound ≡ ms
      → settled_once (some w) ms ++ waiting (take_next a w ms s) ≡ ms
  unfolding take_next
  take_next-waiting w [] s e q = rw (e, q) refl
  take_next-waiting w (m ∷ ms) s e q = write-waiting w m (record s { outbound = ms })

  pub step-next :
      (w : a.Writer) (s : LoopState a)
      → s.w ≡ some w
      → s.m ≡ none
      → step a s writes ≡ take_next a w s.outbound s
  unfolding step write_step take_message
  step-next w s e n = ap (λ o. write_step a o s) e ∙ ap (λ o. take_message a w o s) n

  pub step-left :
      (w : a.Writer) (m : Msg) (s : LoopState a)
      → s.w ≡ some w
      → s.m ≡ some m
      → step a s writes ≡ write a w m s
  unfolding step write_step take_message
  step-left w m s e n = ap (λ o. write_step a o s) e ∙ ap (λ o. take_message a w o s) n

  writes-waiting :
      (s : LoopState a) → settled_once s.w (waiting s) ++ waiting (step a s writes) ≡ waiting s
  unfolding step write_step
  writes-waiting s = elim (Option-cases s.w) [
    | inl e ↦ ap (λ o. settled_once o (waiting s) ++ waiting (write_step a o s)) e
    | inr (w, e) ↦ elim (Option-cases s.m) [
      | inl n ↦
          ap (λ o. settled_once o (waiting s) ++ waiting (step a s writes)) e
          ∙ ap (λ u. settled_once (some w) (waiting s) ++ waiting u) (step-next w s e n)
          ∙ ap
              (λ o.
                settled_once (some w) (left o ++ s.outbound)
                ++ waiting (take_next a w s.outbound s))
              n
          ∙ take_next-waiting w s.outbound s n refl
          ∙ sym (ap (λ o. left o ++ s.outbound) n)
      | inr (m, n) ↦
          ap (λ o. settled_once o (waiting s) ++ waiting (step a s writes)) e
          ∙ ap (λ u. settled_once (some w) (waiting s) ++ waiting u) (step-left w m s e n)
          ∙ ap (λ o. settled_once (some w) (left o ++ s.outbound) ++ waiting (write a w m s)) n
          ∙ write-waiting w m s
          ∙ sym (ap (λ o. left o ++ s.outbound) n)
    ]
  ]

  queues-waiting :
      (s : LoopState a) (m : Msg) → waiting (step a s (queues m)) ≡ waiting s ++ (m ∷ [])
  unfolding step
  queues-waiting s m = sym (append_assoc (left s.m) s.outbound (m ∷ []))

  attaches-waiting : (s : LoopState a) (v : a.Writer) → waiting (step a s (attaches v)) ≡ waiting s
  unfolding step
  attaches-waiting s v = elim (Option-cases s.w) [
    | inl e ↦ rw (e, step) refl
    | inr (w, e) ↦ rw (e, step) refl
  ]

  -- Whatever the writers and the encoder do, and whenever connections are replaced: the messages that
  -- are settled in a history, followed by the one that is left over and those in `outbound`, are those
  -- that waited before, followed by those that were queued since. A message that a writer fails at is
  -- not lost, and none is settled twice or overtaken.
  pub run-settled :
      (s : LoopState a) (es : List (Event a))
      → settled s es ++ waiting (run a s es) ≡ waiting s ++ queued es
  unfolding run settled
  run-settled s [] = sym (append-nil (waiting s))
  run-settled s (queues m ∷ es) =
      run-settled (step a s (queues m)) es
      ∙ ap (λ x. x ++ queued es) (queues-waiting s m)
      ∙ append_assoc (waiting s) (m ∷ []) (queued es)
  run-settled s (attaches v ∷ es) =
      run-settled (step a s (attaches v)) es ∙ ap (λ x. x ++ queued es) (attaches-waiting s v)
  run-settled s (writes ∷ es) =
      append_assoc (settled_once s.w (waiting s)) (settled (step a s writes) es)
        (waiting (run a (step a s writes) es))
      ∙ ap (◌++◌ (settled_once s.w (waiting s))) (run-settled (step a s writes) es)
      ∙ sym (append_assoc (settled_once s.w (waiting s)) (waiting (step a s writes)) (queued es))
      ∙ ap (λ x. x ++ queued es) (writes-waiting s)
