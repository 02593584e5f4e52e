-- ===== src/Channel/WriteLoop/Sent.antt =====
-- What the write loop of channel/channel.go puts on a writer that fails at nothing.
use aw.Base.{
  ℕ, ◌≡◌, refl, sym, ap, ◌∙◌, inl, inr, true, Option, none, some, List, [], ◌∷◌, ◌++◌,
  if◌then◌else◌, Bool-cases, Option-cases, ◌==◌, nat_Eq, bytes_Eq, length, append-nil, append_assoc,
  replicate,
}
use aw.Wire.Msg.{Msg, msg_type_sync}
use aw.Channel.WriteLoop.{Attached, LoopState, writes, put, put_msg, write, take_next, step, run}
use aw.Channel.WriteLoop.Order.{left, waiting, step-next, step-left}

-- The buffers of a message that marshals to `buf`: this, and the synchronisation data after it if it is
-- a synchronisation message.
abbrev pub parts : Msg → List ℕ → List (List ℕ)
parts m buf =
    buf
    ∷ (if m.msg_type == msg_type_sync
        then (elim m.sync_data [ none ↦ [] | some xs ↦ xs ]) ∷ []
        else [])

-- A message that cannot be marshalled has no buffers.
abbrev pub frames : (Msg → Option (List ℕ)) → Msg → List (List ℕ)
frames marshal m = elim (marshal m) [ none ↦ [] | some buf ↦ parts m buf ]

abbrev pub all_frames : (Msg → Option (List ℕ)) → List Msg → List (List ℕ)
all_frames marshal [] = []
all_frames marshal (m ∷ ms) = frames marshal m ++ all_frames marshal ms

-- `sent` are the buffers that were encoded into a writer, in order.
module _ (a : Attached) (sent : a.Writer → List (List ℕ)) where
  -- A writer that fails at nothing: it takes each buffer that is encoded, and flushing adds none.
  pub record Works : Type 0 where
    pub encodes :
        (w : a.Writer) (buf : List ℕ)
        → ((a.encode w buf).0 ≡ true) × (sent (a.encode w buf).1 ≡ sent w ++ (buf ∷ []))
    pub flushes : (w : a.Writer) → ((a.flush w).0 ≡ true) × (sent (a.flush w).1 ≡ sent w)

  -- A writer is attached, and has been sent `xs`; the messages `ms` wait.
  abbrev pub IsAt : LoopState a → List (List ℕ) → List Msg → Type 0
  IsAt s xs ms = ((w : a.Writer) × (s.w ≡ some w) × (sent w ≡ xs)) × (waiting a s ≡ ms)

  module _ (h : Works) where
    put-sent :
        (w : a.Writer) (buf : List ℕ)
        → ((put a w buf).0 ≡ true) × (sent (put a w buf).1 ≡ sent w ++ (buf ∷ []))
    unfolding put
    put-sent w buf =
        let (ok, s) = h.encodes w buf in
        let (ok', s') = h.flushes (a.encode w buf).1 in rw (ok, put) (ok', s' ∙ s)

    put_msg-sent :
        (w : a.Writer) (m : Msg) (buf : List ℕ)
        → ((put_msg a w m buf).0 ≡ true) × (sent (put_msg a w m buf).1 ≡ sent w ++ parts m buf)
    unfolding put_msg
    put_msg-sent w m buf =
        let body : List ℕ = elim m.sync_data [ none ↦ [] | some xs ↦ xs ] in
        let (ok, s) = put-sent w buf in
        let (ok', s') = put-sent (put a w buf).1 body in
        rw ok (elim (Bool-cases (m.msg_type == msg_type_sync)) [
          | inl k ↦ rw k (
            ok',
            s' ∙ ap (λ x. x ++ (body ∷ [])) s ∙ append_assoc (sent w) (buf ∷ []) (body ∷ []),
          )
          | inr k ↦ rw k (refl, s)
        ])

    frames-unmarshalled : (m : Msg) → a.marshal m ≡ none → frames a.marshal m ≡ []
    frames-unmarshalled m e = rw (e, frames) refl

    frames-marshalled :
        (m : Msg) {buf : List ℕ} → a.marshal m ≡ some buf → frames a.marshal m ≡ parts m buf
    frames-marshalled m e = rw (e, frames) refl

    write-IsAt :
        (w : a.Writer) (m : Msg) (s : LoopState a)
        → s.w ≡ some w
        → IsAt (write a w m s) (sent w ++ frames a.marshal m) s.outbound
    unfolding write
    write-IsAt w m s e = elim (Option-cases (a.marshal m)) [
      | inl n ↦
          let none_sent : sent w ≡ sent w ++ frames a.marshal m =
            sym (append-nil (sent w)) ∙ ap (◌++◌ (sent w)) (sym (frames-unmarshalled m n)) in
          rw (n, write) ((w, e, none_sent), refl)
      | inr (buf, n) ↦
          let (ok, x) = put_msg-sent w m buf in
          let all_sent : sent (put_msg a w m buf).1 ≡ sent w ++ frames a.marshal m =
            x ∙ ap (◌++◌ (sent w)) (sym (frames-marshalled m n)) in
          rw (n, write) (rw (ok, write) (((put_msg a w m buf).1, refl, all_sent), refl))
    ]

    next-IsAt :
        (w : a.Writer) (m : Msg) (ms : List Msg) (q : List Msg) (s : LoopState a)
        → s.w ≡ some w
        → s.outbound ≡ q
        → q ≡ m ∷ ms
        → IsAt (take_next a w q s) (sent w ++ frames a.marshal m) ms
    next-IsAt w m ms q s e o k =
        rw k (unfold take_next in write-IsAt w m (record s { outbound = ms }) e)

    step-IsAt :
        (s : LoopState a) (xs : List (List ℕ)) (m : Msg) (ms : List Msg)
        → IsAt s xs (m ∷ ms)
        → IsAt (step a s writes) (xs ++ frames a.marshal m) ms
    step-IsAt s xs m ms ((w, e, x), k) = elim (Option-cases s.m) [
      | inl n ↦
          rw (step-next a w s e n, sym x)
            (next-IsAt w m ms s.outbound s e refl (sym (ap (λ o. left a o ++ s.outbound) n) ∙ k))
      | inr (m', n) ↦
          let j : m' ∷ s.outbound ≡ m ∷ ms = sym (ap (λ o. left a o ++ s.outbound) n) ∙ k in
          let p : m ≡ m' = cc j in
          let q : ms ≡ s.outbound = cc j in
          rw (step-left a w m' s e n, sym x, p, q) (write-IsAt w m' s e)
    ]

    -- If the writer that is attached fails at nothing, then after as many rounds as messages wait, a
    -- message left over included, it has been sent the buffers of all these messages, in order and
    -- after what it was sent before, and no message waits.
    pub run-sends :
        (ms : List Msg) (s : LoopState a) (xs : List (List ℕ))
        → IsAt s xs ms
        → IsAt (run a s (replicate (length ms) writes)) (xs ++ all_frames a.marshal ms) []
    unfolding run
    run-sends [] s xs i = rw (append-nil xs) i
    run-sends (m ∷ ms) s xs i =
        rw (sym (append_assoc xs (frames a.marshal m) (all_frames a.marshal ms)))
          (run-sends ms (step a s writes) (xs ++ frames a.marshal m) (step-IsAt s xs m ms i))
