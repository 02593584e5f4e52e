-- ===== src/Channel/WriteLoop.antt =====
-- `writeLoop` of channel/channel.go. One step of the loop is what its `select` chooses; the messages
-- that wait in `outbound` are put there by other goroutines.
pub mod Order
pub mod Sent
mod Examples
use aw.Base.{
  ℕ, zero, suc, ◌+◌, ◌-◌, ◌*◌, ◌/◌, ◌%◌, ◌^◌, ◌≤◌, ◌<◌, ◌≡◌, refl, sym, ap, ◌∙◌, ◌≢◌, ◌↔◌, ◌⊎◌, inl,
  inr, Bool, true, false, not, ◌&&◌, ◌||◌, Option, none, some, List, [], ◌∷◌, ◌++◌, arith, ltb, leb,
  if◌then◌else◌, Bool-cases, Option-cases, Eq, ◌==◌, nat_Eq, bytes_Eq, length, take, drop,
  get_elem?, All, beq_refl, beq-eq,
}
use aw.Wire.Msg.{Msg, msg_type_sync}

-- What the loop calls: `Marshal` of a message (`none` is an error), and the encoder and `Flush` of an
-- attached writer, which say whether they succeeded.
pub record Attached : Type 1 where
  pub Writer : Type 0
  pub marshal : Msg → Option (List ℕ)
  pub encode : Writer → List ℕ → Bool × Writer
  pub flush : Writer → Bool × Writer

module _ (a : Attached) where
  -- `w` is `none` where `wOk` is false, `m` is `none` where `mOk` is false. `closed` are the writers
  -- whose `q` was closed.
  pub record LoopState : Type 0 where
    pub w : Option a.Writer
    pub m : Option Msg
    pub outbound : List Msg
    pub closed : List a.Writer

  pub data Event : Type 0 where
    queues : Msg → Event
    attaches : a.Writer → Event
    writes : Event

  -- Encoding and flushing one buffer.
  unfoldable pub put : a.Writer → List ℕ → Bool × a.Writer
  put w buf =
      let (encoded, w') = a.encode w buf in
      let flushed = a.flush w' in if encoded then flushed else (false, w')

  -- The message, and its synchronisation data after it.
  unfoldable pub put_msg : a.Writer → Msg → List ℕ → Bool × a.Writer
  unfolding put
  put_msg w m buf =
      let (header, w') = put w buf in
      let body = put w' (elim m.sync_data [ none ↦ [] | some xs ↦ xs ]) in
      if header then (if m.msg_type == msg_type_sync then body else (true, w')) else (false, w')

  -- `case m, mOk = <-mQueue`.
  unfoldable pub write : a.Writer → Msg → LoopState → LoopState
  write w m s = elim (a.marshal m) [
    | none ↦ record s { m = none }
    | some buf ↦
        let (ok, w') = put_msg w m buf in
        if ok
        then record s { w = some w'; m = none }
        else record s { w = none; m = some m; closed = w' ∷ s.closed }
  ]

  -- The queue is `outbound` where no message is left.
  unfoldable pub take_next : a.Writer → List Msg → LoopState → LoopState
  take_next w [] s = s
  take_next w (m ∷ ms) s = write w m (record s { outbound = ms })

  unfoldable pub take_message : a.Writer → Option Msg → LoopState → LoopState
  take_message w (some m) s = write w m s
  take_message w none s = take_next w s.outbound s

  -- Without a writer the queue is nil, and nothing is received from it.
  unfoldable pub write_step : Option a.Writer → LoopState → LoopState
  write_step none s = s
  write_step (some w) s = take_message w s.m s

  unfoldable pub step : LoopState → Event → LoopState
  step s (queues m) = record s { outbound = s.outbound ++ (m ∷ []) }
  step s (attaches v) = elim s.w [
    | none ↦ record s { w = some v }
    | some w ↦ record s { w = some v; closed = w ∷ s.closed }
  ]
  step s writes = write_step s.w s

  unfoldable pub run : LoopState → List Event → LoopState
  run s [] = s
  run s (e ∷ es) = run (step s e) es
