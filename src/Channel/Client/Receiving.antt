-- ===== src/Channel/Client/Receiving.antt =====
-- `Receive` of channel/client.go: the goroutine that hands packets to the receivers, and the calls
-- that wait to register theirs with it. They take their steps in any order.
mod Examples
use aw.Base.{
  ℕ, zero, suc, ◌+◌, ◌-◌, ◌*◌, ◌/◌, ◌%◌, ◌^◌, ◌≤◌, ◌<◌, ◌≡◌, refl, sym, ap, ◌∙◌, ◌≢◌, ◌↔◌, ◌⊎◌, inl,
  inr, Bool, true, false, not, ◌&&◌, ◌||◌, Option, none, some, List, [], ◌∷◌, ◌++◌, arith, ltb, leb,
  if◌then◌else◌, Bool-cases, Option-cases, Eq, ◌==◌, nat_Eq, bytes_Eq, length, take, drop,
  get_elem?, All, beq_refl, beq-eq, subst,
}
use aw.Channel.Client.{Client, Receiver, dispatch}
use aw.Dht.Distance.{Signatory}
use aw.Sorting.Ordered.{remove_at}

-- `running` is `receiversRunning`, `alive` is whether the goroutine is in its loop, `receivers` its list,
-- and `waiting` what the calls that block want to register.
pub record Receiving (P : Type 0) : Type 0 where
  pub client : Client
  pub running : Bool
  pub alive : Bool
  pub receivers : List (Receiver P)
  pub waiting : List (Receiver P)

-- What may happen without another call of `Receive`.
pub data Event (P : Type 0) : Type 0 where
  registers : ℕ → Event P
  takes_packet : Signatory → P → Event P
  gives_up : ℕ → Event P
  clears : Event P

module _ {P : Type 0} where
  -- A goroutine that starts has no receivers.
  unfoldable pub receive : Receiving P → Receiver P → Receiving P
  receive s r = record s {
    running = true;
    alive = if s.running then s.alive else true;
    receivers = if s.running then s.receivers else [];
    waiting = r ∷ s.waiting;
  }

  unfoldable pub register : Receiving P → ℕ → Option (Receiver P) → Receiving P
  register s i none = s
  register s i (some r) =
      if s.alive
      then record s { receivers = s.receivers ++ (r ∷ []); waiting = remove_at i s.waiting }
      else s

  -- The loop ends when no receivers are left.
  unfoldable pub take_packet : Receiving P → Signatory → P → Receiving P
  take_packet s from packet =
      let (stay, client) = dispatch s.receivers from packet s.client in
      if s.alive
      then record s { client = client; receivers = stay; alive = not (length stay == 0) }
      else s

  -- A call whose context is done while it waits.
  unfoldable pub give_up : Receiving P → ℕ → Receiving P
  give_up s i = record s { waiting = remove_at i s.waiting }

  -- After its loop the goroutine clears `receiversRunning`, and ends.
  unfoldable pub clear : Receiving P → Receiving P
  clear s = if s.alive then s else record s { running = false }

  unfoldable pub step : Receiving P → Event P → Receiving P
  step s (registers i) = register s i (get_elem? s.waiting i)
  step s (takes_packet from packet) = take_packet s from packet
  step s (gives_up i) = give_up s i
  step s clears = clear s

  unfoldable pub steps : Receiving P → List (Event P) → Receiving P
  steps s [] = s
  steps s (e ∷ es) = steps (step s e) es

  -- The goroutine has left its loop, and has no receivers.
  abbrev pub IsStopped : Receiving P → Type 0
  IsStopped s = (s.alive ≡ false) × (s.receivers ≡ [])

  register-IsStopped :
      (s : Receiving P) (i : ℕ) (r : Option (Receiver P)) → IsStopped s → IsStopped (register s i r)
  unfolding register
  register-IsStopped s i none h = h
  register-IsStopped s i (some r) h =
      subst
        (λ b. IsStopped (
          if b
          then record s { receivers = s.receivers ++ (r ∷ []); waiting = remove_at i s.waiting }
          else s))
        (sym h.0) h

  step-IsStopped : (s : Receiving P) (e : Event P) → IsStopped s → IsStopped (step s e)
  unfolding step take_packet give_up clear
  step-IsStopped s (registers i) h = register-IsStopped s i (get_elem? s.waiting i) h
  step-IsStopped s (takes_packet from packet) h =
      let (stay, client) = dispatch s.receivers from packet s.client in
      subst
        (λ b. IsStopped (
          if b
          then record s { client = client; receivers = stay; alive = not (length stay == 0) }
          else s))
        (sym h.0) h
  step-IsStopped s (gives_up i) h = h
  step-IsStopped s clears h =
      subst (λ b. IsStopped (if b then s else record s { running = false })) (sym h.0) h

  steps-IsStopped : (s : Receiving P) (es : List (Event P)) → IsStopped s → IsStopped (steps s es)
  unfolding steps
  steps-IsStopped s [] h = h
  steps-IsStopped s (e ∷ es) h = steps-IsStopped (step s e) es (step-IsStopped s e h)

  first_packet :
      (s : Receiving P) (r : Receiver P) (from : Signatory) (packet : P)
      → s.running ≡ false
      → take_packet (receive s r) from packet ≡ record {
        client = s.client;
        running = true;
        alive = false;
        receivers = [];
        waiting = r ∷ s.waiting;
      }
  unfolding take_packet receive dispatch
  first_packet s r from packet h =
      ap
        (λ b.
          take_packet
            (record {
              client = s.client;
              running = true;
              alive = if b then s.alive else true;
              receivers = if b then s.receivers else [];
              waiting = r ∷ s.waiting;
            })
            from packet)
        h

  -- If the goroutine that a call of `Receive` starts takes a packet before the call has registered its
  -- receiver, then it leaves its loop at once: the packet reaches nobody, the call goes on waiting, and
  -- without another call no receiver is ever registered, whatever packets arrive.
  pub receive_misses :
      (s : Receiving P) (r : Receiver P) (from : Signatory) (packet : P) (later : List (Event P))
      → s.running ≡ false
      → let t = take_packet (receive s r) from packet in
        (t.client ≡ s.client) × (t.waiting ≡ r ∷ s.waiting) × IsStopped (steps t later)
  receive_misses s r from packet later h =
      let e = first_packet s r from packet h in
      (
        ap (λ t. t.client) e,
        ap (λ t. t.waiting) e,
        steps-IsStopped (take_packet (receive s r) from packet) later
            (ap (λ t. t.alive) e, ap (λ t. t.receivers) e),
      )
