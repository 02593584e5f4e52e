-- ===== src/Channel/Client.antt =====
-- `Client` of channel/client.go: the channels that it shares, counted by reference.
pub mod Counting
pub mod Receiving
use aw.Base.{
  ℕ, zero, suc, ◌+◌, ◌-◌, ◌*◌, ◌/◌, ◌%◌, ◌^◌, ◌≤◌, ◌<◌, ◌≡◌, refl, sym, ap, ◌∙◌, ◌≢◌, ◌↔◌, ◌⊎◌, inl,
  inr, Bool, true, false, not, ◌&&◌, ◌||◌, Option, none, some, List, [], ◌∷◌, ◌++◌, arith, ltb, leb,
  if◌then◌else◌, Bool-cases, Option-cases, Eq, ◌==◌, nat_Eq, bytes_Eq, length, take, drop,
  get_elem?, All, beq_refl, beq-eq,
}
use aw.Base.Arrays.{Bytes_Eq}
use aw.Base.Maps.{Map, lookup, insert, delete}
use aw.Dht.Distance.{Signatory}
use aw.Wire.Msg.{Msg}
use aw.Policy.{codes}

-- A channel with its messages that wait to be written. `cancelled` is whether its context was
-- cancelled while it was bound.
pub record SharedChannel : Type 0 where
  pub rc : ℕ
  pub cancelled : Bool
  pub outbound : List Msg

abbrev pub Client : Type 0
Client = Map Signatory SharedChannel

unfoldable pub bind : Client → Signatory → Client
bind client remote = elim (lookup remote client) [
  | some shared ↦ insert remote (record shared { rc = (shared.rc + 1) % 2 ^ 64 }) client
  | none ↦ insert remote (record { rc = 1; cancelled = false; outbound = [] }) client
]

-- The new client, and the channel that was cancelled.
unfoldable pub unbind : Client → Signatory → Client × Option SharedChannel
unbind client remote = elim (lookup remote client) [
  | none ↦ (client, none)
  | some shared ↦
      let rc = (shared.rc + (2 ^ 64 - 1)) % 2 ^ 64 in
      if rc == 0
      then (delete remote client, some (record shared { rc = rc; cancelled = true }))
      else (insert remote (record shared { rc = rc }) client, none)
]

-- `none` is Go's panic where a nil pointer is read.
unfoldable pub is_bound : Client → Signatory → Option Bool
is_bound client remote = elim (lookup remote client) [
  | none ↦ none
  | some shared ↦ some (ltb 0 shared.rc)
]

-- `Send`: `done` is the text with which its context is done, if the `select` takes that branch; else
-- the message goes into the buffer of `capacity` messages. `none`: it waits, since that is full.
-- `print` is `%v` of a peer.
unfoldable pub send :
    (Signatory → List ℕ)
    → ℕ
    → Option (List ℕ)
    → Client
    → Signatory
    → Msg
    → Option (Client × Option (List ℕ))
send print capacity done client remote msg = elim (lookup remote client) [
  | none ↦ some (client, some (codes "channel not found: " ++ print remote))
  | some shared ↦ elim done [
    | some e ↦ some (client, some (codes "sending message " ++ e))
    | none ↦
        if ltb (length shared.outbound) capacity
        then some (
          insert remote (record shared { outbound = shared.outbound ++ (msg ∷ []) }) client,
          none,
        )
        else none
  ]
]

-- A receiver of `Receive`: is its context done, and does its function refuse a packet?
pub record Receiver (Packet : Type 0) : Type 0 where
  pub done : Bool
  pub refuses : Signatory → Packet → Bool

-- `shared.cancel()`, if the sender is bound.
unfoldable pub kill : Client → Signatory → Client
kill client from = elim (lookup from client) [
  | none ↦ client
  | some shared ↦ insert from (record shared { cancelled = true }) client
]

-- The loop over the receivers for one packet: those that stay, and the client.
unfoldable pub dispatch :
    {Packet : Type 0}
    → List (Receiver Packet)
    → Signatory
    → Packet
    → Client
    → List (Receiver Packet) × Client
dispatch [] from packet client = ([], client)
dispatch (r ∷ rs) from packet client =
    let client' = if r.refuses from packet then kill client from else client in
    let (stay, after) = dispatch rs from packet client' in
    let skip = dispatch rs from packet client in if r.done then skip else (r ∷ stay, after)
