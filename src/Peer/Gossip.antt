-- ===== src/Peer/Gossip.antt =====
-- `Gossiper` of peer/gossip.go. A handler is one step: it gives the new state and the messages that it
-- hands to the transport, whose errors are only logged. The clean-up that a push starts is a step of
-- its own, at any later time.
pub mod Exchange
pub mod Expiry
mod Examples
use aw.Base.{
  ℕ, zero, suc, ◌+◌, ◌-◌, ◌*◌, ◌/◌, ◌%◌, ◌^◌, ◌≤◌, ◌<◌, ◌≡◌, refl, sym, ap, ◌∙◌, ◌≢◌, ◌↔◌, ◌⊎◌, inl,
  inr, Bool, true, false, not, ◌&&◌, ◌||◌, Option, none, some, List, [], ◌∷◌, ◌++◌, arith, ltb, leb,
  if◌then◌else◌, Bool-cases, Option-cases, Eq, ◌==◌, nat_Eq, bytes_Eq, length, take, drop,
  get_elem?, All, beq_refl, beq-eq, map, replicate, length-replicate,
}
use aw.Base.Arrays.{Bytes_Eq}
use aw.Base.Maps.{Map, lookup, insert, delete}
use aw.Channel.Filter.{SyncFilter, allow, deny, filter}
use aw.Dht.Distance.{Signatory, Hash}
use aw.Dht.Resolver.{ContentResolver}
use aw.Dht.Table.{InMemTable, peers, subnet}
use aw.Wire.Msg.{Msg, msg_version1, msg_type_push, msg_type_pull, msg_type_sync}

-- `DefaultSubnet` has all its bits set.
abbrev pub default_subnet : Hash
default_subnet = record { bytes = replicate 32 255; size = length-replicate {A = ℕ} 32 255 }

abbrev pub Sends : Type 0
Sends = List (Signatory × Msg)

-- `resolver` is `none` where it is nil.
pub record Gossiper (R : Type 0) : Type 0 where
  pub sync_filter : SyncFilter
  pub subnets : Map (List ℕ) Hash
  pub resolver : Option R

unfoldable pub recipients : ℕ → InMemTable → Hash → List Signatory
recipients alpha table hash =
    if hash == default_subnet
    then peers table alpha
    else (let rs = subnet table hash in if ltb alpha (length rs) then take alpha rs else rs)

abbrev pub push_msg : List ℕ → Hash → Msg
push_msg content_id hash = record {
  version = msg_version1;
  msg_type = msg_type_push;
  to = hash;
  msg_data = content_id;
  sync_data = none;
}

-- `Alpha` is not negative.
unfoldable pub gossip : ℕ → InMemTable → List ℕ → Option Hash → Sends
gossip alpha table content_id hash =
    let to = elim hash as (λ x. Hash) [ none ↦ default_subnet | some h ↦ h ] in
    map (λ r. (r, push_msg content_id to)) (recipients alpha table to)

-- `id.Hash(from)` is the sender's identity.
abbrev pub pull_msg : List ℕ → Signatory → Msg
pull_msg content_id from = record {
  version = msg_version1;
  msg_type = msg_type_pull;
  to = from;
  msg_data = content_id;
  sync_data = none;
}

abbrev pub sync_msg : List ℕ → List ℕ → Signatory → Msg
sync_msg content_id content from = record {
  version = msg_version1;
  msg_type = msg_type_sync;
  to = from;
  msg_data = content_id;
  sync_data = some content;
}

module _ (c : ContentResolver) where
  unfoldable pub resolve : Gossiper c.State → c.State → Gossiper c.State
  resolve g r = record g { resolver = some r }

  unfoldable pub did_receive_push : Gossiper c.State → Signatory → Msg → Gossiper c.State × Sends
  did_receive_push g from msg = if length msg.msg_data == 0 then (g, []) else elim g.resolver [
    | none ↦ (g, [])
    | some r ↦ elim (c.query_content r msg.msg_data) [
      | some content ↦ (g, [])
      | none ↦ (
        record g {
          subnets = insert msg.msg_data msg.to g.subnets;
          sync_filter = allow g.sync_filter msg.msg_data;
        },
        (from, pull_msg msg.msg_data from) ∷ [],
      )
    ]
  ]

  -- What the goroutine of a push does once the timeout has passed.
  unfoldable pub clean_up : Gossiper c.State → List ℕ → Gossiper c.State
  clean_up g content_id = record g {
    subnets = delete content_id g.subnets;
    sync_filter = deny g.sync_filter content_id;
  }

  unfoldable pub did_receive_pull : Gossiper c.State → Signatory → Msg → Sends
  did_receive_pull g from msg = if length msg.msg_data == 0 then [] else elim g.resolver [
    | none ↦ []
    | some r ↦ elim (c.query_content r msg.msg_data) [
      | none ↦ []
      | some content ↦ (from, sync_msg msg.msg_data content from) ∷ []
    ]
  ]

  abbrev pub content_of : Msg → List ℕ
  content_of msg = elim msg.sync_data [ none ↦ [] | some xs ↦ xs ]

  unfoldable pub did_receive_sync :
      ℕ → InMemTable → Gossiper c.State → Msg → Gossiper c.State × Sends
  did_receive_sync alpha table g msg = elim g.resolver [
    | none ↦ (g, [])
    | some r ↦ elim (c.query_content r msg.msg_data) [
      | some content ↦ (g, [])
      | none ↦ if length msg.msg_data == 0 || length (content_of msg) == 0 then (g, []) else (
        record g { resolver = some (c.insert_content r msg.msg_data (content_of msg)) },
        elim (lookup msg.msg_data g.subnets) [
          | none ↦ []
          | some hash ↦ gossip alpha table msg.msg_data (some hash)
        ],
      )
    ]
  ]

  unfoldable pub did_receive_message :
      ℕ → InMemTable → Gossiper c.State → Signatory → Msg → Gossiper c.State × Sends
  did_receive_message alpha table g from msg =
      if msg.msg_type == msg_type_push
      then did_receive_push g from msg
      else (if msg.msg_type == msg_type_pull
          then (g, did_receive_pull g from msg)
          else (if msg.msg_type == msg_type_sync
              then (if filter g.sync_filter msg
                  then (g, [])
                  else did_receive_sync alpha table g msg)
              else (g, [])))
