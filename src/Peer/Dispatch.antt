-- ===== src/Peer/Dispatch.antt =====
-- `Peer` of peer/peer.go: the synchroniser and the gossiper share one filter, and `Run` hands each
-- message to the synchroniser, the gossiper and the discovery client, in this order.
pub mod Receiving
mod Examples
use aw.Base.{
  ℕ, zero, suc, ◌+◌, ◌-◌, ◌*◌, ◌/◌, ◌%◌, ◌^◌, ◌≤◌, ◌<◌, ◌≡◌, refl, sym, ap, ◌∙◌, ◌≢◌, ◌↔◌, ◌⊎◌, inl,
  inr, Bool, true, false, not, ◌&&◌, ◌||◌, Option, none, some, List, [], ◌∷◌, ◌++◌, arith, ltb, leb,
  if◌then◌else◌, Bool-cases, Option-cases, Eq, ◌==◌, nat_Eq, bytes_Eq, length, take, drop,
  get_elem?, All, beq_refl, beq-eq,
}
use aw.Channel.Filter.{SyncFilter, new_sync_filter}
use aw.Dht.Distance.{Signatory}
use aw.Dht.Resolver.{ContentResolver}
use aw.Dht.Table.{InMemTable}
use aw.Peer.Discovery.{Formats, Received, panics, fails, returns}
use aw.Peer.Gossip.{Gossiper, Sends}
use aw.Peer.Sync.{Syncer, new_syncer}
use aw.Wire.Msg.{Msg}
use aw.Peer.Discovery as Discovery
use aw.Peer.Gossip as Gossip
use aw.Peer.Sync as Sync

-- The table is that of the transport.
pub record Peer (R : Type 0) : Type 0 where
  pub syncer : Syncer
  pub gossiper : Gossiper R
  pub table : InMemTable

-- `New`, with one filter for both.
unfoldable pub new_peer : {R : Type 0} → InMemTable → Peer R
new_peer table = record {
  syncer = new_syncer new_sync_filter;
  gossiper = record { sync_filter = new_sync_filter; subnets = []; resolver = none };
  table = table;
}

-- What the handler of `Run` returns: Go's panic, or the new state, the messages that were handed to
-- the transport, and the error.
pub data Handled (R : Type 0) : Type 0 where
  stops : Handled R
  handles : Peer R → Sends → Option (List ℕ) → Handled R

unfoldable pub with_discovery : {R : Type 0} → Peer R → Sends → Received → Handled R
with_discovery p sends panics = stops
with_discovery p sends (fails table e) = handles (record p { table = table }) sends (some e)
with_discovery p sends (returns table more) =
    handles (record p { table = table }) (sends ++ more) none

module _ (c : ContentResolver) (f : Formats) (alpha max_expected_peers : ℕ) where
  -- The gossiper reads and changes the filter that the synchroniser left, which is the same object.
  unfoldable pub after_gossip :
      Peer c.State → Syncer → Gossiper c.State × Sends → Peer c.State × Sends
  after_gossip p syncer (gossiper, sends) = (
    record p { syncer = record syncer { sync_filter = gossiper.sync_filter }; gossiper = gossiper },
    sends,
  )

  -- Neither of the first two handlers returns an error.
  unfoldable pub receive : Peer c.State → Signatory → Option (List ℕ) → ℕ → Msg → Handled c.State
  receive p from ip now msg =
      let syncer = Sync.did_receive_message p.syncer msg in
      let (p', sends) = after_gossip p syncer (
        Gossip.did_receive_message c alpha p.table
          (record p.gossiper { sync_filter = syncer.sync_filter }) from msg) in
      with_discovery p' sends
        (Discovery.did_receive_message f max_expected_peers p'.table from ip now msg)
