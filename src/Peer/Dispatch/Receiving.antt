-- ===== src/Peer/Dispatch/Receiving.antt =====
-- What a peer of peer/peer.go does with a message, all its parts together.
use aw.Base.{
  ℕ, ◌<◌, ◌≡◌, refl, ap, ◌∙◌, false, Option, none, some, List, [], ◌++◌, arith, if◌then◌else◌, ◌==◌,
  nat_Eq, bytes_Eq, length,
}
use aw.Base.Maps.{lookup}
use aw.Channel.Filter.{filter}
use aw.Dht.Distance.{Signatory}
use aw.Dht.Resolver.{ContentResolver}
use aw.Dht.Table.{InMemTable}
use aw.Peer.Discovery.{Formats, Received, panics, fails, returns, learn}
use aw.Peer.Gossip.{Gossiper, Sends, did_receive_sync, sync_msg}
use aw.Peer.Sync.{Syncer, signal, signal_if, content_at}
use aw.Peer.Sync.Objects.{content_at-signal}
use aw.Wire.Msg.{Msg, msg_type_push, msg_type_pull, msg_type_sync, msg_type_ping, msg_type_ping_ack}
use aw.Peer.Dispatch.{Peer, Handled, handles, with_discovery, after_gossip, receive}
use aw.Peer.Discovery as Discovery
use aw.Peer.Gossip as Gossip
use aw.Peer.Sync as Sync

-- The synchroniser and the gossiper see one filter.
abbrev pub IsShared : {R : Type 0} → Peer R → Type 0
IsShared p = p.syncer.sync_filter ≡ p.gossiper.sync_filter

module _ (c : ContentResolver) where
  -- The gossiper keeps a content that it did not know.
  cached :
      (alpha : ℕ) (table : InMemTable) (g : Gossiper c.State) (from to : Signatory)
      (id content : List ℕ) (r : c.State)
      → 0 < length id
      → 0 < length content
      → g.resolver ≡ some r
      → c.query_content r id ≡ none
      → filter g.sync_filter (sync_msg id content to) ≡ false
      → (Gossip.did_receive_message c alpha table g from (sync_msg id content to)).0
        ≡ record g { resolver = some (c.insert_content r id content) }
  unfolding Gossip.did_receive_message did_receive_sync
  cached alpha table g from to id content r l k e q f =
      let n : (length id == 0) ≡ false = ground arith in
      let m : (length content == 0) ≡ false = ground arith in
      rw f (
        rw (e, did_receive_sync)
          (rw (q, did_receive_sync) (rw (n, did_receive_sync) (rw (m, did_receive_sync) refl))))

  signalled :
      (s : Syncer) (id content : List ℕ) (to : Signatory) (o : ℕ)
      → filter s.sync_filter (sync_msg id content to) ≡ false
      → lookup id s.pending ≡ some o
      → Sync.did_receive_message s (sync_msg id content to) ≡ signal s o content
  unfolding Sync.did_receive_message signal_if
  signalled s id content to o f e =
      ap (λ b. if b then s else signal_if s (lookup id s.pending) (some content)) f
      ∙ ap (λ x. signal_if s x (some content)) e

  not_synced :
      (s : Syncer) (msg : Msg)
      → (msg.msg_type == msg_type_sync) ≡ false
      → Sync.did_receive_message s msg ≡ s
  unfolding Sync.did_receive_message
  not_synced s msg h = rw h refl

  not_gossiped :
      (alpha : ℕ) (table : InMemTable) (g : Gossiper c.State) (from : Signatory) (msg : Msg)
      → (msg.msg_type == msg_type_push) ≡ false
      → (msg.msg_type == msg_type_pull) ≡ false
      → (msg.msg_type == msg_type_sync) ≡ false
      → Gossip.did_receive_message c alpha table g from msg ≡ (g, [])
  unfolding Gossip.did_receive_message
  not_gossiped alpha table g from msg h1 h2 h3 = rw h1 (rw h2 (rw h3 refl))

  module _ (f : Formats) (alpha max_expected_peers : ℕ) where
    unchanged :
        (table : InMemTable) (from : Signatory) (ip : Option (List ℕ)) (now : ℕ) (msg : Msg)
        → (msg.msg_type == msg_type_ping) ≡ false
        → (msg.msg_type == msg_type_ping_ack) ≡ false
        → Discovery.did_receive_message f max_expected_peers table from ip now msg
          ≡ returns table []
    unfolding Discovery.did_receive_message
    unchanged table from ip now msg h k = rw h (rw k refl)

    -- Let the synchroniser and the gossiper share one filter. A synchronisation message with an id
    -- and a content that are not empty, which the filter expects, whose id leads to a pending
    -- object of the store, and which the resolver does not have, reaches both parts: the pending
    -- object has the content, and it is inserted into the resolver. There is no error, the table
    -- stays, and both parts go on to share one filter.
    pub receive-sync :
        (p : Peer c.State) (from : Signatory) (ip : Option (List ℕ)) (now : ℕ) (id content : List ℕ)
        (to : Signatory) (o : ℕ) (r : c.State)
        → IsShared p
        → 0 < length id
        → 0 < length content
        → filter p.syncer.sync_filter (sync_msg id content to) ≡ false
        → lookup id p.syncer.pending ≡ some o
        → o < length p.syncer.objects
        → p.gossiper.resolver ≡ some r
        → c.query_content r id ≡ none
        → (p' : Peer c.State) × (sends : Sends) × (receive c f alpha max_expected_peers p from ip
              now
              (sync_msg id content to)
            ≡ handles p' sends none)
          × (content_at p'.syncer o ≡ some content)
          × (p'.gossiper.resolver ≡ some (c.insert_content r id content))
          × (p'.table ≡ p.table)
          × IsShared p'
    unfolding receive after_gossip with_discovery content_at signal
    receive-sync p from ip now id content to o r shared l k e w b g q =
        let msg = sync_msg id content to in
        let syncer = Sync.did_receive_message p.syncer msg in
        let signal' = signalled p.syncer id content to o e w in
        let kept : filter syncer.sync_filter msg ≡ false =
          ap (λ x. filter x.sync_filter msg) signal' ∙ e in
        let g0 : Gossiper c.State = record p.gossiper { sync_filter = syncer.sync_filter } in
        let (g1, sends) = Gossip.did_receive_message c alpha p.table g0 from msg in
        let p' : Peer c.State = record {
          syncer = record syncer { sync_filter = g1.sync_filter };
          gossiper = g1;
          table = p.table;
        } in
        (
          p',
          sends ++ [],
          ap (with_discovery p' sends) (unchanged p.table from ip now msg refl refl),
          ap (λ x. content_at x o) signal' ∙ content_at-signal p.syncer o content b,
          ap (λ x. x.resolver) (cached alpha p.table g0 from to id content r l k g q kept),
          refl,
          refl,
        )

    -- A message that is no push, pull, synchronisation, ping or acknowledgement changes nothing and
    -- causes no message and no error, if the synchroniser and the gossiper share their filter.
    pub receive_other :
        (p : Peer c.State) (from : Signatory) (ip : Option (List ℕ)) (now : ℕ) (msg : Msg)
        → IsShared p
        → (msg.msg_type == msg_type_push) ≡ false
        → (msg.msg_type == msg_type_pull) ≡ false
        → (msg.msg_type == msg_type_sync) ≡ false
        → (msg.msg_type == msg_type_ping) ≡ false
        → (msg.msg_type == msg_type_ping_ack) ≡ false
        → receive c f alpha max_expected_peers p from ip now msg ≡ handles p [] none
    unfolding receive after_gossip with_discovery
    receive_other p from ip now msg shared h1 h2 h3 h4 h5 =
        let hear : Gossiper c.State → Gossiper c.State × Sends =
          λ g. Gossip.did_receive_message c alpha p.table g from msg in
        let found = Discovery.did_receive_message f max_expected_peers p.table from ip now msg in
        let pass : Syncer → Gossiper c.State × Sends → Handled c.State = λ s x.
          with_discovery
            (record p { syncer = record s { sync_filter = x.0.sync_filter }; gossiper = x.0 }) x.1
            found in
        let g0 : Gossiper c.State = record p.gossiper { sync_filter = p.syncer.sync_filter } in
        ap (λ s. pass s (hear (record p.gossiper { sync_filter = s.sync_filter })))
          (not_synced p.syncer msg h3)
        ∙ (ap (pass p.syncer) (not_gossiped alpha p.table g0 from msg h1 h2 h3)
            ∙ (ap (with_discovery (record p { gossiper = g0 }) [])
                  (unchanged p.table from ip now msg h4 h5)
                ∙ ap {B = Handled c.State}
                    (λ x.
                      handles (record p { gossiper = record p.gossiper { sync_filter = x } }) []
                        none)
                    shared))
