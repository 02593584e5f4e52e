-- ===== src/Peer/Dispatch/Examples.antt =====
-- A peer with a call of `Sync` that waits.
use aw.Base.{
  ℕ, ◌≡◌, refl, inl, true, false, Option, none, some, List, [], ◌∷◌, arith, nat_Eq, bytes_Eq,
}
use aw.Base.Arrays.{padded}
use aw.Base.Maps.{lookup}
use aw.Base.Int.{pos}
use aw.Channel.Filter.{filter}
use aw.Dht.Resolver.{ContentResolver}
use aw.Dht.Table.{new_in_mem_table}
use aw.Peer.Discovery.{Formats}
use aw.Peer.Gossip.{Sends, sync_msg}
use aw.Peer.Sync.{content_at}
use aw.Peer.Dispatch.{Peer, handles, receive}
use aw.Peer.Dispatch.Receiving.{IsShared, receive-sync}

abbrev one_content : ContentResolver
one_content = record {
  State = Option (List ℕ);
  insert_content = λ s id content. some content;
  query_content = λ s id. s;
}

abbrev some_formats : Formats
some_formats = record {
  development = true;
  print = λ n. n ∷ [];
  to_binary = λ xs. inl [];
  from_binary = λ bytes. inl [];
}

abbrev waiting_peer : Peer (Option (List ℕ))
waiting_peer = record {
  syncer = record {
    sync_filter = (7 ∷ [], pos 1) ∷ [];
    pending = (7 ∷ [], 0) ∷ [];
    objects = none ∷ [];
  };
  gossiper = record { sync_filter = (7 ∷ [], pos 1) ∷ []; subnets = []; resolver = some none };
  table = new_in_mem_table (padded 31 1);
}

seven_pending : lookup (7 ∷ []) waiting_peer.syncer.pending ≡ some 0
unfolding lookup
seven_pending = refl

seven_allowed :
    filter waiting_peer.syncer.sync_filter (sync_msg (7 ∷ []) (8 ∷ []) (padded 31 1)) ≡ false
unfolding filter lookup
seven_allowed = refl

receive-sync_example :
    (p' : Peer (Option (List ℕ))) × (sends : Sends) × (receive one_content some_formats 5 8
        waiting_peer
        (padded 31 2)
        none
        3
        (sync_msg (7 ∷ []) (8 ∷ []) (padded 31 1))
      ≡ handles p' sends none)
    × (content_at p'.syncer 0 ≡ some (8 ∷ []))
    × (p'.gossiper.resolver ≡ some (some (8 ∷ [])))
    × (p'.table ≡ waiting_peer.table)
    × IsShared p'
receive-sync_example =
    receive-sync one_content some_formats 5 8 waiting_peer (padded 31 2) none 3 (7 ∷ []) (8 ∷ [])
      (padded 31 1) 0 none refl (omega arith) (omega arith) seven_allowed seven_pending
      (omega arith) refl refl
