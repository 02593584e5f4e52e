-- ===== src/Peer/Sync/Waiting.antt =====
-- The calls of `Sync` of peer/sync.go at work, each a goroutine that takes its steps at any time. The
-- filter is shared with the gossiper, whose open allowances are part of the state.
use aw.Base.{ℕ, Option, none, some, List, [], ◌∷◌, nat_Eq, bytes_Eq, get_elem?}
use aw.Channel.Filter.{allow, deny, new_sync_filter}
use aw.Sorting.Ordered.{remove_at}
use aw.Wire.Msg.{Msg}
use aw.Peer.Sync.{Syncer, new_syncer, join, forget, content_at, did_receive_message}

pub record Call : Type 0 where
  pub content_id : List ℕ
  pub object : ℕ

-- `entered` are the calls between the lock and `Allow`, `waiting` those after it, `wiggling` the ids of
-- those that have returned and will be denied, `others` the ids that the gossiper has allowed.
pub record Syncing : Type 0 where
  pub syncer : Syncer
  pub entered : List Call
  pub waiting : List Call
  pub wiggling : List (List ℕ)
  pub others : List (List ℕ)

pub data Action : Type 0 where
  enters : List ℕ → Action
  allows : ℕ → Action
  returns : ℕ → Action
  cancels : ℕ → Action
  denies : ℕ → Action
  receives : Msg → Action
  gossip_allows : List ℕ → Action
  gossip_denies : ℕ → Action

unfoldable pub enter : Syncing → List ℕ → Syncing
enter s content_id =
    let (syncer, (o, joined)) = join s.syncer content_id in
    record s {
      syncer = syncer;
      entered = record { content_id = content_id; object = o } ∷ s.entered;
    }

abbrev pub allowed : Syncer → List ℕ → Syncer
allowed s content_id = record s { sync_filter = allow s.sync_filter content_id }

abbrev pub denied : Syncer → List ℕ → Syncer
denied s content_id = record s { sync_filter = deny s.sync_filter content_id }

unfoldable pub allow_call : Syncing → ℕ → Option Call → Syncing
allow_call s i none = s
allow_call s i (some c) = record s {
  syncer = allowed s.syncer c.content_id;
  entered = remove_at i s.entered;
  waiting = c ∷ s.waiting;
}

-- The deferred calls of `Sync`, however it ends.
unfoldable pub end_call : Syncing → ℕ → Option Call → Syncing
end_call s i none = s
end_call s i (some c) = record s {
  syncer = forget s.syncer c.content_id;
  waiting = remove_at i s.waiting;
  wiggling = c.content_id ∷ s.wiggling;
}

-- What the call at the index `i` returns once it is awake: `none` as long as its object has no content.
unfoldable pub returned : Syncing → ℕ → Option (List ℕ)
returned s i = elim (get_elem? s.waiting i) [ none ↦ none | some c ↦ content_at s.syncer c.object ]

unfoldable pub deny_wiggling : Syncing → ℕ → Option (List ℕ) → Syncing
deny_wiggling s i none = s
deny_wiggling s i (some content_id) = record s {
  syncer = denied s.syncer content_id;
  wiggling = remove_at i s.wiggling;
}

unfoldable pub deny_other : Syncing → ℕ → Option (List ℕ) → Syncing
deny_other s i none = s
deny_other s i (some content_id) = record s {
  syncer = denied s.syncer content_id;
  others = remove_at i s.others;
}

unfoldable pub return_call : Syncing → ℕ → Option (List ℕ) → Syncing
return_call s i none = s
return_call s i (some content) = end_call s i (get_elem? s.waiting i)

unfoldable pub act : Syncing → Action → Syncing
act s (enters id) = enter s id
act s (allows i) = allow_call s i (get_elem? s.entered i)
act s (returns i) = return_call s i (returned s i)
act s (cancels i) = end_call s i (get_elem? s.waiting i)
act s (denies i) = deny_wiggling s i (get_elem? s.wiggling i)
act s (receives msg) = record s { syncer = did_receive_message s.syncer msg }
act s (gossip_allows id) = record s { syncer = allowed s.syncer id; others = id ∷ s.others }
act s (gossip_denies i) = deny_other s i (get_elem? s.others i)

unfoldable pub acts : Syncing → List Action → Syncing
acts s [] = s
acts s (a ∷ as') = acts (act s a) as'

unfoldable pub at_start : Syncing
at_start = record {
  syncer = new_syncer new_sync_filter;
  entered = [];
  waiting = [];
  wiggling = [];
  others = [];
}
