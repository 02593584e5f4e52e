-- ===== src/Peer/Sync.antt =====
-- `Syncer` of peer/sync.go. The pending objects that the goroutines share are a store: an object is
-- its index, and holds `none` while its content is nil. What holds the lock is one step.
pub mod Waiting
pub mod Objects
pub mod Delivery
pub mod Soundness
pub mod Orphans
mod Examples
use aw.Base.{
  ℕ, zero, suc, ◌+◌, ◌-◌, ◌*◌, ◌/◌, ◌%◌, ◌^◌, ◌≤◌, ◌<◌, ◌≡◌, refl, sym, ap, ◌∙◌, ◌≢◌, ◌↔◌, ◌⊎◌, inl,
  inr, Bool, true, false, not, ◌&&◌, ◌||◌, Option, none, some, List, [], ◌∷◌, ◌++◌, arith, ltb, leb,
  if◌then◌else◌, Bool-cases, Option-cases, Eq, ◌==◌, nat_Eq, bytes_Eq, length, take, drop,
  get_elem?, All, beq_refl, beq-eq, map, replicate, length-replicate,
}
use aw.Base.Maps.{Map, lookup, insert, delete}
use aw.Channel.Filter.{SyncFilter, filter, new_sync_filter}
use aw.Dht.Distance.{Signatory, Hash}
use aw.Peer.Gossip.{Sends}
use aw.Sorting.Counts.{set_at}
use aw.Wire.Msg.{Msg, msg_version1, msg_type_pull, msg_type_sync}

pub record Syncer : Type 0 where
  pub sync_filter : SyncFilter
  pub pending : Map (List ℕ) ℕ
  pub objects : List (Option (List ℕ))

unfoldable pub new_syncer : SyncFilter → Syncer
new_syncer f = record { sync_filter = f; pending = []; objects = [] }

-- The first part of `Sync`: the object of the content, and whether it was there.
unfoldable pub join : Syncer → List ℕ → Syncer × (ℕ × Bool)
join s content_id = elim (lookup content_id s.pending) [
  | some o ↦ (s, (o, true))
  | none ↦ (
    record s {
      pending = insert content_id (length s.objects) s.pending;
      objects = s.objects ++ (none ∷ []);
    },
    (length s.objects, false),
  )
]

-- The deferred removal of the pending content.
unfoldable pub forget : Syncer → List ℕ → Syncer
forget s content_id = record s { pending = delete content_id s.pending }

-- `pending.content` of an object.
unfoldable pub content_at : Syncer → ℕ → Option (List ℕ)
content_at s o = elim (get_elem? s.objects o) [ none ↦ none | some c ↦ c ]

unfoldable pub signal : Syncer → ℕ → List ℕ → Syncer
signal s o content = record s { objects = set_at o (some content) s.objects }

unfoldable pub signal_if : Syncer → Option ℕ → Option (List ℕ) → Syncer
signal_if s none sync_data = s
signal_if s (some o) none = s
signal_if s (some o) (some content) = signal s o content

unfoldable pub did_receive_message : Syncer → Msg → Syncer
did_receive_message s msg =
    if msg.msg_type == msg_type_sync
    then (if filter s.sync_filter msg
        then s
        else signal_if s (lookup msg.msg_data s.pending) msg.sync_data)
    else s
