-- ===== src/Peer/Sync/Examples.antt =====
-- Two calls of `Sync` for the same content, one of which may be cancelled.
use aw.Base.{ℕ, ◌≡◌, refl, some, List, [], ◌∷◌, ◌==◌, nat_Eq, bytes_Eq, get_elem?}
use aw.Base.Arrays.{padded, Bytes_Eq}
use aw.Base.Maps.{lookup, insert}
use aw.Channel.Filter.{filter}
use aw.Peer.Gossip.{sync_msg}
use aw.Sorting.Ordered.{remove_at}
use aw.Wire.Msg.{Msg}
use aw.Peer.Sync.{new_syncer, join, content_at}
use aw.Peer.Sync.Waiting.{
  Call, Action, enters, allows, cancels, receives, enter, allow_call, returned, act, acts, at_start,
}
use aw.Peer.Sync.Delivery.{allowances, filter-acts}
use aw.Peer.Sync.Soundness.{receives-returned, cancels-content_at}

abbrev news : List ℕ
news = 7 ∷ []

abbrev two_calls : List Action
two_calls = enters news ∷ enters news ∷ allows 0 ∷ allows 0 ∷ []

abbrev waiting_call : Call
waiting_call = record { content_id = news; object = 0 }

abbrev news_msg : Msg
news_msg = sync_msg news (1 ∷ 2 ∷ []) (padded 31 1)

first_waits : get_elem? (acts at_start two_calls).waiting 0 ≡ some waiting_call
unfolding acts act enter allow_call join at_start new_syncer lookup insert remove_at
first_waits = refl

second_waits : get_elem? (acts at_start two_calls).waiting 1 ≡ some waiting_call
unfolding acts act enter allow_call join at_start new_syncer lookup insert remove_at
second_waits = refl

news_pending : lookup news (acts at_start two_calls).syncer.pending ≡ some 0
unfolding acts act enter allow_call join at_start new_syncer lookup insert remove_at
news_pending = refl

filter-acts_example :
    filter (acts at_start two_calls).syncer.sync_filter news_msg
    ≡ (allowances (acts at_start two_calls) news == 0)
filter-acts_example = filter-acts two_calls news_msg refl

receives-returned_example :
    returned (act (acts at_start two_calls) (receives news_msg)) 1 ≡ some (1 ∷ 2 ∷ [])
receives-returned_example =
    receives-returned two_calls news_msg (1 ∷ 2 ∷ []) 0 1 waiting_call waiting_call first_waits
      news_pending second_waits refl refl refl refl

cancels-content_at_example :
    content_at (acts (act (acts at_start two_calls) (cancels 0)) (receives news_msg ∷ [])).syncer 0
    ≡ content_at (acts at_start two_calls).syncer 0
cancels-content_at_example =
    cancels-content_at two_calls (receives news_msg ∷ []) 0 waiting_call first_waits news_pending
