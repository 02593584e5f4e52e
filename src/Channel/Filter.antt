-- ===== src/Channel/Filter.antt =====
-- `SyncFilter` of channel/filter.go. Each method holds the lock, so a call is one step on the map. The
-- counters are integers without a bound: they do not wrap before 2^63 calls.
pub mod Pairing
mod Examples
use aw.Base.{
  ℕ, zero, suc, ◌+◌, ◌-◌, ◌*◌, ◌/◌, ◌%◌, ◌^◌, ◌≤◌, ◌<◌, ◌≡◌, refl, sym, ap, ◌∙◌, ◌≢◌, ◌↔◌, ◌⊎◌, inl,
  inr, Bool, true, false, not, ◌&&◌, ◌||◌, Option, none, some, List, [], ◌∷◌, ◌++◌, arith, ltb, leb,
  if◌then◌else◌, Bool-cases, Option-cases, Eq, ◌==◌, nat_Eq, bytes_Eq, length, take, drop,
  get_elem?, All, beq_refl, beq-eq,
}
use aw.Base.Int.{ℤ, pos, negsuc, increment, decrement}
use aw.Base.Maps.{Map, lookup, insert, delete}
use aw.Wire.Msg.{Msg, msg_type_sync}

abbrev pub SyncFilter : Type 0
SyncFilter = Map (List ℕ) ℤ

abbrev pub new_sync_filter : SyncFilter
new_sync_filter = []

-- `f.expecting[id]`, which is 0 for a missing key.
unfoldable pub expecting : SyncFilter → List ℕ → ℤ
expecting f id = elim (lookup id f) [ none ↦ pos 0 | some z ↦ z ]

abbrev pub is_one : ℤ → Bool
is_one (pos n) = n == 1
is_one (negsuc n) = false

unfoldable pub allow : SyncFilter → List ℕ → SyncFilter
allow f content_id = insert content_id (increment (expecting f content_id)) f

unfoldable pub deny : SyncFilter → List ℕ → SyncFilter
deny f content_id =
    if is_one (expecting f content_id)
    then delete content_id f
    else insert content_id (decrement (expecting f content_id)) f

-- `Filter` does not look at the sender.
unfoldable pub filter : SyncFilter → Msg → Bool
filter f msg =
    if not (msg.msg_type == msg_type_sync)
    then true
    else elim (lookup msg.msg_data f) [ none ↦ true | some z ↦ false ]
