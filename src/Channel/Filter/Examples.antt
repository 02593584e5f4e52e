-- ===== src/Channel/Filter/Examples.antt =====
-- A filter that allows one content id twice and denies it once.
use aw.Base.{◌≡◌, refl, true, false, some, [], ◌∷◌, nat_Eq, bytes_Eq}
use aw.Base.Arrays.{padded}
use aw.Channel.Filter.{new_sync_filter, deny, filter}
use aw.Channel.Filter.Pairing.{filter-deny_unallowed, empty}
use aw.Wire.Msg.{Msg}

abbrev sync_of_seven : Msg
sync_of_seven = record {
  version = 1;
  msg_type = 3;
  to = padded 31 1;
  msg_data = 7 ∷ [];
  sync_data = some (8 ∷ []);
}

filter-deny_unallowed_example :
    (filter new_sync_filter sync_of_seven ≡ true)
    × (filter (deny new_sync_filter (7 ∷ [])) sync_of_seven ≡ false)
filter-deny_unallowed_example =
    filter-deny_unallowed new_sync_filter sync_of_seven (empty (7 ∷ [])) refl
