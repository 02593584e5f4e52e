-- ===== src/Peer/Gossip/Examples.antt =====
-- Two gossipers, of which the first has the content 8 of the id 7.
use aw.Base.{ℕ, Option, none, some, List, [], ◌∷◌, nat_Eq, bytes_Eq}
use aw.Base.Arrays.{padded, Bytes_Eq}
use aw.Dht.Resolver.{ContentResolver}
use aw.Dht.Table.{InMemTable, new_in_mem_table}
use aw.Peer.Gossip.{Gossiper}

-- A resolver that has one content or none, for each id.
abbrev one_content : ContentResolver
one_content = record {
  State = Option (List ℕ);
  insert_content = λ s id content. some content;
  query_content = λ s id. s;
}

abbrev first_gossiper : Gossiper (Option (List ℕ))
first_gossiper = record { sync_filter = []; subnets = []; resolver = some (some (8 ∷ [])) }

abbrev second_gossiper : Gossiper (Option (List ℕ))
second_gossiper = record { sync_filter = []; subnets = []; resolver = some none }

abbrev table : InMemTable
table = new_in_mem_table (padded 31 2)
