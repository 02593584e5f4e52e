-- ===== src/Peer/Discovery/Handling.antt =====
-- How the handlers of peer/peerdiscovery.go end, for any message.
use aw.Base.{ℕ, ◌≤◌, ◌≡◌, ◌⊎◌, Option, none, List, nat_Eq, bytes_Eq, length}
use aw.Base.Arrays.{Bytes_Eq}
use aw.Dht.Distance.{Signatory}
use aw.Dht.Table.{InMemTable, add_peer}
use aw.Dht.Table.Peers.{IsValid}
use aw.Wire.Msg.{Msg, msg_type_ping}
use aw.Peer.Gossip.{Sends}
use aw.Peer.Discovery.{Formats, Received, panics, fails, returns}
use aw.Wire.Address.{Address}

module _ (f : Formats) (max_expected_peers : ℕ) where
  -- How a handler ends: with a panic, if it is a ping over a connection that is not TCP; with an error,
  -- and a table that has at most learnt an address of the sender; or with a table and at most one
  -- message. The table is a valid one of the same node.
  pub data Ends (t : InMemTable) (from : Signatory) (ip : Option (List ℕ)) (msg : Msg)
      (r : Received) : Type 0 where
    panicked : r ≡ panics → ip ≡ none → msg.msg_type ≡ msg_type_ping → Ends t from ip msg r
    failed :
        (t' : InMemTable) (e : List ℕ)
        → r ≡ fails t' e
        → (t' ≡ t) ⊎ ((a : Address) × (t' ≡ add_peer t from a))
        → IsValid t'
        → t'.self ≡ t.self
        → Ends t from ip msg r
    kept :
        (t' : InMemTable) (sends : Sends)
        → r ≡ returns t' sends
        → IsValid t'
        → t'.self ≡ t.self
        → length sends ≤ 1
        → Ends t from ip msg r
