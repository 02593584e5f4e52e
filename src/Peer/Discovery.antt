-- ===== src/Peer/Discovery.antt =====
-- `DiscoveryClient` of peer/peerdiscovery.go. A handler is one step on the table: it gives the new
-- table and the messages that it hands to the transport, whose errors are only logged.
pub mod Tables
pub mod Learning
pub mod Handling
pub mod Rounds
mod Examples
use aw.Base.{
  ℕ, zero, suc, ◌+◌, ◌-◌, ◌*◌, ◌/◌, ◌%◌, ◌^◌, ◌≤◌, ◌<◌, ◌≡◌, refl, sym, ap, ◌∙◌, ◌≢◌, ◌↔◌, ◌⊎◌, inl,
  inr, Bool, true, false, not, ◌&&◌, ◌||◌, Option, none, some, List, [], ◌∷◌, ◌++◌, arith, ltb, leb,
  if◌then◌else◌, Bool-cases, Option-cases, Eq, ◌==◌, nat_Eq, bytes_Eq, length, take, drop,
  get_elem?, All, beq_refl, beq-eq, get_or,
}
use aw.Base.Arrays.{Bytes_Eq}
use aw.Dht.Distance.{Signatory}
use aw.Dht.Table.{InMemTable, add_peer, peers, peer_address}
use aw.Peer.Gossip.{Sends}
use aw.Policy.{codes}
use aw.Wire.Address.{Address, tcp, new_unsigned_address}
use aw.Wire.Msg.{Msg, msg_version1, msg_type_ping, msg_type_ping_ack}
use aw.Wire.SigAddr.{SignatoryAndAddress}

-- `binary.LittleEndian` of 16 bits; `Uint16` is only called on 2 bytes.
unfoldable pub put_uint16 : ℕ → List ℕ
put_uint16 n = n % 256 ∷ n / 256 % 256 ∷ []

unfoldable pub uint16_from : List ℕ → ℕ
uint16_from b = get_or b 0 0 + get_or b 1 0 * 256

unfoldable pub ping_msg : ℕ → Signatory → Msg
ping_msg port to = record {
  version = msg_version1;
  msg_type = msg_type_ping;
  to = to;
  msg_data = put_uint16 port;
  sync_data = none;
}

-- What a handler does: Go's panic, an error, with the table that it leaves, or a new table and the
-- messages to send.
pub data Received : Type 0 where
  panics : Received
  fails : InMemTable → List ℕ → Received
  returns : InMemTable → Sends → Received

-- The peers whose address the table knows, which is all that the loop returns unless it panics: for
-- the others `DPanic` is called.
unfoldable pub acknowledged : InMemTable → List Signatory → List SignatoryAndAddress
acknowledged table [] = []
acknowledged table (sig ∷ sigs) =
    let rest = acknowledged table sigs in
    elim (peer_address table sig) [
      | none ↦ rest
      | some addr ↦ record { signatory = sig; address = addr } ∷ rest
    ]

-- Whether the loop comes to no `DPanic`.
unfoldable pub are_known : InMemTable → List Signatory → Bool
are_known table [] = true
are_known table (sig ∷ sigs) =
    let rest = are_known table sigs in
    elim (peer_address table sig) [ none ↦ false | some addr ↦ rest ]

-- What the node has: `development` is whether its logger panics at `DPanic`, as that of
-- `zap.NewDevelopment`, the default, does; `print` is `%v` of an integer; `to_binary` and `from_binary` are those of surge at
-- slices of `SignatoryAndAddress`, whose error comes first.
pub record Formats : Type 0 where
  pub development : Bool
  pub print : ℕ → List ℕ
  pub to_binary : List SignatoryAndAddress → List ℕ ⊎ List ℕ
  pub from_binary : List ℕ → List ℕ ⊎ List SignatoryAndAddress

unfoldable pub ack_msg : Signatory → List ℕ → Msg
ack_msg from content = record {
  version = msg_version1;
  msg_type = msg_type_ping_ack;
  to = from;
  msg_data = content;
  sync_data = none;
}

-- The address that a ping gives its sender, whose IP prints as `ip`.
unfoldable pub pinged_address : (ℕ → List ℕ) → List ℕ → ℕ → ℕ → Address
pinged_address print ip port now = new_unsigned_address tcp (ip ++ codes ":" ++ print port) now

unfoldable pub answer_ping : InMemTable → Signatory → List ℕ ⊎ List ℕ → Received
answer_ping table from (inl e) = fails table (codes "bad ping ack: " ++ e)
answer_ping table from (inr content) = returns table ((from, ack_msg from content) ∷ [])

unfoldable pub add_all : InMemTable → List SignatoryAndAddress → InMemTable
add_all table [] = table
add_all table (x ∷ xs) = add_all (add_peer table x.signatory x.address) xs

unfoldable pub learn : InMemTable → List ℕ ⊎ List SignatoryAndAddress → Received
learn table (inl e) = fails table (codes "bad ping ack: " ++ e)
learn table (inr slice) = returns (add_all table slice) []

module _ (f : Formats) (max_expected_peers : ℕ) where
  -- The rest of `didReceivePing` once the port was read. `none` is an address that is no `*net.TCPAddr`.
  unfoldable pub accept_ping : InMemTable → Signatory → Option (List ℕ) → ℕ → ℕ → Received
  accept_ping table from none port now = panics
  accept_ping table from (some ip) port now =
      let table' = add_peer table from (pinged_address f.print ip port now) in
      let sigs = peers table' max_expected_peers in
      let answer = answer_ping table' from (f.to_binary (acknowledged table' sigs)) in
      if f.development && not (are_known table' sigs) then panics else answer

  -- `now` is what `time.Now().UnixNano()` returns.
  unfoldable pub did_receive_ping : InMemTable → Signatory → Option (List ℕ) → ℕ → Msg → Received
  did_receive_ping table from ip now msg =
      if not (length msg.msg_data == 2)
      then fails table (
          codes "malformed port received in ping message. expected: 2 bytes, received: "
          ++ (f.print (length msg.msg_data) ++ codes " bytes"))
      else accept_ping table from ip (uint16_from msg.msg_data) now

  unfoldable pub did_receive_ping_ack : InMemTable → Msg → Received
  did_receive_ping_ack table msg = learn table (f.from_binary msg.msg_data)

  unfoldable pub did_receive_message : InMemTable → Signatory → Option (List ℕ) → ℕ → Msg → Received
  did_receive_message table from ip now msg =
      if msg.msg_type == msg_type_ping
      then did_receive_ping table from ip now msg
      else (if msg.msg_type == msg_type_ping_ack
          then did_receive_ping_ack table msg
          else returns table [])

-- How one ping ends: an error that is not the context's is only logged. `ticked` is whether the
-- ticker has ticked after it.
pub record Pinged : Type 0 where
  pub context_error : Bool
  pub ticked : Bool

-- The pings of one round of `DiscoverPeers`. The outcome of a ping is that of its place in the round.
unfoldable pub ping_all : ℕ → List Signatory → (ℕ → Pinged) → Sends
ping_all port [] outcome = []
ping_all port (sig ∷ sigs) outcome =
    let o = outcome 0 in
    let rest = ping_all port sigs (λ i. outcome (suc i)) in
    (sig, ping_msg port sig) ∷ (if o.context_error || o.ticked then [] else rest)

-- A round: the table when it starts, the outcomes of its pings, if they come to it, and whether the context is found done
-- at its end. A ticked ping goes to the next round without a look at the context.
pub record Round : Type 0 where
  pub table : InMemTable
  pub outcome : ℕ → Pinged
  pub done : Bool

unfoldable pub continues : List Signatory → (ℕ → Pinged) → Bool
continues [] outcome = false
continues (sig ∷ sigs) outcome =
    let o = outcome 0 in
    let rest = continues sigs (λ i. outcome (suc i)) in
    if o.context_error then false else (if o.ticked then true else rest)

-- The pings of the rounds until the context is done.
unfoldable pub discover_rounds : ℕ → ℕ → List Round → List Sends
discover_rounds port alpha [] = []
discover_rounds port alpha (r ∷ rs) =
    let rest = discover_rounds port alpha rs in
    let sigs = peers r.table alpha in
    ping_all port sigs r.outcome ∷ (if not (continues sigs r.outcome) && r.done then [] else rest)

-- The period divided by `alpha` is the time that a ping may take: no number is divided by 0.
unfoldable pub discover_peers : ℕ → ℕ → List Round → Option (List Sends)
discover_peers port alpha rs = if alpha == 0 then none else some (discover_rounds port alpha rs)
