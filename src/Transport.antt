-- ===== src/Transport.antt =====
-- `Transport` of transport/transport.go: links, connections, and what a message, an accepted connection
-- and a dialled connection do to them. Each method that holds a lock is one step.
pub mod Dial
pub mod Holding
pub mod Serving
mod Examples
use aw.Base.{
  ℕ, zero, suc, ◌+◌, ◌-◌, ◌*◌, ◌/◌, ◌%◌, ◌^◌, ◌≤◌, ◌<◌, ◌≡◌, refl, sym, ap, ◌∙◌, ◌≢◌, ◌↔◌, ◌⊎◌, inl,
  inr, Bool, true, false, not, ◌&&◌, ◌||◌, Option, none, some, List, [], ◌∷◌, ◌++◌, arith, ltb, leb,
  if◌then◌else◌, Bool-cases, Option-cases, Eq, ◌==◌, nat_Eq, bytes_Eq, length, take, drop,
  get_elem?, All, beq_refl, beq-eq,
}
use aw.Base.Int.{ℤ, pos, increment_64, decrement, ltb_ℤ}
use aw.Base.Arrays.{Bytes_Eq}
use aw.Base.Maps.{Map, lookup, insert, delete}
use aw.Channel.Client.{Client, bind, unbind}
use aw.Dht.Distance.{Signatory}
use aw.Dht.Table.{InMemTable, peer_address}
use aw.Policy.{codes}
use aw.Wire.Address.{Address}
use aw.Wire.Msg.{Msg}

pub record Transport : Type 0 where
  pub client : Client
  pub links : Map Signatory Bool
  pub conns : Map Signatory ℤ
  pub table : InMemTable

unfoldable pub new_transport : Client → InMemTable → Transport
new_transport client table = record { client = client; links = []; conns = []; table = table }

unfoldable pub is_linked : Transport → Signatory → Bool
is_linked t remote = elim (lookup remote t.links) [ none ↦ false | some b ↦ b ]

-- `t.conns[remote]`, which is 0 for a missing key.
unfoldable pub conns_of : Transport → Signatory → ℤ
conns_of t remote = elim (lookup remote t.conns) [ none ↦ pos 0 | some z ↦ z ]

unfoldable pub is_connected : Transport → Signatory → Bool
is_connected t remote = ltb_ℤ (pos 0) (conns_of t remote)

unfoldable pub bind_client : Transport → Signatory → Transport
bind_client t remote = record t { client = bind t.client remote }

unfoldable pub unbind_client : Transport → Signatory → Transport
unbind_client t remote = record t { client = (unbind t.client remote).0 }

unfoldable pub link : Transport → Signatory → Transport
link t remote =
    if is_linked t remote
    then t
    else record (bind_client t remote) { links = insert remote true t.links }

unfoldable pub unlink : Transport → Signatory → Transport
unlink t remote =
    if is_linked t remote
    then record (unbind_client t remote) { links = delete remote t.links }
    else t

unfoldable pub connect : Transport → Signatory → Transport
connect t remote = record t { conns = insert remote (increment_64 (conns_of t remote)) t.conns }

abbrev pub is_zero : ℤ → Bool
is_zero (pos n) = n == 0
is_zero z = false

unfoldable pub disconnect : Transport → Signatory → Transport
disconnect t remote =
    if ltb_ℤ (pos 0) (conns_of t remote)
    then record t {
      conns =
          if is_zero (decrement (conns_of t remote))
          then delete remote t.conns
          else insert remote (decrement (conns_of t remote)) t.conns;
    }
    else t

-- What `Send` decides, before it hands the message to the client: an error, or the goroutine that it
-- starts. `dials_and_unbinds` undoes the binding once it has dialled.
pub data Route : Type 0 where
  not_found : Route
  straight : Route
  dials : Address → Route
  dials_and_unbinds : Address → Route

unfoldable pub route : Transport → Signatory → Transport × Route
unfolding peer_address
route t remote = elim (peer_address t.table remote) [
  | none ↦ (t, not_found)
  | some addr ↦
      if is_connected t remote
      then (t, straight)
      else (if is_linked t remote
          then (t, dials addr)
          else (bind_client t remote, dials_and_unbinds addr))
]

-- `Send`, where the call of the client's `Send` is a parameter.
unfoldable pub send_by :
    (Signatory → List ℕ)
    → (Client → Client × Option (List ℕ))
    → Transport
    → Signatory
    → Transport × Option (List ℕ)
send_by print client_send t remote =
    let (t', r) = route t remote in
    let (client, e) = client_send t'.client in
    elim r [
      | not_found ↦ (t', some (codes "peer not found: " ++ print remote))
      | straight ↦ (record t' { client = client }, e)
      | dials addr ↦ (record t' { client = client }, e)
      | dials_and_unbinds addr ↦ (record t' { client = client }, e)
    ]

-- The handler of an accepted connection after its handshake. `attach` is what becomes of the transport
-- while the connection is attached; the deferred calls run after it, the last one first.
unfoldable pub serve_accepted : (Transport → Transport) → Transport → Signatory → Transport
serve_accepted attach t remote =
    if is_linked t remote
    then disconnect (attach (connect t remote)) remote
    else unbind_client (disconnect (attach (connect (bind_client t remote) remote)) remote) remote

-- The handler of a dialled connection, whose handshake gave `remote` or another peer.
unfoldable pub serve_dialled :
    (Transport → Transport) → Transport → Signatory → Signatory → Transport
serve_dialled attach t remote r =
    if r == remote then disconnect (attach (connect t remote)) remote else t
