-- ===== src/Lib.antt =====
-- airwave: peers that find each other, hold channels over changing connections, and gossip
-- content.
--
-- Dht.Table models `InMemTable` of dht/table.go: each method is a function on the table's record,
-- and Dht.Distance is `isCloser`. Dht.Resolver models the content resolvers of dht/resolver.go.
-- Both are states that the gossiper reads: Peer.Gossip models the handlers of peer/gossip.go,
-- which send messages (Wire.Msg, from wire/wire.go), remember subnets, and allow content ids in
-- the filter of Channel.Filter (channel/filter.go). Channel.Client models the shared channels of
-- channel/client.go, Channel.WriteLoop and Channel.ReadLoop the loops of channel/channel.go.
-- Wire.Marshal models the marshalling of messages, from wire/wire.go, and Codec and Codec.Gcm
-- model codec/, over which a channel writes them. Handshake.Once models handshake/once.go, which
-- keeps one connection for each pair of peers; Handshake.Ecies is handshake/ecies.go, which agrees
-- on the key of the codecs' sessions, and Handshake.Insecure is handshake/handshake.go and
-- handshake/filter.go. Policy models policy/allow.go and policy/timeout.go, and Tcp the loops of
-- tcp/tcp.go that accept under such a policy and that dial. Wire.Address has what the table
-- stores, from wire/addr.go; Wire.Address.Text, Wire.Address.Binary and Wire.Address.Signing are
-- its texts, its marshalling and its signatures, and Wire.SigAddr is wire/sigaddr.go. Base has the
-- shared notation, maps, byte arrays and integers; Sorting has `sort.Search`, insertion and
-- sorting of Go's standard library, as the table uses them.
--
-- Transport models transport/transport.go: which channels are bound for links, messages and
-- connections, and when a peer counts as connected. Transport.Holding lets its goroutines work in
-- any order, Transport.Dial is the loop that dials. Peer.Sync models peer/sync.go, where calls for
-- the same content share a pending object, and Peer.Sync.Waiting lets these calls work in any
-- order. Peer.Discovery models peer/peerdiscovery.go, by which nodes fill each other's tables.
-- Peer.Dispatch models peer/peer.go: it hands each message to the synchroniser, the gossiper and
-- the discovery client.
--
-- A function of the source keeps its name in antt's spelling: `AddPeer` is `add_peer`. Go's maps
-- are association lists, byte slices are lists of numbers, and fixed arrays are `Bytes n`. A
-- method that holds a lock is one step. Where a goroutine works between steps, it is a sequence of
-- events or of actions. The clock, random numbers, the network, ciphers, marshallers and rate
-- limiters are parameters. All loops are structural recursion on a list or a number; only the
-- words and the length of a big integer take a number as fuel, for which the integer itself is
-- enough.
--
-- Not modelled: logging, but for the panic of a development logger in peer discovery; JSON; how a
-- channel replaces its readers, and `Attach`; the pulls that `Sync` sends; options, which are
-- records of constants; backoff timeouts, which compute with floating point; sockets.
pub mod Base
pub mod Sorting
pub mod Wire
pub mod Dht
pub mod Policy
pub mod Tcp
pub mod Codec
pub mod Channel
pub mod Peer
pub mod Transport
pub mod Handshake
