-- ===== src/Transport/Examples.antt =====
-- A transport that knows one peer.
use aw.Base.{refl, inl, [], arith, nat_Eq, bytes_Eq}
use aw.Base.Arrays.{padded, Bytes_Eq}
use aw.Base.Maps.{lookup}
use aw.Channel.Client.Counting.{Counts}
use aw.Dht.Distance.{Signatory}
use aw.Dht.Table.{new_in_mem_table, add_peer}
use aw.Transport.{Transport, new_transport, serve_accepted, serve_dialled}
use aw.Transport.Serving.{Has, serve-Has}
use aw.Wire.Address.{Address, tcp, empty_signature}

abbrev remote : Signatory
remote = padded 31 1

abbrev home : Address
home = record { protocol = tcp; value = []; nonce = 3; signature = empty_signature }

abbrev idle : Transport
idle = new_transport [] (add_peer (new_in_mem_table (padded 31 7)) remote home)

none_bound : Counts idle.client remote 0
unfolding new_transport lookup
none_bound = inl (refl, refl)

idle-Has : Has remote 0 0 idle
idle-Has = (none_bound, unfold new_transport lookup in refl)

serve-Has_example :
    Has remote 0 0 (serve_accepted (λ t. t) idle remote)
    × Has remote 0 0 (serve_dialled (λ t. t) idle remote remote)
serve-Has_example =
    serve-Has (λ t. t) idle remote remote 0 0 (omega arith) (omega arith) (λ t m n h. h) idle-Has
