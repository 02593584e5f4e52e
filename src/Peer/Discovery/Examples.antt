-- ===== src/Peer/Discovery/Examples.antt =====
-- Two nodes that discover each other.
use aw.Base.{
  ℕ, ◌≡◌, refl, sym, ap, ◌⊎◌, inl, inr, Bool, true, false, ◌&&◌, none, some, List, [], ◌∷◌, arith,
  if◌then◌else◌, Bool-cases, ◌==◌, nat_Eq, bytes_Eq, beq-eq,
}
use aw.Base.Arrays.{padded, Bytes_Eq, beq_Bytes}
use aw.Dht.Distance.{Signatory, is_closer}
use aw.Sorting.Search.{search}
use aw.Sorting.Ordered.{insert_at, contains}
use aw.Base.Maps.{lookup, insert}
use aw.Dht.Table.{search_index, InMemTable, new_in_mem_table, add_peer, peers, peer_address}
use aw.Dht.Table.Peers.{IsValid, add_peer-IsValid}
use aw.Dht.Table.Expire.{start, Reach-Keeps}
use aw.Peer.Discovery.{
  Formats, acknowledged, pinged_address, did_receive_message, ping_msg, ack_msg, returns, Round,
  discover_peers, Sends,
}
use aw.Peer.Discovery.Learning.{did_receive_message-ping-ack}
use aw.Peer.Discovery.Rounds.{RoundsSend, discover_peers-RoundsSend}
use aw.Wire.Address.{Address, equal, new_unsigned_address, tcp, empty_signature}
use aw.Wire.SigAddr.{SignatoryAndAddress}

abbrev ann : Signatory
ann = padded 31 1

abbrev bob : Signatory
bob = padded 31 2

abbrev new_table : Signatory → InMemTable
new_table = new_in_mem_table

fresh-IsValid : (p : Signatory) → IsValid (new_table p)
fresh-IsValid p = (Reach-Keeps {self = p} start).0

-- What Bob knows of Ann after her ping.
abbrev ann_home : SignatoryAndAddress
ann_home = record { signatory = ann; address = pinged_address (λ n. n ∷ []) (49 ∷ []) 3333 5 }

abbrev is_home : SignatoryAndAddress → Bool
is_home x = x.signatory == ann && equal x.address ann_home.address

-- A format for tests: the slice of `ann_home` is the only one that fits.
abbrev put_home : List SignatoryAndAddress → List ℕ ⊎ List ℕ
put_home [] = inl []
put_home (x ∷ []) = if is_home x then inr (1 ∷ []) else inl []
put_home (x ∷ y ∷ zs) = inl []

abbrev some_formats : Formats
some_formats = record {
  development = true;
  print = λ n. n ∷ [];
  to_binary = put_home;
  from_binary = λ bytes. inr (ann_home ∷ []);
}

both : (a b : Bool) → (a && b) ≡ true → (a ≡ true) × (b ≡ true)
both true b e = (refl, e)
both false b e = cc e

equal-eq : (a b : Address) → equal a b ≡ true → a ≡ b
unfolding equal
equal-eq a b e =
    let (e2, s) =
      both (a.protocol == b.protocol && a.value == b.value && a.nonce == b.nonce)
        (a.signature == b.signature) e in
    let (e1, n) = both (a.protocol == b.protocol && a.value == b.value) (a.nonce == b.nonce) e2 in
    let (p, v) = both (a.protocol == b.protocol) (a.value == b.value) e1 in
    λ i. record {
      protocol = beq-eq a.protocol b.protocol p i;
      value = beq-eq a.value b.value v i;
      nonce = beq-eq a.nonce b.nonce n i;
      signature = beq-eq a.signature b.signature s i;
    }

is_home-eq : (x : SignatoryAndAddress) → is_home x ≡ true → x ≡ ann_home
is_home-eq x e =
    let (k, h) = both (x.signatory == ann) (equal x.address ann_home.address) e in
    λ i. record {
      signatory = beq-eq x.signatory ann k i;
      address = equal-eq x.address ann_home.address h i;
    }

put_home-back :
    (xs : List SignatoryAndAddress) (bytes : List ℕ)
    → put_home xs ≡ inr bytes
    → some_formats.from_binary bytes ≡ inr xs
put_home-back [] bytes e = cc e
put_home-back (x ∷ []) bytes e = elim (Bool-cases (is_home x)) [
  | inl h ↦ ap (λ y. inr (y ∷ [])) (sym (is_home-eq x h))
  | inr n ↦ cc (rw n at e)
]
put_home-back (x ∷ y ∷ zs) bytes e = cc e

ann_sent :
    let tb' = add_peer (new_table bob) ann ann_home.address in
    put_home (acknowledged tb' (peers tb' 1)) ≡ inr (1 ∷ [])
unfolding acknowledged peers add_peer new_in_mem_table search_index search is_closer insert_at
    lookup insert beq_Bytes peer_address equal pinged_address new_unsigned_address
ann_sent = refl

did_receive_message-ping-ack_example :
    let tb' = add_peer (new_table bob) ann ann_home.address in
    (did_receive_message some_formats 1 (new_table bob) ann (some (49 ∷ [])) 5 (ping_msg 3333 bob)
      ≡ returns tb' ((ann, ack_msg ann (1 ∷ [])) ∷ []))
    × ((ta' : InMemTable) × (did_receive_message some_formats 1
            (new_table ann)
            bob
            none
            6
            (ack_msg ann (1 ∷ []))
          ≡ returns ta' [])
        × ((q : Signatory)
            → ((new_table ann).self == q) ≡ false
            → peer_address ta' q ≡ (
                if contains q (peers tb' 1)
                then peer_address tb' q
                else peer_address (new_table ann) q)))
did_receive_message-ping-ack_example =
    did_receive_message-ping-ack some_formats 1 (new_table ann) (new_table bob) ann bob (49 ∷ [])
      none 3333 5 6 (1 ∷ []) (omega arith) (fresh-IsValid bob) put_home-back ann_sent

abbrev home : Address
home = record { protocol = tcp; value = []; nonce = 3; signature = empty_signature }

abbrev first_round : Round
first_round = record {
  table = add_peer (new_table bob) ann home;
  outcome = λ i. record { context_error = false; ticked = i == 0 };
  done = true;
}

first_round-IsValid : IsValid first_round.table
first_round-IsValid = add_peer-IsValid (new_table bob) ann home (fresh-IsValid bob)

discover_peers-RoundsSend_example :
    (sends : List Sends) × (discover_peers 3333 2 (first_round ∷ first_round ∷ []) ≡ some sends)
    × RoundsSend 3333 2 (first_round ∷ first_round ∷ []) sends
discover_peers-RoundsSend_example =
    discover_peers-RoundsSend 3333 2 (first_round ∷ first_round ∷ []) (omega arith)
      (first_round-IsValid, (first_round-IsValid, tt))
