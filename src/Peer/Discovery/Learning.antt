-- ===== src/Peer/Discovery/Learning.antt =====
-- What two nodes learn of each other by the ping and the acknowledgement of peer/peerdiscovery.go.
use aw.Base.{
  ℕ, ◌^◌, ◌<◌, ◌≡◌, refl, sym, ap, ◌∙◌, inl, inr, true, false, Option, none, some, List, [], ◌∷◌,
  arith, if◌then◌else◌, Bool-cases, ◌==◌, nat_Eq, bytes_Eq,
}
use aw.Base.Arrays.{Bytes_Eq}
use aw.Base.Maps.{lookup}
use aw.Dht.Distance.{Signatory}
use aw.Dht.Table.{InMemTable, add_peer, peers, peer_address, is_some}
use aw.Dht.Table.Peers.{IsValid, add_peer-IsValid}
use aw.Sorting.Ordered.{contains}
use aw.Sorting.Edits.{contains-take-drop}
use aw.Wire.Address.{Address}
use aw.Wire.SigAddr.{SignatoryAndAddress}
use aw.Peer.Discovery.{
  acknowledged, add_all, Formats, ping_msg, ack_msg, pinged_address, returns, answer_ping,
  accept_ping, learn, did_receive_ping, did_receive_ping_ack, did_receive_message, put_uint16,
  uint16_from,
}
use aw.Peer.Discovery.Tables.{peer_address-add_all, latest-acknowledged, prefer, accept-known}

uint16_from-put_uint16 : (port : ℕ) → port < 2 ^ 16 → uint16_from (put_uint16 port) ≡ port
unfolding uint16_from put_uint16
uint16_from-put_uint16 port h = omega arith

peers-sorted :
    (t : InMemTable) (n : ℕ) (q : Signatory)
    → contains q (peers t n) ≡ true
    → contains q t.sorted ≡ true
unfolding peers contains
peers-sorted t n q h = elim (Bool-cases (n == 0)) [
  | inl z ↦ absurd (cc (rw z at h))
  | inr z ↦ ground (arith, contains-take-drop q n t.sorted, rw z at h)
]

preferred : (o before : Option Address) → is_some o ≡ true → prefer o before ≡ o
preferred none before h = cc h
preferred (some a) before h = refl

-- A valid table knows the address of each peer that it hands out.
told :
    (t : InMemTable) (n : ℕ) (q : Signatory) (before : Option Address)
    → IsValid t
    → (if contains q (peers t n) then prefer (peer_address t q) before else before)
      ≡ (if contains q (peers t n) then peer_address t q else before)
unfolding peer_address
told t n q before v = elim (Bool-cases (contains q (peers t n))) [
  | inl c ↦ rw c (
      preferred (lookup q t.addrs_by_signatory) before (sym (v.same_keys q) ∙ peers-sorted t n q c))
  | inr c ↦ rw c refl
]

module _ (f : Formats) (max_expected_peers : ℕ) where
  ping-accepted :
      (table : InMemTable) (from to : Signatory) (ip : Option (List ℕ)) (port now : ℕ)
      → port < 2 ^ 16
      → did_receive_message f max_expected_peers table from ip now (ping_msg port to)
        ≡ accept_ping f max_expected_peers table from ip port now
  unfolding did_receive_message did_receive_ping ping_msg put_uint16
  ping-accepted table from to ip port now h =
      ap (λ p. accept_ping f max_expected_peers table from ip p now) (uint16_from-put_uint16 port h)

  ack-learnt :
      (table : InMemTable) (from to : Signatory) (ip : Option (List ℕ)) (now : ℕ) (content : List ℕ)
      → did_receive_message f max_expected_peers table from ip now (ack_msg to content)
        ≡ learn table (f.from_binary content)
  unfolding did_receive_message did_receive_ping_ack ack_msg
  ack-learnt table from to ip now content = refl

  answered :
      (t : InMemTable) (to : Signatory) (xs : List SignatoryAndAddress) (bytes : List ℕ)
      → f.to_binary xs ≡ inr bytes
      → answer_ping t to (f.to_binary xs) ≡ returns t ((to, ack_msg to bytes) ∷ [])
  unfolding answer_ping
  answered t to xs bytes e = rw e refl

  learnt :
      (t : InMemTable) (xs : List SignatoryAndAddress) (bytes : List ℕ)
      → f.from_binary bytes ≡ inr xs
      → learn t (f.from_binary bytes) ≡ returns (add_all t xs) []
  unfolding learn
  learnt t xs bytes e = rw e refl

  -- A node `a` pings `b` with a port of 16 bits, and `b`, whose table is valid, answers. If the answer
  -- can be written, and what is written is read back, then: `b` adds `a` at the IP address of the
  -- connection and that port, and sends one acknowledgement; `a`, once it receives it, knows each peer
  -- that `b` told of, other than `a` itself, by the address of `b`'s table, whatever address it had
  -- before, and every other peer as before.
  pub did_receive_message-ping-ack :
      (ta tb : InMemTable) (a b : Signatory) (ip : List ℕ) (ip' : Option (List ℕ))
      (port now now' : ℕ) (content : List ℕ)
      → port < 2 ^ 16
      → IsValid tb
      → ((xs : List SignatoryAndAddress) (bytes : List ℕ)
          → f.to_binary xs ≡ inr bytes
          → f.from_binary bytes ≡ inr xs)
      → f.to_binary (
          acknowledged
            (add_peer tb a (pinged_address f.print ip port now))
            (peers (add_peer tb a (pinged_address f.print ip port now)) max_expected_peers))
        ≡ inr content
      → let tb' = add_peer tb a (pinged_address f.print ip port now) in
        (did_receive_message f max_expected_peers tb a (some ip) now (ping_msg port b)
          ≡ returns tb' ((a, ack_msg a content) ∷ []))
        × ((ta' : InMemTable) × (did_receive_message f max_expected_peers ta b ip' now'
                (ack_msg a content)
              ≡ returns ta' [])
            × ((q : Signatory)
                → (ta.self == q) ≡ false
                → peer_address ta' q ≡ (
                    if contains q (peers tb' max_expected_peers)
                    then peer_address tb' q
                    else peer_address ta q)))
  did_receive_message-ping-ack ta tb a b ip ip' port now now' content h v r w =
      let tb' = add_peer tb a (pinged_address f.print ip port now) in
      let sent = acknowledged tb' (peers tb' max_expected_peers) in
      let v' = add_peer-IsValid tb a (pinged_address f.print ip port now) v in
      let known : (q : Signatory)
          → (ta.self == q) ≡ false
          → peer_address (add_all ta sent) q ≡ (
              if contains q (peers tb' max_expected_peers)
              then peer_address tb' q
              else peer_address ta q) =
        λ q o.
          peer_address-add_all ta sent q o
          ∙ (latest-acknowledged tb' (peers tb' max_expected_peers) q (peer_address ta q)
              ∙ told tb' max_expected_peers q (peer_address ta q) v') in
      (
        ping-accepted tb a b (some ip) port now h
            ∙ accept-known f max_expected_peers tb a ip port now v
            ∙ answered tb' a sent content w,
        (
          add_all ta sent,
          ack-learnt ta b a ip' now' content ∙ learnt ta sent content (r sent content w),
          known,
        ),
      )
