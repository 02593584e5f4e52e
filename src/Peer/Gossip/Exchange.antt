-- ===== src/Peer/Gossip/Exchange.antt =====
-- How content travels between two gossipers of peer/gossip.go.
use aw.Base.{
  ℕ, suc, ◌≤◌, ◌≡◌, refl, ap, ◌∙◌, inl, inr, true, false, Option, none, some, List, [], ◌∷◌, arith,
  ltb, Bool-cases, ◌==◌, nat_Eq, bytes_Eq, length, map, length-take,
}
use aw.Base.Arrays.{Bytes_Eq}
use aw.Base.Maps.{lookup}
use aw.Channel.Filter.Pairing.{filter-sync}
use aw.Channel.Filter.{filter}
use aw.Dht.Distance.{Signatory, Hash}
use aw.Dht.Resolver.{ContentResolver}
use aw.Dht.Table.{InMemTable, peers, subnet}
use aw.Wire.Msg.{Msg, msg_type_push, msg_type_pull, msg_type_sync}
use aw.Peer.Gossip.{Gossiper, recipients, gossip, push_msg, did_receive_message, default_subnet}

length-recipients :
    (alpha : ℕ) (table : InMemTable) (hash : Hash) → length (recipients alpha table hash) ≤ alpha
unfolding recipients peers
length-recipients alpha table hash = elim (Bool-cases (hash == default_subnet)) [
  | inl e ↦ rw e (elim (Bool-cases (alpha == 0)) [
    | inl z ↦ rw z (omega arith)
    | inr z ↦ rw z (omega (arith, length-take alpha table.sorted))
  ])
  | inr e ↦ rw e (elim (Bool-cases (ltb alpha (length (subnet table hash)))) [
    | inl z ↦ rw z (omega (arith, length-take alpha (subnet table hash)))
    | inr z ↦ rw z (ground (arith, z))
  ])
]

length-map : {A B : Type 0} (f : A → B) (xs : List A) → length (map f xs) ≡ length xs
length-map f [] = refl
length-map f (x ∷ xs) = ap suc (length-map f xs)

-- One message reaches at most `alpha` peers.
pub length-gossip :
    (alpha : ℕ) (table : InMemTable) (content_id : List ℕ) (hash : Option Hash)
    → length (gossip alpha table content_id hash) ≤ alpha
unfolding gossip
length-gossip alpha table content_id hash =
    let to : Hash = elim hash [ none ↦ default_subnet | some h ↦ h ] in
    omega (
      arith,
      length-map {B = Signatory × Msg} (λ r. (r, push_msg content_id to))
          (recipients alpha table to),
      length-recipients alpha table to,
    )

module _ (c : ContentResolver) where
  -- A synchronisation message that the filter does not expect changes nothing and causes no message.
  pub did_receive_message-unexpected :
      (alpha : ℕ) (table : InMemTable) (g : Gossiper c.State) (from : Signatory) (msg : Msg)
      → msg.msg_type ≡ msg_type_sync
      → lookup msg.msg_data g.sync_filter ≡ none
      → did_receive_message c alpha table g from msg ≡ (g, [])
  unfolding did_receive_message
  did_receive_message-unexpected alpha table g from msg t e =
      let f : filter g.sync_filter msg ≡ true = filter-sync g.sync_filter msg t ∙ rw e refl in
      let not_push : (msg.msg_type == msg_type_push) ≡ false = ap (λ x. x == msg_type_push) t in
      let not_pull : (msg.msg_type == msg_type_pull) ≡ false = ap (λ x. x == msg_type_pull) t in
      let is_sync : (msg.msg_type == msg_type_sync) ≡ true = ap (λ x. x == msg_type_sync) t in
      rw not_push (rw not_pull (rw is_sync (rw f refl)))
