-- ===== src/Peer/Gossip/Expiry.antt =====
-- What a push leaves in a gossiper of peer/gossip.go once its timeout has passed.
use mathlib.Core.Bool.{true≢false}
use aw.Base.{
  ℕ, suc, ◌-◌, ◌<◌, ◌≡◌, refl, sym, ap, ◌∙◌, inl, inr, Bool, true, false, Option, none, some, List,
  arith, if◌then◌else◌, Bool-cases, ◌==◌, nat_Eq, bytes_Eq, length, beq_refl, subst,
}
use aw.Base.Maps.{lookup, insert, lookup-insert, lookup-delete}
use aw.Channel.Filter.{SyncFilter, allow, deny}
use aw.Channel.Filter.Pairing.{count, allow-count, deny-count}
use aw.Dht.Distance.{Signatory, Hash}
use aw.Dht.Resolver.{ContentResolver}
use aw.Wire.Msg.{Msg}
use aw.Peer.Gossip.{Gossiper, did_receive_push, clean_up}

differ : (a b : List ℕ) → a ≡ b → (a == b) ≡ false → ⊥
differ a b e q = true≢false (sym (subst (λ x. (a == x) ≡ true) e (beq_refl a)) ∙ q)

forget :
    (b : Bool) (x : Hash) (o : Option Hash)
    → (if b then none else (if b then some x else o)) ≡ (if b then none else o)
forget true x o = refl
forget false x o = refl

undone :
    (f : SyncFilter) (id' id : List ℕ) (n : ℕ)
    → lookup id f ≡ count n
    → lookup id (deny (allow f id') id') ≡ lookup id f
undone f id' id n e = elim (Bool-cases (id' == id)) [
  | inl q ↦
      let a : lookup id (allow f id') ≡ count (suc n) = allow-count f id' id n e ∙ rw q refl in
      let d : lookup id (deny (allow f id') id') ≡ count (suc n - 1) =
        deny-count (allow f id') id' id (suc n) (λ x. omega arith) a ∙ rw q refl in
      let k : suc n - 1 ≡ n = omega arith in d ∙ ap count k ∙ sym e
  | inr q ↦
      let a : lookup id (allow f id') ≡ count n = allow-count f id' id n e ∙ rw q refl in
      deny-count (allow f id') id' id n (λ x. absurd (differ id' id x q)) a ∙ rw q (sym e)
]

module _ (c : ContentResolver) where
  -- A push of content that is not known, and the clean-up that it starts, leave the filter's count of
  -- each content id (`n` open allowances) as it was, and the subnets but for that content's, which is
  -- forgotten.
  pub clean_up-push :
      (g : Gossiper c.State) (from : Signatory) (msg : Msg) (r : c.State) (id : List ℕ) (n : ℕ)
      → 0 < length msg.msg_data
      → g.resolver ≡ some r
      → c.query_content r msg.msg_data ≡ none
      → lookup id g.sync_filter ≡ count n
      → let after = clean_up c (did_receive_push c g from msg).0 msg.msg_data in
        (lookup id after.sync_filter ≡ lookup id g.sync_filter)
        × (lookup id after.subnets ≡ (if msg.msg_data == id then none else lookup id g.subnets))
  unfolding clean_up did_receive_push
  clean_up-push g from msg r id n l e q f =
      let z : (length msg.msg_data == 0) ≡ false = ground arith in
      rw (z, did_receive_push)
        (rw (e, did_receive_push)
          (rw (q, did_receive_push)
            (
              undone g.sync_filter msg.msg_data id n f,
              rw
                  (
                    lookup-delete msg.msg_data id (insert msg.msg_data msg.to g.subnets),
                    lookup-insert msg.msg_data id msg.to g.subnets,
                  )
                  (forget (msg.msg_data == id) msg.to (lookup id g.subnets)),
            )))
