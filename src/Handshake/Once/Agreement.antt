-- ===== src/Handshake/Once/Agreement.antt =====
-- The two peers of a connection, each at its side of handshake/once.go.
use mathlib.Core.Option
use aw.Base.{
  ℕ, ◌≡◌, refl, sym, ap, ◌∙◌, ◌≢◌, ◌⊎◌, inl, inr, Bool, true, false, not, Option, none, some, List,
  [], ◌∷◌, ◌++◌, arith, if◌then◌else◌, Bool-cases, nat_Eq, bytes_Eq, beq_refl, ne-beq, subst,
}
use mathlib.Core.Bool.{true≢false}
use aw.Codec.Nonces.{before_asym}
use aw.Base.Arrays.{Bytes_Eq, Bytes-ext}
use aw.Base.Maps.{lookup, lookup-insert}
use aw.Codec.Gcm.{before_bytes}
use aw.Dht.Distance.{Signatory}
use aw.Policy.{codes}
use aw.Handshake.Once.{
  OncePool, OnceResult, established, fails, negligible, accept, needs_replacement, decide,
  keep_alive, once_smaller, once_larger, once,
}

-- The connection that a pool holds with a peer.
abbrev pub held : OncePool → Signatory → Option ℕ
held pool remote = Option.map (λ c. c.conn) (lookup remote pool.conns)

abbrev pub is_established : OnceResult → Bool
is_established established = true
is_established (fails e) = false
is_established (negligible e) = false

before_irrefl : (xs : List ℕ) → before_bytes xs xs ≡ false
before_irrefl [] = refl
before_irrefl (x ∷ xs) = ground (arith, before_irrefl xs)

true-not : (b : Bool) → true ≡ not b → b ≡ false
true-not true e = e
true-not false e = refl

before-ne : (a b : Signatory) → before_bytes a.bytes b.bytes ≡ true → a ≢ b
before-ne a b h e =
    true≢false
      (sym (subst (λ x. before_bytes a.bytes x.bytes ≡ true) (sym e) h) ∙ before_irrefl a.bytes)

before-not :
    (a b : Signatory) → before_bytes a.bytes b.bytes ≡ true → before_bytes b.bytes a.bytes ≡ false
before-not a b h = elim (before_asym a.bytes b.bytes (a.size ∙ sym b.size)) [
  | inl e ↦ true-not (before_bytes b.bytes a.bytes) (sym h ∙ e)
  | inr e ↦ absurd (before-ne a b h (Bytes-ext a b e))
]

accept-held :
    (pool : OncePool) (remote : Signatory) (conn now : ℕ)
    → held (accept pool remote conn now) remote ≡ some conn
unfolding accept
accept-held pool remote conn now =
    rw
      (
        lookup-insert remote remote (record { timestamp = now; conn = conn }) pool.conns,
        beq_refl remote,
      )
      refl

decide-held :
    (pool : OncePool) (remote : Signatory) (conn now : ℕ)
    → held (decide pool remote conn now).0 remote
      ≡ (if (decide pool remote conn now).1 then some conn else held pool remote)
unfolding decide
decide-held pool remote conn now = elim (Bool-cases (needs_replacement pool remote now)) [
  | inl e ↦ rw e (
      rw
        (
          lookup-insert remote remote (record { timestamp = now; conn = conn }) pool.conns,
          beq_refl remote,
        )
        refl)
  | inr e ↦ rw e refl
]

module _ (print : Signatory → List ℕ) (small large : Signatory) where
  small_once :
      (pool : OncePool) (conn now byte : ℕ) (sent : Option (List ℕ))
      → before_bytes small.bytes large.bytes ≡ true
      → once print small pool (inr large) conn now (inr byte) sent
        ≡ some (once_smaller print small pool large conn now (inr byte))
  unfolding once
  small_once pool conn now byte sent b =
      rw (ne-beq small large (before-ne small large b)) (rw b refl)

  large_once :
      (pool : OncePool) (conn now : ℕ) (received : List ℕ ⊎ ℕ)
      → before_bytes small.bytes large.bytes ≡ true
      → once print large pool (inr small) conn now received none
        ≡ once_larger print large pool small conn now none
  unfolding once
  large_once pool conn now received b =
      rw (ne-beq large small (λ e. before-ne small large b (sym e)))
        (rw (before-not small large b) refl)

  -- What each peer makes of the decision that the connection is kept, or not.
  smaller-keeps :
      (pool : OncePool) (conn now : ℕ) (keeps : Bool)
      → let o = once_smaller print small pool large conn now (inr (keep_alive keeps)) in
        (held o.0 large ≡ (if keeps then some conn else held pool large))
        × (is_established o.1 ≡ keeps)
  unfolding once_smaller keep_alive
  smaller-keeps pool conn now true = (accept-held pool large conn now, refl)
  smaller-keeps pool conn now false = (refl, refl)

  larger-keeps :
      (pool : OncePool) (conn now : ℕ)
      → (o : OncePool × OnceResult) × (once_larger print large pool small conn now none ≡ some o)
        × (o.0 ≡ (decide pool small conn now).0)
        × (is_established o.1 ≡ (decide pool small conn now).1)
  unfolding once_larger
  larger-keeps pool conn now = elim (Bool-cases (decide pool small conn now).1) [
    | inl e ↦ rw (e, once_larger) (((decide pool small conn now).0, established), refl, refl, refl)
    | inr e ↦
        rw (e, once_larger)
          (
            (
              (decide pool small conn now).0,
              negligible (codes "kill connection to " ++ print small),
            ),
            refl,
            refl,
            refl,
          )
  ]

  -- Two peers hold the same connection with each other, or none. A new connection is made; the larger
  -- peer decides and its message arrives. Then neither panics, both say that the new connection is
  -- established or neither does, and they hold the same connection again, the new one if it is.
  pub once-agrees :
      (pool_s pool_l : OncePool) (conn now_s now_l : ℕ) (sent : Option (List ℕ))
      (received : List ℕ ⊎ ℕ)
      → before_bytes small.bytes large.bytes ≡ true
      → held pool_s large ≡ held pool_l small
      → let byte = keep_alive (decide pool_l small conn now_l).1 in
        (s : OncePool × OnceResult) × (l : OncePool × OnceResult) × (once print small pool_s
            (inr large)
            conn
            now_s
            (inr byte)
            sent
          ≡ some s)
        × (once print large pool_l (inr small) conn now_l received none ≡ some l)
        × (is_established s.1 ≡ is_established l.1)
        × (held s.0 large ≡ held l.0 small)
        × (held l.0 small ≡ (if is_established l.1 then some conn else held pool_l small))
  once-agrees pool_s pool_l conn now_s now_l sent received b h =
      let keeps = (decide pool_l small conn now_l).1 in
      let (l, e, p, r) = larger-keeps pool_l conn now_l in
      let (hs, rs) = smaller-keeps pool_s conn now_s keeps in
      let hl : held l.0 small ≡ (if keeps then some conn else held pool_l small) =
        ap (λ x. held x small) p ∙ decide-held pool_l small conn now_l in
      (
        once_smaller print small pool_s large conn now_s (inr (keep_alive keeps)),
        l,
        small_once pool_s conn now_s (keep_alive keeps) sent b,
        large_once pool_l conn now_l received b ∙ e,
        rs ∙ sym r,
        hs ∙ ap (λ x. if keeps then some conn else x) h ∙ sym hl,
        hl ∙ ap (λ k. if k then some conn else held pool_l small) (sym r),
      )
