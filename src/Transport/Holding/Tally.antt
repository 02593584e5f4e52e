-- ===== src/Transport/Holding/Tally.antt =====
-- How often a peer is in a list, and counters of `conns` in transport/transport.go.
use aw.Base.{
  ℕ, zero, suc, ◌+◌, ◌-◌, ◌^◌, ◌<◌, ◌≡◌, refl, ap, ◌∙◌, inl, inr, true, false, Option, none, some,
  List, arith, ltb, if◌then◌else◌, Bool-cases, ◌==◌, nat_Eq, bytes_Eq, beq_refl, beq-eq,
}
use aw.Base.Arrays.{Bytes_Eq}
use aw.Base.Int.{ℤ, pos, increment_64, increment_64-pos, decrement, ltb_ℤ}
use aw.Base.Maps.{lookup, lookup-insert, lookup-delete}
use aw.Dht.Distance.{Signatory}
use aw.Sorting.Counts.{count_if}
use aw.Transport.{Transport, conns_of, connect, disconnect, is_connected, is_zero}

abbrev pub count : Signatory → List Signatory → ℕ
count r xs = count_if (λ x. x == r) xs

-- A counter in the map: none for 0.
abbrev pub tally : ℕ → Option ℤ
tally zero = none
tally (suc n) = some (pos (suc n))

conns_of-tally :
    (t : Transport) (r : Signatory) (n : ℕ) → lookup r t.conns ≡ tally n → conns_of t r ≡ pos n
unfolding conns_of
conns_of-tally t r zero e = rw (e, conns_of) refl
conns_of-tally t r (suc n) e = rw (e, conns_of) refl

pub is_connected-tally :
    (t : Transport) (r : Signatory) (n : ℕ)
    → lookup r t.conns ≡ tally n
    → is_connected t r ≡ ltb 0 n
unfolding is_connected ltb_ℤ
is_connected-tally t r n e = rw (conns_of-tally t r n e) refl

pub connect-tally :
    (t : Transport) (r' r : Signatory) (n : ℕ)
    → n + 1 < 2 ^ 63
    → lookup r t.conns ≡ tally n
    → lookup r (connect t r').conns ≡ tally (if r' == r then n + 1 else n)
unfolding connect
connect-tally t r' r n h e =
    rw (lookup-insert r' r (increment_64 (conns_of t r')) t.conns) (elim (Bool-cases (r' == r)) [
      | inl q ↦
          let s : increment_64 (conns_of t r') ≡ pos (suc n) =
            ap increment_64 (conns_of-tally t r' n (rw (beq-eq r' r q) e)) ∙ increment_64-pos n h in
          let k : suc n ≡ n + 1 = omega arith in rw (q, s) (ap tally k)
      | inr q ↦ rw q e
    ])

disconnect-other :
    (t : Transport) (r' r : Signatory)
    → (r' == r) ≡ false
    → lookup r (disconnect t r').conns ≡ lookup r t.conns
unfolding disconnect
disconnect-other t r' r q = elim (Bool-cases (ltb_ℤ (pos 0) (conns_of t r'))) [
  | inl p ↦ rw p (elim (Bool-cases (is_zero (decrement (conns_of t r')))) [
    | inl z ↦ rw z (rw (lookup-delete r' r t.conns, q) refl)
    | inr z ↦ rw z (rw (lookup-insert r' r (decrement (conns_of t r')) t.conns, q) refl)
  ])
  | inr p ↦ rw p refl
]

-- One connection fewer, of `n`.
disconnect-same :
    (t : Transport) (r : Signatory) (n : ℕ)
    → lookup r t.conns ≡ tally n
    → lookup r (disconnect t r).conns ≡ tally (n - 1)
unfolding disconnect ltb_ℤ decrement
disconnect-same t r zero e = rw (conns_of-tally t r 0 e) e
disconnect-same t r (suc zero) e =
    rw (conns_of-tally t r 1 e) (rw (lookup-delete r r t.conns, beq_refl r) refl)
disconnect-same t r (suc (suc n)) e =
    let k : suc n ≡ suc (suc n) - 1 = omega arith in
    let z : is_zero (pos (suc n)) ≡ false = ground arith in
    let p : ltb 0 (suc (suc n)) ≡ true = ground arith in
    rw (conns_of-tally t r (suc (suc n)) e)
      (rw p (rw z (rw (lookup-insert r r (pos (suc n)) t.conns, beq_refl r) (ap tally k))))

pub disconnect-tally :
    (t : Transport) (r' r : Signatory) (n : ℕ)
    → lookup r t.conns ≡ tally n
    → lookup r (disconnect t r').conns ≡ tally (if r' == r then n - 1 else n)
disconnect-tally t r' r n e = elim (Bool-cases (r' == r)) [
  | inl q ↦ rw q (rw (beq-eq r' r q) (disconnect-same t r n e))
  | inr q ↦ rw q (disconnect-other t r' r q ∙ e)
]
