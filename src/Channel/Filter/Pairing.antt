-- ===== src/Channel/Filter/Pairing.antt =====
-- `SyncFilter` of channel/filter.go under sequences of calls of `Allow` and `Deny`.
use aw.Base.{
  ℕ, zero, suc, ◌-◌, ◌<◌, ◌≡◌, refl, ap, ◌∙◌, ◌≢◌, inl, inr, true, false, Option, none, some, List,
  [], ◌∷◌, arith, if◌then◌else◌, Bool-cases, Option-cases, ◌==◌, nat_Eq, bytes_Eq, beq_refl, beq-eq,
}
use aw.Base.Int.{ℤ, pos, increment, decrement}
use aw.Base.Maps.{lookup, insert, delete, lookup-insert, lookup-delete}
use aw.Wire.Msg.{Msg, msg_type_sync}
use aw.Policy.{is_none}
use aw.Channel.Filter.{is_one, SyncFilter, new_sync_filter, expecting, allow, deny, filter}

pub data Call : Type 0 where
  allows : List ℕ → Call
  denies : List ℕ → Call

abbrev pub calls : SyncFilter → List Call → SyncFilter
calls f [] = f
calls f (allows id ∷ cs) = calls (allow f id) cs
calls f (denies id ∷ cs) = calls (deny f id) cs

-- How many allowances of an id are open, from `n` on.
abbrev pub open_calls : ℕ → List ℕ → List Call → ℕ
open_calls n id [] = n
open_calls n id (allows id' ∷ cs) = open_calls (if id' == id then suc n else n) id cs
open_calls n id (denies id' ∷ cs) = open_calls (if id' == id then n - 1 else n) id cs

-- Each `Deny` of the id reverses an `Allow` before it.
abbrev pub IsPaired : ℕ → List ℕ → List Call → Type 0
IsPaired n id [] = Unit
IsPaired n id (allows id' ∷ cs) = IsPaired (if id' == id then suc n else n) id cs
IsPaired n id (denies id' ∷ cs) =
    (id' ≡ id → 0 < n) × IsPaired (if id' == id then n - 1 else n) id cs

abbrev pub count : ℕ → Option ℤ
count zero = none
count (suc n) = some (pos (suc n))

expecting-count :
    (f : SyncFilter) (id : List ℕ) (n : ℕ) → lookup id f ≡ count n → expecting f id ≡ pos n
unfolding expecting
expecting-count f id zero e = rw (e, expecting) refl
expecting-count f id (suc n) e = rw (e, expecting) refl

pub allow-count :
    (f : SyncFilter) (id' id : List ℕ) (n : ℕ)
    → lookup id f ≡ count n
    → lookup id (allow f id') ≡ count (if id' == id then suc n else n)
unfolding allow increment
allow-count f id' id n e =
    rw (lookup-insert id' id (increment (expecting f id')) f) (elim (Bool-cases (id' == id)) [
      | inl q ↦
          let s : expecting f id' ≡ pos n = expecting-count f id' n (rw (beq-eq id' id q) e) in
          rw (q, s) refl
      | inr q ↦ rw q e
    ])

deny-one : (f : SyncFilter) (id : List ℕ) → expecting f id ≡ pos 1 → deny f id ≡ delete id f
unfolding deny
deny-one f id e = rw (e, deny) refl

deny-more :
    (f : SyncFilter) (id : List ℕ) (n : ℕ)
    → expecting f id ≡ pos n
    → n ≢ 1
    → deny f id ≡ insert id (decrement (pos n)) f
unfolding deny
deny-more f id n e h = let b : is_one (pos n) ≡ false = ground arith in rw (e, deny) (rw b refl)

deny-other :
    (f : SyncFilter) (id' id : List ℕ) → (id' == id) ≡ false → lookup id (deny f id') ≡ lookup id f
unfolding deny
deny-other f id' id q = elim (Bool-cases (is_one (expecting f id'))) [
  | inl b ↦ rw (b, deny) (rw (lookup-delete id' id f, q) refl)
  | inr b ↦ rw (b, deny) (rw (lookup-insert id' id (decrement (expecting f id')) f, q) refl)
]

deny-same :
    (f : SyncFilter) (id : List ℕ) (n : ℕ)
    → 0 < n
    → lookup id f ≡ count n
    → lookup id (deny f id) ≡ count (n - 1)
unfolding decrement
deny-same f id zero p e = absurd (omega arith)
deny-same f id (suc zero) p e =
    rw (deny-one f id (expecting-count f id 1 e), lookup-delete id id f, beq_refl id) refl
deny-same f id (suc (suc n)) p e =
    let q : suc n ≡ suc (suc n) - 1 = omega arith in
    rw
      (
        deny-more f id (suc (suc n)) (expecting-count f id (suc (suc n)) e) (omega arith),
        lookup-insert id id (pos (suc n)) f,
        beq_refl id,
      )
      (ap count q)

pub deny-count :
    (f : SyncFilter) (id' id : List ℕ) (n : ℕ)
    → (id' ≡ id → 0 < n)
    → lookup id f ≡ count n
    → lookup id (deny f id') ≡ count (if id' == id then n - 1 else n)
deny-count f id' id n p e = elim (Bool-cases (id' == id)) [
  | inl q ↦ let w = beq-eq id' id q in rw (q, w) (deny-same f id n (p w) e)
  | inr q ↦ rw q (deny-other f id' id q ∙ e)
]

pub empty : (id : List ℕ) → lookup id new_sync_filter ≡ none
unfolding lookup
empty id = refl

calls-count :
    (f : SyncFilter) (id : List ℕ) (n : ℕ) (cs : List Call)
    → lookup id f ≡ count n
    → IsPaired n id cs
    → lookup id (calls f cs) ≡ count (open_calls n id cs)
calls-count f id n [] e p = e
calls-count f id n (allows id' ∷ cs) e p =
    calls-count (allow f id') id (if id' == id then suc n else n) cs (allow-count f id' id n e) p
calls-count f id n (denies id' ∷ cs) e p =
    calls-count (deny f id') id (if id' == id then n - 1 else n) cs (deny-count f id' id n p.0 e)
      p.1

pub filter-sync :
    (f : SyncFilter) (msg : Msg)
    → msg.msg_type ≡ msg_type_sync
    → filter f msg ≡ is_none (lookup msg.msg_data f)
unfolding filter
filter-sync f msg t = elim (Option-cases (lookup msg.msg_data f)) [
  | inl e ↦ rw (t, e, filter) refl
  | inr (z, e) ↦ rw (t, e, filter) refl
]

is_none-count : (n : ℕ) → is_none (count n) ≡ (n == 0)
is_none-count zero = refl
is_none-count (suc n) = ground arith

-- An allowed id is not filtered out.
pub filter-allow :
    (f : SyncFilter) (msg : Msg)
    → msg.msg_type ≡ msg_type_sync
    → filter (allow f msg.msg_data) msg ≡ false
unfolding allow
filter-allow f msg t =
    rw
      (
        filter-sync (insert msg.msg_data (increment (expecting f msg.msg_data)) f) msg t,
        lookup-insert msg.msg_data msg.msg_data (increment (expecting f msg.msg_data)) f,
        beq_refl msg.msg_data,
      )
      refl

-- If each `Deny` of a content id reverses an `Allow`, then a synchronisation message for it is
-- filtered out exactly if no allowance is open, whatever is called for other ids.
pub filter-calls :
    (cs : List Call) (msg : Msg)
    → IsPaired 0 msg.msg_data cs
    → msg.msg_type ≡ msg_type_sync
    → filter (calls new_sync_filter cs) msg ≡ (open_calls 0 msg.msg_data cs == 0)
filter-calls cs msg p t =
    rw
      (
        filter-sync (calls new_sync_filter cs) msg t,
        calls-count new_sync_filter msg.msg_data 0 cs (empty msg.msg_data) p,
      )
      (is_none-count (open_calls 0 msg.msg_data cs))

-- A `Deny` of an id that nothing allowed makes the filter let its synchronisation messages through.
pub filter-deny_unallowed :
    (f : SyncFilter) (msg : Msg)
    → lookup msg.msg_data f ≡ none
    → msg.msg_type ≡ msg_type_sync
    → (filter f msg ≡ true) × (filter (deny f msg.msg_data) msg ≡ false)
filter-deny_unallowed f msg e t =
    let d = deny-more f msg.msg_data 0 (expecting-count f msg.msg_data 0 e) (omega arith) in
    (
      rw (filter-sync f msg t, e) refl,
      rw
          (
            filter-sync (deny f msg.msg_data) msg t,
            d,
            lookup-insert msg.msg_data msg.msg_data (decrement (pos 0)) f,
            beq_refl msg.msg_data,
          )
          refl,
    )
