-- ===== src/Policy.antt =====
-- The package policy: the connection policies of policy/allow.go and the timeouts of
-- policy/timeout.go. An `Allow` closes over variables: they are the state `S`, which a call and a
-- clean-up pass on. An error is the text that it prints.
pub mod Compose
pub mod Limits
mod Examples
use Prim.Native.Char.{code}
use Prim.Native.String.{String}
use aw.Base.{
  ℕ, zero, suc, ◌+◌, ◌-◌, ◌*◌, ◌/◌, ◌%◌, ◌^◌, ◌≤◌, ◌<◌, ◌≡◌, refl, sym, ap, ◌∙◌, ◌≢◌, ◌↔◌, ◌⊎◌, inl,
  inr, Bool, true, false, not, ◌&&◌, ◌||◌, Option, none, some, List, [], ◌∷◌, ◌++◌, arith, ltb, leb,
  if◌then◌else◌, Bool-cases, Option-cases, Eq, ◌==◌, nat_Eq, bytes_Eq, length, take, drop,
  get_elem?, All, beq_refl, beq-eq,
}
use aw.Base.Int.{ℤ, pos, negsuc, increment, decrement, ltb_ℤ}
use aw.Base.Maps.{Map, lookup, insert}

-- The bytes of an ASCII text.
abbrev pub codes : String → List ℕ
codes String.[] = []
codes (String.◌∷◌ c s) = code c ∷ codes s

abbrev pub err_rate_limited : List ℕ
err_rate_limited = codes "rate limited"

abbrev pub err_max_connections_exceeded : List ℕ
err_max_connections_exceeded = codes "max connections exceeded"

-- What an `Allow` returns, and the state that it leaves; a nil clean-up is `none`.
pub record Outcome (S : Type 0) : Type 0 where
  pub error : Option (List ℕ)
  pub cleanup : Option (S → S)
  pub state : S

abbrev pub Allow : Type 0 → Type 0 → Type 0
Allow Conn S = Conn → S → Outcome S

abbrev pub is_none {ℓ} : {A : Type ℓ} → Option A → Bool
is_none none = true
is_none (some a) = false

-- `strings.Join(errs, ", ")`.
unfoldable pub join : List (List ℕ) → List ℕ
join [] = []
join (x ∷ []) = x
join (x ∷ y ∷ xs) = x ++ (codes ", " ++ join (y ∷ xs))

module _ {S : Type 0} where
  -- `cleanup = func() { cleanupF(); cleanupCopy() }`, if `cleanupF` is not nil.
  unfoldable pub prepend : Option (S → S) → (S → S) → S → S
  prepend none cleanup s = cleanup s
  prepend (some cleanup_f) cleanup s = cleanup (cleanup_f s)

module _ {Conn S : Type 0} where
  unfoldable pub all_loop : List (Allow Conn S) → Conn → S → (S → S) → Outcome S
  all_loop [] conn s cleanup = record { error = none; cleanup = some cleanup; state = s }
  all_loop (f ∷ fs) conn s cleanup =
      let o = f conn s in
      let cleanup' = prepend o.cleanup cleanup in
      let rest = all_loop fs conn o.state cleanup' in
      elim o.error [
        | some e ↦ record { error = some e; cleanup = some cleanup'; state = o.state }
        | none ↦ rest
      ]

  unfoldable pub all : List (Allow Conn S) → Allow Conn S
  all fs conn s = all_loop fs conn s (λ t. t)

  unfoldable pub any_loop :
      List (Allow Conn S) → Conn → S → (S → S) → Bool → List (List ℕ) → Outcome S
  any_loop [] conn s cleanup passed errs =
      if passed
      then record { error = none; cleanup = some cleanup; state = s }
      else record { error = some (join errs); cleanup = some cleanup; state = s }
  any_loop (f ∷ fs) conn s cleanup passed errs =
      let o = f conn s in
      let cleanup' = prepend o.cleanup cleanup in
      let passing = any_loop fs conn o.state cleanup' true errs in
      let failing = λ (e : List ℕ). any_loop fs conn o.state cleanup' passed (errs ++ (e ∷ [])) in
      elim o.error [ none ↦ passing | some e ↦ failing e ]

  unfoldable pub any : List (Allow Conn S) → Allow Conn S
  any fs conn s = any_loop fs conn s (λ t. t) false []

-- `Max`: the state is the number of connections kept alive. The first check reads it under the read
-- lock, the second reads and writes it under the write lock; in one call alone both see one value.
unfoldable pub max_locked : ℤ → ℤ → Outcome ℤ
max_locked max_conns conns =
    if ltb_ℤ conns max_conns
    then record { error = none; cleanup = some decrement; state = increment conns }
    else record { error = some err_max_connections_exceeded; cleanup = none; state = conns }

unfoldable pub max : {Conn : Type 0} → ℤ → Allow Conn ℤ
unfolding max_locked
max max_conns conn conns =
    if ltb_ℤ max_conns (pos 0)
    then record { error = none; cleanup = none; state = conns }
    else (if ltb_ℤ conns max_conns
        then max_locked max_conns conns
        else record { error = some err_max_connections_exceeded; cleanup = none; state = conns })

-- A limiter of golang.org/x/time/rate with its rate and burst: what `Allow` answers at a time, and
-- what it leaves of the limiter.
pub record Limiter : Type 1 where
  pub State : Type 0
  pub fresh : State
  pub allow : State → ℕ → Bool × State

module _ (l : Limiter) where
  -- The variables of `RateLimit`; `cap` is already halved. No address is in both maps.
  pub record Rates : Type 0 where
    pub cap : ℕ
    pub front : Map (List ℕ) l.State
    pub back : Map (List ℕ) l.State

  unfoldable pub rate_limit_init : ℕ → Rates
  rate_limit_init cap = record { cap = cap / 2; front = []; back = [] }

  -- `allow(limiter)` where the limiter's new state is stored by `store`.
  unfoldable pub allow_by : l.State → ℕ → (l.State → Rates) → Outcome Rates
  allow_by limiter now store =
      let (allowed, limiter') = l.allow limiter now in
      record {
        error = if allowed then none else some err_rate_limited;
        cleanup = none;
        state = store limiter';
      }

  -- A connection is its remote address, as `RateLimit` prints it, and the time of the attempt.
  unfoldable pub rate_limit : Allow (List ℕ × ℕ) Rates
  unfolding allow_by
  rate_limit (addr, now) r = elim (lookup addr r.front) [
    | some limiter ↦ allow_by limiter now (λ x. record r { front = insert addr x r.front })
    | none ↦ elim (lookup addr r.back) [
      | some limiter ↦ allow_by limiter now (λ x. record r { back = insert addr x r.back })
      | none ↦
          let r' = if length r.front == r.cap then record r { back = r.front; front = [] } else r in
          allow_by l.fresh now (λ x. record r' { front = insert addr x r'.front })
    ]
  ]

-- A timeout is a function of the attempt; durations are not negative.
unfoldable pub constant_timeout : ℕ → ℕ → ℕ
constant_timeout duration attempt = duration

unfoldable pub max_timeout : ℕ → (ℕ → ℕ) → ℕ → ℕ
max_timeout duration timeout attempt =
    let custom_timeout = timeout attempt in
    if ltb duration custom_timeout then duration else custom_timeout
