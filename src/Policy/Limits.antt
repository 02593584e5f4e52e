-- ===== src/Policy/Limits.antt =====
-- `Max` and `RateLimit` of policy/allow.go, and `MaxTimeout` of policy/timeout.go.
use aw.Base.{
  ℕ, suc, ◌/◌, ◌≤◌, ◌<◌, ◌≡◌, refl, ap, ◌∙◌, inl, inr, ◌||◌, Option, none, some, List, [], ◌∷◌,
  ◌++◌, arith, Bool-cases, Option-cases, ◌==◌, nat_Eq, bytes_Eq, length, All, beq-eq, map, min,
}
use aw.Base.Int.{ℤ, pos, increment, decrement, ltb_ℤ, decrement-increment}
use aw.Base.Maps.{lookup, insert, length-insert, lookup-insert}
use aw.Dht.Table.{is_some}
use aw.Sorting.Ordered.{contains}
use aw.Policy.{max_locked, max, Limiter, Rates, rate_limit, max_timeout, rate_limit_init}
use aw.Policy.Compose.{IsReversible}

-- The clean-up of `Max` gives the place back.
pub max-IsReversible : {Conn : Type 0} (max_conns : ℤ) → IsReversible {Conn = Conn} (max max_conns)
unfolding max
max-IsReversible max_conns conn conns = ground (arith, decrement-increment conns)

-- The server at work: the counter of `Max`, and for each connection that is kept alive the clean-up
-- that `Max` returned for it, the latest first. Any number of goroutines take these steps, each under
-- the write lock; what the first check read does not matter.
pub record Server : Type 0 where
  pub conns : ℤ
  pub alive : List (Option (ℤ → ℤ))

-- The clean-up of a connection that ends; a nil clean-up is not called.
unfoldable pub clean_up : Option (ℤ → ℤ) → ℤ → ℤ
clean_up none conns = conns
clean_up (some f) conns = f conns

pub data MaxStep (max_conns : ℤ) (s t : Server) : Type 0 where
  enters :
      (max_locked max_conns s.conns).error ≡ none
      → t ≡ record {
        conns = (max_locked max_conns s.conns).state;
        alive = (max_locked max_conns s.conns).cleanup ∷ s.alive;
      }
      → MaxStep max_conns s t
  is_refused :
      {e : List ℕ}
      → (max_locked max_conns s.conns).error ≡ some e
      → t ≡ record { conns = (max_locked max_conns s.conns).state; alive = s.alive }
      → MaxStep max_conns s t
  leaves :
      (before after : List (Option (ℤ → ℤ))) (f : Option (ℤ → ℤ))
      → s.alive ≡ before ++ (f ∷ after)
      → t ≡ record { conns = clean_up f s.conns; alive = before ++ after }
      → MaxStep max_conns s t

pub data MaxReach (max_conns : ℤ) : Server → Type 0 where
  start : MaxReach max_conns (record { conns = pos 0; alive = [] })
  later : {s t : Server} → MaxReach max_conns s → MaxStep max_conns s t → MaxReach max_conns t

-- The clean-up of every connection takes one from the counter.
abbrev Counts : ℕ → Server → Type 0
Counts limit s =
    (s.conns ≡ pos (length s.alive))
    × (length s.alive ≤ limit)
    × All (λ f. (n : ℕ) → clean_up f (pos (suc n)) ≡ pos n) s.alive

below : (limit a : ℕ) → (max_locked (pos limit) (pos a)).error ≡ none → a < limit
unfolding max_locked ltb_ℤ
below limit a e = ground arith

room :
    (limit a : ℕ)
    → (max_locked (pos limit) (pos a)).error ≡ none
    → (max_locked (pos limit) (pos a)).state ≡ pos (suc a)
unfolding max_locked ltb_ℤ increment
room limit a e = ground arith

no_room :
    (limit a : ℕ) {x : List ℕ}
    → (max_locked (pos limit) (pos a)).error ≡ some x
    → (max_locked (pos limit) (pos a)).state ≡ pos a
unfolding max_locked ltb_ℤ increment
no_room limit a e = ground arith

given_back :
    (limit a : ℕ)
    → (max_locked (pos limit) (pos a)).error ≡ none
    → (n : ℕ) → clean_up (max_locked (pos limit) (pos a)).cleanup (pos (suc n)) ≡ pos n
unfolding max_locked ltb_ℤ clean_up decrement
given_back limit a e n = ground arith

All-middle {ℓ} :
    {A : Type 0} (P : A → Type ℓ) (xs : List A) (y : A) (ys : List A)
    → All P (xs ++ (y ∷ ys))
    → P y × All P (xs ++ ys)
All-middle P [] y ys h = h
All-middle P (x ∷ xs) y ys h = let (p, q) = All-middle P xs y ys h.1 in (p, (h.0, q))

length-middle {ℓ} :
    {A : Type ℓ} (xs : List A) (y : A) (ys : List A)
    → length (xs ++ (y ∷ ys)) ≡ suc (length (xs ++ ys))
length-middle [] y ys = refl
length-middle (x ∷ xs) y ys = ap suc (length-middle xs y ys)

MaxStep-Counts :
    (limit : ℕ) {s t : Server} → MaxStep (pos limit) s t → Counts limit s → Counts limit t
MaxStep-Counts limit {s} {t} (enters p e) (c, b, g) =
    let p' : (max_locked (pos limit) (pos (length s.alive))).error ≡ none = rw c at p in
    rw (e, c)
      (
        room limit (length s.alive) p',
        below limit (length s.alive) p',
        (given_back limit (length s.alive) p', g),
      )
MaxStep-Counts limit {s} {t} (is_refused p e) (c, b, g) =
    rw (e, c) (no_room limit (length s.alive) (rw c at p), b, g)
MaxStep-Counts limit {s} {t} (leaves before after f p e) (c, b, g) =
    let n = length (before ++ after) in
    let l : length s.alive ≡ suc n = ap length p ∙ length-middle before f after in
    let (q, r) =
      All-middle (λ f. (n : ℕ) → clean_up f (pos (suc n)) ≡ pos n) before f after (rw p at g) in
    rw (e, c, l) (q n, omega (arith, l, b), r)

MaxReach-holds : (limit : ℕ) {s : Server} → MaxReach (pos limit) s → Counts limit s
MaxReach-holds limit start = (refl, omega arith, tt)
MaxReach-holds limit (later r st) = MaxStep-Counts limit st (MaxReach-holds limit r)

-- However the calls of `Max` and of the clean-ups that it returned are interleaved, each clean-up
-- called once and in whatever order, the counter is the number of connections kept alive, and never
-- passes the limit.
pub MaxReach-Counts :
    (limit : ℕ) {s : Server}
    → MaxReach (pos limit) s
    → (s.conns ≡ pos (length s.alive)) × (length s.alive ≤ limit)
MaxReach-Counts limit r = let (c, b, g) = MaxReach-holds limit r in (c, b)

nothing {ℓ} : {A : Type ℓ} (xs : List A) → length xs ≡ 0 → xs ≡ []
nothing [] e = refl
nothing (x ∷ xs) e = absurd (omega arith)

module _ (l : Limiter) where
  abbrev IsWithin : Rates l → Type 0
  IsWithin r = (length r.front ≤ r.cap) × (length r.back ≤ r.cap)

  rate_limit-IsWithin :
      (r : Rates l) (addr : List ℕ) (now : ℕ)
      → 0 < r.cap
      → IsWithin r
      → IsWithin (rate_limit l (addr, now) r).state
  unfolding rate_limit insert
  rate_limit-IsWithin r addr now h v = elim (Option-cases (lookup addr r.front)) [
    | inr (x, e) ↦
        rw (e, rate_limit)
          (omega (arith, v.0, rw e at (length-insert addr (l.allow x now).1 r.front)), v.1)
    | inl e ↦ elim (Option-cases (lookup addr r.back)) [
      | inr (x, e') ↦
          rw (e, e', rate_limit)
            (v.0, omega (arith, v.1, rw e' at (length-insert addr (l.allow x now).1 r.back)))
      | inl e' ↦ elim (Bool-cases (length r.front == r.cap)) [
        | inl full ↦
            rw (e, e', full, rate_limit)
              (omega (arith, length-insert addr (l.allow l.fresh now).1 []), v.0)
        | inr room ↦
            rw (e, e', room, rate_limit)
              (
                ground (
                  arith,
                  v.0,
                  rw e at (length-insert addr (l.allow l.fresh now).1 r.front),
                  room,
                ),
                v.1,
              )
      ]
    ]
  ]

  rate_limit-cap :
      (r : Rates l) (addr : List ℕ) (now : ℕ) → (rate_limit l (addr, now) r).state.cap ≡ r.cap
  unfolding rate_limit
  rate_limit-cap r addr now = elim (Option-cases (lookup addr r.front)) [
    | inr (x, e) ↦ rw (e, rate_limit) refl
    | inl e ↦ elim (Option-cases (lookup addr r.back)) [
      | inr (x, e') ↦ rw (e, e', rate_limit) refl
      | inl e' ↦ elim (Bool-cases (length r.front == r.cap)) [
        | inl full ↦ rw (e, e', full, rate_limit) refl
        | inr room ↦ rw (e, e', room, rate_limit) refl
      ]
    ]
  ]

  -- The limiter after the attempts of a list, in their order.
  unfoldable pub rate_limits : List (List ℕ × ℕ) → Rates l → Rates l
  rate_limits [] r = r
  rate_limits (x ∷ xs) r = rate_limits xs (rate_limit l x r).state

  rate_limits-within :
      (xs : List (List ℕ × ℕ)) (r : Rates l) (n : ℕ)
      → 0 < n
      → r.cap ≡ n
      → IsWithin r
      → (length (rate_limits xs r).front ≤ n) × (length (rate_limits xs r).back ≤ n)
  unfolding rate_limits
  rate_limits-within [] r n h c (f, b) = (omega (arith, f, c), omega (arith, b, c))
  rate_limits-within ((addr, now) ∷ xs) r n h c v =
      rate_limits-within xs (rate_limit l (addr, now) r).state n h (rate_limit-cap r addr now ∙ c)
        (rate_limit-IsWithin r addr now (omega (arith, h, c)) v)

  -- A `RateLimit` that is given a capacity of at least 2 keeps, after any attempts from any addresses,
  -- at most half the capacity in each of its two maps.
  pub rate_limits-bounded :
      (cap : ℕ) (xs : List (List ℕ × ℕ))
      → 2 ≤ cap
      → (length (rate_limits xs (rate_limit_init l cap)).front ≤ cap / 2)
        × (length (rate_limits xs (rate_limit_init l cap)).back ≤ cap / 2)
  unfolding rate_limit_init
  rate_limits-bounded cap xs h =
      rate_limits-within xs (rate_limit_init l cap) (cap / 2) (omega arith) refl
        (omega arith, omega arith)

  -- A limiter whose halved capacity is 0, and which has never moved its front to the back.
  abbrev IsStuck : Rates l → Type 0
  IsStuck r = (r.cap ≡ 0) × (r.back ≡ [])

  rate_limit-IsStuck :
      (r : Rates l) (addr : List ℕ) (now : ℕ)
      → IsStuck r
      → IsStuck (rate_limit l (addr, now) r).state
        × ((x : l.State) × ((rate_limit l (addr, now) r).state.front ≡ insert addr x r.front))
  unfolding rate_limit lookup
  rate_limit-IsStuck r addr now (c, b) = elim (Option-cases (lookup addr r.front)) [
    | inr (x, e) ↦ rw (e, rate_limit) ((c, b), ((l.allow x now).1, refl))
    | inl e ↦ elim (Bool-cases (length r.front == r.cap)) [
      | inl full ↦
          let z : r.front ≡ [] =
            nothing r.front (omega (arith, beq-eq (length r.front) r.cap full, c)) in
          rw (e, b, full, rate_limit) ((c, z), ((l.allow l.fresh now).1, rw z refl))
      | inr room ↦ rw (e, b, room, rate_limit) ((c, b), ((l.allow l.fresh now).1, refl))
    ]
  ]

  rate_limits-known :
      (xs : List (List ℕ × ℕ)) (r : Rates l) (a : List ℕ)
      → IsStuck r
      → is_some (lookup a (rate_limits xs r).front)
        ≡ (contains a (map (λ x. x.0) xs) || is_some (lookup a r.front))
  unfolding rate_limits contains
  rate_limits-known [] r a s = refl
  rate_limits-known ((addr, now) ∷ xs) r a s =
      let (s', (x, e)) = rate_limit-IsStuck r addr now s in
      rate_limits-known xs (rate_limit l (addr, now) r).state a s'
      ∙ rw e (
          ground (
            arith,
            lookup-insert addr a x r.front,
            bytes_Eq.beq_iff addr a,
            bytes_Eq.beq_iff a addr,
          ))

  -- A `RateLimit` that is given a capacity below 2 never forgets an address: after any attempts, its
  -- front map holds exactly the addresses of all of them.
  pub rate_limits_grow :
      (cap : ℕ) (xs : List (List ℕ × ℕ)) (a : List ℕ)
      → cap < 2
      → is_some (lookup a (rate_limits xs (rate_limit_init l cap)).front)
        ≡ contains a (map (λ x. x.0) xs)
  unfolding rate_limit_init lookup
  rate_limits_grow cap xs a h =
      rate_limits-known xs (rate_limit_init l cap) a (omega arith, refl) ∙ ground arith

-- `MaxTimeout` is the smaller of the two durations.
pub max_timeout-min :
    (duration : ℕ) (timeout : ℕ → ℕ) (attempt : ℕ)
    → max_timeout duration timeout attempt ≡ min duration (timeout attempt)
unfolding max_timeout
max_timeout-min duration timeout attempt = ground arith
