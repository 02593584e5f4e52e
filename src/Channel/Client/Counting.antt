-- ===== src/Channel/Client/Counting.antt =====
-- Sequences of `Bind` and `Unbind` of channel/client.go, the bindings that they leave, and `IsBound`.
use aw.Base.{
  ℕ, ◌+◌, ◌-◌, ◌%◌, ◌^◌, ◌<◌, ◌≡◌, refl, ◌∙◌, ◌⊎◌, inl, inr, true, false, none, some, List, [], ◌∷◌,
  arith, if◌then◌else◌, Bool-cases, Option-cases, ◌==◌, nat_Eq, bytes_Eq, length, beq_refl, beq-eq,
  Bool, suc, sym,
}
use aw.Base.Arrays.{Bytes_Eq}
use aw.Base.Maps.{lookup, lookup-insert, lookup-delete, insert}
use aw.Dht.Distance.{Signatory}
use aw.Channel.Client.{SharedChannel, Client, bind, unbind, is_bound, kill}

pub data Call : Type 0 where
  binds : Signatory → Call
  unbinds : Signatory → Call

abbrev pub calls : Client → List Call → Client
calls client [] = client
calls client (binds r ∷ cs) = calls (bind client r) cs
calls client (unbinds r ∷ cs) = calls (unbind client r).0 cs

-- The bindings of a peer: `Unbind` without one does nothing.
abbrev pub bindings : ℕ → Signatory → List Call → ℕ
bindings n r [] = n
bindings n r (binds r' ∷ cs) = bindings (if r' == r then n + 1 else n) r cs
bindings n r (unbinds r' ∷ cs) = bindings (if r' == r then n - 1 else n) r cs

abbrev pub Counts : Client → Signatory → ℕ → Type 0
Counts client r n =
    ((n ≡ 0) × (lookup r client ≡ none))
    ⊎ ((shared : SharedChannel) × (lookup r client ≡ some shared) × (shared.rc ≡ n) × (0 < n))

other :
    (client after : Client) (r : Signatory) (n : ℕ)
    → lookup r after ≡ lookup r client
    → Counts client r n
    → Counts after r n
other client after r n e (inl (z, q)) = inl (z, e ∙ q)
other client after r n e (inr (s, q, c, p)) = inr (s, e ∙ q, c, p)

bind-other :
    (client : Client) (r' r : Signatory)
    → (r' == r) ≡ false
    → lookup r (bind client r') ≡ lookup r client
unfolding bind
bind-other client r' r q = elim (Option-cases (lookup r' client)) [
  | inl e ↦
      rw (e, bind)
        (rw (lookup-insert r' r (record { rc = 1; cancelled = false; outbound = [] }) client, q)
          refl)
  | inr (s, e) ↦
      rw (e, bind) (rw (lookup-insert r' r (record s { rc = (s.rc + 1) % 2 ^ 64 }) client, q) refl)
]

bind-same :
    (client : Client) (r : Signatory) (n : ℕ)
    → n + 1 < 2 ^ 64
    → Counts client r n
    → Counts (bind client r) r (n + 1)
unfolding bind
bind-same client r n h (inl (z, e)) = inr (
  record { rc = 1; cancelled = false; outbound = [] },
  rw (e, bind)
      (rw
        (lookup-insert r r (record { rc = 1; cancelled = false; outbound = [] }) client, beq_refl r)
        refl),
  omega arith,
  omega arith,
)
bind-same client r n h (inr (s, e, c, p)) = inr (
  record s { rc = (s.rc + 1) % 2 ^ 64 },
  rw (e, bind)
      (rw (lookup-insert r r (record s { rc = (s.rc + 1) % 2 ^ 64 }) client, beq_refl r) refl),
  omega arith,
  omega arith,
)

unbind-other :
    (client : Client) (r' r : Signatory)
    → (r' == r) ≡ false
    → lookup r (unbind client r').0 ≡ lookup r client
unfolding unbind
unbind-other client r' r q = elim (Option-cases (lookup r' client)) [
  | inl e ↦ rw (e, unbind) refl
  | inr (s, e) ↦ elim (Bool-cases ((s.rc + (2 ^ 64 - 1)) % 2 ^ 64 == 0)) [
    | inl b ↦ rw (e, unbind) (rw (b, unbind) (rw (lookup-delete r' r client, q) refl))
    | inr b ↦
        rw (e, unbind)
          (rw (b, unbind)
            (rw (lookup-insert r' r (record s { rc = (s.rc + (2 ^ 64 - 1)) % 2 ^ 64 }) client, q)
              refl))
  ]
]

unbind-same :
    (client : Client) (r : Signatory) (n : ℕ)
    → n < 2 ^ 64
    → Counts client r n
    → Counts (unbind client r).0 r (n - 1)
unfolding unbind
unbind-same client r n h (inl (z, e)) = inl (omega arith, rw (e, unbind) e)
unbind-same client r n h (inr (s, e, c, p)) =
    elim (Bool-cases ((s.rc + (2 ^ 64 - 1)) % 2 ^ 64 == 0)) [
      | inl b ↦ inl (
        ground (arith, b, c),
        rw (e, unbind) (rw (b, unbind) (rw (lookup-delete r r client, beq_refl r) refl)),
      )
      | inr b ↦ inr (
        record s { rc = (s.rc + (2 ^ 64 - 1)) % 2 ^ 64 },
        rw (e, unbind)
            (rw (b, unbind)
              (rw
                (
                  lookup-insert r r (record s { rc = (s.rc + (2 ^ 64 - 1)) % 2 ^ 64 }) client,
                  beq_refl r,
                )
                refl)),
        omega arith,
        ground (arith, b, c),
      )
    ]

pub bind-Counts :
    (client : Client) (r' r : Signatory) (n : ℕ)
    → n + 1 < 2 ^ 64
    → Counts client r n
    → Counts (bind client r') r (if r' == r then n + 1 else n)
bind-Counts client r' r n h c = elim (Bool-cases (r' == r)) [
  | inl q ↦ rw q (rw (beq-eq r' r q) (bind-same client r n h c))
  | inr q ↦ rw q (other client (bind client r') r n (bind-other client r' r q) c)
]

pub unbind-Counts :
    (client : Client) (r' r : Signatory) (n : ℕ)
    → n < 2 ^ 64
    → Counts client r n
    → Counts (unbind client r').0 r (if r' == r then n - 1 else n)
unbind-Counts client r' r n h c = elim (Bool-cases (r' == r)) [
  | inl q ↦ rw q (rw (beq-eq r' r q) (unbind-same client r n h c))
  | inr q ↦ rw q (other client (unbind client r').0 r n (unbind-other client r' r q) c)
]

killed-Counts :
    (client after : Client) (r : Signatory) (n : ℕ) (s : SharedChannel)
    → lookup r client ≡ some s
    → lookup r after ≡ some (record s { cancelled = true })
    → Counts client r n
    → Counts after r n
killed-Counts client after r n s e e' (inl (z, q)) = cc (sym q ∙ e)
killed-Counts client after r n s e e' (inr (s', q, c, p)) =
    let same : s' ≡ s = cc (sym q ∙ e) in
    inr (record s { cancelled = true }, e', rw (sym same) c, p)

-- Killing a channel leaves its references.
pub kill-Counts :
    (client : Client) (r' r : Signatory) (n : ℕ) → Counts client r n → Counts (kill client r') r n
unfolding kill
kill-Counts client r' r n c = elim (Option-cases (lookup r' client)) [
  | inl e ↦ rw (e, kill) c
  | inr (s, e) ↦
      let l = lookup-insert r' r (record s { cancelled = true }) client in
      elim (Bool-cases (r' == r)) [
        | inl q ↦
            rw (e, kill)
              (killed-Counts client (insert r' (record s { cancelled = true }) client) r n s
                (rw (beq-eq r' r q) at e) (l ∙ rw q refl) c)
        | inr q ↦
            rw (e, kill)
              (other client (insert r' (record s { cancelled = true }) client) r n (l ∙ rw q refl)
                c)
      ]
]

grows : (b : Bool) (n k : ℕ) → n + suc k < 2 ^ 64 → (if b then n + 1 else n) + k < 2 ^ 64
grows b n k h = ground arith

shrinks : (b : Bool) (n k : ℕ) → n + suc k < 2 ^ 64 → (if b then n - 1 else n) + k < 2 ^ 64
shrinks b n k h = ground arith

calls-Counts :
    (client : Client) (r : Signatory) (n : ℕ) (cs : List Call)
    → n + length cs < 2 ^ 64
    → Counts client r n
    → Counts (calls client cs) r (bindings n r cs)
calls-Counts client r n [] h c = c
calls-Counts client r n (binds r' ∷ cs) h c =
    calls-Counts (bind client r') r (if r' == r then n + 1 else n) cs
      (grows (r' == r) n (length cs) h) (bind-Counts client r' r n (omega arith) c)
calls-Counts client r n (unbinds r' ∷ cs) h c =
    calls-Counts (unbind client r').0 r (if r' == r then n - 1 else n) cs
      (shrinks (r' == r) n (length cs) h) (unbind-Counts client r' r n (omega arith) c)

-- What `IsBound` says of a peer with `n` bindings.
pub is_bound-Counts :
    (client : Client) (r : Signatory) (n : ℕ)
    → Counts client r n
    → is_bound client r ≡ (if n == 0 then none else some true)
unfolding is_bound
is_bound-Counts client r n (inl (z, e)) = rw (e, is_bound) (rw z refl)
is_bound-Counts client r n (inr (s, e, c, p)) = rw (e, is_bound) (rw c (ground arith))

-- After any calls (fewer than 2 ^ 64) a peer with bindings left is bound, and `IsBound` of any other
-- peer reads a nil pointer: it panics where it means to answer false.
pub is_bound-calls :
    (cs : List Call) (r : Signatory)
    → length cs < 2 ^ 64
    → is_bound (calls [] cs) r ≡ (if bindings 0 r cs == 0 then none else some true)
unfolding lookup
is_bound-calls cs r h =
    is_bound-Counts (calls [] cs) r (bindings 0 r cs)
      (calls-Counts [] r 0 cs (omega arith) (inl (refl, refl)))
