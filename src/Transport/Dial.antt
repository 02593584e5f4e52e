-- ===== src/Transport/Dial.antt =====
-- `dial` of transport/transport.go: rounds of dialling, until one is handled, its peer has expired, or
-- nobody waits for it any more. `tcp.Dial` and the connection's handler are in module Tcp and
-- `serve_dialled`; here a round is what they report.
pub mod Rounds
mod Examples
use aw.Base.{
  ℕ, zero, suc, ◌+◌, ◌-◌, ◌*◌, ◌/◌, ◌%◌, ◌^◌, ◌≤◌, ◌<◌, ◌≡◌, refl, sym, ap, ◌∙◌, ◌≢◌, ◌↔◌, ◌⊎◌, inl,
  inr, Bool, true, false, not, ◌&&◌, ◌||◌, Option, none, some, List, [], ◌∷◌, ◌++◌, arith, ltb, leb,
  if◌then◌else◌, Bool-cases, Option-cases, Eq, ◌==◌, nat_Eq, bytes_Eq, length, take, drop,
  get_elem?, All, beq_refl, beq-eq,
}
use aw.Dht.Distance.{Signatory}
use aw.Dht.Table.{InMemTable, add_expiry, handle_expired, delete_expiry}
use aw.Wire.Address.{Address, tcp}

-- The case that `select` takes after a round that failed. `exit` and `retry_done` return; the dial
-- context is done in the third, with what `IsConnected` says.
pub data Selected : Type 0 where
  exit : Selected
  retry_done : Selected
  dial_done : Bool → Selected

pub data Ending : Type 0 where
  handled : Ending
  fails : Selected → Ending

-- A failed attempt: what other goroutines did to the table before `AddExpiry`, and between it and
-- `HandleExpired`, and the times at which these two read the clock.
pub record Failure : Type 0 where
  pub before : InMemTable → InMemTable
  pub added_at : ℕ
  pub between : InMemTable → InMemTable
  pub handled_at : ℕ

-- One round: its failed attempts, what other goroutines did to the table after the last of them, and
-- how it ended.
pub record Round : Type 0 where
  pub failures : List Failure
  pub others : InMemTable → InMemTable
  pub ending : Ending

pub record DialState : Type 0 where
  pub table : InMemTable
  pub exit_closed : Bool

-- The handler of a failed attempt. `none` is Go's panic at closing a channel that is closed.
unfoldable pub handle_failure : ℕ → Signatory → DialState → Failure → Option DialState
handle_failure expiry_duration remote s f =
    let (table, expired) =
      handle_expired (f.between (add_expiry (f.before s.table) remote expiry_duration f.added_at))
        remote f.handled_at in
    if expired
    then (if s.exit_closed then none else some (record { table = table; exit_closed = true }))
    else some (record { table = table; exit_closed = s.exit_closed })

unfoldable pub handle_failures : ℕ → Signatory → DialState → List Failure → Option DialState
handle_failures expiry_duration remote s [] = some s
handle_failures expiry_duration remote s (f ∷ fs) =
    elim (handle_failure expiry_duration remote s f) [
      | none ↦ none
      | some s' ↦ handle_failures expiry_duration remote s' fs
    ]

pub data DialResult : Type 0 where
  panics : DialResult
  returns : InMemTable → DialResult
  goes_on : DialState → DialResult

unfoldable pub end_round : Signatory → Ending → DialState → DialResult
end_round remote handled s = returns (delete_expiry s.table remote)
end_round remote (fails exit) s = returns s.table
end_round remote (fails retry_done) s = returns s.table
end_round remote (fails (dial_done true)) s = returns s.table
end_round remote (fails (dial_done false)) s = goes_on s

unfoldable pub after_failures : Signatory → Round → Option DialState → DialResult
after_failures remote r none = panics
after_failures remote r (some s) = end_round remote r.ending (record s { table = r.others s.table })

unfoldable pub dial_round : ℕ → Signatory → DialState → Round → DialResult
dial_round expiry_duration remote s r =
    after_failures remote r (handle_failures expiry_duration remote s r.failures)

-- `continue`, or leave the loop.
unfoldable pub then_rounds : DialResult → (DialState → DialResult) → DialResult
then_rounds panics next = panics
then_rounds (returns table) next = returns table
then_rounds (goes_on s) next = next s

unfoldable pub dial_rounds : ℕ → Signatory → DialState → List Round → DialResult
dial_rounds expiry_duration remote s [] = goes_on s
dial_rounds expiry_duration remote s (r ∷ rs) =
    then_rounds (dial_round expiry_duration remote s r)
      (λ s'. dial_rounds expiry_duration remote s' rs)

-- The first rounds of `dial`.
unfoldable pub dial : ℕ → InMemTable → Signatory → Address → List Round → DialResult
dial expiry_duration table remote addr rs =
    if addr.protocol == tcp
    then dial_rounds expiry_duration remote (record { table = table; exit_closed = false }) rs
    else returns table
