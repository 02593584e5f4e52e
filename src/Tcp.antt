-- ===== src/Tcp.antt =====
-- The package tcp, tcp/tcp.go: accepting connections under a policy, and dialling until one attempt
-- succeeds. The network is the list of what happens: what `Accept`, a handler or a dialler does next.
pub mod Leak
pub mod Dialling
mod Examples
use aw.Base.{
  ℕ, zero, suc, ◌+◌, ◌-◌, ◌*◌, ◌/◌, ◌%◌, ◌^◌, ◌≤◌, ◌<◌, ◌≡◌, refl, sym, ap, ◌∙◌, ◌≢◌, ◌↔◌, ◌⊎◌, inl,
  inr, Bool, true, false, not, ◌&&◌, ◌||◌, Option, none, some, List, [], ◌∷◌, ◌++◌, arith, ltb, leb,
  if◌then◌else◌, Bool-cases, Option-cases, Eq, ◌==◌, nat_Eq, bytes_Eq, length, take, drop,
  get_elem?, All, beq_refl, beq-eq,
}
use aw.Sorting.Ordered.{remove_at}
use aw.Policy.{Outcome, Allow}

-- A listener at work: the state of the policy, the clean-up of each connection that is being handled,
-- the latest first, and how often `handleErr` was called.
pub record Server (S : Type 0) : Type 0 where
  pub policy : S
  pub handling : List (Option (S → S))
  pub errors : ℕ

pub data Event (C : Type 0) : Type 0 where
  accepts : C → Event C
  accept_fails : Event C
  finishes : ℕ → Event C

module _ {S : Type 0} where
  -- The handler of one of the connections returns: its clean-up runs, and then it is closed.
  unfoldable pub finish : ℕ → Server S → Server S
  finish i server = elim (get_elem? server.handling i) [
    | none ↦ server
    | some none ↦ record server { handling = remove_at i server.handling }
    | some (some cleanup) ↦ record server {
      policy = cleanup server.policy;
      handling = remove_at i server.handling;
    }
  ]

module _ {Conn S : Type 0} where
  -- A connection was accepted. It is handled by a goroutine of its own, or closed: the clean-up that
  -- comes with an error is not called.
  unfoldable pub accept : Option (Allow Conn S) → Conn → Server S → Server S
  accept none conn server = record server { handling = none ∷ server.handling }
  accept (some allow) conn server =
      let o = allow conn server.policy in
      elim o.error [
        | none ↦ record server { policy = o.state; handling = o.cleanup ∷ server.handling }
        | some e ↦ record server { policy = o.state }
      ]

  -- The loop of `ListenWithListener` until the context is done.
  unfoldable pub listen : Option (Allow Conn S) → List (Event Conn) → Server S → Server S
  listen allow [] server = server
  listen allow (accepts conn ∷ events) server = listen allow events (accept allow conn server)
  listen allow (accept_fails ∷ events) server =
      listen allow events (record server { errors = server.errors + 1 })
  listen allow (finishes i ∷ events) server = listen allow events (finish i server)

-- What the network answers in one round of `Dial`: the context was done before it, the attempt failed
-- (and its time has run out), or there is a connection.
pub data Answer (Conn E : Type 0) : Type 0 where
  context_done : Answer Conn E
  fails : E → Answer Conn E
  connects : Conn → Answer Conn E

pub data DialResult (Conn : Type 0) : Type 0 where
  running : DialResult Conn
  cancelled : DialResult Conn
  handled : Conn → DialResult Conn

-- The time that each attempt was given, the errors passed to `handleErr`, and how it ended.
pub record DialRun (Conn E : Type 0) : Type 0 where
  pub timeouts : List ℕ
  pub errors : List E
  pub result : DialResult Conn

module _ {Conn E : Type 0} where
  unfoldable pub dial_loop : (ℕ → ℕ) → ℕ → List (Answer Conn E) → DialRun Conn E
  dial_loop timeout attempt [] = record { timeouts = []; errors = []; result = running }
  dial_loop timeout attempt (context_done ∷ answers) = record {
    timeouts = [];
    errors = [];
    result = cancelled;
  }
  dial_loop timeout attempt (fails e ∷ answers) =
      let rest = dial_loop timeout (attempt + 1) answers in
      record {
        timeouts = timeout attempt ∷ rest.timeouts;
        errors = e ∷ rest.errors;
        result = rest.result;
      }
  dial_loop timeout attempt (connects conn ∷ answers) = record {
    timeouts = timeout attempt ∷ [];
    errors = [];
    result = handled conn;
  }

  -- Attempts are counted from 1.
  unfoldable pub dial : (ℕ → ℕ) → List (Answer Conn E) → DialRun Conn E
  dial timeout answers = dial_loop timeout 1 answers
