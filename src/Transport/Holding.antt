-- ===== src/Transport/Holding.antt =====
-- The transport at work: its links, the goroutines that hold a binding, and those whose connection is
-- attached. They take their steps in any order.
pub mod Tally
pub mod Views
pub mod Refinement
mod Examples
use aw.Base.{
  ℕ, zero, suc, ◌+◌, ◌-◌, ◌*◌, ◌/◌, ◌%◌, ◌^◌, ◌≤◌, ◌<◌, ◌≡◌, refl, sym, ap, ◌∙◌, ◌≢◌, ◌↔◌, ◌⊎◌, inl,
  inr, Bool, true, false, not, ◌&&◌, ◌||◌, Option, none, some, List, [], ◌∷◌, ◌++◌, arith, ltb, leb,
  if◌then◌else◌, Bool-cases, Option-cases, Eq, ◌==◌, nat_Eq, bytes_Eq, length, take, drop,
  get_elem?, All, beq_refl, beq-eq,
}
use aw.Channel.Client.{kill}
use aw.Dht.Distance.{Signatory}
use aw.Sorting.Ordered.{remove_at}
use aw.Transport.{Transport, link, unlink, bind_client, unbind_client, connect, disconnect}

-- `holding` are the peers of the goroutines that will call `Unbind` when they end (a `Send` that dials
-- without a link, an accepted connection without a link), `attached` those of the goroutines between
-- `connect` and `disconnect`.
pub record System : Type 0 where
  pub transport : Transport
  pub holding : List Signatory
  pub attached : List Signatory

pub data Action : Type 0 where
  links : Signatory → Action
  unlinks : Signatory → Action
  holds : Signatory → Action
  releases : ℕ → Action
  attaches : Signatory → Action
  detaches : ℕ → Action
  kills : Signatory → Action

unfoldable pub release : System → ℕ → Option Signatory → System
release s i none = s
release s i (some r) = record s {
  transport = unbind_client s.transport r;
  holding = remove_at i s.holding;
}

unfoldable pub detach : System → ℕ → Option Signatory → System
detach s i none = s
detach s i (some r) = record s {
  transport = disconnect s.transport r;
  attached = remove_at i s.attached;
}

-- The goroutine at the index `i` ends; there is none beyond the last.
unfoldable pub act : System → Action → System
act s (links r) = record s { transport = link s.transport r }
act s (unlinks r) = record s { transport = unlink s.transport r }
act s (holds r) = record s { transport = bind_client s.transport r; holding = r ∷ s.holding }
act s (releases i) = release s i (get_elem? s.holding i)
act s (attaches r) = record s { transport = connect s.transport r; attached = r ∷ s.attached }
act s (detaches i) = detach s i (get_elem? s.attached i)
act s (kills r) = record s { transport = record s.transport { client = kill s.transport.client r } }

unfoldable pub acts : System → List Action → System
acts s [] = s
acts s (a ∷ as') = acts (act s a) as'
