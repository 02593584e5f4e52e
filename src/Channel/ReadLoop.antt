-- ===== src/Channel/ReadLoop.antt =====
-- The loop of `read` in `readLoop` of channel/channel.go: what one attached reader does until it fails.
-- Its draining only sets a deadline on the connection, which shows as an error of the decoder.
pub mod Delivery
mod Examples
use aw.Base.{
  ℕ, zero, suc, ◌+◌, ◌-◌, ◌*◌, ◌/◌, ◌%◌, ◌^◌, ◌≤◌, ◌<◌, ◌≡◌, refl, sym, ap, ◌∙◌, ◌≢◌, ◌↔◌, ◌⊎◌, inl,
  inr, Bool, true, false, not, ◌&&◌, ◌||◌, Option, none, some, List, [], ◌∷◌, ◌++◌, arith, ltb, leb,
  if◌then◌else◌, Bool-cases, Option-cases, Eq, ◌==◌, nat_Eq, bytes_Eq, length, take, drop,
  get_elem?, All, beq_refl, beq-eq,
}
use aw.Wire.Msg.{Msg, msg_type_sync}

-- What the loop calls: the decoder of the reader (`none` is an error), `AllowN` of the rate limiter,
-- and `Unmarshal` into an empty message (`none` is an error).
pub record Source : Type 1 where
  pub Reader : Type 0
  pub Limiter : Type 0
  pub decode : Reader → Option (List ℕ) × Reader
  pub allow_n : Limiter → ℕ → Bool × Limiter
  pub unmarshal : List ℕ → Option Msg

module _ (c : Source) where
  -- `is_open` until `r.q` is closed. `inbound` is all that was sent to the inbound channel.
  pub record ReadState : Type 0 where
    pub reader : c.Reader
    pub limiter : c.Limiter
    pub inbound : List Msg
    pub is_open : Bool

  unfoldable pub deliver : Msg → ReadState → ReadState
  deliver m s = record s { inbound = s.inbound ++ (m ∷ []) }

  unfoldable pub read_sync_data : Msg → Option (List ℕ) × c.Reader → ReadState → ReadState
  read_sync_data m (none, r) s = record s { reader = r; is_open = false }
  read_sync_data m (some xs, r) s =
      deliver (record m { sync_data = some xs }) (record s { reader = r })

  unfoldable pub receive : Option Msg → ReadState → ReadState
  receive none s = s
  receive (some m) s =
      if m.msg_type == msg_type_sync then read_sync_data m (c.decode s.reader) s else deliver m s

  unfoldable pub check_rate : List ℕ → Bool × c.Limiter → ReadState → ReadState
  check_rate buf (false, l) s = record s { limiter = l; is_open = false }
  check_rate buf (true, l) s = receive (c.unmarshal buf) (record s { limiter = l })

  unfoldable pub read_round : Option (List ℕ) × c.Reader → ReadState → ReadState
  read_round (none, r) s = record s { reader = r; is_open = false }
  read_round (some buf, r) s =
      check_rate buf (c.allow_n s.limiter (length buf)) (record s { reader = r })

  -- The first rounds of the loop; it ends where `r.q` was closed.
  unfoldable pub read_rounds : ℕ → ReadState → ReadState
  read_rounds zero s = s
  read_rounds (suc n) s =
      let rest = read_rounds n (read_round (c.decode s.reader) s) in if s.is_open then rest else s
