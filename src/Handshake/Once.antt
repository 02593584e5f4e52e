-- ===== src/Handshake/Once.antt =====
-- `Once` of handshake/once.go, with the pool that holds a connection for each remote peer. The parts that hold the
-- lock are steps of their own, since others may take the lock between them. A connection is a number;
-- its two ends have the same. The wrapped handshake, the codecs and the clock are arguments.
pub mod Agreement
mod Examples
use aw.Base.{
  ℕ, zero, suc, ◌+◌, ◌-◌, ◌*◌, ◌/◌, ◌%◌, ◌^◌, ◌≤◌, ◌<◌, ◌≡◌, refl, sym, ap, ◌∙◌, ◌≢◌, ◌↔◌, ◌⊎◌, inl,
  inr, Bool, true, false, not, ◌&&◌, ◌||◌, Option, none, some, List, [], ◌∷◌, ◌++◌, arith, ltb, leb,
  if◌then◌else◌, Bool-cases, Option-cases, Eq, ◌==◌, nat_Eq, bytes_Eq, length, take, drop,
  get_elem?, All, beq_refl, beq-eq,
}
use aw.Base.Arrays.{Bytes_Eq}
use aw.Base.Maps.{Map, lookup, insert, delete}
use aw.Codec.Gcm.{before_bytes}
use aw.Dht.Distance.{Signatory}
use aw.Policy.{codes}

pub record OnceConn : Type 0 where
  pub timestamp : ℕ
  pub conn : ℕ

-- `closed` are the connections that `Once` closed, the last first.
pub record OncePool : Type 0 where
  pub minimum_expiry_age : ℕ
  pub conns : Map Signatory OnceConn
  pub closed : List ℕ

unfoldable pub new_once_pool : ℕ → OncePool
new_once_pool minimum_expiry_age = record {
  minimum_expiry_age = minimum_expiry_age;
  conns = [];
  closed = [];
}

-- An error with its text, or a negligible one (`wire.NewNegligibleError`).
pub data OnceResult : Type 0 where
  established : OnceResult
  fails : List ℕ → OnceResult
  negligible : List ℕ → OnceResult

-- `_ = existingConn.conn.Close()`, if there is one.
unfoldable pub close : Option OnceConn → List ℕ → List ℕ
close none closed = closed
close (some c) closed = c.conn ∷ closed

-- The smaller peer stores the connection, under the lock.
unfoldable pub accept : OncePool → Signatory → ℕ → ℕ → OncePool
accept pool remote conn now = record pool {
  closed = close (lookup remote pool.conns) pool.closed;
  conns = insert remote (record { timestamp = now; conn = conn }) pool.conns;
}

unfoldable pub needs_replacement : OncePool → Signatory → ℕ → Bool
needs_replacement pool remote now = elim (lookup remote pool.conns) [
  | none ↦ true
  | some c ↦ ltb pool.minimum_expiry_age (now - c.timestamp)
]

-- The larger peer decides, under the lock: whether to keep the new connection, and what it replaced.
-- The connection that loses is closed after the lock is released.
unfoldable pub decide : OncePool → Signatory → ℕ → ℕ → OncePool × Bool
decide pool remote conn now =
    if needs_replacement pool remote now
    then (
      record pool {
        conns = insert remote (record { timestamp = now; conn = conn }) pool.conns;
        closed = close (lookup remote pool.conns) pool.closed;
      },
      true,
    )
    else (record pool { closed = conn ∷ pool.closed }, false)

-- The message that tells the smaller peer.
unfoldable pub keep_alive : Bool → ℕ
keep_alive false = 0
keep_alive true = 1

-- Under the lock again, after the message could not be written. `none` is Go's panic where the map has
-- no connection any more and `Close` is called on nil.
unfoldable pub withdraw : OncePool → Signatory → Option OncePool
withdraw pool remote = elim (lookup remote pool.conns) [
  | none ↦ none
  | some c ↦ some (record pool { closed = c.conn ∷ pool.closed; conns = delete remote pool.conns })
]

-- `Once` at a peer that is left alone between its steps. `handshake` is the error of the wrapped
-- handshake or the remote peer, `received` what decoding the keep-alive message gives (an error or its
-- byte), `sent` the error of encoding it; `print` is `%v` of a peer.
module _ (print : Signatory → List ℕ) (self : Signatory) where
  unfoldable pub once_smaller : OncePool → Signatory → ℕ → ℕ → (List ℕ ⊎ ℕ) → OncePool × OnceResult
  once_smaller pool remote conn now (inl e) =
      (pool, fails (codes "decoding keep-alive message: " ++ e))
  once_smaller pool remote conn now (inr b) =
      if b == 0
      then (pool, negligible (codes "kill connection from " ++ print remote))
      else (accept pool remote conn now, established)

  unfoldable pub once_larger :
      OncePool → Signatory → ℕ → ℕ → Option (List ℕ) → Option (OncePool × OnceResult)
  once_larger pool remote conn now sent =
      let (pool', keeps) = decide pool remote conn now in
      if keeps
      then elim sent [
        | none ↦ some (pool', established)
        | some e ↦ elim (withdraw pool' remote) [
          | none ↦ none
          | some pool'' ↦ some (
            pool'',
            fails (
                codes "encoding keep-alive message 0x01 to "
                ++ (print remote ++ (codes ": " ++ e))),
          )
        ]
      ]
      else elim sent [
        | none ↦ some (pool', negligible (codes "kill connection to " ++ print remote))
        | some e ↦ some (
          pool',
          fails
              (codes "encoding keep-alive message 0x00 to " ++ (print remote ++ (codes ": " ++ e))),
        )
      ]

  unfoldable pub once :
      OncePool
      → (List ℕ ⊎ Signatory)
      → ℕ
      → ℕ
      → (List ℕ ⊎ ℕ)
      → Option (List ℕ)
      → Option (OncePool × OnceResult)
  once pool (inl e) conn now received sent = some (pool, fails (codes "handshake error = " ++ e))
  once pool (inr remote) conn now received sent =
      if self == remote
      then some (pool, established)
      else (if before_bytes self.bytes remote.bytes
          then some (once_smaller pool remote conn now received)
          else once_larger pool remote conn now sent)
