-- ===== src/Tcp/Leak.antt =====
-- What becomes of the places that `Max` gives out when another policy of `All` refuses.
use aw.Base.{ℕ, ◌≡◌, none, some, List, [], ◌∷◌, nat_Eq, bytes_Eq}
use aw.Base.Int.{ℤ, pos}
use aw.Policy.{Allow, all, max}
use aw.Tcp.{Server}

-- A server that handles nothing, and whose places are all taken.
abbrev full_server : {T : Type 0} → ℕ → T → ℕ → Server (ℤ × T)
full_server limit t errors = record { policy = (pos limit, t); handling = []; errors = errors }

module _ {Conn T : Type 0} where
  -- Each policy has variables of its own: `Max` its counter, the other policy a state of type `T`.
  unfoldable pub with_counter : Allow Conn ℤ → Allow Conn (ℤ × T)
  with_counter f conn (z, t) =
      let o = f conn z in
      record {
        error = o.error;
        cleanup = elim o.cleanup [ none ↦ none | some g ↦ some (λ (z', t'). (g z', t')) ];
        state = (o.state, t);
      }

  unfoldable pub with_rest : Allow Conn T → Allow Conn (ℤ × T)
  with_rest f conn (z, t) =
      let o = f conn t in
      record {
        error = o.error;
        cleanup = elim o.cleanup [ none ↦ none | some g ↦ some (λ (z', t'). (z', g t')) ];
        state = (z, o.state);
      }

  -- `All(Max(limit), f)`.
  unfoldable pub max_and : ℕ → Allow Conn T → Allow Conn (ℤ × T)
  max_and limit f = all (with_counter (max (pos limit)) ∷ with_rest f ∷ [])

  abbrev pub Refuses : Allow Conn T → Type 0
  Refuses f = (conn : Conn) (t : T) → (e : List ℕ) × ((f conn t).error ≡ some e)
