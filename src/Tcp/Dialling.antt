-- ===== src/Tcp/Dialling.antt =====
-- `Dial` of tcp/tcp.go over attempts that fail.
use aw.Base.{ℕ, zero, suc, ◌+◌, ◌≡◌, refl, List, [], ◌∷◌, ◌++◌, nat_Eq, bytes_Eq, length, map}
use aw.Tcp.{Answer, fails, connects, handled, dial_loop, dial}

-- `timeout attempt, timeout (attempt + 1), …`, `n` of them.
abbrev pub timeouts_from : (ℕ → ℕ) → ℕ → ℕ → List ℕ
timeouts_from timeout attempt zero = []
timeouts_from timeout attempt (suc n) = timeout attempt ∷ timeouts_from timeout (attempt + 1) n

module _ {Conn E : Type 0} where
  dial_loop_lem :
      (timeout : ℕ → ℕ) (attempt : ℕ) (errs : List E) (conn : Conn) (rest : List (Answer Conn E))
      → dial_loop timeout attempt (map fails errs ++ (connects conn ∷ rest)) ≡ record {
        timeouts = timeouts_from timeout attempt (suc (length errs));
        errors = errs;
        result = handled conn;
      }
  unfolding dial_loop
  dial_loop_lem timeout attempt [] conn rest = refl
  dial_loop_lem timeout attempt (e ∷ errs) conn rest =
      rw (dial_loop_lem timeout (attempt + 1) errs conn rest) refl

  -- If the context stays alive, `Dial` reports the error of each failed attempt, in order, handles
  -- the first connection, whatever follows, and asked for the timeouts of the attempts from 1 on.
  pub dial_lem :
      (timeout : ℕ → ℕ) (errs : List E) (conn : Conn) (rest : List (Answer Conn E))
      → dial timeout (map fails errs ++ (connects conn ∷ rest)) ≡ record {
        timeouts = timeouts_from timeout 1 (suc (length errs));
        errors = errs;
        result = handled conn;
      }
  unfolding dial
  dial_lem timeout errs conn rest = dial_loop_lem timeout 1 errs conn rest
