-- ===== src/Tcp/Examples.antt =====
-- A server that refuses all connections, and a dialler that fails twice.
use aw.Base.{ℕ, ◌*◌, ◌≡◌, none, some, List, [], ◌∷◌, ◌++◌, nat_Eq, bytes_Eq, map}
use aw.Base.Int.{ℤ, pos}
use aw.Policy.{codes, Allow}
use aw.Tcp.{
  Server, listen, accepts, Event, accept_fails, finishes, Answer, fails, connects, handled, dial,
}
use aw.Tcp.Leak.{max_and}
use aw.Tcp.Dialling.{timeouts_from, dial_lem}

abbrev refuse_all : Allow ℕ ℕ
refuse_all conn n = record { error = some (codes "no"); cleanup = none; state = n }

abbrev after : List (Event ℕ)
after = finishes 0 ∷ accepts 8 ∷ accept_fails ∷ []

abbrev served : Server (ℤ × ℕ)
served =
    listen (some (max_and 2 refuse_all)) (map accepts (5 ∷ 6 ∷ []) ++ after)
      (record { policy = (pos 0, 0); handling = []; errors = 0 })

abbrev answers : List (Answer ℕ ℕ)
answers = map fails (5 ∷ 6 ∷ []) ++ (connects 7 ∷ fails 8 ∷ [])

dial_example :
    dial (λ n. n * 10) answers
    ≡ record { timeouts = timeouts_from (λ n. n * 10) 1 3; errors = 5 ∷ 6 ∷ []; result = handled 7 }
dial_example = dial_lem (λ n. n * 10) (5 ∷ 6 ∷ []) 7 (fails 8 ∷ [])
