-- ===== src/Transport/Dial/Examples.antt =====
-- A peer that expires while it is dialled.
use aw.Base.{ℕ, ◌≡◌, refl, ◌≢◌, true, false, [], ◌∷◌, nat_Eq, bytes_Eq}
use aw.Base.Arrays.{padded, Bytes_Eq}
use aw.Base.Maps.{lookup}
use aw.Dht.Distance.{Signatory}
use aw.Dht.Table.{InMemTable, new_in_mem_table}
use aw.Transport.Dial.{
  dial_done, exit, Failure, Round, fails, DialState, dial, dial_rounds, panics, goes_on,
}
use aw.Transport.Dial.Rounds.{dial-ne-panics, dial_rounds-goes_on, IsGone, RoundForgets}
use aw.Wire.Address.{Address, tcp, empty_signature}

abbrev remote : Signatory
remote = padded 31 1

abbrev home : Address
home = record { protocol = tcp; value = []; nonce = 3; signature = empty_signature }

abbrev empty_table : InMemTable
empty_table = new_in_mem_table (padded 31 7)

-- An attempt that fails while no other goroutine uses the table.
abbrev alone : ℕ → ℕ → Failure
alone added_at handled_at = record {
  before = λ t. t;
  added_at = added_at;
  between = λ t. t;
  handled_at = handled_at;
}

abbrev missed : Round
missed = record {
  others = λ t. t;
  failures = alone 5 6 ∷ alone 9 20 ∷ [];
  ending = fails (dial_done false);
}

abbrev left : Round
left = record { others = λ t. t; failures = alone 25 26 ∷ []; ending = fails exit }

missed-Forgets : RoundForgets 3 remote missed
missed-Forgets = (((λ t g. g, λ t g. g), ((λ t g. g, λ t g. g), tt)), λ t g. g)

left-Forgets : RoundForgets 3 remote left
left-Forgets = (((λ t g. g, λ t g. g), tt), λ t g. g)

dial-ne-panics_example : dial 3 empty_table remote home (missed ∷ left ∷ []) ≢ panics
dial-ne-panics_example =
    dial-ne-panics 3 remote empty_table home (missed ∷ left ∷ [])
      (missed-Forgets, (left-Forgets, tt))

abbrev closed : DialState
closed = record { table = empty_table; exit_closed = true }

empty-IsGone : IsGone empty_table remote
unfolding new_in_mem_table lookup
empty-IsGone = (refl, refl)

dial_rounds-goes_on_example :
    (s' : DialState) × (dial_rounds 3 remote closed (missed ∷ missed ∷ []) ≡ goes_on s')
    × IsGone s'.table remote
dial_rounds-goes_on_example =
    dial_rounds-goes_on 3 remote closed (missed ∷ missed ∷ []) empty-IsGone
      ((refl, missed-Forgets), ((refl, missed-Forgets), tt))
