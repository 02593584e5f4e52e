-- ===== src/Channel/Client/Receiving/Examples.antt =====
-- A first receiver, and a packet that is there before it.
use aw.Base.{ℕ, ◌≡◌, refl, false, List, [], ◌∷◌, nat_Eq, bytes_Eq}
use aw.Base.Arrays.{padded}
use aw.Channel.Client.{Receiver}
use aw.Channel.Client.Receiving.{
  Receiving, clears, receive, take_packet, steps, Event, registers, takes_packet, IsStopped,
  receive_misses,
}

abbrev none_yet : Receiving ℕ
none_yet = record { client = []; running = false; alive = false; receivers = []; waiting = [] }

abbrev first : Receiver ℕ
first = record { done = false; refuses = λ from p. false }

abbrev later : List (Event ℕ)
later = registers 0 ∷ clears ∷ takes_packet (padded 31 2) 8 ∷ registers 0 ∷ []

receive_misses_example :
    let t = take_packet (receive none_yet first) (padded 31 2) 7 in
    (t.client ≡ []) × (t.waiting ≡ first ∷ []) × IsStopped (steps t later)
receive_misses_example = receive_misses none_yet first (padded 31 2) 7 later refl
