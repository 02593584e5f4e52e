-- ===== src/Channel/ReadLoop/Examples.antt =====
-- A reader that is the list of its frames, and a limiter that counts what it allows.
use aw.Base.{ℕ, ◌+◌, ◌≡◌, refl, true, Option, none, some, List, [], ◌∷◌, nat_Eq, bytes_Eq, map}
use aw.Base.Arrays.{padded}
use aw.Wire.Msg.{Msg}
use aw.Channel.ReadLoop.{Source, read_rounds}
use aw.Channel.ReadLoop.Delivery.{all_frames, arrived, read_rounds-delivers}

abbrev next_frame : List (List ℕ) → Option (List ℕ) × List (List ℕ)
next_frame [] = (none, [])
next_frame (f ∷ fs) = (some f, fs)

-- Messages to one peer, by type and data.
abbrev message : ℕ → List ℕ → Option (List ℕ) → Msg
message n xs sync = record {
  version = 1;
  msg_type = n;
  to = padded 31 1;
  msg_data = xs;
  sync_data = sync;
}

abbrev encode : Msg → List ℕ
encode m = m.msg_type ∷ m.msg_data

abbrev decode : List ℕ → Option Msg
decode [] = none
decode (n ∷ xs) = some (message n xs none)

abbrev from_frames : Source
from_frames = record {
  Reader = List (List ℕ);
  Limiter = ℕ;
  decode = next_frame;
  allow_n = λ l n. (true, l + n);
  unmarshal = decode;
}

abbrev two_messages : List Msg
two_messages = message 3 (7 ∷ []) (some (8 ∷ 9 ∷ [])) ∷ message 1 (5 ∷ []) none ∷ []

read_rounds-delivers_example :
    read_rounds from_frames 2 (record {
      reader = all_frames encode two_messages;
      limiter = 0;
      inbound = [];
      is_open = true;
    })
    ≡ record { reader = []; limiter = 4; inbound = map arrived two_messages; is_open = true }
read_rounds-delivers_example =
    read_rounds-delivers from_frames (λ fs. fs) encode (λ f fs. refl) (λ l n. refl) two_messages 0
      [] (refl, (refl, tt))
