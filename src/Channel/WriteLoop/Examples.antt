-- ===== src/Channel/WriteLoop/Examples.antt =====
-- Two messages and writers that fail at nothing, and one that fails.
use aw.Base.{
  ℕ, ◌≡◌, refl, Bool, true, false, none, some, List, [], ◌∷◌, ◌++◌, nat_Eq, bytes_Eq, replicate,
}
use aw.Base.Arrays.{padded}
use aw.Channel.WriteLoop.{
  Attached, LoopState, queues, attaches, writes, run, write, Event, step, write_step, take_message,
  take_next, put_msg, put,
}
use aw.Channel.WriteLoop.Order.{waiting, settled, run-settled}
use aw.Channel.WriteLoop.Sent.{Works, all_frames, IsAt, run-sends}
use aw.Wire.Msg.{Msg}

-- A writer is what was sent, and whether it works.
abbrev writers : Attached
writers = record {
  Writer = List (List ℕ) × Bool;
  marshal = λ m. some m.msg_data;
  encode = λ (w, ok) xs. (ok, (w ++ (xs ∷ []), ok));
  flush = λ w. (true, w);
}

abbrev good_writers : Attached
good_writers = record {
  Writer = List (List ℕ);
  marshal = λ m. some m.msg_data;
  encode = λ w xs. (true, w ++ (xs ∷ []));
  flush = λ w. (true, w);
}

abbrev message : ℕ → Msg
message n = record {
  version = 1;
  msg_type = n;
  to = padded 31 1;
  msg_data = n ∷ [];
  sync_data = some (9 ∷ []);
}

abbrev two_wait : LoopState writers
two_wait = record {
  w = some ([], false);
  m = none;
  outbound = message 3 ∷ message 4 ∷ [];
  closed = [];
}

-- The first writer fails at the first message, which the second takes.
abbrev reconnects : List (Event writers)
reconnects = writes ∷ queues (message 5) ∷ attaches ([], true) ∷ writes ∷ []

run-settled_example :
    settled writers two_wait reconnects ++ waiting writers (run writers two_wait reconnects)
    ≡ message 3 ∷ message 4 ∷ message 5 ∷ []
run-settled_example = run-settled writers two_wait reconnects

settled-reconnects : settled writers two_wait reconnects ≡ message 3 ∷ []
unfolding settled step write_step take_message take_next write put_msg put
settled-reconnects = refl

works : Works good_writers (λ w. w)
works = record { encodes = λ w buf. (refl, refl); flushes = λ w. (refl, refl) }

abbrev one_left : LoopState good_writers
one_left = record {
  w = some ((7 ∷ []) ∷ []);
  m = some (message 3);
  outbound = message 4 ∷ [];
  closed = [];
}

run-sends_example :
    IsAt good_writers
      (λ w. w)
      (run good_writers one_left (replicate 2 writes))
      (((7 ∷ []) ∷ []) ++ all_frames good_writers.marshal (message 3 ∷ message 4 ∷ []))
      []
run-sends_example =
    run-sends good_writers (λ w. w) works (message 3 ∷ message 4 ∷ []) one_left ((7 ∷ []) ∷ [])
      ((((7 ∷ []) ∷ []), refl, refl), refl)
