-- ===== src/Channel/ReadLoop/Delivery.antt =====
-- The read loop of channel/channel.go on the frames that a write loop encodes.
use aw.Base.{
  ℕ, ◌≡◌, refl, sym, ap, ◌∙◌, inl, inr, true, none, some, List, [], ◌∷◌, ◌++◌, if◌then◌else◌,
  Bool-cases, ◌==◌, nat_Eq, bytes_Eq, length, All, map, append-nil, append_assoc,
}
use aw.Wire.Msg.{Msg, msg_type_sync}
use aw.Channel.ReadLoop.{
  Source, ReadState, deliver, read_sync_data, receive, check_rate, read_round, read_rounds,
}

abbrev pub sync_bytes : Msg → List ℕ
sync_bytes m = elim m.sync_data [ none ↦ [] | some xs ↦ xs ]

module _ (enc : Msg → List ℕ) where
  -- What the write loop encodes for a message.
  abbrev pub frames : Msg → List (List ℕ)
  frames m = enc m ∷ (if m.msg_type == msg_type_sync then sync_bytes m ∷ [] else [])

  abbrev pub all_frames : List Msg → List (List ℕ)
  all_frames [] = []
  all_frames (m ∷ ms) = frames m ++ all_frames ms

-- A message as it arrives: synchronisation data goes with its own type of message only.
abbrev pub arrived : Msg → Msg
arrived m = record m {
  sync_data = if m.msg_type == msg_type_sync then some (sync_bytes m) else none;
}

module _ (c : Source) (feed : List (List ℕ) → c.Reader) (enc : Msg → List ℕ) where
  -- The decoder gives the frames one by one.
  abbrev pub Feeds : Type 0
  Feeds = (f : List ℕ) (fs : List (List ℕ)) → c.decode (feed (f ∷ fs)) ≡ (some f, feed fs)

  abbrev pub Allows : Type 0
  Allows = (l : c.Limiter) (n : ℕ) → (c.allow_n l n).0 ≡ true

  abbrev pub Unmarshals : Msg → Type 0
  Unmarshals m = c.unmarshal (enc m) ≡ some (record m { sync_data = none })

  -- The limiter after the headers of the messages: nothing else is counted.
  abbrev pub counted : c.Limiter → List Msg → c.Limiter
  counted l [] = l
  counted l (m ∷ ms) = counted (c.allow_n l (length (enc m))).1 ms

  -- The first frame of a message, read while the loop is open.
  header :
      Feeds
      → Allows
      → (m : Msg) (fs : List (List ℕ)) (l : c.Limiter) (inbound : List Msg) → Unmarshals m
      → let s : ReadState c = record {
        reader = feed (enc m ∷ fs);
        limiter = l;
        inbound = inbound;
        is_open = true;
      } in
        read_round c (c.decode s.reader) s
        ≡ receive c (some (record m { sync_data = none })) (record {
          reader = feed fs;
          limiter = (c.allow_n l (length (enc m))).1;
          inbound = inbound;
          is_open = true;
        })
  unfolding read_round check_rate
  header hf ha m fs l inbound hu =
      let s : ReadState c = record {
        reader = feed (enc m ∷ fs);
        limiter = l;
        inbound = inbound;
        is_open = true;
      } in
      let s1 : ReadState c = record s { reader = feed fs } in
      let l1 = (c.allow_n l (length (enc m))).1 in
      let allowed : c.allow_n l (length (enc m)) ≡ (true, l1) =
        ap (λ b. (b, l1)) (ha l (length (enc m))) in
      ap (λ x. read_round c x s) (hf (enc m) fs)
      ∙ ap (λ x. check_rate c (enc m) x s1) allowed
      ∙ ap (λ x. receive c x (record s1 { limiter = l1 })) hu

  one_round :
      Feeds
      → Allows
      → (m : Msg) (fs : List (List ℕ)) (l : c.Limiter) (inbound : List Msg) → Unmarshals m
      → let s : ReadState c = record {
        reader = feed (frames enc m ++ fs);
        limiter = l;
        inbound = inbound;
        is_open = true;
      } in
        read_round c (c.decode s.reader) s ≡ record {
          reader = feed fs;
          limiter = (c.allow_n l (length (enc m))).1;
          inbound = inbound ++ (arrived m ∷ []);
          is_open = true;
        }
  unfolding receive read_sync_data deliver
  one_round hf ha m fs l inbound hu =
      let l1 = (c.allow_n l (length (enc m))).1 in
      elim (Bool-cases (m.msg_type == msg_type_sync)) [
        | inl t ↦ rw t (
            header hf ha m (sync_bytes m ∷ fs) l inbound hu
            ∙ rw t (
                ap
                  (λ x.
                    read_sync_data c (record m { sync_data = none }) x
                      (record {
                        reader = feed (sync_bytes m ∷ fs);
                        limiter = l1;
                        inbound = inbound;
                        is_open = true;
                      }))
                  (hf (sync_bytes m) fs)))
        | inr t ↦ rw t (header hf ha m fs l inbound hu ∙ rw t refl)
      ]

  -- If the decoder gives what the write loop encoded, the rate limiter allows it, and the messages
  -- unmarshal, then the read loop delivers every message in order, stays open, and has counted the
  -- headers only against the rate: not the synchronisation data.
  pub read_rounds-delivers :
      Feeds
      → Allows
      → (ms : List Msg) (l : c.Limiter) (inbound : List Msg) → All Unmarshals ms
      → read_rounds c (length ms) (record {
        reader = feed (all_frames enc ms);
        limiter = l;
        inbound = inbound;
        is_open = true;
      })
        ≡ record {
          reader = feed [];
          limiter = counted l ms;
          inbound = inbound ++ map arrived ms;
          is_open = true;
        }
  unfolding read_rounds
  read_rounds-delivers hf ha [] l inbound hu =
      ap {B = ReadState c}
        (λ x. record { reader = feed []; limiter = l; inbound = x; is_open = true })
        (sym (append-nil inbound))
  read_rounds-delivers hf ha (m ∷ ms) l inbound hu =
      let l1 = (c.allow_n l (length (enc m))).1 in
      ap (read_rounds c (length ms)) (one_round hf ha m (all_frames enc ms) l inbound hu.0)
      ∙ read_rounds-delivers hf ha ms l1 (inbound ++ (arrived m ∷ [])) hu.1
      ∙ ap {B = ReadState c}
          (λ x. record { reader = feed []; limiter = counted l1 ms; inbound = x; is_open = true })
          (append_assoc inbound (arrived m ∷ []) (map arrived ms))
