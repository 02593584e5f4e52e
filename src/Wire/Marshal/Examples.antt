-- ===== src/Wire/Marshal/Examples.antt =====
-- A message through concrete marshallers.
use aw.Base.{
  ℕ, ◌-◌, ◌≤◌, ◌≡◌, refl, Option, none, List, [], ◌∷◌, ◌++◌, arith, nat_Eq, bytes_Eq, length,
}
use aw.Base.Arrays.{padded}
use aw.Base.BigEndian.{put_uint}
use aw.Wire.Msg.{Msg}
use aw.Wire.Marshal.{Buffer, Surge, marshal_msg, unmarshal_msg, and_then}
use aw.Wire.Marshal.ByBytes.{
  by_bytes, by_bytes-Writes, by_bytes-Reads, read_uint, read_uint-put_uint, put_slice, read_slice,
  read_slice-put_slice, read_array, read_array-bytes,
}
use aw.Wire.Marshal.RoundTrip.{Fits16, Fits32, Any, unmarshal_msg-marshal_msg}

abbrev bytewise : Surge
bytewise = record {
  u16 = by_bytes (put_uint 2) (read_uint 2);
  hash = by_bytes (λ h. h.bytes) (read_array 32);
  byte_slice = by_bytes put_slice read_slice;
}

abbrev push_of_seven : Msg
push_of_seven = record {
  version = 1;
  msg_type = 1;
  to = padded 31 5;
  msg_data = 7 ∷ [];
  sync_data = none;
}

abbrev marshalled : Option (List ℕ) × Buffer
marshalled = marshal_msg bytewise push_of_seven (record { written = []; free = 100; rem = 100 })

no_error : marshalled.0 ≡ none
unfolding marshal_msg and_then
no_error = refl

short : length marshalled.1.written ≤ 100
unfolding marshal_msg and_then put_uint
short = omega arith

unmarshal_msg-marshal_msg_example :
    unmarshal_msg bytewise push_of_seven
      (record { unread = marshalled.1.written ++ (9 ∷ []); rem = 100 })
    ≡ (none, (push_of_seven, record { unread = 9 ∷ []; rem = 100 - length marshalled.1.written }))
unmarshal_msg-marshal_msg_example =
    unmarshal_msg-marshal_msg bytewise (put_uint 2) (λ h. h.bytes) put_slice
      (by_bytes-Writes (put_uint 2) (read_uint 2)) (by_bytes-Writes (λ h. h.bytes) (read_array 32))
      (by_bytes-Writes put_slice read_slice)
      (by_bytes-Reads Fits16 (put_uint 2) (read_uint 2)
        (λ n rest h. read_uint-put_uint 2 n rest (omega arith)))
      (by_bytes-Reads Any (λ h. h.bytes) (read_array 32) (λ h rest u. read_array-bytes 32 h rest))
      (by_bytes-Reads Fits32 put_slice read_slice read_slice-put_slice) push_of_seven push_of_seven
      100 100 100 (9 ∷ []) (omega arith, omega arith, omega arith) no_error short
