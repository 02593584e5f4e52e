-- ===== src/Wire/Marshal/ByBytes.antt =====
-- Marshallers that write a value as bytes and read it back: they show that the hypotheses on the
-- marshallers of surge can hold.
use aw.Base.{
  ◌<◌, ◌^◌, ℕ, ◌-◌, ◌≡◌, refl, sym, ap, ◌∙◌, Option, none, List, ◌++◌, arith, nat_Eq, bytes_Eq,
  length, take, drop, append_assoc, ap₂, drop-length, length-append, take-length,
}
use aw.Base.Arrays.{Bytes, Bytes-ext, zeros, copy_into, copy_into-bytes}
use aw.Base.BigEndian.{put_uint, uint_from, length-put_uint, uint_from-put_uint}
use aw.Wire.Marshal.{Input, Marshaller}
use aw.Wire.Marshal.RoundTrip.{Writes, Reads, Fits32}

abbrev pub by_bytes : {A : Type 0} → (A → List ℕ) → (List ℕ → A × List ℕ) → Marshaller A
by_bytes enc dec = record {
  marshal = λ a b. (none, record b { written = b.written ++ enc a });
  unmarshal = λ i. (
    none,
    (
      (dec i.unread).0,
      record {
        unread = (dec i.unread).1;
        rem = i.rem - (length i.unread - length (dec i.unread).1);
      },
    ),
  );
}

pub by_bytes-Writes :
    {A : Type 0} (enc : A → List ℕ) (dec : List ℕ → A × List ℕ) → Writes (by_bytes enc dec) enc
by_bytes-Writes enc dec a b h = refl

pub by_bytes-Reads :
    {A : Type 0} (P : A → Type 0) (enc : A → List ℕ) (dec : List ℕ → A × List ℕ)
    → ((a : A) (rest : List ℕ) → P a → dec (enc a ++ rest) ≡ (a, rest))
    → Reads P (by_bytes enc dec) enc
by_bytes-Reads {A} P enc dec h a rest rem p l =
    let k : rem - (length (enc a ++ rest) - length rest) ≡ rem - length (enc a) =
      omega (arith, length-append (enc a) rest) in
    ap {B = Option (List ℕ) × (A × Input)}
      (λ x.
        (none, (x.0, record { unread = x.1; rem = rem - (length (enc a ++ rest) - length x.1) })))
      (h a rest p)
    ∙ ap {B = Option (List ℕ) × (A × Input)} (λ n. (none, (a, record { unread = rest; rem = n }))) k

pub take_put : (k n : ℕ) (rest : List ℕ) → take k (put_uint k n ++ rest) ≡ put_uint k n
take_put k n rest =
    ap (λ i. take i (put_uint k n ++ rest)) (sym (length-put_uint k n))
    ∙ take-length (put_uint k n) rest

pub drop_put : (k n : ℕ) (rest : List ℕ) → drop k (put_uint k n ++ rest) ≡ rest
drop_put k n rest =
    ap (λ i. drop i (put_uint k n ++ rest)) (sym (length-put_uint k n))
    ∙ drop-length (put_uint k n) rest

abbrev pub read_uint : ℕ → List ℕ → ℕ × List ℕ
read_uint k xs = (uint_from 0 (take k xs), drop k xs)

pub read_uint-put_uint :
    (k n : ℕ) (rest : List ℕ) → n < 256 ^ k → read_uint k (put_uint k n ++ rest) ≡ (n, rest)
read_uint-put_uint k n rest h =
    ap₂ {C = ℕ × List ℕ} (λ a b. (a, b))
      (ap (uint_from 0) (take_put k n rest) ∙ uint_from-put_uint k n h) (drop_put k n rest)

abbrev pub put_slice : List ℕ → List ℕ
put_slice xs = put_uint 4 (length xs) ++ xs

abbrev pub read_slice : List ℕ → List ℕ × List ℕ
read_slice xs = let n = uint_from 0 (take 4 xs) in (take n (drop 4 xs), drop n (drop 4 xs))

pub read_slice-put_slice :
    (xs rest : List ℕ) → Fits32 xs → read_slice (put_slice xs ++ rest) ≡ (xs, rest)
read_slice-put_slice xs rest h =
    let a = append_assoc (put_uint 4 (length xs)) xs rest in
    let n : uint_from 0 (take 4 (put_slice xs ++ rest)) ≡ length xs =
      ap (λ x. uint_from 0 (take 4 x)) a
      ∙ ap (uint_from 0) (take_put 4 (length xs) (xs ++ rest))
      ∙ uint_from-put_uint 4 (length xs) (omega arith) in
    let d : drop 4 (put_slice xs ++ rest) ≡ xs ++ rest =
      ap (drop 4) a ∙ drop_put 4 (length xs) (xs ++ rest) in
    ap₂ {C = List ℕ × List ℕ} (λ i ys. (take i ys, drop i ys)) n d
    ∙ ap₂ {C = List ℕ × List ℕ} (λ u v. (u, v)) (take-length xs rest) (drop-length xs rest)

abbrev pub read_array : (n : ℕ) → List ℕ → Bytes n × List ℕ
read_array n xs = (copy_into (zeros n) (take n xs), drop n xs)

pub read_array-bytes :
    (n : ℕ) (h : Bytes n) (rest : List ℕ) → read_array n (h.bytes ++ rest) ≡ (h, rest)
read_array-bytes n h rest =
    let t : take n (h.bytes ++ rest) ≡ h.bytes =
      ap (λ i. take i (h.bytes ++ rest)) (sym h.size) ∙ take-length h.bytes rest in
    ap₂ {C = Bytes n × List ℕ} (λ a b. (a, b))
      (Bytes-ext (copy_into (zeros n) (take n (h.bytes ++ rest))) h
        (copy_into-bytes (zeros n) (take n (h.bytes ++ rest)) (ap length t ∙ h.size) ∙ t))
      (ap (λ i. drop i (h.bytes ++ rest)) (sym h.size) ∙ drop-length h.bytes rest)
