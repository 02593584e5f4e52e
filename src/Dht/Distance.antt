-- ===== src/Dht/Distance.antt =====
-- `isCloser` of dht/table.go: which of two peers is nearer to the local peer, by the exclusive or of
-- their identities, compared byte by byte from the first.
use aw.Base.{
  ℕ, ◌≡◌, refl, Bool, true, false, arith, ltb, if◌then◌else◌, List, [], ◌∷◌, length, bit_xor, ◌∙◌,
  sym,
}
use aw.Base.Bits.{bit_xor-cancel}
use aw.Base.Arrays.{Bytes, Bytes-ext}
use aw.Sorting.Ordered.{StrictOrder}

-- `id.Signatory` and `id.Hash` are `[32]byte`: the source indexes the first up to 32 and converts the
-- one to the other.
abbrev pub Signatory : Type 0
Signatory = Bytes 32

abbrev pub Hash : Type 0
Hash = Bytes 32

-- `for b := 0; b < 32; b++`: the three arrays have one size, so the loop goes through them together.
pub closer_bytes : List ℕ → List ℕ → List ℕ → Bool
closer_bytes (s ∷ ss) (f ∷ fs) (g ∷ gs) =
    let d1 = bit_xor s f in
    let d2 = bit_xor s g in
    let rest = closer_bytes ss fs gs in
    if ltb d1 d2 then true else (if ltb d2 d1 then false else rest)
closer_bytes _ _ _ = false

unfoldable pub is_closer : Signatory → Signatory → Signatory → Bool
unfolding closer_bytes
is_closer self fst snd = closer_bytes self.bytes fst.bytes snd.bytes

pub irrefl_bytes : (ss fs : List ℕ) → closer_bytes ss fs fs ≡ false
unfolding closer_bytes
irrefl_bytes [] fs = refl
irrefl_bytes (s ∷ ss) [] = refl
irrefl_bytes (s ∷ ss) (f ∷ fs) = ground (arith, irrefl_bytes ss fs)

pub trans_bytes :
    (ss fs gs hs : List ℕ)
    → closer_bytes ss fs gs ≡ true
    → closer_bytes ss gs hs ≡ true
    → closer_bytes ss fs hs ≡ true
unfolding closer_bytes
trans_bytes [] fs gs hs a b = cc
trans_bytes (s ∷ ss) [] gs hs a b = cc
trans_bytes (s ∷ ss) (f ∷ fs) [] hs a b = cc
trans_bytes (s ∷ ss) (f ∷ fs) (g ∷ gs) [] a b = cc
trans_bytes (s ∷ ss) (f ∷ fs) (g ∷ gs) (h ∷ hs) a b = ground (arith, trans_bytes ss fs gs hs)

pub total_bytes :
    (ss fs gs : List ℕ)
    → length ss ≡ length fs
    → length ss ≡ length gs
    → closer_bytes ss fs gs ≡ false
    → closer_bytes ss gs fs ≡ false
    → fs ≡ gs
unfolding closer_bytes
total_bytes [] [] [] p q a b = refl
total_bytes [] [] (g ∷ gs) p q a b = absurd (omega arith)
total_bytes [] (f ∷ fs) gs p q a b = absurd (omega arith)
total_bytes (s ∷ ss) [] gs p q a b = absurd (omega arith)
total_bytes (s ∷ ss) (f ∷ fs) [] p q a b = absurd (omega arith)
total_bytes (s ∷ ss) (f ∷ fs) (g ∷ gs) p q a b =
    ground (arith, bit_xor-cancel s f g, total_bytes ss fs gs)

-- For each local peer `isCloser` is a strict total order on the peers.
unfoldable pub by_distance : Signatory → StrictOrder Signatory
unfolding is_closer
by_distance self = record {
  closer = is_closer self;
  irrefl = λ a. irrefl_bytes self.bytes a.bytes;
  trans = λ a b c. trans_bytes self.bytes a.bytes b.bytes c.bytes;
  total = λ a b p q. Bytes-ext a b (
      total_bytes self.bytes a.bytes b.bytes (self.size ∙ sym a.size) (self.size ∙ sym b.size) p q);
}

pub is_closer-asym :
    (self a b : Signatory) → is_closer self a b ≡ true → is_closer self b a ≡ true → ⊥
unfolding by_distance
is_closer-asym self a b p q = let o = by_distance self in cc (o.trans a b a p q, o.irrefl a)
