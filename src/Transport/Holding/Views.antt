-- ===== src/Transport/Holding/Views.antt =====
-- The abstract view of one peer, and how each step changes what it counts.
use aw.Base.{
  ℕ, suc, ◌+◌, ◌-◌, ◌^◌, ◌≤◌, ◌<◌, ◌≡◌, refl, sym, ap, ◌∙◌, inl, inr, Bool, true, false, Option,
  arith, if◌then◌else◌, Bool-cases, ◌==◌, nat_Eq, bytes_Eq, beq-eq, subst,
}
use aw.Base.Arrays.{Bytes_Eq}
use aw.Base.Maps.{lookup, insert, delete, lookup-insert, lookup-delete}
use aw.Channel.Client.{Client, bind, unbind}
use aw.Base.Int.{pos, ltb_ℤ}
use aw.Channel.Client.Counting.{Counts}
use aw.Dht.Distance.{Signatory}
use aw.Transport.{
  Transport, is_linked, link, unlink, bind_client, unbind_client, disconnect, conns_of,
}
use aw.Transport.Holding.{System}
use aw.Transport.Holding.Tally.{count, tally}

-- The abstract view of one peer: is it linked, how many goroutines hold it, how many are attached.
pub record View : Type 0 where
  pub linked : Bool
  pub held : ℕ
  pub attachments : ℕ

abbrev pub view : System → Signatory → View
view s r = record {
  linked = is_linked s.transport r;
  held = count r s.holding;
  attachments = count r s.attached;
}

-- The bindings that a view accounts for.
abbrev pub bindings : View → ℕ
bindings v = (if v.linked then 1 else 0) + v.held

-- The detailed state keeps a view, with at most `k` bindings and `k` connections.
pub record Keeps (k : ℕ) (s : System) (r : Signatory) : Type 0 where
  pub bound : Counts s.transport.client r (bindings (view s r))
  pub counted : lookup r s.transport.conns ≡ tally (count r s.attached)
  pub few_bindings : bindings (view s r) ≤ k
  pub few_attachments : count r s.attached ≤ k

abbrev pub Small : ℕ → Type 0
Small k = k + 1 < 2 ^ 63

pub recount : (c : Client) (r : Signatory) (m n : ℕ) → m ≡ n → Counts c r m → Counts c r n
recount c r m n e h = subst (λ x. Counts c r x) e h

pub is_linked-insert :
    (t : Transport) (c : Client) (r' r : Signatory)
    → is_linked (record t { client = c; links = insert r' true t.links }) r
      ≡ (if r' == r then true else is_linked t r)
unfolding is_linked
is_linked-insert t c r' r =
    rw (lookup-insert r' r true t.links, is_linked)
      (elim (Bool-cases (r' == r)) [ inl q ↦ rw q refl | inr q ↦ rw q refl ])

pub is_linked-delete :
    (t : Transport) (c : Client) (r' r : Signatory)
    → is_linked (record t { client = c; links = delete r' t.links }) r
      ≡ (if r' == r then false else is_linked t r)
unfolding is_linked
is_linked-delete t c r' r =
    rw (lookup-delete r' r t.links, is_linked)
      (elim (Bool-cases (r' == r)) [ inl q ↦ rw q refl | inr q ↦ rw q refl ])

pub link-linked : (t : Transport) (r : Signatory) → is_linked t r ≡ true → link t r ≡ t
unfolding link
link-linked t r e = rw e refl

pub link-unlinked :
    (t : Transport) (r : Signatory)
    → is_linked t r ≡ false
    → link t r ≡ record t { client = bind t.client r; links = insert r true t.links }
unfolding link bind_client
link-unlinked t r e = rw e refl

pub unlink-linked :
    (t : Transport) (r : Signatory)
    → is_linked t r ≡ true
    → unlink t r ≡ record t { client = (unbind t.client r).0; links = delete r t.links }
unfolding unlink unbind_client
unlink-linked t r e = rw e refl

pub unlink-unlinked : (t : Transport) (r : Signatory) → is_linked t r ≡ false → unlink t r ≡ t
unfolding unlink
unlink-unlinked t r e = rw e refl

-- How each action changes the bindings of a peer, where `b` says whether it is that peer's.
pub link_count :
    (b l : Bool) (h : ℕ)
    → (b ≡ true → l ≡ false)
    → (if b then (if l then 1 else 0) + h + 1 else (if l then 1 else 0) + h)
      ≡ (if (if b then true else l) then 1 else 0) + h
link_count true true h p = cc (p refl)
link_count true false h p = omega arith
link_count false l h p = refl

pub unlink_count :
    (b l : Bool) (h : ℕ)
    → (b ≡ true → l ≡ true)
    → (if b then (if l then 1 else 0) + h - 1 else (if l then 1 else 0) + h)
      ≡ (if (if b then false else l) then 1 else 0) + h
unlink_count true true h p = omega arith
unlink_count true false h p = cc (p refl)
unlink_count false l h p = refl

pub hold_count :
    (b : Bool) (m h : ℕ) → (if b then m + h + 1 else m + h) ≡ m + ((if b then 1 else 0) + h)
hold_count b m h = ground arith

pub attach_count : (b : Bool) (n : ℕ) → (if b then n + 1 else n) ≡ (if b then 1 else 0) + n
attach_count b n = ground arith

pub release_count :
    (b : Bool) (m h : ℕ)
    → (b ≡ true → 0 < h)
    → (if b then m + h - 1 else m + h) ≡ m + (if b then h - 1 else h)
release_count true m h p = omega (arith, p refl)
release_count false m h p = refl

pub grown : (b : Bool) (n k : ℕ) → n ≤ k → (if b then n + 1 else n) ≤ suc k
grown b n k h = ground arith

pub shrunk : (b : Bool) (n k : ℕ) → n ≤ k → (if b then n - 1 else n) ≤ suc k
shrunk b n k h = ground arith

pub at_same :
    (P : Signatory → Bool) (r' r : Signatory) (v : Bool) → P r' ≡ v → (r' == r) ≡ true → P r ≡ v
at_same P r' r v e q = ap P (sym (beq-eq r' r q)) ∙ e

pub weaken : (k : ℕ) (s : System) (r : Signatory) → Keeps k s r → Keeps (suc k) s r
weaken k s r h = record {
  bound = h.bound;
  counted = h.counted;
  few_bindings = omega (arith, h.few_bindings);
  few_attachments = omega (arith, h.few_attachments);
}

pub disconnect-eq :
    (t : Transport) (r : Signatory) → disconnect t r ≡ record t { conns = (disconnect t r).conns }
unfolding disconnect
disconnect-eq t r = elim (Bool-cases (ltb_ℤ (pos 0) (conns_of t r))) [
  | inl e ↦ rw e refl
  | inr e ↦ rw e refl
]

pub ap_back :
    {k : ℕ} {r : Signatory} {o o' : Option Signatory} (f : Option Signatory → System)
    → o ≡ o'
    → Keeps k (f o') r
    → Keeps k (f o) r
ap_back {k} {r} f e h = subst (λ x. Keeps k (f x) r) (sym e) h
