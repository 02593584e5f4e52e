-- ===== src/Transport/Serving.antt =====
-- One message, and one connection, through the transport of transport/transport.go.
use aw.Base.{
  ℕ, ◌+◌, ◌-◌, ◌^◌, ◌<◌, ◌≡◌, sym, ap, ◌∙◌, inl, inr, arith, Bool-cases, ◌==◌, nat_Eq, bytes_Eq,
  beq_refl, subst,
}
use aw.Base.Arrays.{Bytes_Eq}
use aw.Base.Maps.{lookup}
use aw.Channel.Client.Counting.{Counts, bind-Counts, unbind-Counts}
use aw.Dht.Distance.{Signatory}
use aw.Transport.{
  Transport, is_linked, bind_client, unbind_client, connect, disconnect, serve_accepted,
  serve_dialled,
}
use aw.Transport.Holding.Tally.{tally, connect-tally, disconnect-tally}
use aw.Transport.Holding.Views.{disconnect-eq}

-- The number of bindings of a peer, and that of its connections.
abbrev pub Has : Signatory → ℕ → ℕ → Transport → Type 0
Has r m n t = Counts t.client r m × (lookup r t.conns ≡ tally n)

module _ (r : Signatory) (m n : ℕ) (few_m : m + 1 < 2 ^ 63) (few_n : n + 1 < 2 ^ 63) where
  connect-Has : (t : Transport) → Has r m n t → Has r m (n + 1) (connect t r)
  unfolding connect
  connect-Has t h = (h.0, rw (beq_refl r) at (connect-tally t r r n few_n h.1))

  bind-Has : (t : Transport) → Has r m n t → Has r (m + 1) n (bind_client t r)
  unfolding bind_client
  bind-Has t h = (rw (beq_refl r) at (bind-Counts t.client r r m (omega arith) h.0), h.1)

  unbind-Has : (t : Transport) → Has r m n t → Has r (m - 1) n (unbind_client t r)
  unfolding unbind_client
  unbind-Has t h = (rw (beq_refl r) at (unbind-Counts t.client r r m (omega arith) h.0), h.1)

disconnect-Has :
    (r : Signatory) (m n : ℕ) (t : Transport) → Has r m (n + 1) t → Has r m n (disconnect t r)
disconnect-Has r m n t h =
    let e : n + 1 - 1 ≡ n = omega arith in
    (
      subst (λ x. Counts x.client r m) (sym (disconnect-eq t r)) h.0,
      rw (beq_refl r) at (disconnect-tally t r r (n + 1) h.1) ∙ ap tally e,
    )

-- A connection that is accepted, attached for a while and detached leaves the bindings and the
-- connections of its peer as they were, if what happens meanwhile does, and if there are at least 2
-- fewer than 2^63 of each; so does one that is dialled, whoever answers.
pub serve-Has :
    (attach : Transport → Transport) (t : Transport) (remote other : Signatory) (m n : ℕ)
    → m + 2 < 2 ^ 63
    → n + 2 < 2 ^ 63
    → ((t' : Transport) (m' n' : ℕ) → Has remote m' n' t' → Has remote m' n' (attach t'))
    → Has remote m n t
    → Has remote m n (serve_accepted attach t remote)
      × Has remote m n (serve_dialled attach t remote other)
unfolding serve_accepted serve_dialled
serve-Has attach t remote other m n few_m few_n keeps h =
    let during : (t' : Transport) (m' : ℕ)
        → m' + 1 < 2 ^ 63
        → Has remote m' n t'
        → Has remote m' n (disconnect (attach (connect t' remote)) remote) =
      λ t' m' l k.
        disconnect-Has remote m' n (attach (connect t' remote))
          (keeps (connect t' remote) m' (n + 1) (connect-Has remote m' n l (omega arith) t' k)) in
    (
      elim (Bool-cases (is_linked t remote)) [
        | inl e ↦ rw e (during t m (omega arith) h)
        | inr e ↦
            let b = bind-Has remote m n (omega arith) (omega arith) t h in
            let k : m + 1 - 1 ≡ m = omega arith in
            rw e (
              subst
                (λ x. Has remote x n (
                  unbind_client (disconnect (attach (connect (bind_client t remote) remote)) remote)
                    remote))
                k
                (unbind-Has remote (m + 1) n (omega arith) (omega arith)
                  (disconnect (attach (connect (bind_client t remote) remote)) remote)
                  (during (bind_client t remote) (m + 1) (omega arith) b)))
      ],
      elim (Bool-cases (other == remote)) [
        | inl e ↦ rw e (during t m (omega arith) h)
        | inr e ↦ rw e h
      ],
    )
