-- ===== src/Policy/Compose.antt =====
-- `All` and `Any` of policy/allow.go: when they pass, which policies they run, what they clean up.
use aw.Base.{
  ℕ, ◌≡◌, refl, ap, ◌∙◌, inl, inr, Bool, true, false, ◌&&◌, ◌||◌, none, some, List, [], ◌∷◌, ◌++◌,
  arith, Option-cases, nat_Eq, bytes_Eq, All,
}
use aw.Policy.{Outcome, Allow, is_none, prepend, all_loop, all, any_loop, any}

module _ {S : Type 0} where
  -- The state after the connection was let go: the clean-up, if there is one, run at once.
  abbrev pub undo : Outcome S → S
  undo o = elim o.cleanup [ none ↦ o.state | some g ↦ g o.state ]

  undo-prepend :
      (o : Outcome S) (cleanup : S → S) → prepend o.cleanup cleanup o.state ≡ cleanup (undo o)
  unfolding prepend
  undo-prepend o cleanup = elim (Option-cases o.cleanup) [
    | inl e ↦ rw e refl
    | inr (g, e) ↦ rw e refl
  ]

or_true : (b : Bool) → true ≡ (b || true)
or_true true = refl
or_true false = refl

module _ {Conn S : Type 0} where
  -- The clean-up reverses what the policy did to the state, whether it passed or not.
  abbrev pub IsReversible : Allow Conn S → Type 0
  IsReversible f = (conn : Conn) (s : S) → undo (f conn s) ≡ s

  pub all_loop-pass :
      (f : Allow Conn S) (fs : List (Allow Conn S)) (conn : Conn) (s : S) (cleanup : S → S)
      → (f conn s).error ≡ none
      → all_loop (f ∷ fs) conn s cleanup
        ≡ all_loop fs conn (f conn s).state (prepend (f conn s).cleanup cleanup)
  unfolding all_loop
  all_loop-pass f fs conn s cleanup e = rw (e, all_loop)

  pub all_loop-fail :
      (f : Allow Conn S) (fs : List (Allow Conn S)) (conn : Conn) (s : S) (cleanup : S → S)
      {x : List ℕ}
      → (f conn s).error ≡ some x
      → all_loop (f ∷ fs) conn s cleanup ≡ record {
        error = some x;
        cleanup = some (prepend (f conn s).cleanup cleanup);
        state = (f conn s).state;
      }
  unfolding all_loop
  all_loop-fail f fs conn s cleanup e = rw (e, all_loop)

  any_loop-pass :
      (f : Allow Conn S) (fs : List (Allow Conn S)) (conn : Conn) (s : S) (cleanup : S → S)
      (passed : Bool) (errs : List (List ℕ))
      → (f conn s).error ≡ none
      → any_loop (f ∷ fs) conn s cleanup passed errs
        ≡ any_loop fs conn (f conn s).state (prepend (f conn s).cleanup cleanup) true errs
  unfolding any_loop
  any_loop-pass f fs conn s cleanup passed errs e = rw (e, any_loop)

  any_loop-fail :
      (f : Allow Conn S) (fs : List (Allow Conn S)) (conn : Conn) (s : S) (cleanup : S → S)
      (passed : Bool) (errs : List (List ℕ)) {x : List ℕ}
      → (f conn s).error ≡ some x
      → any_loop (f ∷ fs) conn s cleanup passed errs
        ≡ any_loop fs conn
            (f conn s).state
            (prepend (f conn s).cleanup cleanup)
            passed
            (errs ++ (x ∷ []))
  unfolding any_loop
  any_loop-fail f fs conn s cleanup passed errs e = rw (e, any_loop)

  all_loop-undo :
      (fs : List (Allow Conn S)) (conn : Conn) (s : S) (cleanup : S → S)
      → All IsReversible fs
      → undo (all_loop fs conn s cleanup) ≡ cleanup s
  unfolding all_loop
  all_loop-undo [] conn s cleanup h = refl
  all_loop-undo (f ∷ fs) conn s cleanup h =
      let o = f conn s in
      let back : prepend o.cleanup cleanup o.state ≡ cleanup s =
        undo-prepend o cleanup ∙ ap cleanup (h.0 conn s) in
      elim (Option-cases o.error) [
        | inl e ↦
            rw (all_loop-pass f fs conn s cleanup e)
              (all_loop-undo fs conn o.state (prepend o.cleanup cleanup) h.1 ∙ back)
        | inr (x, e) ↦ rw (all_loop-fail f fs conn s cleanup e) back
      ]

  -- If the clean-up of each policy reverses what that policy did, then the clean-up of `All` reverses
  -- all of it, also where a policy failed and the later ones were not run.
  pub all-IsReversible : (fs : List (Allow Conn S)) → All IsReversible fs → IsReversible (all fs)
  unfolding all
  all-IsReversible fs h conn s = all_loop-undo fs conn s (λ t. t) h

  any_loop-undo :
      (fs : List (Allow Conn S)) (conn : Conn) (s : S) (cleanup : S → S) (passed : Bool)
      (errs : List (List ℕ))
      → All IsReversible fs
      → undo (any_loop fs conn s cleanup passed errs) ≡ cleanup s
  unfolding any_loop
  any_loop-undo [] conn s cleanup passed errs h = ground arith
  any_loop-undo (f ∷ fs) conn s cleanup passed errs h =
      let o = f conn s in
      let back : prepend o.cleanup cleanup o.state ≡ cleanup s =
        undo-prepend o cleanup ∙ ap cleanup (h.0 conn s) in
      elim (Option-cases o.error) [
        | inl e ↦
            rw (any_loop-pass f fs conn s cleanup passed errs e)
              (any_loop-undo fs conn o.state (prepend o.cleanup cleanup) true errs h.1 ∙ back)
        | inr (x, e) ↦ rw (any_loop-fail f fs conn s cleanup passed errs e) (
            any_loop-undo fs conn o.state (prepend o.cleanup cleanup) passed (errs ++ (x ∷ [])) h.1
            ∙ back)
      ]

  -- The same of `Any`.
  pub any-IsReversible : (fs : List (Allow Conn S)) → All IsReversible fs → IsReversible (any fs)
  unfolding any
  any-IsReversible fs h conn s = any_loop-undo fs conn s (λ t. t) false [] h

  -- Does each policy pass, each in the state that those before it left?
  abbrev pub passes_all : List (Allow Conn S) → Conn → S → Bool
  passes_all [] conn s = true
  passes_all (f ∷ fs) conn s = is_none (f conn s).error && passes_all fs conn (f conn s).state

  abbrev pub passes_any : List (Allow Conn S) → Conn → S → Bool
  passes_any [] conn s = false
  passes_any (f ∷ fs) conn s = is_none (f conn s).error || passes_any fs conn (f conn s).state

  -- The state after all policies were run, and after those up to the first that fails.
  abbrev pub run_all : List (Allow Conn S) → Conn → S → S
  run_all [] conn s = s
  run_all (f ∷ fs) conn s = run_all fs conn (f conn s).state

  abbrev pub run_lazy : List (Allow Conn S) → Conn → S → S
  run_lazy [] conn s = s
  run_lazy (f ∷ fs) conn s = elim (f conn s).error [
    | none ↦ run_lazy fs conn (f conn s).state
    | some e ↦ (f conn s).state
  ]

  all_loop_lem :
      (fs : List (Allow Conn S)) (conn : Conn) (s : S) (cleanup : S → S)
      → (is_none (all_loop fs conn s cleanup).error ≡ passes_all fs conn s)
        × ((all_loop fs conn s cleanup).state ≡ run_lazy fs conn s)
  unfolding all_loop
  all_loop_lem [] conn s cleanup = (refl, refl)
  all_loop_lem (f ∷ fs) conn s cleanup = elim (Option-cases (f conn s).error) [
    | inl e ↦
        rw (all_loop-pass f fs conn s cleanup e, e)
          (all_loop_lem fs conn (f conn s).state (prepend (f conn s).cleanup cleanup))
    | inr (x, e) ↦ rw (all_loop-fail f fs conn s cleanup e, e) (refl, refl)
  ]

  -- `All` passes exactly if every policy passes, and runs none after one that fails.
  pub all_lem :
      (fs : List (Allow Conn S)) (conn : Conn) (s : S)
      → (is_none (all fs conn s).error ≡ passes_all fs conn s)
        × ((all fs conn s).state ≡ run_lazy fs conn s)
  unfolding all
  all_lem fs conn s = all_loop_lem fs conn s (λ t. t)

  any_loop_lem :
      (fs : List (Allow Conn S)) (conn : Conn) (s : S) (cleanup : S → S) (passed : Bool)
      (errs : List (List ℕ))
      → (is_none (any_loop fs conn s cleanup passed errs).error ≡ (passed || passes_any fs conn s))
        × ((any_loop fs conn s cleanup passed errs).state ≡ run_all fs conn s)
  unfolding any_loop
  any_loop_lem [] conn s cleanup passed errs = ground arith
  any_loop_lem (f ∷ fs) conn s cleanup passed errs = elim (Option-cases (f conn s).error) [
    | inl e ↦
        rw (any_loop-pass f fs conn s cleanup passed errs e, e)
          (let (a, b) =
              any_loop_lem fs conn (f conn s).state (prepend (f conn s).cleanup cleanup) true
                errs in
            (a ∙ or_true passed, b))
    | inr (x, e) ↦
        rw (any_loop-fail f fs conn s cleanup passed errs e, e)
          (any_loop_lem fs conn (f conn s).state (prepend (f conn s).cleanup cleanup) passed
            (errs ++ (x ∷ [])))
  ]

  -- `Any` passes exactly if some policy passes, and runs them all in either case.
  pub any_lem :
      (fs : List (Allow Conn S)) (conn : Conn) (s : S)
      → (is_none (any fs conn s).error ≡ passes_any fs conn s)
        × ((any fs conn s).state ≡ run_all fs conn s)
  unfolding any
  any_lem fs conn s = any_loop_lem fs conn s (λ t. t) false []
