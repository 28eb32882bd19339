-- ===== src/Workflows/Engine/Gate.antt =====
-- What a run does up to an approval step.
use dgraphai.Prelude.{ap, subst, sym}
use dgraphai.Prelude.{arith}
use dgraphai.Prelude.{
  All, List, String, [], get_elem?, length, refl, some, suc, ℕ, ◌++◌, ◌+◌, ◌∷◌, ◌≡◌,
}
use dgraphai.Workflows.Actions.{execute_action, send_notification}
use dgraphai.Workflows.Engine.{Progress, advance, at_step, new_request}
use dgraphai.Workflows.Model.{
  Context, Effect, Outside, Run, Step, action, approval, condition, notify, unknown,
}

-- an action or a notification
abbrev pub IsWork : Step → Type 0
IsWork (action t dry) = Unit
IsWork (notify channels url message) = Unit
IsWork _ = ⊥

same : (n m : ℕ) → n ≡ m + 0 → m ≡ n
same n m e = omega arith

module _ (o : Outside) where
  -- the context and the effects of a list of actions and notifications, in order
  abbrev pub work : List Step → Context → Context × List Effect
  work [] c = (c, [])
  work (action t dry ∷ ss) c =
      let (c1, es) = execute_action o t dry c in let (c2, fs) = work ss c1 in (c2, es ++ fs)
  work (notify channels url message ∷ ss) c =
      let (c2, fs) = work ss c in (c2, send_notification o channels url message ++ fs)
  work (s ∷ ss) c = work ss c

  -- the list stands in the template from index `n` on
  abbrev pub Follows : List Step → ℕ → List Step → Type 0
  Follows steps n [] = Unit
  Follows steps n (s ∷ ss) = (get_elem? steps n ≡ some s) × Follows steps (suc n) ss

  Follows-shift :
      (s : Step) (steps : List Step) (n : ℕ) (xs : List Step)
      → Follows steps n xs
      → Follows (s ∷ steps) (suc n) xs
  Follows-shift s steps n [] h = tt
  Follows-shift s steps n (x ∷ xs) h = (h.0, Follows-shift s steps (suc n) xs h.1)

  pub Follows-self : (xs : List Step) → Follows xs 0 xs
  Follows-self [] = tt
  Follows-self (x ∷ xs) = (refl, Follows-shift x xs 0 xs (Follows-self xs))

  module _ (fresh : String) (now : ℕ) (steps : List Step) (id : String) (hours : ℕ) where
    abbrev pub at_gate : List Step → ℕ → Run → Progress
    at_gate pre n run = record {
      run = record run { context = (work pre run.context).0; current_step = n };
      requests = new_request fresh now run id hours ∷ [];
      effects = (work pre run.context).1;
    }

    pub advance-gate :
        (pre rest : List Step) (n : ℕ) (run : Run)
        → All IsWork pre
        → n ≡ run.current_step + length pre
        → Follows steps run.current_step (pre ++ approval id hours ∷ rest)
        → advance o fresh now steps (suc (length pre)) run ≡ some (at_gate pre n run)
    unfolding advance
    advance-gate [] rest n run w e h =
        rw (h.0) (ap (λ m. some (at_gate [] m run)) (same n run.current_step e))
    advance-gate (action t dry ∷ pre) rest n run w e h =
        let c = (execute_action o t dry run.context).0 in
        rw
          (
            h.0,
            advance-gate pre rest n
                (record run { context = c; current_step = suc run.current_step }) w.1 (omega arith)
                h.1,
          )
          refl
    advance-gate (notify channels url message ∷ pre) rest n run w e h =
        rw (h.0, advance-gate pre rest n (at_step (suc run.current_step) run) w.1 (omega arith) h.1)
          refl
    advance-gate (approval i hs ∷ pre) rest n run w e h = elim w.0 [ ]
    advance-gate (condition x j ∷ pre) rest n run w e h = elim w.0 [ ]
    advance-gate (unknown ∷ pre) rest n run w e h = elim w.0 [ ]

-- A run that stands at the first step of a template whose first steps are actions and notifications,
-- with an approval behind them and anything behind that: a call depth of one more than the number of
-- the first steps is enough. What is done outside is exactly the work of those steps, in order, the
-- run waits at the approval, and one approval request for it is added; nothing behind it is done.
pub advance_stops_at_gate :
    (o : Outside) (fresh : String) (now : ℕ) (pre rest : List Step) (id : String) (hours : ℕ)
    (run : Run)
    → All IsWork pre
    → run.current_step ≡ 0
    → advance o fresh now (pre ++ approval id hours ∷ rest) (suc (length pre)) run
      ≡ some (at_gate o fresh now (pre ++ approval id hours ∷ rest) id hours pre (length pre) run)
advance_stops_at_gate o fresh now pre rest id hours run w e =
    advance-gate o fresh now (pre ++ approval id hours ∷ rest) id hours pre rest (length pre) run w
      (omega arith)
      (subst (λ n. Follows o (pre ++ approval id hours ∷ rest) n (pre ++ approval id hours ∷ rest))
        (sym e) (Follows-self o (pre ++ approval id hours ∷ rest)))
