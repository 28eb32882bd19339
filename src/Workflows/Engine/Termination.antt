-- ===== src/Workflows/Engine/Termination.antt =====
-- Which templates come to rest, and what fuel is enough.
use dgraphai.Prelude.{Bool, false, true}
use dgraphai.Prelude.{◌+◌}
use dgraphai.Workflows.Actions.{evaluate_condition}
use dgraphai.Workflows.Engine.{advance}
use dgraphai.Prelude.{
  List, Option, String, [], arith, get_elem?, length, none, refl, some, suc, zero, ℕ, ◌<◌, ◌∷◌, ◌≡◌,
  ◌≤◌,
}
use dgraphai.Workflows.Actions.{execute_action, send_notification}
use dgraphai.Workflows.Engine.{advance_step, Progress, after_effects}
use dgraphai.Workflows.Model.{
  Effect, Outside, Run, Step, action, approval, condition, notify, unknown,
}

get_elem?-none : {A : Type 0} (xs : List A) (n : ℕ) → length xs ≤ n → get_elem? xs n ≡ none
get_elem?-none [] n h = refl
get_elem?-none (x ∷ xs) zero h = ground arith
get_elem?-none (x ∷ xs) (suc n) h = get_elem?-none xs n (omega arith)

get_elem?-some :
    {A : Type 0} (xs : List A) (n : ℕ) (a : A) → get_elem? xs n ≡ some a → n < length xs
get_elem?-some [] n a h = ground arith
get_elem?-some (x ∷ xs) zero a h = omega arith
get_elem?-some (x ∷ xs) (suc n) a h = omega (arith, get_elem?-some xs n a h)

-- each jump of a condition goes forward
abbrev pub JumpsForward : List Step → Type 0
JumpsForward steps =
    (i n : ℕ) (e : String) → get_elem? steps i ≡ some (condition e (some n)) → i < n

abbrev pub IsSome : {A : Type 0} → Option A → Type 0
IsSome none = ⊥
IsSome (some a) = Unit

after_effects-IsSome :
    (es : List Effect) (p : Option Progress) → IsSome p → IsSome (after_effects es p)
after_effects-IsSome es none h = h
after_effects-IsSome es (some p) h = tt

choice-IsSome :
    (b : Bool) (p q : Option Progress)
    → IsSome p
    → IsSome q
    → IsSome (elim b [ true ↦ p | false ↦ q ])
choice-IsSome true p q h k = h
choice-IsSome false p q h k = k

module _ (o : Outside) (fresh : String) (now : ℕ) (steps : List Step) where
  step-IsSome :
      (go : Run → Option Progress) (run : Run) (s : Option Step)
      → ((r : Run) → run.current_step < r.current_step → IsSome (go r))
      → ((e : String) (n : ℕ) → s ≡ some (condition e (some n)) → run.current_step < n)
      → IsSome (advance_step o fresh now steps go run s)
  step-IsSome go run none rec jump = tt
  step-IsSome go run (some (approval id hours)) rec jump = tt
  step-IsSome go run (some (action t dry)) rec jump =
      after_effects-IsSome (execute_action o t dry run.context).1 _ (rec _ (omega arith))
  step-IsSome go run (some (notify channels url message)) rec jump =
      after_effects-IsSome (send_notification o channels url message) _ (rec _ (omega arith))
  step-IsSome go run (some (condition e none)) rec jump =
      choice-IsSome (evaluate_condition o run.context e) _ _ (rec _ (omega arith)) tt
  step-IsSome go run (some (condition e (some n))) rec jump =
      choice-IsSome (evaluate_condition o run.context e) _ _ (rec _ (omega arith))
        (rec _ (jump e n refl))
  step-IsSome go run (some unknown) rec jump = tt

  -- When every `else_step` jumps forward, a call depth of one more than the steps that are left is
  -- enough: the run comes to rest.
  pub advance_returns :
      (fuel : ℕ) (run : Run)
      → JumpsForward steps
      → 0 < fuel
      → length steps < fuel + run.current_step
      → IsSome (advance o fresh now steps fuel run)
  unfolding advance
  advance_returns zero run fwd h enough = omega arith
  advance_returns (suc zero) run fwd h enough =
      rw (get_elem?-none steps run.current_step (omega arith)) tt
  advance_returns (suc (suc fuel)) run fwd h enough =
      step-IsSome (advance o fresh now steps (suc fuel)) run (get_elem? steps run.current_step)
        (λ r later. advance_returns (suc fuel) r fwd (omega arith) (omega arith))
        (λ e n j. fwd run.current_step n e j)

choice_none :
    (b : Bool) (p q : Option Progress)
    → b ≡ false
    → q ≡ none
    → elim b [ true ↦ p | false ↦ q ] ≡ none
choice_none true p q e f = ground arith
choice_none false p q e f = f

-- A run at a condition that is false and jumps to itself never comes to rest: at every call depth
-- the recursion is cut off.
pub self_jump_diverges :
    (o : Outside) (fresh : String) (now : ℕ) (steps : List Step) (e : String) (run : Run) (fuel : ℕ)
    → get_elem? steps run.current_step ≡ some (condition e (some run.current_step))
    → evaluate_condition o run.context e ≡ false
    → advance o fresh now steps fuel run ≡ none
unfolding advance
self_jump_diverges o fresh now steps e run zero here off = refl
self_jump_diverges o fresh now steps e run (suc fuel) here off = rw here (
    choice_none (evaluate_condition o run.context e) _ _ off
      (self_jump_diverges o fresh now steps e run fuel here off))
