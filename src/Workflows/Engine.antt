-- ===== src/Workflows/Engine.antt =====
-- `WorkflowEngine._advance`. The clock is read once; the identifier of the approval request, of
-- which one call adds at most one, is an argument. A posted message keeps its variables unreplaced.
pub mod Gate
pub mod Termination
use dgraphai.Prelude.{
  List, Option, String, [], false, get_elem?, none, some, suc, true, zero, ℕ, ◌++◌, ◌+◌, ◌∷◌,
}
use dgraphai.Workflows.Actions.{evaluate_condition, execute_action, send_notification}
use dgraphai.Workflows.Model.{
  ApprovalRequest, Effect, Outside, Run, Step, action, approval, complete, condition, notify,
  unknown,
}

-- The run that advances, with the approval requests that it adds and what it does outside.
pub record Progress : Type 0 where
  pub run : Run
  pub requests : List ApprovalRequest
  pub effects : List Effect

abbrev pub finish : ℕ → Run → Run
finish now run = record run { status = complete; completed_at = some now }

abbrev pub at_step : ℕ → Run → Run
at_step n run = record run { current_step = n }

abbrev pub new_request : String → ℕ → Run → String → ℕ → ApprovalRequest
new_request id now run step_id timeout_hours = record {
  id = id;
  run_id = run.id;
  tenant_id = run.tenant_id;
  step_id = step_id;
  status = "pending";
  approver_id = none;
  decision_note = none;
  expires_at = some (now + timeout_hours);
  decided_at = none;
}

-- what was done before is kept in front
abbrev pub after_effects : List Effect → Option Progress → Option Progress
after_effects es none = none
after_effects es (some p) = some (record p { effects = es ++ p.effects })

module _ (o : Outside) (fresh : String) (now : ℕ) (steps : List Step) where
  -- `_advance`. The fuel is Python's recursion limit: `none` is a `RecursionError`. `go` is the
  -- recursive call on the rest of the fuel.
  abbrev pub advance_step : (Run → Option Progress) → Run → Option Step → Option Progress
  advance_step go run none = some (record { run = finish now run; requests = []; effects = [] })
  advance_step go run (some (approval step_id timeout_hours)) = some (record {
    run = run;
    requests = new_request fresh now run step_id timeout_hours ∷ [];
    effects = [];
  })
  advance_step go run (some (action t dry)) =
      let (c, es) = execute_action o t dry run.context in
      after_effects es (go (record run { context = c; current_step = suc run.current_step }))
  advance_step go run (some (notify channels url message)) =
      after_effects (send_notification o channels url message)
        (go (at_step (suc run.current_step) run))
  advance_step go run (some (condition expression else_step)) =
      elim (evaluate_condition o run.context expression) [
        | true ↦ go (at_step (suc run.current_step) run)
        | false ↦ elim else_step [
          | none ↦ some (record { run = finish now run; requests = []; effects = [] })
          | some n ↦ go (at_step n run)
        ]
      ]
  advance_step go run (some unknown) = some (record { run = run; requests = []; effects = [] })

  unfoldable pub advance : ℕ → Run → Option Progress
  advance zero run = none
  advance (suc fuel) run = advance_step (advance fuel) run (get_elem? steps run.current_step)
