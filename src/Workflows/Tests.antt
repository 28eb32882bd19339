-- ===== src/Workflows/Tests.antt =====
-- Runs of the workflow engine at concrete inputs.
use dgraphai.Workflows.Engine.Termination.{self_jump_diverges}
use dgraphai.Prelude.{
  eq_iff, All, List, [], arith, false, none, refl, some, suc, true, zero, ◌∷◌, ◌≡◌,
}
use dgraphai.Workflows.Actions.{evaluate_condition, execute_action, send_notification}
use dgraphai.Workflows.Engine.{advance, new_request}
use dgraphai.Workflows.Engine.Gate.{advance_stops_at_gate, at_gate}
use dgraphai.Workflows.Engine.Termination.{IsSome, JumpsForward, advance_returns}
use dgraphai.Workflows.Model.{
  Context, Db, Outside, Run, Step, WorkflowTemplate, action, approval, complete, condition, delete,
  deleted, deleted_file, move, moved_file, notify, posted, rejected, running,
}
use dgraphai.Workflows.Runs.{
  decide_approval, find_pending, find_run, find_template, process_approval, raising, reject,
  returned, value_error,
}
use dgraphai.Workflows.Runs.Decisions.{NotExpired, decided_once, expired_never_stored, rejection}

-- Nothing fails, and each expression is false.
abbrev outside : Outside
outside = record { fails = λ p. none; eval_expression = λ e files approvals errors. some false }

abbrev move_to_archive : Step
move_to_archive = action (move "/archive") false

abbrev announce : Step
announce = notify ("email" ∷ "webhook" ∷ []) (some "https://hooks.example") "about to delete"

abbrev purge : Step
purge = action delete false

abbrev steps : List Step
steps = move_to_archive ∷ announce ∷ approval "ask" 48 ∷ purge ∷ []

abbrev context : Context
context = record {
  files = record { path = "/a" } ∷ record { path = "/b" } ∷ [];
  approvals = [];
  action_results = [];
}

abbrev run : Run
run = record {
  id = "run";
  template_id = "t";
  tenant_id = "acme";
  status = running;
  current_step = 0;
  context = context;
  completed_at = none;
  rejected_at_step = none;
}

abbrev template : WorkflowTemplate
template = record { id = "t"; tenant_id = "acme"; steps = steps; is_active = true }

abbrev waiting : Db
waiting = record {
  templates = template ∷ [];
  runs = record run { current_step = 2 } ∷ [];
  approvals = new_request "ask-1" 10 run "ask" 48 ∷ [];
}

advance_stops_at_gate_example :
    advance outside "ask-1" 10 steps 3 run
    ≡ some (at_gate outside "ask-1" 10 steps "ask" 48 (move_to_archive ∷ announce ∷ []) 2 run)
advance_stops_at_gate_example =
    advance_stops_at_gate outside "ask-1" 10 (move_to_archive ∷ announce ∷ []) (purge ∷ []) "ask" 48
      run (tt, (tt, tt)) refl

gate_effects :
    (at_gate outside "ask-1" 10 steps "ask" 48 (move_to_archive ∷ announce ∷ []) 2 run).effects
    ≡ moved_file "/a" "/archive"
      ∷ moved_file "/b" "/archive"
      ∷ posted "https://hooks.example" "about to delete"
      ∷ []
unfolding execute_action send_notification
gate_effects = refl

-- with the approval the deletion follows and the run is complete
approved_run :
    (process_approval outside "ask-2" 20 1000 "ask-1" "ann" "approved" "" waiting).effects
    ≡ deleted_file "/a" ∷ deleted_file "/b" ∷ []
unfolding process_approval advance execute_action find_pending find_run find_template
approved_run = refl

approved_answer :
    (process_approval outside "ask-2" 20 1000 "ask-1" "ann" "approved" "" waiting).answer
    ≡ returned (record run {
      status = complete;
      current_step = 4;
      completed_at = some 20;
      context = record context { action_results = deleted ∷ deleted ∷ [] };
    })
unfolding process_approval advance execute_action find_pending find_run find_template
approved_answer = refl

decided_once_example :
    process_approval outside "ask-3" 21 1000 "ask-1" "bob" "rejected" "no"
      (process_approval outside "ask-2" 20 1000 "ask-1" "ann" "approved" "" waiting).db
    ≡ raising
        (process_approval outside "ask-2" 20 1000 "ask-1" "ann" "approved" "" waiting).db
        (value_error "Approval not found or already decided")
decided_once_example =
    decided_once outside "ask-2" "ask-1" 20 1000 "ann" "approved" "" waiting
      (record run {
        status = complete;
        current_step = 4;
        completed_at = some 20;
        context = record context { action_results = deleted ∷ deleted ∷ [] };
      })
      "ask-3" 21 "bob" "rejected" "no" refl refl approved_answer

abbrev rejected_run : Run
rejected_run = reject 20 "ask" "no" (record run { current_step = 2 })

rejected_answer :
    (process_approval outside "ask-2" 20 1000 "ask-1" "ann" "rejected" "no" waiting).answer
    ≡ returned rejected_run
unfolding process_approval find_pending find_run
rejected_answer = refl

rejection_run :
    ((process_approval outside "ask-2" 20 1000 "ask-1" "ann" "rejected" "no" waiting).effects ≡ [])
    × (rejected_run.status ≡ rejected)
    × (rejected_run.completed_at ≡ some 20)
rejection_run =
    rejection outside "ask-2" "ask-1" 20 1000 "ann" "no" waiting rejected_run rejected_answer

-- a decision a hundred hours later
expired_never_stored_example :
    All NotExpired
      (decide_approval outside "ask-2" 110 1000
        ("admin:*" ∷ [])
        "ann"
        "ask-1"
        "approved"
        ""
        waiting).0.approvals
expired_never_stored_example =
    expired_never_stored outside "ask-2" 110 1000 ("admin:*" ∷ []) "ann" "ask-1" "approved" ""
      waiting ((λ e. ground (arith, eq_iff "pending" "expired")), tt)

abbrev forward : List Step
forward = condition "file_count > 5" (some 2) ∷ purge ∷ announce ∷ []

forward-JumpsForward : JumpsForward forward
forward-JumpsForward zero n e h = ground arith
forward-JumpsForward (suc zero) n e h = ground arith
forward-JumpsForward (suc (suc zero)) n e h = ground arith
forward-JumpsForward (suc (suc (suc i))) n e h = ground arith

advance_returns_example : IsSome (advance outside "ask-1" 10 forward 4 run)
advance_returns_example =
    advance_returns outside "ask-1" 10 forward 4 run forward-JumpsForward (omega arith)
      (omega arith)

-- a template whose condition jumps back to itself, with a false expression, exceeds any call depth
abbrev looping : List Step
looping = condition "file_count > 5" (some 0) ∷ []

is_false : evaluate_condition outside context "file_count > 5" ≡ false
unfolding evaluate_condition
is_false = refl

self_jump_diverges_run : advance outside "ask-1" 10 looping 1000 run ≡ none
self_jump_diverges_run =
    self_jump_diverges outside "ask-1" 10 looping "file_count > 5" run 1000 refl is_false
