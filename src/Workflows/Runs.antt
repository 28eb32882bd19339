-- ===== src/Workflows/Runs.antt =====
-- `start_run`, `process_approval` and the decision endpoint.
pub mod Decisions
use dgraphai.Workflows.Engine.{Progress}
use dgraphai.Prelude.{
  Bool, List, Option, String, [], false, if◌then◌else◌, ltb, none, some, str_eq, suc, true, ℕ, ◌&&◌,
  ◌++◌, ◌||◌, ◌∷◌,
}
use dgraphai.Prelude.Dict.{contains}
use dgraphai.Workflows.Engine.{advance, at_step}
use dgraphai.Workflows.Model.{
  ApprovalRequest, Context, Db, Effect, Outside, Run, WorkflowTemplate, rejected, running,
}

-- What a request raises: a `ValueError`, `scalar_one` without a row, the recursion limit.
pub data Raised : Type 0 where
  value_error : String → Raised
  no_result_found recursion_error : Raised

pub data Answer : Type 0 where
  returned : Run → Answer
  raised : Raised → Answer

-- The rows of the session, what was done outside, and the run or what was raised.
pub record Session : Type 0 where
  pub db : Db
  pub effects : List Effect
  pub answer : Answer

abbrev pub raising : Db → Raised → Session
raising d e = record { db = d; effects = []; answer = raised e }

-- A row is selected by its primary key.
unfoldable pub find_template : String → List WorkflowTemplate → Option WorkflowTemplate
find_template id [] = none
find_template id (t ∷ ts) = if str_eq t.id id then some t else find_template id ts

unfoldable pub find_run : String → List Run → Option Run
find_run id [] = none
find_run id (r ∷ rs) = if str_eq r.id id then some r else find_run id rs

abbrev pub is_pending : String → Bool
is_pending status = str_eq status "pending"

unfoldable pub find_pending : String → List ApprovalRequest → Option ApprovalRequest
find_pending id [] = none
find_pending id (a ∷ rest) =
    if str_eq a.id id && is_pending a.status then some a else find_pending id rest

unfoldable pub store_run : Run → List Run → List Run
store_run run [] = []
store_run run (r ∷ rs) = (if str_eq r.id run.id then run else r) ∷ store_run run rs

unfoldable pub store_approval : ApprovalRequest → List ApprovalRequest → List ApprovalRequest
store_approval a [] = []
store_approval a (b ∷ bs) = (if str_eq b.id a.id then a else b) ∷ store_approval a bs

-- `approval.expires_at and approval.expires_at < now`
abbrev pub past_expiry : ℕ → ApprovalRequest → Bool
past_expiry now a = elim a.expires_at [ none ↦ false | some t ↦ ltb t now ]

-- The run is stored with the context that was loaded: the column is plain JSON, in which SQLAlchemy
-- does not see the change in place that `_execute_action` makes.
abbrev pub settle : Run → Db → Option Progress → Session
settle run d none = raising d recursion_error
settle run d (some p) = record {
  db = record d {
    runs = store_run (record p.run { context = run.context }) d.runs;
    approvals = d.approvals ++ p.requests;
  };
  effects = p.effects;
  answer = returned p.run;
}

abbrev pub new_run : String → String → WorkflowTemplate → Context → Run
new_run run_id tenant_id t c = record {
  id = run_id;
  template_id = t.id;
  tenant_id = tenant_id;
  status = running;
  current_step = 0;
  context = c;
  completed_at = none;
  rejected_at_step = none;
}

abbrev pub decide : ℕ → String → String → String → ApprovalRequest → ApprovalRequest
decide now approver_id decision note a = record a {
  status = decision;
  approver_id = some approver_id;
  decision_note = some note;
  decided_at = some now;
}

abbrev pub reject : ℕ → String → String → Run → Run
reject now step_id note run = record run {
  status = rejected;
  completed_at = some now;
  rejected_at_step = some (step_id, note);
}

-- The endpoint's answer: the run, an HTTP error, or an exception that no handler catches.
pub data Response : Type 0 where
  ok : Run → Response
  http_exception : ℕ → String → Response
  unhandled : Raised → Response

abbrev pub respond : Answer → Response
respond (returned run) = ok run
respond (raised (value_error e)) = http_exception 400 e
respond (raised no_result_found) = unhandled no_result_found
respond (raised recursion_error) = unhandled recursion_error

-- `get_db`: commit what the session holds, or roll back to what was stored
abbrev pub get_db : Db → Db → Answer → Db
get_db before after (returned run) = after
get_db before after (raised e) = before

module _ (o : Outside) (fresh : String) (now : ℕ) (recursion_limit : ℕ) where
  abbrev pub resume : WorkflowTemplate → Run → Db → Session
  resume t run d = settle run d (advance o fresh now t.steps recursion_limit run)

  unfoldable pub start_run : String → String → String → Context → Db → Session
  unfolding find_template
  start_run run_id template_id tenant_id c d = elim (find_template template_id d.templates) [
    | none ↦ raising d (value_error "Workflow template not found or inactive")
    | some t ↦
        (if str_eq t.tenant_id tenant_id && t.is_active
          then resume t (new_run run_id tenant_id t c)
              (record d { runs = d.runs ++ new_run run_id tenant_id t c ∷ [] })
          else raising d (value_error "Workflow template not found or inactive"))
  ]

  -- the next step of the run, in the template that is found for it
  abbrev pub proceed : Run → Db → Option WorkflowTemplate → Session
  proceed run d none = raising d no_result_found
  proceed run d (some t) = resume t (at_step (suc run.current_step) run) d

  -- what `process_approval` does with the run of a decided approval
  abbrev pub conclude : String → String → ApprovalRequest → Db → Option Run → Session
  conclude decision note a d none = raising d no_result_found
  conclude decision note a d (some run) =
      if str_eq decision "rejected"
      then record {
        db = record d { runs = store_run (reject now a.step_id note run) d.runs };
        effects = [];
        answer = returned (reject now a.step_id note run);
      }
      else proceed run d (find_template run.template_id d.templates)

  abbrev pub on_approval : String → String → String → Db → Option ApprovalRequest → Session
  on_approval approver_id decision note d none =
      raising d (value_error "Approval not found or already decided")
  on_approval approver_id decision note d (some a) =
      if past_expiry now a
      then raising
          (record d { approvals = store_approval (record a { status = "expired" }) d.approvals })
          (value_error "Approval request has expired")
      else conclude decision note a
          (record d {
            approvals = store_approval (decide now approver_id decision note a) d.approvals;
          })
          (find_run a.run_id d.runs)

  unfoldable pub process_approval : String → String → String → String → Db → Session
  process_approval approval_id approver_id decision note d =
      on_approval approver_id decision note d (find_pending approval_id d.approvals)

  -- the permissions are the caller's; the database, what was done outside, and the response
  unfoldable pub decide_approval :
      List String → String → String → String → String → Db → Db × List Effect × Response
  unfolding process_approval
  decide_approval permissions user_id approval_id decision note d =
      if str_eq decision "approved" || str_eq decision "rejected"
      then (if contains "actions:approve" permissions || contains "admin:*" permissions
          then (let s = process_approval approval_id user_id decision note d in
              (get_db d s.db s.answer, s.effects, respond s.answer))
          else (d, [], http_exception 403 "Permission required: actions:approve"))
      else (d, [], http_exception 400 "decision must be 'approved' or 'rejected'")
