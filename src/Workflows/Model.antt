-- ===== src/Workflows/Model.antt =====
-- The rows and JSON objects that the engine works on. Times are hours since an epoch.
use dgraphai.Prelude.{Bool, List, Option, String, ℕ}

pub record FileEntry : Type 0 where
  pub path : String

-- The outcome of one action on one file, with its path or the error.
pub data ActionResult : Type 0 where
  dry_run moved deleted tagged unknown_action : ActionResult
  error : String → ActionResult

-- The keys of a run's context that the engine reads or writes; `approvals` holds the statuses.
pub record Context : Type 0 where
  pub files : List FileEntry
  pub approvals : List String
  pub action_results : List ActionResult

pub data ActionType : Type 0 where
  move : String → ActionType
  delete : ActionType
  tag : List String → ActionType
  other : ActionType

-- One step with its config, by its type; `unknown` is any other type. An `else_step` is an index
-- of a step, not negative.
pub data Step : Type 0 where
  approval : String → ℕ → Step
  action : ActionType → Bool → Step
  notify : List String → Option String → String → Step
  condition : String → Option ℕ → Step
  unknown : Step

pub data RunStatus : Type 0 where
  running complete rejected : RunStatus

pub record Run : Type 0 where
  pub id : String
  pub template_id : String
  pub tenant_id : String
  pub status : RunStatus
  pub current_step : ℕ
  pub context : Context
  pub completed_at : Option ℕ
  pub rejected_at_step : Option (String × String)

-- `status` is "pending", "expired", or the decision.
pub record ApprovalRequest : Type 0 where
  pub id : String
  pub run_id : String
  pub tenant_id : String
  pub step_id : String
  pub status : String
  pub approver_id : Option String
  pub decision_note : Option String
  pub expires_at : Option ℕ
  pub decided_at : Option ℕ

pub record WorkflowTemplate : Type 0 where
  pub id : String
  pub tenant_id : String
  pub steps : List Step
  pub is_active : Bool

-- What the engine does outside the database.
pub data Effect : Type 0 where
  moved_file : String → String → Effect
  deleted_file : String → Effect
  posted : String → String → Effect

-- What happens outside: whether a move or a delete of a path raises, and with what message; and
-- Python's `eval` of an expression over the three counts, which may raise.
pub record Outside : Type 0 where
  pub fails : String → Option String
  pub eval_expression : String → ℕ → ℕ → ℕ → Option Bool

pub record Db : Type 0 where
  pub templates : List WorkflowTemplate
  pub runs : List Run
  pub approvals : List ApprovalRequest
