-- ===== src/Workflows/Runs/Decisions.antt =====
-- What a decision does, and what it cannot do.
use dgraphai.Workflows.Runs.{Answer}
use dgraphai.Workflows.Runs.{raised}
use dgraphai.Workflows.Runs.{get_db}
use dgraphai.Prelude.{ap, ◌≢◌}
use dgraphai.Workflows.Model.{rejected}
use dgraphai.Workflows.Runs.{decide, decide_approval, find_run, on_approval, raising, value_error}
use dgraphai.Prelude.{arith, eq_iff, refl, ◌||◌, ◌&&◌, ◌≡◌}
use dgraphai.Workflows.Engine.{advance_step, at_step}
use dgraphai.Workflows.Runs.{
  find_pending, find_template, is_pending, proceed, process_approval, returned, settle,
}
use dgraphai.Prelude.{
  All, All-append, Bool, Bool-cases, List, Option, Option-cases, String, [], false, get_elem?, inl,
  inr, none, some, str_eq, suc, true, zero, ℕ, ◌∷◌,
}
use dgraphai.Workflows.Actions.{evaluate_condition, execute_action, send_notification}
use dgraphai.Workflows.Engine.{Progress, advance, after_effects, new_request}
use dgraphai.Workflows.Model.{
  ApprovalRequest, Db, Effect, Outside, Run, Step, WorkflowTemplate, action, approval, condition,
  notify, unknown,
}
use dgraphai.Workflows.Runs.{conclude, store_approval}

-- What holds of the requests that a run adds.
abbrev pub Adds : (ApprovalRequest → Type 0) → Option Progress → Type 0
Adds P none = Unit
Adds P (some p) = All P p.requests

after_effects-Adds :
    (P : ApprovalRequest → Type 0) (es : List Effect) (p : Option Progress)
    → Adds P p
    → Adds P (after_effects es p)
after_effects-Adds P es none h = tt
after_effects-Adds P es (some p) h = h

choice-Adds :
    (P : ApprovalRequest → Type 0) (b : Bool) (p q : Option Progress)
    → Adds P p
    → Adds P q
    → Adds P (elim b [ true ↦ p | false ↦ q ])
choice-Adds P true p q h k = h
choice-Adds P false p q h k = k

module _ (o : Outside) (fresh : String) (now : ℕ) (P : ApprovalRequest → Type 0)
    (new : (run : Run) (id : String) (hours : ℕ) → P (new_request fresh now run id hours)) where
  step-Adds :
      (steps : List Step) (go : Run → Option Progress) (run : Run) (s : Option Step)
      → ((r : Run) → Adds P (go r))
      → Adds P (advance_step o fresh now steps go run s)
  step-Adds steps go run none h = tt
  step-Adds steps go run (some (approval id hours)) h = (new run id hours, tt)
  step-Adds steps go run (some (action t dry)) h =
      after_effects-Adds P (execute_action o t dry run.context).1 _ (h _)
  step-Adds steps go run (some (notify channels url message)) h =
      after_effects-Adds P (send_notification o channels url message) _ (h _)
  step-Adds steps go run (some (condition e none)) h =
      choice-Adds P (evaluate_condition o run.context e) _ _ (h _) tt
  step-Adds steps go run (some (condition e (some n))) h =
      choice-Adds P (evaluate_condition o run.context e) _ _ (h _) (h _)
  step-Adds steps go run (some unknown) h = tt

  advance-Adds :
      (steps : List Step) (fuel : ℕ) (run : Run) → Adds P (advance o fresh now steps fuel run)
  unfolding advance
  advance-Adds steps zero run = tt
  advance-Adds steps (suc fuel) run =
      step-Adds steps (advance o fresh now steps fuel) run (get_elem? steps run.current_step)
        (advance-Adds steps fuel)

  settle-All :
      (run : Run) (d : Db) (p : Option Progress)
      → All P d.approvals
      → Adds P p
      → All P (settle run d p).db.approvals
  settle-All run d none h k = h
  settle-All run d (some p) h k = All-append P d.approvals p.requests h k

  proceed-All :
      (limit : ℕ) (run : Run) (d : Db) (t : Option WorkflowTemplate)
      → All P d.approvals
      → All P (proceed o fresh now limit run d t).db.approvals
  proceed-All limit run d none h = h
  proceed-All limit run d (some t) h =
      settle-All (at_step (suc run.current_step) run) d _ h (advance-Adds t.steps limit _)

  pub conclude-All :
      (limit : ℕ) (decision note : String) (a : ApprovalRequest) (d : Db) (run : Option Run)
      → All P d.approvals
      → All P (conclude o fresh now limit decision note a d run).db.approvals
  conclude-All limit decision note a d none h = h
  conclude-All limit decision note a d (some run) h =
      ground (arith, proceed-All limit run d (find_template run.template_id d.templates) h)

store_approval-All :
    (P : ApprovalRequest → Type 0) (a : ApprovalRequest) (bs : List ApprovalRequest)
    → P a
    → All P bs
    → All P (store_approval a bs)
unfolding store_approval
store_approval-All P a [] p h = tt
store_approval-All P a (b ∷ bs) p h = elim (Bool-cases (str_eq b.id a.id)) [
  | inl e ↦ rw e (p, store_approval-All P a bs p h.1)
  | inr e ↦ rw e (h.0, store_approval-All P a bs p h.1)
]

-- Not a pending request with this id.
abbrev pub NotPending : String → ApprovalRequest → Type 0
NotPending id a = (str_eq a.id id && is_pending a.status) ≡ false

find_pending-none :
    (id : String) (rest : List ApprovalRequest)
    → All (NotPending id) rest
    → find_pending id rest ≡ none
unfolding find_pending
find_pending-none id [] h = refl
find_pending-none id (a ∷ rest) h = rw (h.0) (find_pending-none id rest h.1)

find_pending-id :
    (id : String) (rest : List ApprovalRequest) (a : ApprovalRequest)
    → find_pending id rest ≡ some a
    → a.id ≡ id
unfolding find_pending
find_pending-id id [] a e = ground arith
find_pending-id id (b ∷ rest) a e = ground (arith, find_pending-id id rest a, eq_iff b.id id)

store_approval-NotPending :
    (a : ApprovalRequest) (id : String) (rest : List ApprovalRequest)
    → a.id ≡ id
    → is_pending a.status ≡ false
    → All (NotPending id) (store_approval a rest)
unfolding store_approval
store_approval-NotPending a id [] e p = tt
store_approval-NotPending a id (b ∷ rest) e p = (
  ground (arith, eq_iff b.id a.id, eq_iff a.id id, eq_iff b.id id),
  store_approval-NotPending a id rest e p,
)

module _ (o : Outside) (fresh : String) (now limit : ℕ) where
  on_approval-NotPending :
      (id approver_id decision note : String) (d : Db) (run : Run) (m : Option ApprovalRequest)
      → str_eq fresh id ≡ false
      → is_pending decision ≡ false
      → ((a : ApprovalRequest) → m ≡ some a → a.id ≡ id)
      → (on_approval o fresh now limit approver_id decision note d m).answer ≡ returned run
      → All
          (NotPending id)
          (on_approval o fresh now limit approver_id decision note d m).db.approvals
  on_approval-NotPending id approver_id decision note d run none f other ids e = ground arith
  on_approval-NotPending id approver_id decision note d run (some a) f other ids e =
      let b = decide now approver_id decision note a in
      let d1 = record d { approvals = store_approval b d.approvals } in
      ground (
        arith,
        conclude-All o fresh now (NotPending id) (λ r i h. rw f refl) limit decision note a d1
            (find_run a.run_id d.runs)
            (store_approval-NotPending b id d.approvals (ids a refl) other),
      )

  process_approval-NotPending :
      (id approver_id decision note : String) (d : Db) (run : Run)
      → str_eq fresh id ≡ false
      → is_pending decision ≡ false
      → (process_approval o fresh now limit id approver_id decision note d).answer ≡ returned run
      → All
          (NotPending id)
          (process_approval o fresh now limit id approver_id decision note d).db.approvals
  unfolding process_approval
  process_approval-NotPending id approver_id decision note d run f other e =
      on_approval-NotPending id approver_id decision note d run (find_pending id d.approvals) f
        other (λ a h. find_pending-id id d.approvals a h) e

-- When a decision other than the text "pending" on an approval request is processed and returns a
-- run, no later decision on the same request is: whoever decides what and when, it is answered with a
-- `ValueError`, changes no row and does nothing outside. The identifier of a request that the first
-- decision adds is another one.
pub decided_once :
    (o : Outside) (fresh id : String) (now limit : ℕ) (approver_id decision note : String) (d : Db)
    (run : Run) (fresh2 : String) (now2 : ℕ) (approver2 decision2 note2 : String)
    → str_eq fresh id ≡ false
    → is_pending decision ≡ false
    → (process_approval o fresh now limit id approver_id decision note d).answer ≡ returned run
    → process_approval o fresh2 now2 limit id approver2 decision2 note2
        (process_approval o fresh now limit id approver_id decision note d).db
      ≡ raising
          (process_approval o fresh now limit id approver_id decision note d).db
          (value_error "Approval not found or already decided")
unfolding process_approval
decided_once o fresh id now limit approver_id decision note d run fresh2 now2 approver2 decision2
      note2 f other e =
    let d1 = (process_approval o fresh now limit id approver_id decision note d).db in
    ap (on_approval o fresh2 now2 limit approver2 decision2 note2 d1) (
      find_pending-none id d1.approvals (
        process_approval-NotPending o fresh now limit id approver_id decision note d run f other e))

abbrev pub NotExpired : ApprovalRequest → Type 0
NotExpired a = a.status ≢ "expired"

get_db-All :
    (P : ApprovalRequest → Type 0) (d e : Db) (a : Answer)
    → All P d.approvals
    → All P e.approvals
    → All P (get_db d e a).approvals
get_db-All P d e (returned run) h k = k
get_db-All P d e (raised r) h k = h

module _ (o : Outside) (fresh : String) (now limit : ℕ) where
  on_approval-rejected :
      (approver_id note : String) (d : Db) (run : Run) (m : Option ApprovalRequest)
      → (on_approval o fresh now limit approver_id "rejected" note d m).answer ≡ returned run
      → ((on_approval o fresh now limit approver_id "rejected" note d m).effects ≡ [])
        × (run.status ≡ rejected)
        × (run.completed_at ≡ some now)
  on_approval-rejected approver_id note d run none e = ground arith
  on_approval-rejected approver_id note d run (some a) e =
      elim (Option-cases (find_run a.run_id d.runs)) [
        | inl n ↦ ground arith
        | inr (r, n) ↦ ground arith
      ]

  get_db-NotExpired :
      (user_id decision note : String) (d : Db) (m : Option ApprovalRequest)
      → decision ≢ "expired"
      → All NotExpired d.approvals
      → (let s = on_approval o fresh now limit user_id decision note d m in
          All NotExpired (get_db d s.db s.answer).approvals)
  get_db-NotExpired user_id decision note d none valid h = h
  get_db-NotExpired user_id decision note d (some a) valid h =
      let b = decide now user_id decision note a in
      let d1 = record d { approvals = store_approval b d.approvals } in
      let s = conclude o fresh now limit decision note a d1 (find_run a.run_id d.runs) in
      ground (
        arith,
        get_db-All NotExpired d s.db s.answer h (
            conclude-All o fresh now NotExpired
              (λ r i hs e. ground (arith, eq_iff "pending" "expired", e)) limit decision note a d1
              (find_run a.run_id d.runs) (store_approval-All NotExpired b d.approvals valid h)),
      )

valid_decision :
    (decision : String)
    → (str_eq decision "approved" || str_eq decision "rejected") ≡ true
    → decision ≢ "expired"
valid_decision decision valid e = ground (
  arith,
  valid,
  eq_iff decision "approved",
  eq_iff decision "rejected",
  eq_iff "expired" "approved",
  eq_iff "expired" "rejected",
  e,
)

-- What the session holds after a rejection: the run is rejected and ended, and nothing was done outside.
pub rejection :
    (o : Outside) (fresh id : String) (now limit : ℕ) (approver_id note : String) (d : Db)
    (run : Run)
    → (process_approval o fresh now limit id approver_id "rejected" note d).answer ≡ returned run
    → ((process_approval o fresh now limit id approver_id "rejected" note d).effects ≡ [])
      × (run.status ≡ rejected)
      × (run.completed_at ≡ some now)
unfolding process_approval
rejection o fresh id now limit approver_id note d run e =
    on_approval-rejected o fresh now limit approver_id note d run (find_pending id d.approvals) e

-- Whatever is decided, also on a request that has expired, no stored request gets the status
-- "expired": the exception that reports it makes the session roll the status back.
pub expired_never_stored :
    (o : Outside) (fresh : String) (now limit : ℕ) (permissions : List String)
    (user_id id decision note : String) (d : Db)
    → All NotExpired d.approvals
    → All NotExpired
        (decide_approval o fresh now limit permissions user_id id decision note d).0.approvals
unfolding decide_approval process_approval
expired_never_stored o fresh now limit permissions user_id id decision note d h =
    elim (Bool-cases (str_eq decision "approved" || str_eq decision "rejected")) [
      | inl valid ↦ ground (
        arith,
        valid,
        get_db-NotExpired o fresh now limit user_id decision note d (find_pending id d.approvals)
            (valid_decision decision valid) h,
      )
      | inr refused ↦ ground (arith, refused, h)
    ]
