-- ===== src/Workflows/Actions.antt =====
-- The steps' work: `_execute_action` with `_do_move`, `_do_delete` and `_do_tag`,
-- `_send_notification`, `_evaluate_condition`.
use dgraphai.Prelude.{
  Bool, List, Option, String, [], false, if◌then◌else◌, keep, length, none, some, str_eq, true,
  ◌++◌, ◌∷◌,
}
use dgraphai.Workflows.Model.{
  ActionResult, ActionType, Context, Effect, FileEntry, Outside, delete, deleted, deleted_file,
  dry_run, error, move, moved, moved_file, other, posted, tag, tagged, unknown_action,
}

module _ (o : Outside) where
  -- The result for one file, and what was done outside.
  unfoldable pub do_move : String → Bool → FileEntry → ActionResult × List Effect
  do_move destination true f = (dry_run, [])
  do_move destination false f = elim (o.fails f.path) [
    | none ↦ (moved, moved_file f.path destination ∷ [])
    | some e ↦ (error e, [])
  ]

  unfoldable pub do_delete : Bool → FileEntry → ActionResult × List Effect
  do_delete true f = (dry_run, [])
  do_delete false f = elim (o.fails f.path) [
    | none ↦ (deleted, deleted_file f.path ∷ [])
    | some e ↦ (error e, [])
  ]

  -- tags change no file: `_do_tag` only reports
  unfoldable pub do_action : ActionType → Bool → FileEntry → ActionResult × List Effect
  unfolding do_move do_delete
  do_action (move destination) dry f = do_move destination dry f
  do_action delete dry f = do_delete dry f
  do_action (tag tags) dry f = (tagged, [])
  do_action other dry f = (unknown_action, [])

  unfoldable pub execute_files :
      ActionType → Bool → List FileEntry → List ActionResult × List Effect
  unfolding do_action
  execute_files t dry [] = ([], [])
  execute_files t dry (f ∷ fs) =
      let (r, e) = do_action t dry f in let (rs, es) = execute_files t dry fs in (r ∷ rs, e ++ es)

  -- the new `run.context`, and what was done outside
  unfoldable pub execute_action : ActionType → Bool → Context → Context × List Effect
  unfolding execute_files
  execute_action t dry c =
      let (rs, es) = execute_files t dry c.files in (record c { action_results = rs }, es)

  -- one post for each channel "webhook", if there is a URL; an exception of it is passed over
  unfoldable pub send_notification : List String → Option String → String → List Effect
  send_notification [] url message = []
  send_notification (channel ∷ rest) url message =
      let later = send_notification rest url message in
      if str_eq channel "webhook"
      then (elim url [
        | none ↦ later
        | some u ↦ (if str_eq u "" then later else posted u message ∷ later)
      ])
      else later

  abbrev is_error : ActionResult → Bool
  is_error (error e) = true
  is_error _ = false

  -- an expression that raises counts as true
  unfoldable pub evaluate_condition : Context → String → Bool
  evaluate_condition c expression =
      elim (o.eval_expression expression (length c.files)
        (length (keep (λ s. str_eq s "approved") c.approvals))
        (length (keep is_error c.action_results))) [ none ↦ true | some b ↦ b ]
