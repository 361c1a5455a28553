-- ===== src/Server/Bulk.antt =====
-- internal/apiserver/runs.go, `bulkRollback`: rolling many runs back.
pub mod Targets
pub mod Chosen
use fusion_wizard.Prelude.{
  ℕ, Bool, true, false, not, ◌&&◌, Option, none, some, List, [], ◌∷◌, ◌++◌, Text, codes, contains,
  text_eq, text_lt, is_empty, length, ltb, if◌then◌else◌,
}
use fusion_wizard.Errors.{Message, Error, format, end, text_arg, number_arg}
use fusion_wizard.Action.{Result, ok, err, Action}
use fusion_wizard.Api.Run.{WizardRun}
use fusion_wizard.Server.Reply.{ErrorReply, write_error, internal_error, Answer, refused, passed}
use fusion_wizard.Server.Runs.{RunStore, request_rollback}

abbrev pub max_bulk_targets : ℕ
max_bulk_targets = 200

-- the fields of the JSON body that `decodeJSON` fills
pub record BulkRollbackRequest : Type 0 where
  pub names : List Text
  pub definition : Text

pub record BulkFailure : Type 0 where
  pub name : Text
  pub error : Message

pub record BulkRollbackResponse : Type 0 where
  pub accepted : List Text
  pub failed : List BulkFailure

-- `byName[name]`: of two runs with one name the last one counts
unfoldable pub find_run : Text → List WizardRun → Option WizardRun
find_run name [] = none
find_run name (r ∷ rs) = elim (find_run name rs) [
  | some later ↦ some later
  | none ↦ if text_eq r.name name then some r else none
]

-- the targets, and the names that cannot be targets
abbrev pub Selection : Type 0
Selection = List WizardRun × List BulkFailure

abbrev pub fails : Text → Message → Selection → Selection
fails name error (targets, failed) = (targets, record { name = name; error = error } ∷ failed)

-- the `switch` on one name, before the names after it
select_one : Text → Text → Option WizardRun → Selection → Selection
select_one definition name none rest = fails name (format "run not found" end) rest
select_one definition name (some run) rest =
    if not (is_empty definition) && not (text_eq run.spec.definition_ref definition)
    then fails name (format "run belongs to a different definition" end) rest
    else (run ∷ rest.0, rest.1)

-- the loop over the names; `seen` is the set of names met so far
unfoldable pub select_names : Text → List WizardRun → List Text → List Text → Selection
unfolding select_one find_run contains
select_names definition runs seen [] = ([], [])
select_names definition runs seen (n ∷ ns) =
    let again = select_names definition runs seen ns in
    let rest = select_names definition runs (n ∷ seen) ns in
    if contains seen n then again else select_one definition n (find_run n runs) rest

unfoldable pub select_definition : Text → List WizardRun → List WizardRun
unfolding text_eq
select_definition definition [] = []
select_definition definition (r ∷ rs) =
    let rest = select_definition definition rs in
    if text_eq r.spec.definition_ref definition then r ∷ rest else rest

unfoldable pub select : BulkRollbackRequest → List WizardRun → Selection
unfolding select_names select_definition
select req runs =
    if not (is_empty req.names)
    then select_names req.definition runs [] req.names
    else (select_definition req.definition runs, [])

-- `sort.Slice` by name
insert_run : WizardRun → List WizardRun → List WizardRun
unfolding text_lt
insert_run r [] = r ∷ []
insert_run r (x ∷ xs) =
    let rest = insert_run r xs in if text_lt x.name r.name then x ∷ rest else r ∷ x ∷ xs

unfoldable pub sort_runs : List WizardRun → List WizardRun
unfolding insert_run
sort_runs [] = []
sort_runs (r ∷ rs) = insert_run r (sort_runs rs)

abbrev pub noted : Text → Result WizardRun → BulkRollbackResponse → BulkRollbackResponse
noted name (ok run) resp = record resp { accepted = resp.accepted ++ name ∷ [] }
noted name (err x) resp = record resp {
  failed =
      resp.failed
      ++ record { name = name; error = format "could not request the rollback" end } ∷ [];
}

abbrev pub Reply : Type 0
Reply = Answer (ℕ × BulkRollbackResponse)

abbrev pub bulk_status : BulkRollbackResponse → ℕ
bulk_status resp = if is_empty resp.accepted then 200 else 202

module _ {W : Type 0} (store : RunStore W) where
  -- the loop over the targets; `requestRollback` sets a target's desired state through its pointer,
  -- but keeps its name
  unfoldable pub request_all : List WizardRun → BulkRollbackResponse → W → BulkRollbackResponse × W
  unfolding request_rollback
  request_all [] resp w = (resp, w)
  request_all (run ∷ runs) resp w =
      let (r, w') = request_rollback store run w in request_all runs (noted run.name r resp) w'

  bulk_selected : Selection → W → Reply × W
  unfolding request_all sort_runs
  bulk_selected (targets, failed) w =
      if ltb max_bulk_targets (length targets)
      then (
        refused (
            write_error 400 (
              format "the selection matches %d runs; narrow it to at most 200"
                (number_arg (length targets) end))),
        w,
      )
      else let (resp, w') =
          request_all (sort_runs targets) (record { accepted = []; failed = failed }) w in
        (passed (bulk_status resp, resp), w')

  bulk_listed : BulkRollbackRequest → Result (List WizardRun) → W → Reply × W
  unfolding bulk_selected select
  bulk_listed req (err x) w = (refused internal_error, w)
  bulk_listed req (ok runs) w = bulk_selected (select req runs) w

  unfoldable pub bulk_rollback : BulkRollbackRequest → W → Reply × W
  unfolding bulk_listed
  bulk_rollback req w =
      if is_empty req.names && is_empty req.definition
      then (
        refused (
            write_error 400 (
              format
                "give names and/or a definition to select runs; refusing to roll back everything"
                end)),
        w,
      )
      else let (r, w') = store.list_runs w in bulk_listed req r w'
