-- ===== src/Server/Bulk/Chosen.antt =====
-- Which runs a bulk rollback may change.
use fusion_wizard.Prelude.{
  ◌≡◌, refl, sym, ◌∙◌, ap, true, not, ◌&&◌, ◌||◌, Option, none, some, List, [], ◌∷◌, Text, contains,
  text_eq, text_eq_iff, text_eq_refl, text_lt, is_empty, length, ltb, All, if-rule, if-same, arith,
}
use fusion_wizard.Action.{Result, ok, err, Action}
use fusion_wizard.Api.Run.{WizardRun}
use fusion_wizard.Controller.Reconcile.{wants_rollback}
use fusion_wizard.Server.Runs.{RunStore, with_desired, request_rollback}
use fusion_wizard.Server.Bulk.{
  noted, bulk_status, BulkRollbackRequest, BulkRollbackResponse, Selection, find_run, select_one,
  select_names, select_definition, select, insert_run, sort_runs, request_all, bulk_selected,
  bulk_listed, bulk_rollback, max_bulk_targets,
}
use fusion_wizard.Server.Reply.{passed}
use fusion_wizard.Server.Bulk.Targets.{found-name}

-- The request names the run, if it names any, and the run's definition, if it gives one.
abbrev pub IsChosen : BulkRollbackRequest → WizardRun → Type 0
IsChosen req run =
    ((is_empty req.names || contains req.names run.name) ≡ true)
    × ((is_empty req.definition || text_eq run.spec.definition_ref req.definition) ≡ true)

select_one-IsChosen :
    (req : BulkRollbackRequest) (m : Text) (runs : List WizardRun) (o : Option WizardRun)
    (rest : Selection)
    → find_run m runs ≡ o
    → contains req.names m ≡ true
    → All (IsChosen req) rest.0
    → All (IsChosen req) (select_one req.definition m o rest).0
unfolding select_one
select_one-IsChosen req m runs none rest h k a = a
select_one-IsChosen req m runs (some r) rest h k a =
    if-rule (λ (s : Selection). All (IsChosen req) s.0)
      (not (is_empty req.definition) && not (text_eq r.spec.definition_ref req.definition)) _ _
      (λ e. a)
      (λ e. (
        (
          ground (
            arith,
            ap (contains req.names) ((text_eq_iff r.name m).0 (found-name m runs r h)) ∙ k,
          ),
          ground arith,
        ),
        a,
      ))

select_names-IsChosen :
    (req : BulkRollbackRequest) (runs : List WizardRun) (seen ns : List Text)
    → ((n : Text) → contains ns n ≡ true → contains req.names n ≡ true)
    → All (IsChosen req) (select_names req.definition runs seen ns).0
unfolding select_names contains
select_names-IsChosen req runs seen [] h = tt
select_names-IsChosen req runs seen (m ∷ ns) h =
    let later : (n : Text) → contains ns n ≡ true → contains req.names n ≡ true =
      λ n k. h n (ground arith) in
    if-rule (λ (s : Selection). All (IsChosen req) s.0) (contains seen m) _ _
      (λ e. select_names-IsChosen req runs seen ns later)
      (λ e.
        select_one-IsChosen req m runs (find_run m runs)
          (select_names req.definition runs (m ∷ seen) ns) refl
          (h m (ground (arith, text_eq_refl m)))
          (select_names-IsChosen req runs (m ∷ seen) ns later))

select_definition-IsChosen :
    (req : BulkRollbackRequest) (runs : List WizardRun)
    → is_empty req.names ≡ true
    → All (IsChosen req) (select_definition req.definition runs)
unfolding select_definition
select_definition-IsChosen req [] h = tt
select_definition-IsChosen req (r ∷ rs) h =
    if-rule (All (IsChosen req)) (text_eq r.spec.definition_ref req.definition) _ _
      (λ e. ((ground arith, ground arith), select_definition-IsChosen req rs h))
      (λ e. select_definition-IsChosen req rs h)

select-IsChosen :
    (req : BulkRollbackRequest) (runs : List WizardRun) → All (IsChosen req) (select req runs).0
unfolding select
select-IsChosen req runs =
    if-rule (λ (s : Selection). All (IsChosen req) s.0) (not (is_empty req.names)) _ _
      (λ e. select_names-IsChosen req runs [] req.names (λ n k. k))
      (λ e. select_definition-IsChosen req runs (ground arith))

insert_run-IsChosen :
    (req : BulkRollbackRequest) (r : WizardRun) (xs : List WizardRun)
    → IsChosen req r
    → All (IsChosen req) xs
    → All (IsChosen req) (insert_run r xs)
unfolding insert_run
insert_run-IsChosen req r [] h a = (h, tt)
insert_run-IsChosen req r (x ∷ xs) h (k, a) =
    if-rule (All (IsChosen req)) (text_lt x.name r.name) _ _
      (λ e. (k, insert_run-IsChosen req r xs h a)) (λ e. (h, (k, a)))

sort_runs-IsChosen :
    (req : BulkRollbackRequest) (rs : List WizardRun)
    → All (IsChosen req) rs
    → All (IsChosen req) (sort_runs rs)
unfolding sort_runs
sort_runs-IsChosen req [] h = tt
sort_runs-IsChosen req (r ∷ rs) (h, a) =
    insert_run-IsChosen req r (sort_runs rs) h (sort_runs-IsChosen req rs a)

module _ {W : Type 0} (store : RunStore W) (patch : WizardRun → WizardRun → Action W WizardRun)
    (req : BulkRollbackRequest)
    (careful : (run : WizardRun) (w : W)
      → IsChosen req run
      → store.patch_run run (with_desired run) w ≡ patch run (with_desired run) w) where
  abbrev other : RunStore W
  other = record store { patch_run = patch }

  request_same :
      (run : WizardRun) (w : W)
      → IsChosen req run
      → request_rollback other run w ≡ request_rollback store run w
  unfolding request_rollback
  request_same run w h =
      if-same (wants_rollback run.spec.desired_state) (λ e. refl) (λ e. sym (careful run w h))

  request_all_same :
      (runs : List WizardRun) (resp : BulkRollbackResponse) (w : W)
      → All (IsChosen req) runs
      → request_all other runs resp w ≡ request_all store runs resp w
  unfolding request_all
  request_all_same [] resp w a = refl
  request_all_same (run ∷ runs) resp w (h, a) =
      ap (λ (r : Result WizardRun × W). request_all other runs (noted run.name r.0 resp) r.1)
        (request_same run w h)
      ∙ request_all_same runs (noted run.name (request_rollback store run w).0 resp)
          (request_rollback store run w).1 a

  selected_same :
      (sel : Selection) (w : W)
      → All (IsChosen req) sel.0
      → bulk_selected other sel w ≡ bulk_selected store sel w
  unfolding bulk_selected
  selected_same (targets, failed) w a =
      if-same (ltb max_bulk_targets (length targets)) (λ e. refl)
        (λ e.
          ap (λ (r : BulkRollbackResponse × W). (passed (bulk_status r.0, r.0), r.1))
            (request_all_same (sort_runs targets) (record { accepted = []; failed = failed }) w
              (sort_runs-IsChosen req targets a)))

  listed_same :
      (r : Result (List WizardRun)) (w : W) → bulk_listed other req r w ≡ bulk_listed store req r w
  unfolding bulk_listed
  listed_same (err x) w = refl
  listed_same (ok runs) w = selected_same (select req runs) w (select-IsChosen req runs)

  -- A bulk rollback changes only runs that the request names, if it names any, and of the definition
  -- that it gives, if it gives one; all it changes of them is their desired state. It does the same
  -- with any other `Patch` that does the same to such runs and that change.
  pub bulk_rollback_chosen : (w : W) → bulk_rollback other req w ≡ bulk_rollback store req w
  unfolding bulk_rollback
  bulk_rollback_chosen w =
      if-same (is_empty req.names && is_empty req.definition) (λ e. refl)
        (λ e. listed_same (store.list_runs w).0 (store.list_runs w).1)
