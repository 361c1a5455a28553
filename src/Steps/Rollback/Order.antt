-- ===== src/Steps/Rollback/Order.antt =====
-- The order in which a rollback takes the entries.
use mathlib.Core.List.{Perm}
use mathlib.Core.List.Perm
use fusion_wizard.Prelude.{ℕ, suc, ◌≤◌, List, [], ◌∷◌, All, Text, ltb, contains, if◌then◌else◌}
use fusion_wizard.Api.Resource.{WizardResource}
use fusion_wizard.Action.{Action}
use fusion_wizard.Cluster.{Cluster}
use fusion_wizard.Steps.Step.{
  kind_git_watcher, kind_artifact, kind_tag, kind_app, kind_job_template, kind_service_template,
  kind_chain, kind_trigger, kind_batch_trigger,
}
use fusion_wizard.Steps.Rollback.{rank_of}

abbrev rank : WizardResource → ℕ
rank e = rank_of e.spec.kind

abbrev ByRank : List WizardResource → Type 0
ByRank [] = Unit
ByRank (e ∷ es) = All (λ x. rank e ≤ rank x) es × ByRank es

-- The kinds in the order in which they are undone: what runs before what it runs, and a watcher
-- before the artifact and the tag that it would make again; kinds that are not listed go last.
abbrev pub undo_order : List (List Text)
undo_order =
    (kind_app ∷ [])
    ∷ (kind_trigger ∷ kind_batch_trigger ∷ [])
    ∷ (kind_chain ∷ [])
    ∷ (kind_job_template ∷ kind_service_template ∷ [])
    ∷ (kind_git_watcher ∷ [])
    ∷ (kind_tag ∷ [])
    ∷ (kind_artifact ∷ [])
    ∷ []

pub place : Text → List (List Text) → ℕ
place kind [] = 0
place kind (group ∷ groups) =
    let rest = place kind groups in if contains group kind then 0 else suc rest

abbrev pub place_of : WizardResource → ℕ
place_of e = place e.spec.kind undo_order

abbrev pub InUndoOrder : List WizardResource → Type 0
InUndoOrder [] = Unit
InUndoOrder (e ∷ es) = All (λ x. place_of e ≤ place_of x) es × InUndoOrder es

abbrev place_at : ℕ → ℕ
place_at r =
    if ltb r 6
    then 0
    else if ltb r 11
    then 1
    else if ltb r 21
    then 2
    else if ltb r 31
    then 3
    else if ltb r 41
    then 4
    else if ltb r 51
    then 5
    else if ltb r 61
    then 6
    else 7
