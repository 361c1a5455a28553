-- ===== src/Lib.antt =====
-- fusion-wizard, a Kubernetes operator that runs wizards: ordered steps that create resources in
-- the services forge, index and weave, and that are rolled back when a run is deleted.
--
-- How the parts interact: the run controller expands a definition and its parameter values to a
-- plan, and advances the run through the plan's step instances. A step's params are templates,
-- resolved against the values, the instance config and the outputs of earlier steps. A step makes a
-- resource exist through `ensure`, which records the step's reference in the ledger, one
-- WizardResource for each upstream resource; `Rollback` releases the references of a run and deletes
-- what nobody refers to any more.
--
-- Files and what they model:
--   Api        api/v1alpha1/wizard{definition,run,resource}_types.go
--   Errors     the chains of errors, and what is asked of them: internal/upstream/client.go
--              (APIError, IsTransient) and internal/steps/step.go (IsPermanent)
--   Action     calls that change the world and may fail, as functions on an explicit world
--   Cluster    the Kubernetes client, a parameter
--   Ledger     internal/ledger/ledger.go; its children hold the changes of one entry (Entry,
--              Protocol), the set of its holders that they refine (Holders), what is assumed of the API server (Laws), what every call guarantees
--              (Guarantee, Outcomes), the names of entries (Name) and a server in memory that meets the assumptions (Memory)
--   Params     internal/params: template.go (Template, Render), filters.go (Filters) and
--              parameters.go (Parameters)
--   Plan       internal/plan/plan.go
--   Steps      internal/steps: step.go, ensure.go, rollback.go and catalog.go (the catalogue's tables
--              in Catalog, checkRefs and checkForEach in References, ValidateDefinition in Validate);
--              App has the checks on params of appstep.go and weavesteps.go, Forge the gitWatcher and
--              waitBuild steps of forgesteps.go, Tagging tagstep.go, Numbers the texts of IDs
--   Controller internal/controller/run_controller.go: Reconcile with reconcileApply, reconcileDelete
--              and rollback (Reconcile), advance (Advance), runInstance (Instance), retryDelay
--              (Backoff), and the helpers on a run's status (Status)
--   Server     internal/apiserver: auth.go (Auth), respond.go (Reply) and of runs.go the handlers on
--              one run (Runs), bulkRollback (Bulk) and createRun (Create)
--   Prelude    the shared helpers; the Examples of a part run its theorems on concrete inputs
--
-- Names are the source's in snake case. Texts are lists of bytes, `ToLower` and `TrimSpace` are
-- modelled on ASCII. A message is kept as its format and arguments. Structs that the source changes
-- through pointers are passed along. Times and durations are whole seconds. An int32 counter of
-- failures stays below ten, so it does not wrap.
--
-- Bounds and fuel: `ensure` has the five rounds of the source. The loop of `retryDelay` is given as
-- many rounds as there are failures, and the template parser is structural in the text, with the
-- number of bytes that it still has to skip. `RetryOnConflict` is a parameter that makes any finite
-- number of attempts.
--
-- The world is a parameter: a call of the API server may find that other clients acted before it.
-- Ledger/Laws states what is assumed of it: the others keep to the ledger's protocol, a create goes
-- through only where there is no object, and an update only where the object is as it was read. Reads
-- come from the cache of the manager's client (cmd/main.go): what a read finds the server holds or
-- has held, and a read that finds nothing says nothing of the server.
--
-- Reconcile's client is the parameter Kube, and the API server's is RunStore; a patch gives the run
-- that the server then holds. Controller/Reconcile/Rollback states that the reconciler is the only
-- writer of a run's status.
--
-- Not modelled: the steps on weave, which take their requests to the service; of
-- the API server the listing of runs and the views of definitions and resources; the
-- instance config. SHA-256 is a parameter, and the theorems on the ledger hold for any naming of its
-- entries (Ledger/Name has the source's). HTTP, JSON, YAML, routing, logging and start-up are input
-- and output.
pub mod Action
pub mod Api
pub mod Cluster
pub mod Controller
pub mod Errors
pub mod Ledger
pub mod Params
pub mod Plan
pub mod Prelude
pub mod Server
pub mod Steps
