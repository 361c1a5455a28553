-- ===== src/Server/Bulk/Targets.antt =====
-- Which runs a bulk rollback selects, and what it answers.
use fusion_wizard.Prelude.{
  ℕ, ◌≡◌, refl, sym, ◌∙◌, ap, subst, Bool, true, false, not, ◌&&◌, ◌||◌, Option, none, some, List,
  [], ◌∷◌, ◌++◌, map, Text, contains, text_eq, text_eq_iff, text_lt, is_empty, length, ltb, if-rule,
  arith,
}
use fusion_wizard.Errors.{format, end}
use fusion_wizard.Action.{Result, ok, err}
use fusion_wizard.Api.Run.{WizardRun}
use fusion_wizard.Server.Reply.{Answer, refused, passed}
use fusion_wizard.Server.Runs.{RunStore, request_rollback}
use fusion_wizard.Server.Bulk.{
  noted, BulkRollbackRequest, BulkRollbackResponse, BulkFailure, Selection, find_run, select_one,
  select_names, select, insert_run, sort_runs, request_all, bulk_selected, bulk_listed,
  bulk_rollback, max_bulk_targets,
}

abbrev pub run_names : List WizardRun → List Text
run_names runs = map (λ r. r.name) runs

abbrev pub failed_names : List BulkFailure → List Text
failed_names failed = map (λ f. f.name) failed

-- The name is one of the targets' or one of the failures'.
abbrev is_answered : Selection → Text → Bool
is_answered s n = contains (run_names s.0) n || contains (failed_names s.1) n

pub found-name :
    (name : Text) (runs : List WizardRun) (r : WizardRun)
    → find_run name runs ≡ some r
    → text_eq r.name name ≡ true
unfolding find_run
found-name name [] r h = cc
found-name name (x ∷ xs) r h = ground (arith, found-name name xs r)

or_third : (a b c : Bool) → a || (b || c) ≡ b || (a || c)
or_third true true c = refl
or_third true false c = refl
or_third false b c = refl

or_assoc : (a b c : Bool) → (a || b) || c ≡ a || (b || c)
or_assoc true b c = refl
or_assoc false b c = refl

or_comm : (a b : Bool) → a || b ≡ b || a
or_comm true true = refl
or_comm true false = refl
or_comm false true = refl
or_comm false false = refl

and_true : (a : Bool) → a && true ≡ a
and_true true = refl
and_true false = refl

not-both : (b : Bool) → b ≡ false → not b ≡ false → ⊥
not-both true h k = cc
not-both false h k = cc

false-ne-true : false ≡ true → ⊥
false-ne-true h = cc

seen_again : (a b s : Bool) → (a ≡ true → s ≡ true) → b && not s ≡ (a || b) && not s
seen_again true true true h = refl
seen_again true false true h = refl
seen_again true b false h = absurd (false-ne-true (h refl))
seen_again false b s h = refl

first_time : (a b s : Bool) → (a ≡ true → s ≡ false) → a || (b && not (a || s)) ≡ (a || b) && not s
first_time true b s h = rw (h refl) refl
first_time false b s h = refl

select_one_answers :
    (definition m : Text) (runs : List WizardRun) (o : Option WizardRun) (rest : Selection)
    (n : Text)
    → find_run m runs ≡ o
    → is_answered (select_one definition m o rest) n ≡ text_eq m n || is_answered rest n
unfolding select_one contains
select_one_answers definition m runs none rest n h =
    or_third (contains (run_names rest.0) n) (text_eq m n) (contains (failed_names rest.1) n)
select_one_answers definition m runs (some r) rest n h =
    if-rule (λ (s : Selection). is_answered s n ≡ text_eq m n || is_answered rest n)
      (not (is_empty definition) && not (text_eq r.spec.definition_ref definition)) _ _
      (λ e.
        or_third (contains (run_names rest.0) n) (text_eq m n) (contains (failed_names rest.1) n))
      (λ e.
        or_assoc (text_eq r.name n) (contains (run_names rest.0) n)
          (contains (failed_names rest.1) n)
        ∙ ap (λ b. b || (contains (run_names rest.0) n || contains (failed_names rest.1) n))
            (ap (λ k. text_eq k n) ((text_eq_iff r.name m).0 (found-name m runs r h))))

contains_same : (xs : List Text) (m n : Text) → text_eq m n ≡ true → contains xs n ≡ contains xs m
contains_same xs m n h = ap (contains xs) (sym ((text_eq_iff m n).0 h))

select_names_answers :
    (definition : Text) (runs : List WizardRun) (seen ns : List Text) (n : Text)
    → is_answered (select_names definition runs seen ns) n ≡ contains ns n && not (contains seen n)
unfolding select_names contains
select_names_answers definition runs seen [] n = refl
select_names_answers definition runs seen (m ∷ ns) n =
    if-rule
      (λ (s : Selection). is_answered s n ≡ (text_eq m n || contains ns n) && not (contains seen n))
      (contains seen m) _ _
      (λ e.
        select_names_answers definition runs seen ns n
        ∙ seen_again (text_eq m n) (contains ns n) (contains seen n)
            (λ t. contains_same seen m n t ∙ e))
      (λ e.
        select_one_answers definition m runs (find_run m runs)
          (select_names definition runs (m ∷ seen) ns) n refl
        ∙ ap (λ b. text_eq m n || b) (select_names_answers definition runs (m ∷ seen) ns n)
        ∙ first_time (text_eq m n) (contains ns n) (contains seen n)
            (λ t. contains_same seen m n t ∙ e))

select_answers :
    (req : BulkRollbackRequest) (runs : List WizardRun) (n : Text)
    → is_empty req.names ≡ false
    → is_answered (select req runs) n ≡ contains req.names n
unfolding select contains
select_answers req runs n h =
    if-rule (λ (s : Selection). is_answered s n ≡ contains req.names n) (not (is_empty req.names)) _
      _
      (λ e.
        select_names_answers req.definition runs [] req.names n ∙ and_true (contains req.names n))
      (λ e. absurd (not-both (is_empty req.names) h e))

contains-append :
    (xs ys : List Text) (n : Text) → contains (xs ++ ys) n ≡ contains xs n || contains ys n
unfolding contains
contains-append [] ys n = refl
contains-append (x ∷ xs) ys n =
    ap (λ b. text_eq x n || b) (contains-append xs ys n)
    ∙ sym (or_assoc (text_eq x n) (contains xs n) (contains ys n))

failed_names-append :
    (xs ys : List BulkFailure) → failed_names (xs ++ ys) ≡ failed_names xs ++ failed_names ys
failed_names-append [] ys = refl
failed_names-append (x ∷ xs) ys = ap (λ ns. x.name ∷ ns) (failed_names-append xs ys)

insert_run_names :
    (r : WizardRun) (xs : List WizardRun) (n : Text)
    → contains (run_names (insert_run r xs)) n ≡ text_eq r.name n || contains (run_names xs) n
unfolding insert_run contains
insert_run_names r [] n = refl
insert_run_names r (x ∷ xs) n =
    if-rule
      (λ (rs : List WizardRun).
        contains (run_names rs) n ≡ text_eq r.name n || contains (run_names (x ∷ xs)) n)
      (text_lt x.name r.name) _ _
      (λ e.
        ap (λ b. text_eq x.name n || b) (insert_run_names r xs n)
        ∙ or_third (text_eq x.name n) (text_eq r.name n) (contains (run_names xs) n))
      (λ e. refl)

sort_runs_names :
    (rs : List WizardRun) (n : Text)
    → contains (run_names (sort_runs rs)) n ≡ contains (run_names rs) n
unfolding sort_runs contains
sort_runs_names [] n = refl
sort_runs_names (r ∷ rs) n =
    insert_run_names r (sort_runs rs) n ∙ ap (λ b. text_eq r.name n || b) (sort_runs_names rs n)

or_false : (a : Bool) → a || false ≡ a
or_false true = refl
or_false false = refl

accepted_too : (a c t : Bool) → (a || (t || false)) || c ≡ (a || c) || t
accepted_too true c t = refl
accepted_too false true true = refl
accepted_too false true false = refl
accepted_too false false true = refl
accepted_too false false false = refl

failed_too : (a c t : Bool) → a || (c || (t || false)) ≡ (a || c) || t
failed_too true c t = refl
failed_too false true t = refl
failed_too false false true = refl
failed_too false false false = refl

-- The response names the run, as accepted or as failed.
abbrev pub is_reported : BulkRollbackResponse → Text → Bool
is_reported resp n = contains resp.accepted n || contains (failed_names resp.failed) n

module _ {W : Type 0} (store : RunStore W) where
  noted_reports :
      (name : Text) (r : Result WizardRun) (resp : BulkRollbackResponse) (n : Text)
      → is_reported (noted name r resp) n ≡ is_reported resp n || text_eq name n
  unfolding contains
  noted_reports name (ok run) resp n =
      ap (λ b. b || contains (failed_names resp.failed) n)
        (contains-append resp.accepted (name ∷ []) n)
      ∙ accepted_too (contains resp.accepted n) (contains (failed_names resp.failed) n)
          (text_eq name n)
  noted_reports name (err x) resp n =
      let failure : BulkFailure = record {
        name = name;
        error = format "could not request the rollback" end;
      } in
      ap (λ b. contains resp.accepted n || b)
        (ap (λ ns. contains ns n) (failed_names-append resp.failed (failure ∷ []))
          ∙ contains-append (failed_names resp.failed) (name ∷ []) n)
      ∙ failed_too (contains resp.accepted n) (contains (failed_names resp.failed) n)
          (text_eq name n)

  request_all_reports :
      (runs : List WizardRun) (resp : BulkRollbackResponse) (w : W) (n : Text)
      → is_reported (request_all store runs resp w).0 n
        ≡ is_reported resp n || contains (run_names runs) n
  unfolding request_all contains
  request_all_reports [] resp w n = sym (or_false (is_reported resp n))
  request_all_reports (run ∷ runs) resp w n =
      request_all_reports runs (noted run.name (request_rollback store run w).0 resp)
        (request_rollback store run w).1 n
      ∙ ap (λ b. b || contains (run_names runs) n)
          (noted_reports run.name (request_rollback store run w).0 resp n)
      ∙ or_assoc (is_reported resp n) (text_eq run.name n) (contains (run_names runs) n)

  -- The answer reports the names of the selection, each as accepted or as failed.
  Reports : Selection → Answer (ℕ × BulkRollbackResponse) → Type 0
  Reports sel (refused reply) = Unit
  Reports sel (passed (status, resp)) = (n : Text) → is_reported resp n ≡ is_answered sel n

  bulk_selected-Reports : (sel : Selection) (w : W) → Reports sel (bulk_selected store sel w).0
  unfolding bulk_selected Reports contains
  bulk_selected-Reports (targets, failed) w =
      if-rule (λ (r : Answer (ℕ × BulkRollbackResponse) × W). Reports (targets, failed) r.0)
        (ltb max_bulk_targets (length targets)) _ _ (λ e. tt)
        (λ e n.
          request_all_reports (sort_runs targets) (record { accepted = []; failed = failed }) w n
          ∙ ap (λ b. is_reported (record { accepted = []; failed = failed }) n || b)
              (sort_runs_names targets n)
          ∙ or_comm (contains (failed_names failed) n) (contains (run_names targets) n))

  NamesAnswered : BulkRollbackRequest → Answer (ℕ × BulkRollbackResponse) → Type 0
  NamesAnswered req (refused reply) = Unit
  NamesAnswered req (passed (status, resp)) = (n : Text) → is_reported resp n ≡ contains req.names n

  Reports-names :
      (req : BulkRollbackRequest) (runs : List WizardRun) (a : Answer (ℕ × BulkRollbackResponse))
      → is_empty req.names ≡ false
      → Reports (select req runs) a
      → NamesAnswered req a
  unfolding Reports NamesAnswered
  Reports-names req runs (refused reply) h r = tt
  Reports-names req runs (passed (status, resp)) h r = λ n. r n ∙ select_answers req runs n h

  listed_answered :
      (req : BulkRollbackRequest) (r : Result (List WizardRun)) (w : W)
      → is_empty req.names ≡ false
      → NamesAnswered req (bulk_listed store req r w).0
  unfolding bulk_listed NamesAnswered
  listed_answered req (err x) w h = tt
  listed_answered req (ok runs) w h =
      Reports-names req runs (bulk_selected store (select req runs) w).0 h
        (bulk_selected-Reports (select req runs) w)

  bulk_answered :
      (req : BulkRollbackRequest) (w : W)
      → is_empty req.names ≡ false
      → NamesAnswered req (bulk_rollback store req w).0
  unfolding bulk_rollback NamesAnswered
  bulk_answered req w h =
      if-rule (λ (r : Answer (ℕ × BulkRollbackResponse) × W). NamesAnswered req r.0)
        (is_empty req.names && is_empty req.definition) _ _ (λ e. tt)
        (λ e. listed_answered req (store.list_runs w).0 (store.list_runs w).1 h)

  -- A bulk rollback that names runs and is not refused as a whole answers for exactly the names
  -- that it was given, each of them as accepted or as failed.
  pub bulk_rollback_reports :
      (req : BulkRollbackRequest) (w : W) (status : ℕ) (resp : BulkRollbackResponse)
      → is_empty req.names ≡ false
      → (bulk_rollback store req w).0 ≡ passed (status, resp)
      → (n : Text) → is_reported resp n ≡ contains req.names n
  unfolding NamesAnswered
  bulk_rollback_reports req w status resp h e = subst (NamesAnswered req) e (bulk_answered req w h)
