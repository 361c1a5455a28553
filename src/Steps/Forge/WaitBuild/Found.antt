-- ===== src/Steps/Forge/WaitBuild/Found.antt =====
-- Which build waitBuild waits for.
use fusion_wizard.Prelude.{
  ◌≡◌, refl, sym, ◌∙◌, ap, Bool, true, false, Option, none, some, List, [], ◌∷◌, ◌++◌, Text, All,
  if-rule, if◌then◌else◌,
}
use fusion_wizard.Prelude.Int.{ℤ}
use fusion_wizard.Errors.{Error, is_status}
use fusion_wizard.Action.{Result, ok, err, Action, pure, raise, bind-ok}
use fusion_wizard.Steps.Numbers.{parse_int}
use fusion_wizard.Steps.Forge.{
  GitWatcherSpec, GitWatcher, Build, ForgeClient, builds_watched, not_found_as_nil, missing_as_nil,
  newest_build, listed_build, or_listed, remembered_build, find_build,
}

module _ {W A : Type 0} where
  missing_or_failed :
      (b : Bool) (x : Error) (w : W) {a : A}
      → ((if b then pure none else raise x) w).0 ≡ ok (some a)
      → ⊥
  missing_or_failed true x w h = cc
  missing_or_failed false x w h = cc

  missing_as_nil-some :
      (r : Result A) (w : W) {a : A} → (missing_as_nil r w).0 ≡ ok (some a) → r ≡ ok a
  unfolding missing_as_nil
  missing_as_nil-some (ok a) w h = cc
  missing_as_nil-some (err x) w h = absurd (missing_or_failed (is_status 404 x) x w h)

  not_found_as_nil-some :
      (m : Action W A) (w : W) {a : A} → (not_found_as_nil m w).0 ≡ ok (some a) → (m w).0 ≡ ok a
  unfolding not_found_as_nil
  not_found_as_nil-some m w h = missing_as_nil-some (m w).0 (m w).1 h

module _ {W : Type 0} (client : ForgeClient W) where
  -- The build that forge reports under a listed ID: the first of the list that is an app build of
  -- the watcher's repository and subfolder.
  pub data Newest (s : GitWatcherSpec) (builds : List Build) (b : Build) : Type 0 where
    newest :
        (before after : List Build) (listed : Build) (w : W)
        → builds ≡ before ++ listed ∷ after
        → All (λ x. builds_watched s x ≡ false) before
        → builds_watched s listed ≡ true
        → (client.get_app_build listed.id w).0 ≡ ok b
        → Newest s builds b

  -- The build is what forge reports under the remembered ID, or else under that of its newest
  -- build of what the watcher watches.
  pub data Found (gw : GitWatcher) (remembered : Text) (b : Build) : Type 0 where
    by_id :
        (id : ℤ) (w : W)
        → parse_int remembered ≡ some id
        → (client.get_app_build id w).0 ≡ ok b
        → Found gw remembered b
    from_list :
        (builds : List Build) (w : W)
        → (client.list_app_builds [] 100 w).0 ≡ ok builds
        → Newest gw.spec builds b
        → Found gw remembered b

  later :
      (s : GitWatcherSpec) (x : Build) (builds : List Build) {b : Build}
      → builds_watched s x ≡ false
      → Newest s builds b
      → Newest s (x ∷ builds) b
  later s x builds h (newest before after listed w e skipped watches got) =
      newest (x ∷ before) after listed w (ap (λ l. x ∷ l) e) (h, skipped) watches got

  newest_build-Newest :
      (s : GitWatcherSpec) (builds : List Build) (w : W) {b : Build}
      → (newest_build client s builds w).0 ≡ ok (some b)
      → Newest s builds b
  unfolding newest_build
  newest_build-Newest s [] w = λ h. cc
  newest_build-Newest s (x ∷ xs) w {b} =
      if-rule (λ (m : Action W (Option Build)). (m w).0 ≡ ok (some b) → Newest s (x ∷ xs) b)
        (builds_watched s x) _ _
        (λ watches h.
          newest [] xs x w refl tt watches (not_found_as_nil-some (client.get_app_build x.id) w h))
        (λ skipped h. later s x xs skipped (newest_build-Newest s xs w h))

  listed_build-Found :
      (gw : GitWatcher) (remembered : Text) (w : W) {b : Build}
      → (listed_build client gw.spec w).0 ≡ ok (some b)
      → Found gw remembered b
  unfolding listed_build
  listed_build-Found gw remembered w h =
      let (builds, got, rest) =
        bind-ok (client.list_app_builds [] 100) (newest_build client gw.spec) w h in
      from_list builds w got (newest_build-Newest gw.spec builds _ (ap (λ p. p.0) (sym rest) ∙ h))

  or_listed-Found :
      (gw : GitWatcher) (remembered : Text) (id : ℤ) (v w : W) {b : Build}
      → parse_int remembered ≡ some id
      → (o : Option Build) → (not_found_as_nil (client.get_app_build id) v).0 ≡ ok o
      → (or_listed client gw.spec o w).0 ≡ ok (some b)
      → Found gw remembered b
  unfolding or_listed
  or_listed-Found gw remembered id v w parsed none got h = listed_build-Found gw remembered w h
  or_listed-Found gw remembered id v w {b} parsed (some b') got h =
      let same : b' ≡ b = cc in
      by_id id v parsed (not_found_as_nil-some (client.get_app_build id) v got ∙ ap ok same)

  remembered_build-Found :
      (gw : GitWatcher) (remembered : Text) (w : W) {b : Build} (o : Option ℤ)
      → parse_int remembered ≡ o
      → (remembered_build client gw.spec o w).0 ≡ ok (some b)
      → Found gw remembered b
  unfolding remembered_build
  remembered_build-Found gw remembered w none parsed h = listed_build-Found gw remembered w h
  remembered_build-Found gw remembered w (some id) parsed h =
      let (o, got, rest) =
        bind-ok (not_found_as_nil (client.get_app_build id)) (or_listed client gw.spec) w h in
      or_listed-Found gw remembered id w _ parsed o got (ap (λ p. p.0) (sym rest) ∙ h)

  pub find_build-Found :
      (gw : GitWatcher) (remembered : Text) (w : W) {b : Build}
      → (find_build client gw remembered w).0 ≡ ok (some b)
      → Found gw remembered b
  unfolding find_build
  find_build-Found gw remembered w h =
      remembered_build-Found gw remembered w (parse_int remembered) refl h
