-- ===== src/Steps/Forge/WaitBuild/Polls.antt =====
-- How long a waitBuild step keeps waiting.
use fusion_wizard.Prelude.{
  ℕ, zero, suc, ◌+◌, ◌≤◌, ◌<◌, ◌≡◌, refl, Bool, true, false, some, Text, codes, text_eq, arith, ap,
  sym, ◌∙◌, if◌then◌else◌,
}
use fusion_wizard.Errors.{Error}
use fusion_wizard.Action.{ok, raise, Action, bind-ok}
use fusion_wizard.Cluster.{Cluster}
use fusion_wizard.Steps.Step.{Input, StepResult}
use fusion_wizard.Controller.Instance.{or_outputs}
use fusion_wizard.Steps.App.{value}
use fusion_wizard.Steps.Forge.{GitWatcher, Artifact, ForgeClient, Config}
use fusion_wizard.Steps.Forge.WaitBuild.{is_late, in_time, watched, wait_build_step}

not_late : (s timeout now : ℕ) → is_late (some s) timeout now ≡ false → now ≤ s + timeout
unfolding is_late
not_late s timeout now h = ground arith

module _ {W : Type 0} where
  pub unless_disabled :
      (disabled : Bool) (x : Error) (m : Action W StepResult) (w : W) {res : StepResult}
      → (if disabled then raise x w else m w).0 ≡ ok res
      → (m w).0 ≡ ok res
  unless_disabled true x m w h = cc
  unless_disabled false x m w h = h

module _ {W : Type 0} (cluster : Cluster W) (sum : Text → Text) (client : ForgeClient W)
    (find_artifact : Text → Action W Artifact) (now : W → ℕ) (cfg : Config) where
  -- The step may be polled so often from a world on without failing or being done, each poll at
  -- least a second after the one before and with the outputs that the run controller then has
  -- recorded for it.
  pub data Polls : Input → ℕ → W → Type 0 where
    stop : (input : Input) (w : W) → Polls input zero w
    poll :
        (input : Input) (n : ℕ) (w w' : W) (res : StepResult)
        → (wait_build_step cluster sum client find_artifact now cfg input w).0 ≡ ok res
        → res.done ≡ false
        → now w < now w'
        → Polls (record input { prior = or_outputs res.outputs input.prior }) n w'
        → Polls input (suc n) w

  in_time-ok :
      (input : Input) (gw : GitWatcher) (late : Bool) (w : W) {res : StepResult}
      → (in_time cluster sum client find_artifact now cfg input gw late w).0 ≡ ok res
      → late ≡ false
  unfolding in_time
  in_time-ok input gw true w h = cc
  in_time-ok input gw false w h = refl

  watched-ok :
      (input : Input) (gw : GitWatcher) (w : W) {res : StepResult}
      → (watched cluster sum client find_artifact now cfg input gw w).0 ≡ ok res
      → is_late input.started_at cfg.build_timeout (now w) ≡ false
  unfolding watched
  watched-ok input gw w h = in_time-ok input gw _ w (
      unless_disabled (text_eq gw.status.phase (codes "Disabled")) _
        (in_time cluster sum client find_artifact now cfg input gw
          (is_late input.started_at cfg.build_timeout (now w)))
        w h)

  module _ (s : ℕ)
      (forwards : (name : Text) (w : W) → now w ≤ now (client.get_git_watcher name w).1) where
    wait_build_step-ok :
        (input : Input) (w : W) {res : StepResult}
        → input.started_at ≡ some s
        → (wait_build_step cluster sum client find_artifact now cfg input w).0 ≡ ok res
        → now w ≤ s + cfg.build_timeout
    unfolding wait_build_step
    wait_build_step-ok input w started h =
        let name = value input.params (codes "watcher") in
        let w1 = (client.get_git_watcher name w).1 in
        let (gw, r, e) =
          bind-ok (client.get_git_watcher name)
            (watched cluster sum client find_artifact now cfg input) w h in
        let late = ap (λ t. is_late t cfg.build_timeout (now w1)) (sym started) in
        let fine = watched-ok input gw w1 (ap (λ p. p.0) (sym e) ∙ h) in
        omega (arith, forwards name w, not_late s cfg.build_timeout (now w1) (late ∙ fine))

    -- waitBuild does not wait for ever. Let the wait have a start, and let the clock not go back
    -- while forge answers. A step that can be polled `n + 1` times from now on, at least a second
    -- apart and each with the outputs of the last one as its prior outputs, without failing or being
    -- done, is `n` seconds from now still within the timeout that
    -- began with the wait: `n` is at most what is left of it.
    pub Polls-bound :
        (input : Input) (n : ℕ) (w : W)
        → input.started_at ≡ some s
        → Polls input (suc n) w
        → now w + n ≤ s + cfg.build_timeout
    Polls-bound input zero w started (poll _ _ _ w' res h d later rest) =
        omega (arith, wait_build_step-ok input w started h)
    Polls-bound input (suc n) w started (poll _ _ _ w' res h d later rest) =
        omega (arith, later, Polls-bound _ n w' started rest)
