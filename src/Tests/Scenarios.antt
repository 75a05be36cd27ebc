-- ===== src/Tests/Scenarios.antt =====
-- Runs of a round of the loop, computed.
use helm_controller.Base.{false, ◌≡◌, refl, List, [], ◌∷◌}
use helm_controller.Errors
use helm_controller.Helm
use helm_controller.Helm.{Status}
use helm_controller.Api.Snapshots.{Snapshots}
use helm_controller.Reconcile.Request.{Run, ReconcilerType, type_release}
use helm_controller.Reconcile.Actions.{Exit, done, failed}
use helm_controller.Reconcile.Atomic.Loop.{Round, return, again, round}
use helm_controller.Tests.World.{Cluster, sample_env}
use helm_controller.Tests.Samples.{sample_request, fresh, deployed, upgrade_failed, exhausted}
use helm_controller.Tests.Program.{program}

-- The exit of a round that returns, or the type of the action after which it goes on.
pub data Ending : Type 0 where
  ends : Exit → Ending
  goes_on : ReconcilerType → Ending

abbrev ending : Round Cluster → Ending
ending (return st exit) = ends exit
ending (again st t) = goes_on t

abbrev statuses : Snapshots → List Status
statuses [] = []
statuses (s ∷ ss) = s.status ∷ statuses ss

abbrev history_after : Round Cluster → List Status
history_after (return st exit) = statuses st.object.status.history
history_after (again st t) = statuses st.object.status.history

abbrev first_round : Run Cluster → Round Cluster
first_round st = round sample_env false "helm-controller" [] sample_request [] st

-- A new release is installed, and the loop goes on.
installs : ending (first_round fresh) ≡ goes_on type_release
unfolding program
installs = refl

install_is_recorded : history_after (first_round fresh) ≡ Helm.deployed ∷ []
unfolding program
install_is_recorded = refl

-- A release that is in sync is left alone.
stays : ending (first_round deployed) ≡ ends done
unfolding program
stays = refl

-- A failed upgrade is rolled back, and requeued for a retry.
rolls_back : ending (first_round upgrade_failed) ≡ ends (failed Errors.must_requeue)
unfolding program
rolls_back = refl

rollback_is_recorded :
    history_after (first_round upgrade_failed) ≡ Helm.deployed ∷ Helm.failed ∷ Helm.superseded ∷ []
unfolding program
rollback_is_recorded = refl

-- An install that may not be retried is refused.
refuses : ending (first_round exhausted) ≡ ends (failed Errors.exceeded_max_retries)
unfolding program
refuses = refl
