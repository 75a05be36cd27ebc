-- ===== src/Tests/Loop.antt =====
-- Instances of the results on the loop of the reconciliation.
use helm_controller.Base.{◌≤◌, ◌≡◌, ◌⊎◌, refl, false, [], ◌∷◌, Option, none, some, length}
use helm_controller.Errors
use helm_controller.Errors.{Error}
use helm_controller.Api.Conditions.{retries_exceeded}
use helm_controller.Reconcile.Request.{
  Run, ReconcilerType, type_release, type_remediate, count, contains,
}
use helm_controller.Reconcile.Actions
use helm_controller.Reconcile.Actions.{Exit, done, failed, type_of}
use helm_controller.Reconcile.Atomic.Loop.{Round, return, again, round, reconcile, after_action}
use helm_controller.Reconcile.Atomic.Loop.Bound.{reconcile_total}
use helm_controller.Reconcile.Atomic.Loop.Reached.{Reached, begin, next, Reached_lem}
use helm_controller.Reconcile.Atomic.Loop.Stall.{IsStalled, IsRetried, GivesUp, after_remediation}
use helm_controller.Tests.Conditions.{sample_conditions-ConditionsLaws}
use helm_controller.Tests.World.{Cluster, sample_env}
use helm_controller.Tests.Samples.{sample_request, fresh, upgrade_failed}
use helm_controller.Tests.Program.{program}

-- The state of a run that ends, or of a round that goes on.
abbrev ended : Option (Run Cluster × Exit) → Run Cluster
ended none = fresh
ended (some (st, exit)) = st

abbrev gone_on : Round Cluster → Run Cluster
gone_on (return st exit) = st
gone_on (again st t) = st

reconcile_total_example :
    (r : Run Cluster × Exit) × (reconcile sample_env false "helm-controller" [] sample_request
        upgrade_failed
      ≡ some r)
reconcile_total_example =
    reconcile_total sample_env false "helm-controller" [] sample_request upgrade_failed

-- The object is new: the first round installs its release.
abbrev installed : Run Cluster
installed = gone_on (round sample_env false "helm-controller" [] sample_request [] fresh)

installed-Reached :
    Reached sample_env false "helm-controller" [] sample_request fresh (type_release ∷ []) installed
unfolding program
installed-Reached = next [] fresh installed type_release begin refl

Reached_lem_example :
    ((t : ReconcilerType) → count (type_release ∷ []) t ≤ 1)
    × (contains (type_release ∷ []) type_remediate ≡ false)
    × (length (type_release ∷ []) ≤ 4)
Reached_lem_example =
    Reached_lem sample_env false "helm-controller" [] sample_request fresh installed
      (type_release ∷ []) installed-Reached

-- The upgrade failed, and was rolled back.
after_remediation_example :
    (end : Run Cluster) × (e : Error) × (after_action sample_env false "helm-controller" []
        sample_request Actions.rollback_remediation upgrade_failed done
      ≡ return end (failed e))
    × (GivesUp sample_env sample_conditions-ConditionsLaws false "helm-controller" [] sample_request
            upgrade_failed
          × (e ≡ Errors.exceeded_max_retries)
          × IsStalled sample_env sample_conditions-ConditionsLaws false "helm-controller" []
              sample_request retries_exceeded end
        ⊎ (¬ GivesUp sample_env sample_conditions-ConditionsLaws false "helm-controller" []
            sample_request upgrade_failed)
          × IsRetried sample_env sample_conditions-ConditionsLaws false "helm-controller" []
              sample_request end)
unfolding type_of
after_remediation_example =
    after_remediation sample_env sample_conditions-ConditionsLaws false "helm-controller" []
      sample_request Actions.rollback_remediation upgrade_failed refl
