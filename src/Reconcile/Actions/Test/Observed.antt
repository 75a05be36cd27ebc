-- ===== src/Reconcile/Actions/Test/Observed.antt =====
-- What the observation of a test run leaves alone (internal/reconcile/test.go).
use helm_controller.Base.{◌≡◌, refl, ap, ◌∙◌, List, [], ◌∷◌, is_some, arith, length, ltb, head?}
use helm_controller.Helm.{Release}
use helm_controller.Api.HelmRelease.{HelmRelease}
use helm_controller.Api.Snapshots.{Snapshots, latest, sort_by_version}
use helm_controller.Api.Snapshots.Order.{length-sort}
use helm_controller.External.Cluster.{Env, Releaser, typed, other_api}
use helm_controller.Reconcile.Request.{Run}
use helm_controller.Reconcile.Actions.Tally.{tally}
use helm_controller.Reconcile.Actions.Test.{observed_test, observe_test}

-- A history has a latest snapshot if it is not empty.
is_some-head? : (ss : Snapshots) → is_some (head? ss) ≡ ltb 0 (length ss)
is_some-head? [] = refl
is_some-head? (s ∷ ss) = ground arith

pub is_some-latest : (ss : Snapshots) → is_some (latest ss) ≡ ltb 0 (length ss)
unfolding latest
is_some-latest ss = is_some-head? (sort_by_version ss) ∙ ap (ltb 0) (length-sort ss)

module _ (E : Env) where
  length-observed_test :
      (obj : HelmRelease) (rls : Release) (ss : Snapshots)
      → length (observed_test E obj rls ss) ≡ length ss
  unfolding observed_test
  length-observed_test obj rls [] = refl
  length-observed_test obj rls (s ∷ ss) = ground arith

  pub length-observe_test :
      (ws : List Releaser) (st : Run E.World)
      → length (observe_test E ws st).object.status.history ≡ length st.object.status.history
  unfolding observe_test
  length-observe_test [] st = refl
  length-observe_test (other_api ∷ ws) st = length-observe_test ws st
  length-observe_test (typed rls ∷ ws) st =
      length-observe_test ws _
      ∙ length-observed_test st.object rls (sort_by_version st.object.status.history)
      ∙ length-sort st.object.status.history

  pub tally-observe_test :
      (ws : List Releaser) (st : Run E.World) → tally (observe_test E ws st) ≡ tally st
  unfolding observe_test
  tally-observe_test [] st = refl
  tally-observe_test (other_api ∷ ws) st = tally-observe_test ws st
  tally-observe_test (typed rls ∷ ws) st = tally-observe_test ws _
