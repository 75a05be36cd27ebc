-- ===== src/Reconcile/Actions/Test/Counting.antt =====
-- How the test reconciler counts failures (internal/reconcile/test.go).
use mathlib.Core.Option.{some_inj}
use helm_controller.Base.{
  ◌≡◌, ◌⊎◌, ◌↔◌, Bool-cases, eq_iff, refl, ap, sym, ◌∙◌, Bool, true, false, not, [], ◌∷◌, ◌++◌,
  Option, none, some, is_some, deref, inc64, arith, ltb, if◌then◌else◌, Option-cases, inl, inr,
}
use helm_controller.Errors
use helm_controller.Errors.{Error}
use helm_controller.Api.Conditions.{
  Reason, Message, printf, test_success, condition_false, test_failed, test_failure_fmt, error,
}
use helm_controller.Api.HelmRelease.Remediate.{get_active_remediation-spec}
use helm_controller.Api.Spec.{
  Remediation, of_install, of_upgrade, must_ignore_test_failures, no_test,
}
use helm_controller.Api.HelmRelease.{get_test, get_active_remediation, increment_failure_count}
use helm_controller.Api.Snapshots.{Snapshot, Snapshots, latest, sort_by_version}
use helm_controller.Api.Snapshots.Order.{length-sort}
use helm_controller.Helm.{Release}
use helm_controller.Release.Observation
use helm_controller.Release.Observation.{observe_release}
use helm_controller.External.Cluster.{Env, Releaser, typed, other_api}
use helm_controller.Reconcile.Request.{Run, set_world, sort_history, emit, mark}
use helm_controller.Reconcile.Actions.{
  Exit, done, failed, panicked, tested, emit_about, names_of, count_failure, snapshot_meta,
}
use helm_controller.Reconcile.Actions.Tally.{Tally, tally, tally-summarize, counted}
use helm_controller.Reconcile.Actions.Uninstall.Settled.{latest-sort}
use helm_controller.Reconcile.Actions.Test.{
  observe_test, count_for, test_count, test_failure, test_succeed, mismatch_or, test_finish,
  test_run, test_reconcile,
}
use helm_controller.Reconcile.Actions.Test.Observed.{
  is_some-latest, length-observe_test, tally-observe_test,
}

module _ (E : Env) where
  -- The counters after a failure that is counted for a remediation.
  abbrev pub counted_for : Remediation → Tally → Tally
  counted_for (of_install r) t = record t { install_failures = inc64 t.install_failures }
  counted_for (of_upgrade r) t = record t { upgrade_failures = inc64 t.upgrade_failures }

  -- The same for the active remediation, unless it ignores test failures.
  abbrev pub counted_unless_ignored : Option Remediation → Tally → Tally
  counted_unless_ignored none t = t
  counted_unless_ignored (some r) t =
      if must_ignore_test_failures r (deref t.spec.test no_test).ignore_failures
      then t
      else counted_for r t

  -- The counters and the exit of a test, by whether the release has results of its tests now, and the
  -- error of the test.
  abbrev pub test_table : Bool → Option Error → Option Remediation → Tally → Tally × Exit
  test_table results none r t = (t, done)
  test_table true (some e) r t = (counted_unless_ignored r (counted t), done)
  test_table false (some e) r t = (counted t, failed e)

  -- The tested release is the one of the snapshot, whose version may be 0 for any.
  pub IsTested : Snapshot → Release → Type 0
  IsTested cur rls =
      (rls.name ≡ cur.name)
      × (rls.namespace ≡ cur.namespace)
      × ((cur.version ≡ 0) ⊎ (rls.version ≡ cur.version))

  -- The error of a test of `cur`: a mismatch, if another release was tested, and else what Helm
  -- reports.
  pub IsTestError : Snapshot → Option Releaser → Option Error → Option Error → Type 0
  IsTestError cur none reported e = e ≡ reported
  IsTestError cur (some other_api) reported e = e ≡ reported
  IsTestError cur (some (typed rls)) reported e =
      IsTested cur rls × (e ≡ reported) ⊎ (¬ IsTested cur rls) × (e ≡ some Errors.release_mismatch)

  targets_iff :
      (cur : Snapshot) (rls : Release)
      → (Observation.targets (observe_release rls) cur.name cur.namespace cur.version ≡ true)
        ↔ IsTested cur rls
  unfolding Observation.targets observe_release IsTested
  targets_iff cur rls =
      let name : (observe_release rls).name ≡ rls.name = refl in
      let namespace : (observe_release rls).namespace ≡ rls.namespace = refl in
      let version : (observe_release rls).version ≡ rls.version = refl in
      ground (
        arith,
        name,
        namespace,
        version,
        eq_iff (observe_release rls).name cur.name,
        eq_iff (observe_release rls).namespace cur.namespace,
      )

  mismatch_or_lem :
      (cur : Snapshot) (res : Option Releaser) (reported : Option Error)
      → IsTestError cur res reported (mismatch_or E cur res reported)
  unfolding mismatch_or IsTestError
  mismatch_or_lem cur none reported = refl
  mismatch_or_lem cur (some other_api) reported = refl
  mismatch_or_lem cur (some (typed rls)) reported =
      elim (Bool-cases
        (Observation.targets (observe_release rls) cur.name cur.namespace cur.version)) [
          | inl t ↦ inl ((targets_iff cur rls).0 t, ground arith)
          | inr t ↦ inr (λ same. ground (arith, (targets_iff cur rls).1 same), ground arith)
        ]

  tally-count_for :
      (r : Option Remediation) (st : Run E.World)
      → tally (count_for E r st) ≡ counted_unless_ignored r (tally st)
  unfolding count_for increment_failure_count get_test
  tally-count_for none st = refl
  tally-count_for (some (of_install r)) st = ground arith
  tally-count_for (some (of_upgrade r)) st = ground arith

  history-count_for :
      (r : Option Remediation) (st : Run E.World)
      → (count_for E r st).object.status.history ≡ st.object.status.history
  unfolding count_for increment_failure_count
  history-count_for none st = refl
  history-count_for (some (of_install r)) st = ground arith
  history-count_for (some (of_upgrade r)) st = ground arith

  history-test_count :
      (cur : Option Snapshot) (st : Run E.World)
      → (test_count E cur st).object.status.history ≡ st.object.status.history
  unfolding test_count
  history-test_count cur st =
      ground (arith, history-count_for (get_active_remediation st.object) st)

  tally-test_count :
      (cur : Option Snapshot) (st : Run E.World)
      → tally (test_count E cur st) ≡ (
          if tested cur
          then counted_unless_ignored (get_active_remediation st.object) (tally st)
          else tally st)
  unfolding test_count
  tally-test_count cur st = ground (arith, tally-count_for (get_active_remediation st.object) st)

  abbrev failure_tally : Bool → Option Remediation → Tally → Tally
  failure_tally results r t = if results then counted_unless_ignored r (counted t) else counted t

  failure_table :
      (results : Bool) (e : Error) (r : Option Remediation) (t : Tally)
      → ◌≡◌ {A = Tally × Exit}
          (failure_tally results r t, if not results then failed e else done)
          (test_table results (some e) r t)
  failure_table true e r t = refl
  failure_table false e r t = refl

  -- What is shown of the end of a failed test: its counters, its history and its exit.
  abbrev shown : Run E.World × Exit → Tally × Snapshots × Exit
  shown r = (tally r.0, r.0.object.status.history, r.1)

  emit_about-some :
      (warning : Bool) (why : Reason) (msg : Message) (o : Option Snapshot) (cur : Snapshot)
      (exit : Exit) (st : Run E.World)
      → o ≡ some cur
      → emit_about warning why msg o exit st ≡ (emit warning why msg (snapshot_meta cur) st, exit)
  unfolding emit_about
  emit_about-some warning why msg none cur exit st e = absurd (ground arith)
  emit_about-some warning why msg (some c) cur exit st e =
      ap (λ x. (emit warning why msg (snapshot_meta x) st, exit)) (some_inj.0 e)

  abbrev finish_failure : Option Snapshot → Run E.World × Exit → Run E.World × Exit
  finish_failure cur p = elim (p.1) [ done ↦ (test_count E cur p.0, done) | other ↦ (p.0, other) ]

  -- A state in which the failure is marked, and its event emitted.
  abbrev failure_marked : Error → Run E.World → Run E.World
  failure_marked e st =
      mark E test_success condition_false test_failed
        (printf test_failure_fmt (names_of (latest st.object.status.history) ++ error e ∷ []))
        (count_failure (sort_history st))

  test_failure_lem :
      (e : Error) (st : Run E.World) (cur : Snapshot)
      → latest st.object.status.history ≡ some cur
      → shown (test_failure E e st) ≡ (
        failure_tally
            (tested (latest st.object.status.history))
            (get_active_remediation st.object)
            (tally st),
        sort_by_version st.object.status.history,
        done,
      )
  unfolding test_failure
  test_failure_lem e st cur l =
      let o = latest st.object.status.history in
      let msg = printf test_failure_fmt (names_of o ++ error e ∷ []) in
      let marked = failure_marked e st in
      let emitted = emit true test_failed msg (snapshot_meta cur) marked in
      ap (λ p. shown (finish_failure o p))
        (emit_about-some true test_failed msg o cur done marked l)
      ∙ cc (
        tally-test_count o emitted,
        history-test_count o emitted,
        get_active_remediation-spec emitted.object st.object refl refl,
      )

  abbrev end_failure : Error → Run E.World × Exit → Run E.World × Exit
  end_failure e p = elim (p.1) [
    | done ↦ (
      sort_history p.0,
      if not (tested (latest p.0.object.status.history)) then failed e else done,
    )
    | other ↦ (p.0, other)
  ]

  end_failure_lem :
      (e : Error) (s : Run E.World) (x : Exit) (t : Tally) (h : Snapshots)
      → shown (s, x) ≡ (t, h, done)
      → ◌≡◌ {A = Tally × Exit}
          (tally (end_failure e (s, x)).0, (end_failure e (s, x)).1)
          (t, if not (tested (latest h)) then failed e else done)
  end_failure_lem e s done t h q =
      ap (λ v. (v.0, if not (tested (latest v.1)) then failed e else done)) q
  end_failure_lem e s (failed y) t h q = absurd (ground arith)
  end_failure_lem e s panicked t h q = absurd (ground arith)

  test_finish-tally :
      (e : Option Error) (st : Run E.World) (cur : Snapshot)
      → latest st.object.status.history ≡ some cur
      → ◌≡◌ {A = Tally × Exit}
          (tally (test_finish E e st).0, (test_finish E e st).1)
          (test_table
            (tested (latest st.object.status.history))
            e
            (get_active_remediation st.object)
            (tally st))
  unfolding test_finish test_succeed
  test_finish-tally none st cur l =
      ap (λ p. (tally p.0, p.1))
        (emit_about-some false _ _ (latest st.object.status.history) cur done _ l)
  test_finish-tally (some e) st cur l =
      let r = get_active_remediation st.object in
      let t = tally st in
      end_failure_lem e (test_failure E e st).0 (test_failure E e st).1 _ _
        (test_failure_lem e st cur l)
      ∙ ap
          (λ o. (
            failure_tally (tested (latest st.object.status.history)) r t,
            if not (tested o) then failed e else done,
          ))
          (latest-sort st.object.status.history)
      ∙ failure_table (tested (latest st.object.status.history)) e r t

  -- What a test of the latest release does to the failure counters, and how it exits, is decided by
  -- its error, or a mismatch, if the release that Helm tested has not the name, namespace and version
  -- of the latest snapshot (of which a version 0 fits any), and by whether the latest snapshot then has results of its tests. A failure is counted. If there are results it counts against the active
  -- remediation, unless that ignores test failures, and no error is returned; if there are none, the
  -- error is returned. A success leaves the counters alone.
  pub test_reconcile-tally :
      (st : Run E.World) (cur : Snapshot)
      → latest st.object.status.history ≡ some cur
      → let out = E.test st.world (sort_history st).object in
        let observed = observe_test E out.writes (set_world out.world (sort_history st)) in
        let (ended, exit) = test_reconcile E st in
        (e : Option Error) × IsTestError cur out.release out.error e
        × ◌≡◌ {A = Tally × Exit}
            (tally ended, exit)
            (test_table
              (tested (latest observed.object.status.history))
              e
              (get_active_remediation observed.object)
              (tally st))
  unfolding test_reconcile test_run
  test_reconcile-tally st cur l =
      let sorted = sort_history st in
      let out = E.test sorted.world sorted.object in
      let before = set_world out.world sorted in
      let observed = observe_test E out.writes before in
      let e = mismatch_or E cur out.release out.error in
      let known : is_some (latest observed.object.status.history) ≡ true =
        is_some-latest observed.object.status.history
        ∙ ap (ltb 0)
            (length-observe_test E out.writes before ∙ length-sort st.object.status.history)
        ∙ sym (is_some-latest st.object.status.history)
        ∙ ap is_some l in
      elim (Option-cases (latest observed.object.status.history)) [
        | inl n ↦ absurd (ground arith)
        | inr (new, k) ↦ (
          e,
          mismatch_or_lem cur out.release out.error,
          rw (l, test_reconcile)
              (ap (λ t. (t, (test_finish E e observed).1))
                  (tally-summarize E (test_finish E e observed).0)
                ∙ test_finish-tally e observed new k
                ∙ ap
                    (test_table (tested (latest observed.object.status.history)) e
                      (get_active_remediation observed.object))
                    (tally-observe_test E out.writes before)),
        )
      ]
