-- ===== src/Lib.antt =====
-- helm-controller: how a HelmRelease is reconciled with the releases in the Helm storage.
--
-- The controller keeps the history of the releases that it made in the status of a HelmRelease. A
-- reconciliation (internal/reconcile/atomic_release.go) goes round in a loop: it determines the state
-- of the release in the storage as compared to the object (state.go), chooses an action for it
-- (actionForState), runs the action (install.go, upgrade.go, test.go, unlock.go,
-- rollback_remediation.go, uninstall_remediation.go, correct_cluster_drift.go) and starts over, until
-- nothing is left to do, an action type would be repeated, or a remediation was made. Every write of
-- an action to the storage is observed and recorded in the history (release.go), and the conditions
-- of the object are summarized into Ready.
--
-- Around the loop, the controller (internal/controller/helmrelease_controller.go) answers a request:
-- it deletes what a deleted object stands for before it gives up its finalizer, keeps the chart object
-- of the chart template (internal/reconcile/helmchart_template.go), waits for dependencies and for the
-- source of the chart, uninstalls a release whose target has changed, starts the loop, and says when
-- the object comes back.
--
-- The files, by the part of the program that they model:
-- - Base, with Base/Tests, Base/Lists and Base/Int: names of the libraries, Boolean tests on the
--   native numbers, lists measured by them, and Go's int64 with its wrap-around.
-- - Errors (internal/errors, and the sentinel errors of internal/reconcile and internal/action).
-- - Helm: the data of the Helm SDK that the controller reads.
-- - Api/Conditions, Api/Spec, Api/HelmRelease, Api/Snapshots (api/v2): conditions, specification,
--   status and history, each accessor under its name in snake case. Api/Snapshots/Order, Previous,
--   Truncate and Bounds are about the history, Api/HelmRelease/Remediate about the failure counters.
-- - Release (internal/release): observations, snapshots and test hooks of releases, release names.
-- - Action/Verify (internal/action/verify.go), Action/Reset (reset.go), Action/Log and Action/Handler
--   (log.go), Action/Crds (crds.go), and Action/Options and Action/Run with the settings of the Helm
--   actions and how they run (install.go, upgrade.go, rollback.go, uninstall.go, test.go).
-- - Storage/Observer (internal/storage) and Diff (internal/diff/summarize.go).
-- - Reconcile/Request (internal/reconcile/reconcile.go): the state of a reconciler, and the setters of
--   it. Reconcile/Summary and Reconcile/Record (release.go), Reconcile/State (state.go),
--   Reconcile/Actions with a module for each reconciler, Reconcile/Atomic/Choose (actionForState) and
--   Reconcile/Atomic/Loop (AtomicRelease.Reconcile, the rounds of its loop).
-- - Text: the functions on texts of Go's standard library, with laws in Text/Laws.
-- - Api/Spec/Chart and Api/Charts (api/v2): chart templates, and references to charts.
-- - Reconcile/Access (internal/acl/acl.go) and Reconcile/ChartTemplate (helmchart_template.go).
-- - Controller (internal/controller/helmrelease_controller.go): Controller/Flow has the steps of a
--   function that returns early; Dependencies, Source, Revision and Clients are the parts that
--   reconcileRelease uses (Clients also internal/kube), Stages and Release its body by stages, Delete
--   the deletion, and Entry is Reconcile with its deferred patch. Requests (helmrelease_indexers.go)
--   and Predicate (internal/predicates) say which changes of a source make requests.
-- - External: what the controller calls and does not implement, as records of operations: the Helm
--   SDK with its storage, the cluster, the conditions and digests packages, and in External/Platform
--   the API, semver, CEL and the clients. Some have laws, which are hypotheses of the results that
--   need them, with instances under Tests: the conditions, the digests, and the sort of the requests.
-- - Tests: a concrete environment with sample objects, and each result at concrete inputs.
--
-- A state `Run` holds the object, the outside world and the events so far; a reconciler is a function
-- on it that also gives its `Exit`: nil, an error, or a panic on a nil pointer. A Helm action is a
-- function of the environment, which says what it wrote to the storage, in order, and its error, so
-- that the results hold whatever Helm does. The observers of the storage run over those writes after
-- the action, and Storage/Observer has the driver that calls them. Numbers are natural numbers where Go has a version, a time or a size, and integers with
-- the bounds of int64 for counters. Text is kept where it decides something; a message is its format
-- with its arguments. An error stands for the sentinel error that it wraps.
--
-- Bounds: the loop recurs on fuel, and `reconcile` gives it five rounds. Each round that goes on notes
-- an action type that was not noted before, and only four of the five types let the loop go on, so
-- that the fifth round is the last. All other loops are recursion on lists. The Go sort of the conditions is insertion sort, as the library does up to 20
-- elements; an object has fewer conditions.
--
-- Not modelled: the set-up of the controller and of the Helm configuration, post-renderers, waiting,
-- the transport of HTTP requests, the older API
-- versions and generated code, caches and metrics, and texts of log lines and of some events. They
-- drive other libraries, or do not decide what happens to a release.
pub mod Base
pub mod Diff
pub mod Storage
pub mod Text
pub mod Errors
pub mod Helm
pub mod Api
pub mod External
pub mod Release
pub mod Action
pub mod Reconcile
pub mod Controller
pub mod Tests
