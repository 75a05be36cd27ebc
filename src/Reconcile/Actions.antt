-- ===== src/Reconcile/Actions.antt =====
-- The action reconcilers of internal/reconcile, and what they share.
pub mod Same
pub mod Install
pub mod Upgrade
pub mod Test
pub mod Unlock
pub mod Rollback
pub mod Uninstall
pub mod Drift
pub mod Tally
use helm_controller.Base.{
  ℕ, String, Bool, true, false, not, ◌&&◌, List, [], ◌∷◌, ◌++◌, Option, none, some, ℤ, inc64,
  is_some, if◌then◌else◌,
}
use helm_controller.Errors.{Error}
use helm_controller.Api.Conditions.{Reason, Message, printf, full_release_name, ReleaseAction, Arg}
use helm_controller.Api.Snapshots.{Snapshot, has_been_tested, full_name_of, chart_name_of}
use helm_controller.Api.HelmRelease.{HelmRelease}
use helm_controller.External.Cluster.{Env, Diff}
use helm_controller.Reconcile.Request.{
  Request, Run, update_status, emit, event_meta, sort_history, ReconcilerType, type_release,
  type_remediate, type_test, type_unlock, type_drift_correction,
}

-- How a Go call ends: it returns nil, it returns an error, or it panics on a nil pointer.
pub data Exit : Type 0 where
  done : Exit
  failed : Error → Exit
  panicked : Exit

-- The ActionReconciler implementations that AtomicRelease chooses between.
pub data Action : Type 0 where
  install upgrade test unlock rollback_remediation uninstall_remediation : Action
  correct_cluster_drift : List Diff → Action

-- `Type()` of each reconciler.
unfoldable pub type_of : Action → ReconcilerType
type_of install = type_release
type_of upgrade = type_release
type_of test = type_test
type_of unlock = type_unlock
type_of rollback_remediation = type_remediate
type_of uninstall_remediation = type_remediate
type_of (correct_cluster_drift d) = type_drift_correction

-- `Name()` of each reconciler.
unfoldable pub name_of : Action → String
name_of install = "install"
name_of upgrade = "upgrade"
name_of test = "test"
name_of unlock = "unlock"
name_of rollback_remediation = "rollback"
name_of uninstall_remediation = "uninstall"
name_of (correct_cluster_drift d) = "correct cluster drift"

abbrev pub count_failure : {World : Type 0} → Run World → Run World
count_failure st = update_status (λ s. record s { failures = inc64 s.failures }) st

-- The event metadata of a snapshot: `eventMeta(cur.ChartVersion, cur.ConfigDigest, …)`.
unfoldable pub snapshot_meta : Snapshot → Option (List (String × String))
snapshot_meta cur = event_meta cur.chart_version cur.config_digest cur.app_version cur.oci_digest

-- An event about a snapshot that the code takes for not nil: reading the fields of nil panics.
unfoldable pub emit_about :
    {World : Type 0}
    → Bool
    → Reason
    → Message
    → Option Snapshot
    → Exit
    → Run World
    → Run World × Exit
emit_about warning _ message none exit st = (st, panicked)
emit_about warning why message (some cur) exit st =
    (emit warning why message (snapshot_meta cur) st, exit)

-- The names of the release and the chart that start most messages.
abbrev pub names_of : Option Snapshot → List Arg
names_of cur = full_name_of cur ∷ chart_name_of cur ∷ []

-- HasBeenTested, on a snapshot that may be nil.
abbrev pub tested : Option Snapshot → Bool
tested none = false
tested (some cur) = has_been_tested cur
