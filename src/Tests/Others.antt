-- ===== src/Tests/Others.antt =====
-- Instances of the results on the log buffer, the Helm actions, the storage observer and the requests
-- of the controller.
use helm_controller.Base.{
  ℕ, String, ◌≡◌, ◌⊎◌, refl, true, false, List, [], ◌∷◌, none, some, length, str_eq, ◌==◌,
  if◌then◌else◌, arith, pos,
}
use helm_controller.Helm
use helm_controller.Helm.{Release}
use helm_controller.Api.HelmRelease.{get_rollback}
use helm_controller.External.Cluster.{ok, err, Releaser, typed}
use helm_controller.Action.Log.{Ring, new_ring}
use helm_controller.Action.Log.Window.{
  Message, append_all, log_all, window, messages, append_all_lem,
}
use helm_controller.Action.Handler.{LogBuffer, warn_level, attributes_of}
use helm_controller.Action.Handler.Nested.{value_at, attributes_of_lem}
use helm_controller.Action.Options.{Features, RollbackAction, ssa_mode, status_watcher}
use helm_controller.Action.Crds.{ResourceInfo, CrdClient, apply_crds}
use helm_controller.Action.Crds.Absent.{apply_crds-keeps}
use helm_controller.Action.Run.{Sdk}
use helm_controller.Action.Run.Resolved.{IsResolved, IsFound, resolve_rollback_lem}
use helm_controller.Controller.Requests.{Index, requests_for_change}
use helm_controller.Controller.Requests.Complete.{
  any, same_key, SortLaws, is_requested, requests_for_change_lem,
}
use helm_controller.Storage.Observer.{Driver, Observed, observer}
use helm_controller.Storage.Observer.Transparent.{
  Write, create, update, delete, perform_all, perform_all-observer,
}
use helm_controller.Errors
use helm_controller.Tests.Program.{program}
use helm_controller.Tests.World.{Cluster, sample_chart, sample_env, release_of}
use helm_controller.Tests.Samples.{upgrade_failed}
use helm_controller.Tests.Platform.{
  sample_platform, sample_source, sample_artifact, sample_dependency, active,
}

abbrev sample_log : List Message
sample_log = (1, "waiting") ∷ (2, "waiting") ∷ (3, "ready") ∷ (4, "waiting") ∷ (5, "waiting") ∷ []

append_all_lem_example :
    ((ring : Ring) × (append_all sample_log (new_ring 2) ≡ some ring)
      × (ring ≡ window 2 (log_all sample_log []))
      × (length ring ≡ 2)
      × (messages (log_all sample_log []) ≡ length sample_log))
    × ((now : ℕ) (msg : String) → append_all ((now, msg) ∷ sample_log) (new_ring 0) ≡ none)
append_all_lem_example = append_all_lem 1 sample_log

-- An index that lists two releases and keeps their order.
abbrev sample_index : Index sample_platform
sample_index = record {
  list = λ w index key. ok (active.object ∷ sample_dependency ∷ []);
  has_revision = λ artifact revision. str_eq artifact.revision revision;
  sort = λ objs. ok objs;
  is_ready_source = λ src. true;
}

sample_index-SortLaws : SortLaws sample_index
sample_index-SortLaws = record { any-sort = λ p objs sorted h. ground arith }

requests_for_change_lem_example :
    any
      (same_key ("apps", "base"))
      (requests_for_change sample_platform sample_index active.world sample_source)
    ≡ any
        (is_requested sample_platform sample_index sample_source.kind sample_artifact
          ("apps", "base"))
        (active.object ∷ sample_dependency ∷ [])
unfolding program
requests_for_change_lem_example =
    requests_for_change_lem sample_platform sample_index sample_index-SortLaws active.world
      sample_source sample_artifact (active.object ∷ sample_dependency ∷ [])
      (active.object ∷ sample_dependency ∷ []) ("apps", "base") refl refl refl

abbrev sample_features : Features
sample_features = record { use_helm3_defaults = false; allow_dns_lookups = false }

abbrev sample_crd : ResourceInfo
sample_crd = record {
  group = "apiextensions.k8s.io";
  kind = "CustomResourceDefinition";
  namespace = "";
  name = "apps.example.com";
  labels = [];
}

-- One CRD is there already.
abbrev sample_crds : CrdClient Cluster
sample_crds = record {
  crd_files = λ chart. "crds.yaml" ∷ [];
  process_dependencies = λ chart values. ok chart;
  build = λ w file. ok (sample_crd ∷ record sample_crd { name = "jobs.example.com" } ∷ []);
  labels_error = λ info. none;
  get = λ w info. if str_eq info.name "apps.example.com" then none else some Errors.not_found;
  create = λ w info ssa force. (record w { healthy = false }, ok (info ∷ []));
  client_set_error = λ w. none;
  get_definition = λ w name. err Errors.not_found;
  update = λ w original infos ssa force replace. (w, ok infos);
  waiter_error = λ w strategy. none;
  wait = λ w items. (w, none);
  reset_mapper = λ w. w;
}

-- The releases that are stored are as before.
apply_crds-keeps_example :
    (apply_crds sample_crds upgrade_failed.world upgrade_failed.object "Create" sample_chart
      Helm.null true status_watcher).0.stored
    ≡ upgrade_failed.world.stored
apply_crds-keeps_example =
    apply_crds-keeps sample_crds (λ w. w.stored ≡ upgrade_failed.world.stored) upgrade_failed.object
      (λ w info q owned absent. q) (λ w items q. (q, q)) upgrade_failed.world sample_chart Helm.null
      status_watcher refl

abbrev sample_sdk : Sdk sample_env
sample_sdk = record {
  history =
      λ w name. ok (typed (release_of 2 Helm.failed) ∷ typed (release_of 1 Helm.superseded) ∷ []);
  apply_method = λ r. if r.version == 1 then "ssa" else "csa";
  crds = sample_crds;
  run_install = λ w action chart values. (w, ok (typed (release_of 1 Helm.deployed)));
  run_upgrade = λ w action name chart values. (w, ok (typed (release_of 2 Helm.deployed)));
  run_rollback = λ w action name. (w, none);
  run_uninstall = λ w action name. (w, ok none);
  run_test = λ w action name. (w, ok (typed (release_of 1 Helm.deployed)));
}

abbrev resolved : RollbackAction
resolved = record {
  server_side_apply = "true";
  force_conflicts = true;
  force_replace = false;
  version = 1;
  timeout = 300000000000;
  wait_strategy = status_watcher;
  wait_for_jobs = true;
  disable_hooks = false;
  cleanup_on_fail = false;
  max_history = pos 5;
}

resolve_rollback_lem_example :
    (resolved.version ≡ 1)
    × IsResolved sample_env sample_sdk sample_features resolved.server_side_apply
        resolved.force_conflicts resolved.force_replace
        (get_rollback upgrade_failed.object).force
    × ((resolved.server_side_apply
          ≡ ssa_mode (get_rollback upgrade_failed.object).server_side_apply)
        ⊎ ((current r : Release) × (sample_env.last upgrade_failed.world "app" ≡ ok (typed current))
            × IsFound sample_env sample_sdk sample_features upgrade_failed.world "app" 1 r
            × (resolved.force_conflicts ≡ str_eq (sample_sdk.apply_method r) "ssa")))
unfolding program
resolve_rollback_lem_example =
    resolve_rollback_lem sample_env sample_sdk sample_features upgrade_failed.world
      upgrade_failed.object "app" 1 resolved refl

-- A driver over a list of releases, which refuses to update an empty storage.
abbrev sample_driver : Driver (List Releaser)
sample_driver = record {
  name = "memory";
  get = λ w key. err Errors.driver_release_not_found;
  list = λ w keep. ok w;
  query = λ w labels. ok w;
  create = λ w key r. (r ∷ w, none);
  update = λ w key r. elim w [
    | [] ↦ ([], some Errors.driver_release_not_found)
    | s ∷ rest ↦ (r ∷ rest, none)
  ];
  delete =
      λ w key. elim w [ [] ↦ ([], err Errors.driver_release_not_found) | s ∷ rest ↦ (rest, ok s) ];
}

abbrev sample_writes : List Write
sample_writes =
    update "a" (typed (release_of 1 Helm.deployed))
    ∷ create "a" (typed (release_of 1 Helm.deployed))
    ∷ update "a" (typed (release_of 1 Helm.superseded))
    ∷ delete "a"
    ∷ []

abbrev unobserved : Observed (List Releaser)
unobserved = record { stored = []; calls = [] }

perform_all-observer_example :
    (perform_all (observer sample_driver) sample_writes unobserved).0 ≡ record {
      stored = [];
      calls =
          typed (release_of 1 Helm.deployed)
          ∷ typed (release_of 1 Helm.superseded)
          ∷ typed (release_of 1 Helm.superseded)
          ∷ [];
    }
unfolding program
perform_all-observer_example = perform_all-observer sample_driver sample_writes unobserved

abbrev sample_handler : LogBuffer
sample_handler = record { attrs = []; group = "release" ∷ []; buf = some (new_ring 2) }

attributes_of_lem_example :
    let fields =
      attributes_of
        (record {
          level = warn_level;
          message = "waiting";
          attributes = record { key = "name"; value = "app" } ∷ [];
        })
        sample_handler in
    (value_at ("release" ∷ []) "name" fields ≡ some "app")
    × (value_at ("release" ∷ []) "namespace" fields
        ≡ value_at ("release" ∷ []) "namespace" (
            attributes_of
              (record { level = warn_level; message = "waiting"; attributes = [] })
              sample_handler))
attributes_of_lem_example =
    attributes_of_lem (record { level = warn_level; message = "waiting"; attributes = [] }) []
      (record { key = "name"; value = "app" }) sample_handler ("release" ∷ []) "namespace" refl
