-- ===== src/Controller/Release/Prepared.antt =====
-- What is known when the atomic release of a HelmRelease starts.
use helm_controller.Base.{
  String, ◌≡◌, refl, sym, ap, ◌∙◌, subst, false, List, Option, none, some, arith,
}
use helm_controller.Api.Conditions.{Condition}
use helm_controller.Api.Snapshots.{Snapshot, latest}
use helm_controller.Api.HelmRelease.{
  HelmRelease, get_storage_namespace, get_release_namespace, get_release_name, get_upgrade,
}
use helm_controller.External.Cluster.{ok}
use helm_controller.External.Platform.{Platform, Settings, Source}
use helm_controller.Action.Verify.{release_target_changed, target_changed_from}
use helm_controller.Reconcile.Request.{Request, Run}
use helm_controller.Reconcile.Summary.Frame.{OnlyConditions}
use helm_controller.Controller.Flow.{go}
use helm_controller.Controller.Flow.Laws.{>>=-go}
use helm_controller.Controller.Source.{
  get_source, get_source_of_ref, get_source_by, get_source_from_oci_ref,
  get_source_from_external_artifact, fetch_allowed, is_source_ready,
}
use helm_controller.Reconcile.Access.{allows_access_to}
use helm_controller.Api.Charts.{chart_reference, status_reference}
use helm_controller.Controller.Stages.{clear_stale, start, confirm_dependencies}
use helm_controller.Controller.Release.{must_uninstall_first, prepare}
use helm_controller.Controller.Release.Going.{
  clear_stale_go, confirm_dependencies_go, record_attempt_lem, start_go,
}
use helm_controller.Controller.Release.Reach.{IsReached, IsSourced, gather_lem}

target-conditions :
    (hash : String → String) (chart : String) (cs : List Condition) (obj : HelmRelease)
    (cur : Option Snapshot)
    → target_changed_from hash
        (record obj { status = record obj.status { conditions = cs } })
        chart
        cur
      ≡ target_changed_from hash obj chart cur
unfolding target_changed_from get_storage_namespace get_release_namespace get_release_name
target-conditions hash chart cs obj none = refl
target-conditions hash chart cs obj (some cur) = refl

module _ (P : Platform) (s : Settings) where
  -- What is known of the object when the atomic release starts with a request.
  abbrev pub IsPrepared : Run P.env.World → Run P.env.World → Request → Type 0
  IsPrepared st end req =
      ((src : Source) × (get_source P s end.world st.object ≡ ok src)
        × (is_source_ready src.kind src ≡ none))
      × (must_uninstall_first P s st.object req.chart.name ≡ false)
      × (end.object.spec ≡ st.object.spec)
      × (end.object.status.history ≡ st.object.status.history)
      × (end.object.status.storage_namespace ≡ get_storage_namespace st.object)
      × (end.object.status.last_attempted_generation ≡ st.object.generation)
      × (end.object.status.last_attempted_revision ≡ req.chart.version)

  -- Neither the source nor the target depends on the conditions.
  get_source-conditions :
      (w : P.env.World) (cs : List Condition) (obj : HelmRelease)
      → get_source P s w (record obj { status = record obj.status { conditions = cs } })
        ≡ get_source P s w obj
  unfolding get_source get_source_of_ref get_source_by get_source_from_oci_ref
      get_source_from_external_artifact fetch_allowed allows_access_to chart_reference
      status_reference
  get_source-conditions w cs obj = refl

  must_uninstall-conditions :
      (chart : String) (cs : List Condition) (obj : HelmRelease)
      → must_uninstall_first P s
          (record obj { status = record obj.status { conditions = cs } })
          chart
        ≡ must_uninstall_first P s obj chart
  unfolding must_uninstall_first release_target_changed get_upgrade
  must_uninstall-conditions chart cs obj =
      ground (arith, target-conditions P.env.sha256_hex chart cs obj (latest obj.status.history))

  abbrev IsKnown : Run P.env.World → Run P.env.World → Request → Type 0
  IsKnown st end req =
      (end.world ≡ st.world)
      × (must_uninstall_first P s st.object req.chart.name ≡ false)
      × (end.object.spec ≡ st.object.spec)
      × (end.object.status.history ≡ st.object.status.history)
      × (end.object.status.storage_namespace ≡ get_storage_namespace st.object)
      × (end.object.status.last_attempted_generation ≡ st.object.generation)
      × (end.object.status.last_attempted_revision ≡ req.chart.version)

  reached_lem :
      (st end : Run P.env.World) (req : Request) → IsReached P s st end req → IsKnown st end req
  unfolding get_storage_namespace
  reached_lem st end req (mid, kept, target, (values, digest, ended)) =
      let cs = mid.object.status.conditions in
      let known = record_attempt_lem P s req.chart values digest mid in
      (
        ground (
          arith,
          known,
          ap (λ (r : Run P.env.World). r.world) kept,
          ap (λ (r : Run P.env.World). r.world) ended,
        ),
        sym (must_uninstall-conditions req.chart.name cs st.object)
            ∙ (ap (λ (r : Run P.env.World). must_uninstall_first P s r.object req.chart.name) kept
                ∙ target),
        ground (
          arith,
          known,
          ap (λ (r : Run P.env.World). r.object.spec) kept,
          ap (λ (r : Run P.env.World). r.object.spec) ended,
        ),
        ground (
          arith,
          known,
          ap (λ (r : Run P.env.World). r.object.status.history) kept,
          ap (λ (r : Run P.env.World). r.object.status.history) ended,
        ),
        ground (
          arith,
          known,
          ap (λ (r : Run P.env.World). get_storage_namespace r.object) kept,
          ap (λ (r : Run P.env.World). r.object.status.storage_namespace) ended,
        ),
        ground (
          arith,
          known,
          ap (λ (r : Run P.env.World). r.object.generation) kept,
          ap (λ (r : Run P.env.World). r.object.status.last_attempted_generation) ended,
        ),
        ground (
          arith,
          known,
          ap (λ (r : Run P.env.World). r.object.status.last_attempted_revision) ended,
        ),
      )

  -- The run after the first stages: the object was patched, and has other conditions.
  abbrev moved : P.env.World → List Condition → Run P.env.World → Run P.env.World
  moved w cs st = record st {
    world = w;
    object = record st.object { status = record st.object.status { conditions = cs } };
  }

  moved_lem :
      (st st1 st2 st3 : Run P.env.World) (cs : List Condition) (w : P.env.World)
      → st1 ≡ moved w cs st
      → st2 ≡ st1
      → OnlyConditions st2 st3
      → st3 ≡ moved w st3.object.status.conditions st
  moved_lem st st1 st2 st3 cs w first same kept = ground arith

  started_lem :
      (st st3 end : Run P.env.World) (req : Request) (cs : List Condition) (w : P.env.World)
      → st3 ≡ moved w cs st
      → IsSourced P s st3
      → IsKnown st3 end req
      → IsPrepared st end req
  unfolding get_storage_namespace
  started_lem st st3 end req cs w shape sourced known =
      from_moved (subst (IsSourced P s) shape sourced)
        (subst (λ (r : Run P.env.World). IsKnown r end req) shape known)
    where
      from_moved :
          IsSourced P s (moved w cs st) → IsKnown (moved w cs st) end req → IsPrepared st end req
      from_moved (src, found, is_ready)
            (world, target, spec, history, storage, generation, version) =
          (
            (src, rw world (sym (get_source-conditions w cs st.object) ∙ found), is_ready),
            sym (must_uninstall-conditions req.chart.name cs st.object) ∙ target,
            spec,
            history,
            storage,
            generation,
            version,
          )

  -- If the stages before the atomic release go on to it, a source that is ready was found for the
  -- HelmRelease; its target has not changed, or not in a way that asks for an uninstall; its
  -- specification and history are as they were; and the storage namespace, the generation and the
  -- version of the chart are recorded as those of the attempt.
  pub prepare_lem :
      (st end : Run P.env.World) (req : Request)
      → prepare P s st ≡ go end req
      → IsPrepared st end req
  unfolding prepare
  prepare_lem st end req h =
      let (st1, u1, e1, h1) = >>=-go (start P s) _ st end req h in
      let (st2, u2, e2, h2) = >>=-go (confirm_dependencies P s) _ st1 end req h1 in
      let (st3, u3, e3, h3) = >>=-go (clear_stale P s _) _ st2 end req h2 in
      let (cs, w, first) = start_go P s st st1 u1 e1 in
      let same = (confirm_dependencies_go P s st1 st2 u2 e2).0 in
      let kept = clear_stale_go P s _ st2 st3 u3 e3 in
      let (sourced, reached) = gather_lem P s st3 end req h3 in
      let shape = moved_lem st st1 st2 st3 cs w first same kept in
      started_lem st st3 end req st3.object.status.conditions w shape sourced
        (reached_lem st3 end req reached)
