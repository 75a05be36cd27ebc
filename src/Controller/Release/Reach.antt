-- ===== src/Controller/Release/Reach.antt =====
-- What is known of the run that the stages of reconcileRelease, from the source on, go on with.
use helm_controller.Base.{String, ◌≡◌, false, none, arith}
use helm_controller.Helm.{ChartMetadata, Value}
use helm_controller.External.Cluster.{ok}
use helm_controller.External.Platform.{Platform, Settings, Source}
use helm_controller.Reconcile.Request.{Request, Run}
use helm_controller.Reconcile.Summary.Frame.{OnlyConditions, OnlyConditions-trans}
use helm_controller.Controller.Flow.{go}
use helm_controller.Controller.Flow.Laws.{>>=-go}
use helm_controller.Controller.Clients.{Getter}
use helm_controller.Controller.Source.{get_source, is_source_ready}
use helm_controller.Controller.Stages.{
  clear_stale, resolve_source, confirm_source, compose_values, load_chart, mutate_chart,
  build_getter, build_manager,
}
use helm_controller.Controller.Release.{
  must_uninstall_first, check_target, record_attempt, build_factory, attempt, reach_target,
  open_chart, gather,
}
use helm_controller.Controller.Release.Going.{
  clear_stale_go, resolve_source_go, confirm_source_go, compose_values_go, load_chart_go,
  mutate_chart_go, build_getter_go, build_manager_go, check_target_go, build_factory_go,
}

module _ (P : Platform) (s : Settings) where
  -- The stages after the check of the target.
  abbrev pub IsAttempt : Run P.env.World → Run P.env.World → Request → Type 0
  IsAttempt st end req =
      (values : Value) × (digest : String) × OnlyConditions
        (record_attempt P s req.chart values digest st) end

  attempt_lem :
      (getter : Getter P s) (chart : ChartMetadata) (values : Value) (digest : String)
      (st end : Run P.env.World) (req : Request)
      → attempt P s getter chart values digest st ≡ go end req
      → (req.chart ≡ chart) × IsAttempt st end req
  unfolding attempt
  attempt_lem getter chart values digest st end req h =
      let attempted = record_attempt P s chart values digest st in
      let (st2, u2, e2, h2) = >>=-go (build_factory P s getter) _ attempted end req h in
      let (st3, u3, e3, h3) = >>=-go (clear_stale P s _) _ st2 end req h2 in
      let same = build_factory_go P s getter attempted st2 u2 e2 in
      let kept = clear_stale_go P s _ st2 st3 u3 e3 in
      (ground (arith, h3), (values, digest, ground (arith, same, kept, h3)))

  -- Nothing but conditions changes before the check of the target, which finds it unchanged, or
  -- changed in a way that does not ask for an uninstall; then the attempt is recorded.
  abbrev pub IsReached : Run P.env.World → Run P.env.World → Request → Type 0
  IsReached st end req =
      (mid : Run P.env.World) × OnlyConditions st mid
      × (must_uninstall_first P s mid.object req.chart.name ≡ false)
      × IsAttempt mid end req

  earlier :
      (st next end : Run P.env.World) (req : Request)
      → OnlyConditions st next
      → IsReached next end req
      → IsReached st end req
  earlier st next end req o (mid, kept, target, attempted) =
      (mid, OnlyConditions-trans st next mid o kept, target, attempted)

  reach_target_lem :
      (values : Value) (chart : ChartMetadata) (digest : String) (st end : Run P.env.World)
      (req : Request)
      → reach_target P s values chart digest st ≡ go end req
      → IsReached st end req
  unfolding reach_target
  reach_target_lem values chart digest st end req h =
      let (st1, getter, e1, h1) = >>=-go (build_getter P s) _ st end req h in
      let (st2, u2, e2, h2) = >>=-go (build_manager P s getter) _ st1 end req h1 in
      let (st3, u3, e3, h3) = >>=-go (clear_stale P s _) _ st2 end req h2 in
      let (st4, u4, e4, h4) = >>=-go (check_target P s getter chart) _ st3 end req h3 in
      let (named, attempted) = attempt_lem getter chart values digest st4 end req h4 in
      let a = build_getter_go P s st st1 getter e1 in
      let b = build_manager_go P s getter st1 st2 u2 e2 in
      let kept = clear_stale_go P s _ st2 st3 u3 e3 in
      let (c, target) = check_target_go P s getter chart st3 st4 u4 e4 in
      (st4, ground (arith, a, b, kept, c), ground (arith, named, target, c), attempted)

  open_chart_lem :
      (src : Source) (values : Value) (st end : Run P.env.World) (req : Request)
      → open_chart P s src values st ≡ go end req
      → IsReached st end req
  unfolding open_chart
  open_chart_lem src values st end req h =
      let (st1, loaded, e1, h1) = >>=-go (load_chart P s src.artifact) _ st end req h in
      let (st2, u2, e2, h2) = >>=-go (clear_stale P s _) _ st1 end req h1 in
      let (st3, mutated, e3, h3) = >>=-go (mutate_chart P s loaded src) _ st2 end req h2 in
      let a = load_chart_go P s src.artifact st st1 loaded e1 in
      let kept = clear_stale_go P s _ st1 st2 u2 e2 in
      let b = (mutate_chart_go P s loaded src st2 st3 mutated e3).0 in
      earlier st st3 end req (ground (arith, a, kept, b))
        (reach_target_lem values mutated.0 mutated.1 st3 end req h3)

  -- A source that is ready was found.
  abbrev pub IsSourced : Run P.env.World → Type 0
  IsSourced st =
      (src : Source) × (get_source P s st.world st.object ≡ ok src)
      × (is_source_ready src.kind src ≡ none)

  pub gather_lem :
      (st end : Run P.env.World) (req : Request)
      → gather P s st ≡ go end req
      → IsSourced st × IsReached st end req
  unfolding gather
  gather_lem st end req h =
      let (st1, src, e1, h1) = >>=-go (resolve_source P s) _ st end req h in
      let (st2, u2, e2, h2) = >>=-go (clear_stale P s _) _ st1 end req h1 in
      let (st3, u3, e3, h3) = >>=-go (confirm_source P s src) _ st2 end req h2 in
      let (st4, u4, e4, h4) = >>=-go (clear_stale P s _) _ st3 end req h3 in
      let (st5, values, e5, h5) = >>=-go (compose_values P s) _ st4 end req h4 in
      let (st6, u6, e6, h6) = >>=-go (clear_stale P s _) _ st5 end req h5 in
      let (a, found) = resolve_source_go P s st st1 src e1 in
      let (b, is_ready) = confirm_source_go P s src st2 st3 u3 e3 in
      let c = (compose_values_go P s st4 st5 values e5).0 in
      let first = clear_stale_go P s _ st1 st2 u2 e2 in
      let second = clear_stale_go P s _ st3 st4 u4 e4 in
      let third = clear_stale_go P s _ st5 st6 u6 e6 in
      (
        (src, found, is_ready),
        earlier st st2 end req (ground (arith, a, first)) (
            earlier st2 st4 end req (ground (arith, b, second)) (
              earlier st4 st6 end req (ground (arith, c, third))
                (open_chart_lem src values st6 end req h6))),
      )
