-- ===== src/Controller/Source/Allowed.antt =====
-- What the controller may read as the source of a chart.
use helm_controller.Base.{
  String, ◌≡◌, ◌≢◌, ap, false, ◌⊎◌, refl, inl, inr, true, Option, none, some, str_eq, arith, eq_iff,
  Bool-cases, Option-cases,
}
use helm_controller.Api.HelmRelease.{HelmRelease}
use helm_controller.Api.Charts.{
  HelmChartReference, helm_chart_kind, oci_repository_kind, external_artifact_kind, or_default,
  object_key, chart_reference, status_reference,
}
use helm_controller.External.Cluster.{ok}
use helm_controller.External.Platform.{
  Platform, Settings, Source, SourceKind, helm_chart, oci_repository, external_artifact,
}
use helm_controller.Reconcile.Access.{allows_access_to}
use helm_controller.Controller.Source.{
  fetch_allowed, get_source_from_oci_ref, get_source_from_external_artifact, get_source_by,
  get_source_of_ref, get_source,
}

-- The reference by which the source of a HelmRelease is found.
abbrev pub wanted_reference : HelmRelease → Option HelmChartReference
wanted_reference obj = elim (obj.spec.chart_ref) [
  | none ↦ status_reference obj.status
  | some written ↦ chart_reference obj
]

module _ (P : Platform) (s : Settings) where
  access_lem :
      (obj : HelmRelease) (ref : HelmChartReference)
      → allows_access_to s obj ref ≡ none
      → (s.allow_cross_namespace_ref ≡ true) ⊎ (ref.namespace ≡ obj.namespace)
  unfolding allows_access_to
  access_lem obj ref h = elim (Bool-cases s.allow_cross_namespace_ref) [
    | inl e ↦ inl e
    | inr e ↦ inr (ground (arith, eq_iff obj.namespace ref.namespace))
  ]

  fetch_allowed_lem :
      (w : P.env.World) (obj : HelmRelease) (kind : SourceKind) (ref : HelmChartReference)
      (src : Source)
      → fetch_allowed P s w obj kind ref ≡ ok src
      → (allows_access_to s obj ref ≡ none) × (P.get_source w kind (object_key ref) ≡ ok src)
  unfolding fetch_allowed
  fetch_allowed_lem w obj kind ref src h = ground arith

  external_lem :
      (w : P.env.World) (obj : HelmRelease) (ref : HelmChartReference) (src : Source)
      → get_source_from_external_artifact P s w obj ref ≡ ok src
      → (allows_access_to s obj ref ≡ none)
        × (P.get_source w external_artifact (object_key ref) ≡ ok src)
        × (s.allow_external_artifact ≡ true)
  unfolding get_source_from_external_artifact
  external_lem w obj ref src h = ground arith

  -- Found by a reference, as an object of the kind that it names: a HelmChart, unless it names another.
  abbrev pub IsFetched : P.env.World → HelmRelease → Source → HelmChartReference → Type 0
  IsFetched w obj src ref =
      ((s.allow_cross_namespace_ref ≡ true) ⊎ (ref.namespace ≡ obj.namespace))
      × ((kind : SourceKind) × (P.get_source w kind (object_key ref) ≡ ok src)
          × ((kind ≡ helm_chart) × (ref.kind ≢ "OCIRepository")
              ⊎ (kind ≡ oci_repository) × (ref.kind ≡ "OCIRepository")
              ⊎ (kind ≡ external_artifact)
                × (ref.kind ≡ "ExternalArtifact")
                × (s.allow_external_artifact ≡ true)))

  by_lem :
      (w : P.env.World) (obj : HelmRelease) (ref : HelmChartReference) (src : Source)
      → get_source_by P s w obj (some ref) ≡ ok src
      → IsFetched w obj src ref
  unfolding get_source_by
  by_lem w obj ref src h = elim (Bool-cases (str_eq ref.kind oci_repository_kind)) [
    | inl e ↦
        let (a, f) = fetch_allowed_lem w obj oci_repository ref src (ground arith) in
        let named = (eq_iff ref.kind oci_repository_kind).0 e in
        (access_lem obj ref a, (oci_repository, f, inr (inl (refl, named))))
    | inr e ↦
        let (a, f) = fetch_allowed_lem w obj helm_chart ref src (ground arith) in
        let other : ref.kind ≢ "OCIRepository" =
          λ named. ground (arith, (eq_iff ref.kind oci_repository_kind).1 named) in
        (access_lem obj ref a, (helm_chart, f, inl (refl, other)))
  ]

  by_none :
      (w : P.env.World) (obj : HelmRelease) (src : Source) → get_source_by P s w obj none ≢ ok src
  unfolding get_source_by
  by_none w obj src h = ground arith

  -- A kind that is written, and not empty, is the kind of the reference.
  kind_lem :
      (kind : String) (ref : HelmChartReference) (named : String)
      → ref.kind ≡ or_default kind helm_chart_kind
      → kind ≡ named
      → str_eq named "" ≡ false
      → ref.kind ≡ named
  kind_lem kind ref named r k h = ground (arith, ap (λ n. str_eq n "") k)

  of_ref_lem :
      (w : P.env.World) (obj : HelmRelease) (kind : String) (ref : HelmChartReference)
      (src : Source)
      → ref.kind ≡ or_default kind helm_chart_kind
      → get_source_of_ref P s w obj kind ref ≡ ok src
      → IsFetched w obj src ref
  unfolding get_source_of_ref get_source_from_oci_ref
  of_ref_lem w obj kind ref src r h = elim (Bool-cases (str_eq kind oci_repository_kind)) [
    | inl e ↦
        let (a, f) = fetch_allowed_lem w obj oci_repository ref src (ground arith) in
        let named =
          kind_lem kind ref "OCIRepository" r ((eq_iff kind oci_repository_kind).0 e) refl in
        (access_lem obj ref a, (oci_repository, f, inr (inl (refl, named))))
    | inr e ↦ elim (Bool-cases (str_eq kind external_artifact_kind)) [
      | inl k ↦
          let (a, f, gate) = external_lem w obj ref src (ground arith) in
          let named =
            kind_lem kind ref "ExternalArtifact" r ((eq_iff kind external_artifact_kind).0 k)
              refl in
          (access_lem obj ref a, (external_artifact, f, inr (inr (refl, named, gate))))
      | inr k ↦ by_lem w obj ref src (ground arith)
    ]
  ]

  -- A source that is found is what the cluster has under the name and namespace of the chart reference,
  -- or, without a chart reference, of the reference in the status. It is read as an OCIRepository
  -- only if the reference has that kind, as an ExternalArtifact only if it has that kind and these
  -- are allowed, and as a HelmChart only if it is not for an OCIRepository. It is in the namespace of
  -- the HelmRelease unless references to other namespaces are allowed.
  pub get_source-IsFetched :
      (w : P.env.World) (obj : HelmRelease) (src : Source)
      → get_source P s w obj ≡ ok src
      → (ref : HelmChartReference) × (wanted_reference obj ≡ some ref) × IsFetched w obj src ref
  unfolding get_source
  get_source-IsFetched w obj src h = elim (Option-cases obj.spec.chart_ref) [
    | inl none_written ↦ elim (Option-cases (status_reference obj.status)) [
      | inl missing ↦ absurd (ground (arith, by_none w obj src))
      | inr (ref, e) ↦ (ref, ground arith, by_lem w obj ref src (ground arith))
    ]
    | inr (written, e) ↦ elim (Option-cases (chart_reference obj)) [
      | inl missing ↦ absurd (ground arith)
      | inr (ref, f) ↦
          let named : ref.kind ≡ or_default written.kind helm_chart_kind =
            unfold chart_reference in ground arith in
          (ref, ground arith, of_ref_lem w obj written.kind ref src named (ground arith))
    ]
  ]
