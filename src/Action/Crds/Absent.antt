-- ===== src/Action/Crds/Absent.antt =====
-- What applying the CRDs of a chart with the policy Create leaves alone.
use helm_controller.Base.{
  ◌≡◌, refl, subst, ◌∙◌, ap, String, true, ◌<>◌, List, [], ◌∷◌, Option, none, some, arith, str_eq,
  eq_iff, Bool-cases, Option-cases, inl, inr, All, if◌then◌else◌,
}
use helm_controller.Errors
use helm_controller.Errors.{Error, is}
use helm_controller.Errors.Laws.{is_iff}
use helm_controller.Helm.{ChartMetadata, Value}
use helm_controller.Api.HelmRelease.{HelmRelease}
use helm_controller.External.Cluster.{Result, ok, err, Result-cases}
use helm_controller.Action.Options.{WaitStrategy}
use helm_controller.Action.Crds.{
  ResourceInfo, CrdClient, set_label, merge_labels, api_group, origin_labels, is_crd, filter_crds,
  collect, set_origin, look_up, create_one, created, create_all, apply_by_policy, wait_applied,
  apply_files, apply_crds, has_no_files,
}

abbrev pub label : String → List (String × String) → Option String
label j [] = none
label j ((k, v) ∷ labels) = if str_eq k j then some v else label j labels

-- A CRD with the labels of the release that it comes from.
abbrev pub IsOwned : HelmRelease → ResourceInfo → Type 0
IsOwned obj info =
    (is_crd info ≡ true)
    × (label (api_group <> "/name") info.labels ≡ some obj.name)
    × (label (api_group <> "/namespace") info.labels ≡ some obj.namespace)

label-set_label :
    (j k v : String) (labels : List (String × String))
    → label j (set_label k v labels) ≡ (if str_eq k j then some v else label j labels)
unfolding set_label
label-set_label j k v [] = refl
label-set_label j k v ((i, x) ∷ labels) =
    ground (arith, eq_iff k j, eq_iff i j, eq_iff i k, label-set_label j k v labels)

merge_labels-IsOwned :
    (obj : HelmRelease) (info : ResourceInfo)
    → is_crd info ≡ true
    → IsOwned obj (record info { labels = merge_labels info.labels (origin_labels obj) })
unfolding merge_labels origin_labels is_crd
merge_labels-IsOwned obj info h =
    let named = set_label (api_group <> "/name") obj.name info.labels in
    (
      h,
      label-set_label (api_group <> "/name") (api_group <> "/namespace") obj.namespace named
          ∙ label-set_label (api_group <> "/name") (api_group <> "/name") obj.name info.labels,
      label-set_label (api_group <> "/namespace") (api_group <> "/namespace") obj.namespace named,
    )

filter_crds-All : (infos : List ResourceInfo) → All (λ info. is_crd info ≡ true) (filter_crds infos)
unfolding filter_crds
filter_crds-All [] = tt
filter_crds-All (info ∷ infos) = ground (arith, filter_crds-All infos)

module _ {World : Type 0} (K : CrdClient World) where
  set_origin-All :
      (obj : HelmRelease) (infos labelled : List ResourceInfo)
      → All (λ info. is_crd info ≡ true) infos
      → set_origin K obj infos ≡ ok labelled
      → All (IsOwned obj) labelled
  unfolding set_origin
  set_origin-All obj [] labelled h e =
      let same : [] ≡ labelled = ground arith in subst (All (IsOwned obj)) same tt
  set_origin-All obj (info ∷ infos) labelled (h, hs) e = elim (Option-cases (K.labels_error info)) [
    | inr (x, d) ↦ absurd (ground arith)
    | inl d ↦ elim (Result-cases (set_origin K obj infos)) [
      | inl (x, f) ↦ absurd (ground arith)
      | inr (others, f) ↦
          let owned = record info { labels = merge_labels info.labels (origin_labels obj) } in
          let same : owned ∷ others ≡ labelled = ground arith in
          subst (All (IsOwned obj)) same
            (merge_labels-IsOwned obj info h, set_origin-All obj infos others hs f)
    ]
  ]

  -- `Q` is kept by creating a CRD that is not there and bears the labels of the release, and by the
  -- wait for it.
  module _ (Q : World → Type 0) (obj : HelmRelease)
      (kept : (w : World) (info : ResourceInfo)
        → Q w
        → IsOwned obj info
        → K.get w info ≡ some Errors.not_found
        → Q (K.create w info true true).0)
      (waited : (w : World) (items : List ResourceInfo)
        → Q w
        → Q (K.wait w items).0 × Q (K.reset_mapper (K.wait w items).0)) where
    created-keeps :
        (r : World × Result (List ResourceInfo)) (done : List ResourceInfo)
        → Q r.0
        → Q (created K r done).0
    created-keeps (w, ok items) done q = q
    created-keeps (w, err e) done q = elim (Bool-cases (is e Errors.already_exists)) [
      | inl f ↦ rw f q
      | inr f ↦ rw f q
    ]

    create_one-keeps :
        (w : World) (info : ResourceInfo) (done : List ResourceInfo)
        → Q w
        → IsOwned obj info
        → Q (create_one K w info true done).0
    unfolding create_one look_up
    create_one-keeps w info done q owned = elim (Option-cases (K.get w info)) [
      | inl e ↦ rw (e, create_one, look_up) (created-keeps (w, err Errors.already_exists) done q)
      | inr (x, e) ↦ elim (Bool-cases (is x Errors.not_found)) [
        | inl f ↦
            let absent = e ∙ ap some ((is_iff x Errors.not_found).0 f) in
            rw (e, create_one, look_up, f)
              (created-keeps (K.create w info true true) done (kept w info q owned absent))
        | inr f ↦ rw (e, create_one, look_up, f) q
      ]
    ]

    create_all-keeps :
        (w : World) (infos done : List ResourceInfo)
        → Q w
        → All (IsOwned obj) infos
        → Q (create_all K w infos true done).0
    unfolding create_all
    create_all-keeps w [] done q owned = q
    create_all-keeps w (info ∷ infos) done q (owned, others) =
        let r = create_one K w info true done in
        let q' = create_one-keeps w info done q owned in
        elim (Result-cases r.1) [
          | inl (e, f) ↦ rw (f, create_all) q'
          | inr (items, f) ↦ rw (f, create_all) (create_all-keeps r.0 infos items q' others)
        ]

    wait_applied-keeps :
        (strategy : WaitStrategy) (r : World × Result (List ResourceInfo))
        → Q r.0
        → Q (wait_applied K strategy r).0
    unfolding wait_applied
    wait_applied-keeps strategy (w, err e) q = q
    wait_applied-keeps strategy (w, ok []) q = q
    wait_applied-keeps strategy (w, ok (item ∷ items)) q =
        elim (Option-cases (K.waiter_error w strategy)) [
          | inr (e, f) ↦ rw (f, wait_applied) q
          | inl f ↦ elim (Option-cases (K.wait w (item ∷ items)).1) [
            | inl g ↦ rw (f, wait_applied, g) (waited w (item ∷ items) q).1
            | inr (x, g) ↦ rw (f, wait_applied, g) (waited w (item ∷ items) q).0
          ]
        ]

    apply_files-keeps :
        (w : World) (files : List String) (strategy : WaitStrategy)
        → Q w
        → Q (apply_files K w obj "Create" files true strategy).0
    unfolding apply_files apply_by_policy
    apply_files-keeps w files strategy q = elim (Result-cases (collect K w files)) [
      | inl (e, f) ↦ rw (f, apply_files) q
      | inr (infos, f) ↦ elim (Result-cases (set_origin K obj (filter_crds infos))) [
        | inl (e, g) ↦ rw (f, apply_files, g) q
        | inr (labelled, g) ↦
            rw (f, apply_files, g)
              (wait_applied-keeps strategy (create_all K w labelled true []) (
                create_all-keeps w labelled [] q
                  (set_origin-All obj (filter_crds infos) labelled (filter_crds-All infos) g)))
      ]
    ]

    -- With the policy Create and server-side apply, applying the CRDs of a chart only creates CRDs that
    -- are not there, with the labels of the release: whatever holds of the cluster and is kept by such
    -- a creation, and by the wait for what was created, holds afterwards, also where there is an error.
    pub apply_crds-keeps :
        (w : World) (chart : ChartMetadata) (values : Value) (strategy : WaitStrategy)
        → Q w
        → Q (apply_crds K w obj "Create" chart values true strategy).0
    unfolding apply_crds
    apply_crds-keeps w chart values strategy q =
        elim (Bool-cases (has_no_files (K.crd_files chart))) [
          | inl e ↦ rw (e, apply_crds) q
          | inr e ↦ elim (Result-cases (K.process_dependencies chart values)) [
            | inl (x, f) ↦ rw (e, apply_crds, f) q
            | inr (processed, f) ↦
                let files = K.crd_files processed in
                let q' = apply_files-keeps w files strategy q in
                elim (Option-cases (apply_files K w obj "Create" files true strategy).1) [
                  | inl g ↦ rw (e, apply_crds, f, g) q'
                  | inr (x, g) ↦ rw (e, apply_crds, f, g) q'
                ]
          ]
        ]
