-- ===== src/Action/Crds.antt =====
-- internal/action/crds.go: applying the CustomResourceDefinitions of a chart.
pub mod Absent
use helm_controller.Base.{
  ◌<>◌, String, Bool, true, false, not, ◌&&◌, ◌||◌, List, [], ◌∷◌, ◌++◌, Option, none, some, str_eq,
  if◌then◌else◌,
}
use helm_controller.Errors
use helm_controller.Errors.{Error, is}
use helm_controller.Helm.{ChartMetadata, Value}
use helm_controller.Api.HelmRelease.{HelmRelease}
use helm_controller.External.Cluster.{Result, ok, err}
use helm_controller.Action.Options.{WaitStrategy}

unfoldable pub crd_policy_or_default : String → Result String
crd_policy_or_default policy =
    if str_eq policy ""
    then ok "Create"
    else if str_eq policy "Skip" || str_eq policy "Create" || str_eq policy "CreateReplace"
    then ok policy
    else err (Errors.external ("invalid CRD upgrade policy '" <> (policy <> "'")))

-- resource.Info: what the controller reads of an object, and its labels.
pub record ResourceInfo : Type 0 where
  pub group : String
  pub kind : String
  pub namespace : String
  pub name : String
  pub labels : List (String × String)

-- What is found of a CRD before it is created.
pub data Lookup : Type 0 where
  absent present : Lookup
  lookup_failed : Error → Lookup

-- The Helm and Kubernetes clients. Processing the dependencies changes the chart, in which it leaves
-- out what is disabled. The items of an update are those that were created, updated and
-- deleted. `get_definition` reads by name, and may give nil without an error.
pub record CrdClient (World : Type 0) : Type 0 where
  pub crd_files : ChartMetadata → List String
  pub process_dependencies : ChartMetadata → Value → Result ChartMetadata
  pub build : World → String → Result (List ResourceInfo)
  pub labels_error : ResourceInfo → Option Error
  pub get : World → ResourceInfo → Option Error
  pub create : World → ResourceInfo → Bool → Bool → World × Result (List ResourceInfo)
  pub client_set_error : World → Option Error
  pub get_definition : World → String → Result (Option ResourceInfo)
  pub update :
      World
      → List ResourceInfo
      → List ResourceInfo
      → Bool
      → Bool
      → Bool
      → World × Result (List ResourceInfo)
  pub waiter_error : World → WaitStrategy → Option Error
  pub wait : World → List ResourceInfo → World × Option Error
  pub reset_mapper : World → World

-- mergeStrStrMaps, for one label.
unfoldable pub set_label : String → String → List (String × String) → List (String × String)
set_label k v [] = (k, v) ∷ []
set_label k v ((j, x) ∷ labels) =
    if str_eq j k then (k, v) ∷ labels else (j, x) ∷ set_label k v labels

unfoldable pub merge_labels :
    List (String × String) → List (String × String) → List (String × String)
merge_labels current [] = current
merge_labels current ((k, v) ∷ desired) = merge_labels (set_label k v current) desired

abbrev pub api_group : String
api_group = "helm.toolkit.fluxcd.io"

unfoldable pub origin_labels : HelmRelease → List (String × String)
origin_labels obj =
    (api_group <> "/name", obj.name) ∷ (api_group <> "/namespace", obj.namespace) ∷ []

unfoldable pub is_crd : ResourceInfo → Bool
is_crd info =
    str_eq info.group "apiextensions.k8s.io" && str_eq info.kind "CustomResourceDefinition"

-- What is in the crds directory and is no CRD is dropped.
unfoldable pub filter_crds : List ResourceInfo → List ResourceInfo
filter_crds [] = []
filter_crds (info ∷ infos) =
    let rest = filter_crds infos in if is_crd info then info ∷ rest else rest

abbrev pub has_no_files : List String → Bool
has_no_files [] = true
has_no_files (file ∷ files) = false

module _ {World : Type 0} (K : CrdClient World) where
  -- The objects of all files, up to the first that does not parse.
  unfoldable pub collect : World → List String → Result (List ResourceInfo)
  collect w [] = ok []
  collect w (file ∷ files) =
      let rest = collect w files in
      elim (K.build w file) [
        | err e ↦ err e
        | ok infos ↦ elim rest [ err e ↦ err e | ok others ↦ ok (infos ++ others) ]
      ]

  -- setOriginVisitor on each object.
  unfoldable pub set_origin : HelmRelease → List ResourceInfo → Result (List ResourceInfo)
  set_origin obj [] = ok []
  set_origin obj (info ∷ infos) =
      let rest = set_origin obj infos in
      elim (K.labels_error info) [
        | some e ↦ err e
        | none ↦ elim rest [
          | err e ↦ err e
          | ok others ↦
              ok (record info { labels = merge_labels info.labels (origin_labels obj) } ∷ others)
        ]
      ]

  -- A server-side apply would update what is there, so that is looked up first.
  unfoldable pub look_up : World → ResourceInfo → Bool → Lookup
  look_up w info ssa =
      if ssa
      then elim (K.get w info) [
        | none ↦ present
        | some e ↦ if is e Errors.not_found then absent else lookup_failed e
      ]
      else absent

  -- A CRD that is there already is skipped.
  abbrev pub created :
      World × Result (List ResourceInfo) → List ResourceInfo → World × Result (List ResourceInfo)
  created (w, ok items) done = (w, ok (done ++ items))
  created (w, err e) done = if is e Errors.already_exists then (w, ok done) else (w, err e)

  unfoldable pub create_one :
      World → ResourceInfo → Bool → List ResourceInfo → World × Result (List ResourceInfo)
  create_one w info ssa done = elim (look_up w info ssa) [
    | lookup_failed e ↦ (w, err e)
    | present ↦ created (w, err Errors.already_exists) done
    | absent ↦ created (K.create w info ssa ssa) done
  ]

  -- The policy Create, with the items so far.
  unfoldable pub create_all :
      World → List ResourceInfo → Bool → List ResourceInfo → World × Result (List ResourceInfo)
  create_all w [] ssa done = (w, ok done)
  create_all w (info ∷ infos) ssa done =
      let (next, result) = create_one w info ssa done in
      elim result [ err e ↦ (next, err e) | ok items ↦ create_all next infos ssa items ]

  -- The objects that are there, for the policy CreateReplace.
  unfoldable pub originals : World → List ResourceInfo → Result (List ResourceInfo)
  originals w [] = ok []
  originals w (info ∷ infos) =
      let rest = originals w infos in
      elim (K.get_definition w info.name) [
        | err e ↦ if is e Errors.not_found then rest else err e
        | ok none ↦ err (Errors.external "failed to get CustomResourceDefinition")
        | ok (some found) ↦ elim rest [ err e ↦ err e | ok others ↦ ok (found ∷ others) ]
      ]

  unfoldable pub replace_all : World → List ResourceInfo → Bool → World × Result (List ResourceInfo)
  replace_all w infos ssa = elim (K.client_set_error w) [
    | some e ↦ (w, err e)
    | none ↦ elim (originals w infos) [
      | err e ↦ (w, err e)
      | ok found ↦ K.update w found infos ssa ssa (not ssa)
    ]
  ]

  unfoldable pub apply_by_policy :
      World → String → List ResourceInfo → Bool → World × Result (List ResourceInfo)
  apply_by_policy w policy infos ssa =
      if str_eq policy "Create"
      then create_all w infos ssa []
      else if str_eq policy "CreateReplace"
      then replace_all w infos ssa
      else (w, err (Errors.external "unexpected policy"))

  -- The wait for what was applied, and the reset of the REST mapper.
  unfoldable pub wait_applied :
      WaitStrategy → World × Result (List ResourceInfo) → World × Option Error
  wait_applied strategy (w, err e) = (w, some e)
  wait_applied strategy (w, ok []) = (w, none)
  wait_applied strategy (w, ok (item ∷ items)) = elim (K.waiter_error w strategy) [
    | some e ↦ (w, some e)
    | none ↦
        let (waited, e) = K.wait w (item ∷ items) in
        elim e [ some x ↦ (waited, some x) | none ↦ (K.reset_mapper waited, none) ]
  ]

  unfoldable pub apply_files :
      World → HelmRelease → String → List String → Bool → WaitStrategy → World × Option Error
  apply_files w obj policy files ssa strategy = elim (collect w files) [
    | err e ↦ (w, some e)
    | ok infos ↦ elim (set_origin obj (filter_crds infos)) [
      | err e ↦ (w, some e)
      | ok labelled ↦ wait_applied strategy (apply_by_policy w policy labelled ssa)
    ]
  ]

  -- applyCRDs, for the labels of the release's origin. Conflicts are forced with server-side apply.
  -- The chart comes back with its dependencies processed, since the code changes it in place.
  unfoldable pub apply_crds :
      World
      → HelmRelease
      → String
      → ChartMetadata
      → Value
      → Bool
      → WaitStrategy
      → World × Result ChartMetadata
  apply_crds w obj policy chart values ssa strategy =
      if has_no_files (K.crd_files chart) || str_eq policy "Skip"
      then (w, ok chart)
      else elim (K.process_dependencies chart values) [
        | err e ↦ (w, err e)
        | ok processed ↦
            let (applied, e) = apply_files w obj policy (K.crd_files processed) ssa strategy in
            elim e [ some x ↦ (applied, err x) | none ↦ (applied, ok processed) ]
      ]
