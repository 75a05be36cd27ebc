-- ===== src/Controller/Clients.antt =====
-- internal/kube: the client for the cluster of a release, by impersonate.go, config.go and client.go,
-- and buildRESTClientGetter of internal/controller/helmrelease_controller.go.
use helm_controller.Base.{
  String, ◌<>◌, Bool, not, ◌&&◌, List, [], ◌∷◌, Option, none, some, str_eq, if◌then◌else◌,
}
use helm_controller.Errors
use helm_controller.Errors.{Error}
use helm_controller.Api.Spec.{KubeConfigReference}
use helm_controller.Api.HelmRelease.{HelmRelease, get_release_namespace, use_persistent_client}
use helm_controller.External.Cluster.{Result, ok, err}
use helm_controller.External.Platform.{Platform, Settings}

-- The user that SetImpersonationConfig configures, or an empty text; the first argument is
-- DefaultServiceAccountName.
unfoldable pub impersonation_user : String → String → String → String
impersonation_user default_name namespace service_account =
    let name = if not (str_eq service_account "") then service_account else default_name in
    if not (str_eq name "") && not (str_eq namespace "")
    then "system:serviceaccount:" <> (namespace <> (":" <> name))
    else ""

-- The data of a Secret under a key.
unfoldable pub secret_data : String → List (String × String) → Option String
secret_data key [] = none
secret_data key ((k, d) ∷ entries) = if str_eq k key then some d else secret_data key entries

or_else : Option String → Option String → Option String
or_else none other = other
or_else (some d) other = some d

-- The kubeconfig that ConfigFromSecret finds.
unfoldable pub kube_config_data : String → List (String × String) → Option String
unfolding secret_data or_else
kube_config_data key entries =
    if not (str_eq key "")
    then secret_data key entries
    else or_else (secret_data "value" entries) (secret_data "value.yaml" entries)

module _ (P : Platform) (s : Settings) where
  -- MemoryRESTClientGetter, whose lazily made clients are caches.
  pub record Getter : Type 0 where
    pub config : P.RestConfig
    pub namespace : String
    pub impersonate : String
    pub persistent : Bool

  -- ConfigFromSecret.
  unfoldable pub config_from_secret : String → List (String × String) → Result P.RestConfig
  config_from_secret key entries = elim (kube_config_data key entries) [
    | none ↦ err (Errors.external "KubeConfig secret does not contain a key with data")
    | some d ↦ P.config_from_bytes d
  ]

  -- NewMemoryRESTClientGetter with the options of the controller.
  unfoldable pub new_getter : HelmRelease → P.RestConfig → Getter
  new_getter obj config =
      let user =
        impersonation_user s.default_service_account obj.namespace obj.spec.service_account_name in
      record {
        config = if not (str_eq user "") then P.impersonate config user else config;
        namespace =
            if str_eq (get_release_namespace obj) "" then "default" else get_release_namespace obj;
        impersonate = user;
        persistent = use_persistent_client obj;
      }

  -- The REST config for the cluster that a kubeconfig reference names.
  unfoldable pub remote_config :
      P.env.World → HelmRelease → KubeConfigReference → Result P.RestConfig
  remote_config w obj kc = elim (kc.config_map_ref) [
    | none ↦ elim (kc.secret_ref) [
      | none ↦ err (Errors.external "exactly one of configMapRef or secretRef must be set")
      | some (name, key) ↦ elim (P.get_secret w (obj.namespace, name)) [
        | err e ↦ err e
        | ok entries ↦ config_from_secret key entries
      ]
    ]
    | some config_map ↦ elim (kc.secret_ref) [
      | none ↦ P.config_from_config_map w obj
      | some secret ↦ err (Errors.external "exactly one of configMapRef or secretRef must be set")
    ]
  ]

  unfoldable pub target_config : P.env.World → HelmRelease → Result P.RestConfig
  target_config w obj = elim (obj.spec.kube_config) [
    | none ↦ P.cluster_config w
    | some kc ↦ remote_config w obj kc
  ]

  -- buildRESTClientGetter.
  unfoldable pub build_rest_client_getter : P.env.World → HelmRelease → Result Getter
  build_rest_client_getter w obj = elim (target_config w obj) [
    | err e ↦ err e
    | ok config ↦ ok (new_getter obj config)
  ]
