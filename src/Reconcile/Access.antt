-- ===== src/Reconcile/Access.antt =====
-- internal/acl/acl.go
use helm_controller.Base.{not, ◌&&◌, Option, none, some, str_eq, if◌then◌else◌}
use helm_controller.Errors
use helm_controller.Errors.{Error}
use helm_controller.Api.HelmRelease.{HelmRelease}
use helm_controller.Api.Charts.{HelmChartReference}
use helm_controller.External.Platform.{Settings}

-- AllowsAccessTo, `none` where access is allowed.
unfoldable pub allows_access_to : Settings → HelmRelease → HelmChartReference → Option Error
allows_access_to s obj ref =
    if not s.allow_cross_namespace_ref && not (str_eq obj.namespace ref.namespace)
    then some Errors.access_denied
    else none
