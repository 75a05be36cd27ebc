-- ===== src/Controller/Predicate.antt =====
-- internal/predicates/source_predicate.go: which events of a source make requests.
use helm_controller.Base.{Bool, true, false, not, ◌&&◌, ◌||◌, Option, none, some}
use helm_controller.External.Platform.{Platform, Source, Artifact}
use helm_controller.Controller.Requests.{Index}

module _ (P : Platform) (I : Index P) where
  abbrev new_artifact : Option Artifact → Option Artifact → Bool
  new_artifact none (some new) = true
  new_artifact (some old) (some new) = not (I.has_revision old new.revision)
  new_artifact _ none = false

  -- SourceRevisionChangePredicate.Update: an artifact is new, or the source has become ready.
  unfoldable pub update_passes : Option Source → Option Source → Bool
  update_passes (some old) (some new) =
      new_artifact old.artifact new.artifact || not (I.is_ready_source old) && I.is_ready_source new
  update_passes none _ = false
  update_passes (some old) none = false

  -- Create and Delete.
  unfoldable pub create_passes : Source → Bool
  create_passes src = false

  unfoldable pub delete_passes : Source → Bool
  delete_passes src = false
