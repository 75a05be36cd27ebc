-- ===== src/Storage/Observer.antt =====
-- internal/storage/observer.go and failing.go: a driver that calls observers after writes, and one
-- that fails where it is told to.
pub mod Transparent
use helm_controller.Base.{String, Bool, List, [], ◌∷◌, ◌++◌, Option, none, some}
use helm_controller.Errors.{Error}
use helm_controller.External.Cluster.{Result, ok, err, Releaser}

-- driver.Driver of the Helm SDK, over the state of its storage.
pub record Driver (World : Type 0) : Type 0 where
  pub name : String
  pub get : World → String → Result Releaser
  pub list : World → (Releaser → Bool) → Result (List Releaser)
  pub query : World → List (String × String) → Result (List Releaser)
  pub create : World → String → Releaser → World × Option Error
  pub update : World → String → Releaser → World × Option Error
  pub delete : World → String → World × Result Releaser

-- The storage, and what the observers were called with, in order. An observer sees only the release.
pub record Observed (World : Type 0) : Type 0 where
  pub stored : World
  pub calls : List Releaser

abbrev pub set_stored : {World : Type 0} → World → Observed World → Observed World
set_stored w o = record o { stored = w }

unfoldable pub call_observers : {World : Type 0} → Releaser → Observed World → Observed World
call_observers r o = record o { calls = o.calls ++ r ∷ [] }

abbrev pub after_write :
    {World : Type 0}
    → Releaser
    → Observed World
    → World × Option Error
    → Observed World × Option Error
after_write r o (w, none) = (call_observers r (set_stored w o), none)
after_write r o (w, some e) = (set_stored w o, some e)

abbrev pub after_delete :
    {World : Type 0} → Observed World → World × Result Releaser → Observed World × Result Releaser
after_delete o (w, ok r) = (call_observers r (set_stored w o), ok r)
after_delete o (w, err e) = (set_stored w o, err e)

-- Observer, for at least one observer; with none, there are no calls.
unfoldable pub observer : {World : Type 0} → Driver World → Driver (Observed World)
observer d = record {
  name = "observer";
  get = λ o key. d.get o.stored key;
  list = λ o filter. d.list o.stored filter;
  query = λ o labels. d.query o.stored labels;
  create = λ o key r. after_write r o (d.create o.stored key r);
  update = λ o key r. after_write r o (d.update o.stored key r);
  delete = λ o key. after_delete o (d.delete o.stored key);
}

pub record FailingErrors : Type 0 where
  pub get_err : Option Error
  pub list_err : Option Error
  pub query_err : Option Error
  pub create_err : Option Error
  pub update_err : Option Error
  pub delete_err : Option Error

abbrev pub failing_with : {A : Type 0} → Option Error → Result A → Result A
failing_with none result = result
failing_with (some e) result = err e

abbrev pub failing_write :
    {World : Type 0} → Option Error → World → World × Option Error → World × Option Error
failing_write none w result = result
failing_write (some e) w result = (w, some e)

abbrev pub failing_delete :
    {World : Type 0} → Option Error → World → World × Result Releaser → World × Result Releaser
failing_delete none w result = result
failing_delete (some e) w result = (w, err e)

-- Failing.
unfoldable pub failing : {World : Type 0} → FailingErrors → Driver World → Driver World
failing f d = record {
  name = "failing";
  get = λ w key. failing_with f.get_err (d.get w key);
  list = λ w filter. failing_with f.list_err (d.list w filter);
  query = λ w labels. failing_with f.query_err (d.query w labels);
  create = λ w key r. failing_write f.create_err w (d.create w key r);
  update = λ w key r. failing_write f.update_err w (d.update w key r);
  delete = λ w key. failing_delete f.delete_err w (d.delete w key);
}
