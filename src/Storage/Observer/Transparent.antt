-- ===== src/Storage/Observer/Transparent.antt =====
-- What the observers see of a sequence of writes.
use helm_controller.Base.{◌≡◌, refl, ap, sym, ◌∙◌, String, List, [], ◌∷◌, ◌++◌, Option, none, some}
use helm_controller.Errors.{Error}
use helm_controller.External.Cluster.{Result, ok, err, Releaser}
use helm_controller.Storage.Observer.{
  Driver, Observed, call_observers, after_write, after_delete, observer,
}

-- A call that writes to the storage.
pub data Write : Type 0 where
  create : String → Releaser → Write
  update : String → Releaser → Write
  delete : String → Write

-- The storage after a write, and what was written or deleted, where there was no error.
abbrev pub written : {World : Type 0} → Releaser → World × Option Error → World × List Releaser
written r (w, none) = (w, r ∷ [])
written r (w, some e) = (w, [])

abbrev pub removed : {World : Type 0} → World × Result Releaser → World × List Releaser
removed (w, ok r) = (w, r ∷ [])
removed (w, err e) = (w, [])

abbrev pub perform : {World : Type 0} → Driver World → Write → World → World × List Releaser
perform d (create key r) w = written r (d.create w key r)
perform d (update key r) w = written r (d.update w key r)
perform d (delete key) w = removed (d.delete w key)

-- The storage after a sequence of writes, and the writes that succeeded, in order.
abbrev pub perform_all :
    {World : Type 0} → Driver World → List Write → World → World × List Releaser
perform_all d [] w = (w, [])
perform_all d (x ∷ xs) w =
    let (next, done) = perform d x w in
    let (end, rest) = perform_all d xs next in (end, done ++ rest)

append_assoc {ℓ} : {A : Type ℓ} (xs ys zs : List A) → (xs ++ ys) ++ zs ≡ xs ++ (ys ++ zs)
append_assoc [] ys zs = refl
append_assoc (x ∷ xs) ys zs = ap (λ l. x ∷ l) (append_assoc xs ys zs)

append_nil {ℓ} : {A : Type ℓ} (xs : List A) → xs ++ [] ≡ xs
append_nil [] = refl
append_nil (x ∷ xs) = ap (λ l. x ∷ l) (append_nil xs)

module _ {World : Type 0} (d : Driver World) where
  -- The observers' storage, with what is called after the calls so far.
  abbrev pub observed_after : List Releaser → World × List Releaser → Observed World
  observed_after calls (w, done) = record { stored = w; calls = calls ++ done }

  after_write_lem :
      (r : Releaser) (o : Observed World) (result : World × Option Error)
      → (written r (after_write r o result)).0 ≡ observed_after o.calls (written r result)
  unfolding call_observers
  after_write_lem r o (w, none) = refl
  after_write_lem r o (w, some e) =
      ap (λ calls. record { stored = w; calls = calls }) (sym (append_nil o.calls))

  after_delete_lem :
      (o : Observed World) (result : World × Result Releaser)
      → (removed (after_delete o result)).0 ≡ observed_after o.calls (removed result)
  unfolding call_observers
  after_delete_lem o (w, ok r) = refl
  after_delete_lem o (w, err e) =
      ap (λ calls. record { stored = w; calls = calls }) (sym (append_nil o.calls))

  perform_lem :
      (x : Write) (o : Observed World)
      → (perform (observer d) x o).0 ≡ observed_after o.calls (perform d x o.stored)
  unfolding observer
  perform_lem (create key r) o = after_write_lem r o (d.create o.stored key r)
  perform_lem (update key r) o = after_write_lem r o (d.update o.stored key r)
  perform_lem (delete key) o = after_delete_lem o (d.delete o.stored key)

  -- The observing driver leaves the storage as the driver inside does, and after any sequence of
  -- writes the observers have been called exactly with the releases whose write or deletion
  -- succeeded, in order.
  pub perform_all-observer :
      (xs : List Write) (o : Observed World)
      → (perform_all (observer d) xs o).0 ≡ observed_after o.calls (perform_all d xs o.stored)
  perform_all-observer [] o =
      ap (λ calls. record { stored = o.stored; calls = calls }) (sym (append_nil o.calls))
  perform_all-observer (x ∷ xs) o =
      let (next, done) = perform d x o.stored in
      let (end, rest) = perform_all d xs next in
      ap (λ p. (perform_all (observer d) xs p).0) (perform_lem x o)
      ∙ (perform_all-observer xs (observed_after o.calls (perform d x o.stored))
          ∙ ap (λ calls. record { stored = end; calls = calls }) (append_assoc o.calls done rest))
