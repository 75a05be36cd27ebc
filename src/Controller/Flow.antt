-- ===== src/Controller/Flow.antt =====
-- The control flow of the HelmRelease controller: a step changes the run and goes on with a value, or
-- returns from the function that it stands in.
pub mod Laws
use helm_controller.Base.{Bool, true, false, Option, none, some, ◌==◌, not, ◌&&◌}
use helm_controller.Errors.{Error}
use helm_controller.External.Platform.{ReconcileResult, Failure}
use helm_controller.Reconcile.Request.{Run}

-- `(ctrl.Result, error)`, or a panic.
pub data Verdict : Type 0 where
  answer : ReconcileResult → Option Failure → Verdict
  panic : Verdict

pub data Step (World A : Type 0) : Type 0 where
  stop : Run World → Verdict → Step World A
  go : Run World → A → Step World A

abbrev pub Flow : Type 0 → Type 0 → Type 0
Flow World A = Run World → Step World A

infixl 5 ◌>>=◌ ◌>>◌
abbrev pub ◌>>=◌ : {World A B : Type 0} → Flow World A → (A → Flow World B) → Flow World B
◌>>=◌ m f st = elim (m st) [ stop end verdict ↦ stop end verdict | go next a ↦ f a next ]

abbrev pub ◌>>◌ : {World B : Type 0} → Flow World (Unit {0}) → Flow World B → Flow World B
m >> k = m >>= λ _. k

abbrev pub no_result : ReconcileResult
no_result = record { requeue = false; requeue_after = 0 }

abbrev pub requeue_now : ReconcileResult
requeue_now = record { requeue = true; requeue_after = 0 }

-- `return ctrl.Result{}, err` and `return ctrl.Result{}, reconcile.TerminalError(err)`.
abbrev pub fail_with : Error → Verdict
fail_with e = answer no_result (some (record { terminal = false; cause = e }))

abbrev pub terminal_with : Error → Verdict
terminal_with e = answer no_result (some (record { terminal = true; cause = e }))

-- `result.IsZero()`.
abbrev pub is_zero : ReconcileResult → Bool
is_zero r = not r.requeue && (r.requeue_after == 0)

module _ {World A : Type 0} where
  abbrev pub return_with : Verdict → Flow World A
  return_with verdict st = stop st verdict

  abbrev pub pass : A → Flow World A
  pass a st = go st a

-- A change of the run.
abbrev pub modify : {World : Type 0} → (Run World → Run World) → Flow World (Unit {0})
modify f st = go (f st) tt
