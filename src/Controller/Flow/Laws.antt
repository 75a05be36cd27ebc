-- ===== src/Controller/Flow/Laws.antt =====
-- Inversion of a flow that goes on.
use helm_controller.Base.{◌≡◌, ◌⊎◌, inl, inr, refl, arith}
use helm_controller.Reconcile.Request.{Run}
use helm_controller.Controller.Flow.{Verdict, Step, stop, go, Flow, ◌>>=◌}

Step-cases :
    {World A : Type 0} (r : Step World A)
    → ((end : Run World) × (verdict : Verdict) × (r ≡ stop end verdict))
      ⊎ ((next : Run World) × (a : A) × (r ≡ go next a))
Step-cases (stop end verdict) = inl (end, verdict, refl)
Step-cases (go next a) = inr (next, a, refl)

pub >>=-go :
    {World A B : Type 0} (m : Flow World A) (f : A → Flow World B) (st end : Run World) (b : B)
    → (m >>= f) st ≡ go end b
    → (next : Run World) × (a : A) × (m st ≡ go next a) × (f a next ≡ go end b)
>>=-go m f st end b h = elim (Step-cases (m st)) [
  | inl (e, v, d) ↦ absurd (ground arith)
  | inr (next, a, d) ↦ (next, a, d, ground arith)
]
