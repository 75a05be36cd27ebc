-- ===== src/Reconcile/Atomic.antt =====
-- internal/reconcile/atomic_release.go: the loop that determines the state of a release, chooses the
-- next action for it and runs that action, until there is nothing to do or it must stop.
pub mod Choose
pub mod Loop
