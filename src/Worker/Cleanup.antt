-- ===== src/Worker/Cleanup.antt =====
-- How `cleanup` of src/server.c runs once workers have been started.
use mini_dropbox.Prelude.{
  ℕ, zero, suc, ◌≤◌, ◌<◌, Bool, true, false, Option, none, some, ◌≡◌, ◌≢◌, ◌⊎◌, inl, inr, refl, sym,
  ap, ◌∙◌, if◌then◌else◌, ltb, arith, false≢true, lt→ltb,
}
use mini_dropbox.Worker.{
  Worker, Place, waiting, woken, leaving, Thread, thread, ended, System, update, system, new_worker,
  start_workers, Step, WorkerStep, CleanupStep, worker_step, cleanup_step, wake, leave, sleep, work,
  finish, skip, mark, post, read, join, destroy, stop, Reach, here, next, IsDangling,
}
use mini_dropbox.Worker.Phases.{
  called, awake, breaking, gone, Phase, at_start, at_mark, at_post, at_read, at_join, advance,
  worker_of, wake-Advances, leave-Advances, finish-Advances, about, Phase-about, sleep-Phase,
  mark-Phase, post-Phase, read-Phase, join-Phase, skip-Phase, destroy-Phase, Phase-bound,
  Phase-going,
}

-- A worker that nothing was posted to.
abbrev IsAsleep : Option Thread → Type 0
IsAsleep t =
    (w : Worker) (p : Place) → t ≡ some (thread (some w) p) → (p ≡ waiting) × (w.work_sem ≡ 0)

record At (junk : Option ℕ) (n : ℕ) (s : System) : Type 0 where
  phase : Phase junk n s.cleanup (s.workers 0)
  asleep : (i : ℕ) → IsAsleep (s.workers (suc i))

started-IsAsleep :
    (b : Bool) (junk : Option ℕ) (i : ℕ)
    → IsAsleep (if b then some (thread (some (new_worker junk i)) waiting) else none)
started-IsAsleep true junk i =
    λ w p e. (cc, sym (ap (λ v. v.work_sem) (worker_of (new_worker junk i) w waiting p cc)))
started-IsAsleep false junk i = λ w p e. cc

module _ (call : ℕ → Worker → Worker) (junk : Option ℕ) where
  -- A step of the first worker.
  worker-At :
      {n : ℕ} {s : System} {u : Thread}
      → Phase junk (suc n) s.cleanup (some u)
      → At junk n s
      → At junk (suc n) (system s.cleanup (update s.workers 0 u))
  unfolding update
  worker-At f a = record { phase = f; asleep = a.asleep }

  elsewhere : {n i : ℕ} {s : System} → At junk n s → about s.cleanup ≡ suc i → ⊥
  elsewhere a e = omega (arith, Phase-about a.phase, e)

  WorkerStep-At : {n : ℕ} {s u : System} → At junk n s → WorkerStep call s u → At junk (suc n) u
  unfolding update
  WorkerStep-At a (wake zero {w} e l) =
      worker-At
        (advance {t = thread (some w) waiting}
          (λ v z h. ground (arith, ap (λ k. k.work_sem) (worker_of w v waiting waiting h)))
          (λ h. cc) (wake-Advances junk w) e a.phase)
        a
  WorkerStep-At a (leave zero {w} e l) =
      worker-At
        (advance {t = thread (some w) woken} (λ v z h. cc) (λ h. cc) (leave-Advances junk w) e
          a.phase)
        a
  WorkerStep-At a (sleep zero {w} e l f) = absurd (false≢true (sym l ∙ sleep-Phase a.phase e))
  WorkerStep-At a (work zero e l f) = absurd (false≢true (sym l ∙ sleep-Phase a.phase e))
  WorkerStep-At a (finish zero {w} e) =
      worker-At
        (advance {t = thread (some w) leaving} (λ v z h. cc) (λ h. cc) (finish-Advances junk w) e
          a.phase)
        a
  WorkerStep-At a (wake (suc i) {w} e l) = absurd (ground (arith, a.asleep i w waiting e))
  WorkerStep-At a (leave (suc i) {w} e l) = absurd (ground (arith, a.asleep i w woken e))
  WorkerStep-At a (sleep (suc i) {w} e l f) = absurd (ground (arith, a.asleep i w woken e))
  WorkerStep-At a (work (suc i) {w} e l f) = absurd (ground (arith, a.asleep i w woken e))
  WorkerStep-At a (finish (suc i) {w} e) = absurd (ground (arith, a.asleep i w leaving e))

  CleanupStep-At : {n : ℕ} {s u : System} → At junk n s → CleanupStep s u → At junk (suc n) u
  unfolding update about
  CleanupStep-At a (skip zero e l f) = record { phase = skip-Phase a.phase e f; asleep = a.asleep }
  CleanupStep-At a (skip (suc i) e l f) = absurd (elsewhere a (ap about e))
  CleanupStep-At a (mark zero e l f) = record { phase = mark-Phase a.phase e f; asleep = a.asleep }
  CleanupStep-At a (post zero e f) = record { phase = post-Phase a.phase e f; asleep = a.asleep }
  CleanupStep-At a (read zero e f) = record { phase = read-Phase a.phase e; asleep = a.asleep }
  CleanupStep-At a (join zero e f) = record { phase = join-Phase a.phase e f; asleep = a.asleep }
  CleanupStep-At a (destroy zero e f) = record {
    phase = destroy-Phase a.phase e f;
    asleep = a.asleep;
  }
  CleanupStep-At a (mark (suc i) e l f) = absurd (elsewhere a (ap about e))
  CleanupStep-At a (post (suc i) e f) = absurd (elsewhere a (ap about e))
  CleanupStep-At a (read (suc i) e f) = absurd (elsewhere a (ap about e))
  CleanupStep-At a (join (suc i) e f) = absurd (elsewhere a (ap about e))
  CleanupStep-At a (destroy (suc i) e f) = absurd (elsewhere a (ap about e))
  CleanupStep-At a (stop i e f) = absurd (omega (arith, Phase-about a.phase, ap about e, f))

  Step-At : {n : ℕ} {s u : System} → At junk n s → Step call s u → At junk (suc n) u
  Step-At a (worker_step st) = WorkerStep-At a st
  Step-At a (cleanup_step st) = CleanupStep-At a st

  start-At : {created : ℕ} → 0 < created → At junk 0 (start_workers junk created)
  unfolding start_workers
  start-At {created} h = record {
    phase = at_start refl refl (
        ap (λ b. if b then some (thread (some (new_worker junk 0)) waiting) else none)
          (lt→ltb 0 created h));
    asleep = λ i. started-IsAsleep (ltb (suc i) created) junk (suc i);
  }

  Reach-At :
      {created n : ℕ} {s : System}
      → 0 < created
      → Reach call (start_workers junk created) n s
      → At junk n s
  Reach-At h here = start-At h
  Reach-At h (next r st) = Step-At (Reach-At h r) st

  Phase-Step :
      {n : ℕ} (s : System)
      → Phase junk n s.cleanup (s.workers 0)
      → IsDangling s ⊎ ((t : System) × Step call s t)
  Phase-Step s (at_start e f g) = inr (_, cleanup_step (mark 0 f (omega arith) g))
  Phase-Step s (at_mark e f g) = inr (_, cleanup_step (post 0 f g))
  Phase-Step s (at_post called e f g) = inr (_, cleanup_step (read 0 f g))
  Phase-Step s (at_post awake e f g) = inr (_, cleanup_step (read 0 f g))
  Phase-Step s (at_post breaking e f g) = inr (_, cleanup_step (read 0 f g))
  Phase-Step s (at_post gone e f g) = inl (0, inl f, g)
  Phase-Step s (at_read called e f g) = inr (_, worker_step (wake 0 g (omega arith)))
  Phase-Step s (at_read awake e f g) = inr (_, worker_step (leave 0 g refl))
  Phase-Step s (at_read breaking e f g) = inr (_, worker_step (finish 0 g))
  Phase-Step s (at_read gone e f g) = inr (_, cleanup_step (join 0 f g))
  Phase-Step s (at_join e f g) = inl (0, inr f, g)

  -- Once a worker has been started, and none has got work, `cleanup` does not end: whatever the
  -- order of the threads, at most 7 steps are made, and where no step is left, `cleanup` is about to
  -- use a worker that has been freed.
  pub cleanup-IsDangling :
      {created n : ℕ} {s : System}
      → 0 < created
      → Reach call (start_workers junk created) n s
      → (n ≤ 7) × (s.cleanup ≢ ended) × (IsDangling s ⊎ ((t : System) × Step call s t))
  cleanup-IsDangling {s} h r =
      let a = Reach-At h r in (Phase-bound a.phase, Phase-going a.phase, Phase-Step s a.phase)
