-- ===== src/Worker.antt =====
-- The worker threads of src/server.c (`worker`), their start in its `main`, and `cleanup`, which
-- ends them when the process exits. The threads are interleaved in any order; `cleanup` runs on the
-- main thread. `pthread_join` returns 0 or the number of an error, so its -1 is left out.
mod Phases
mod Cleanup
mod Tests
use mini_dropbox.Prelude.{
  ℕ, zero, suc, ◌+◌, ◌-◌, ◌≤◌, ◌<◌, Bool, true, false, Option, none, some, ◌≡◌, ◌⊎◌, if◌then◌else◌,
  ltb, ◌==◌,
}

abbrev pub nthreads : ℕ
nthreads = 10

-- The function is an address (NULL is `none`). Its socket and its session are set for work only.
pub record Worker : Type 0 where
  pub id : ℕ
  pub work_sem : ℕ
  pub terminated : Bool
  pub func : Option ℕ

-- In front of sem_wait, behind it, behind the loop, and behind its end.
pub data Place : Type 0 where
  waiting woken leaving finished : Place

-- A thread with its worker, which is `none` once it has been freed.
pub record Thread : Type 0 where
  pub memory : Option Worker
  pub place : Place

abbrev pub thread : Option Worker → Place → Thread
thread memory place = record { memory = memory; place = place }

-- Where `cleanup` is: at the head of its loop, behind the mark and the post of a worker, inside
-- pthread_join and behind it, and at its end.
pub data Progress : Type 0 where
  looking marked posted joining joined : ℕ → Progress
  ended : Progress

-- `workers[i]` is NULL at `none`.
pub record System : Type 0 where
  pub cleanup : Progress
  pub workers : ℕ → Option Thread

unfoldable pub update : (ℕ → Option Thread) → ℕ → Thread → ℕ → Option Thread
update workers zero t zero = some t
update workers zero t (suc j) = workers (suc j)
update workers (suc i) t zero = workers zero
update workers (suc i) t (suc j) = update (λ k. workers (suc k)) i t j

abbrev pub system : Progress → (ℕ → Option Thread) → System
system c workers = record { cleanup = c; workers = workers }

-- malloc leaves `func` as it finds it.
abbrev pub new_worker : Option ℕ → ℕ → Worker
new_worker junk i = record { id = i; work_sem = 0; terminated = false; func = junk }

-- The process when `cleanup` is called and the first `created` workers have been started.
unfoldable pub start_workers : Option ℕ → ℕ → System
start_workers junk created =
    system (looking 0)
      (λ i. if ltb i created then some (thread (some (new_worker junk i)) waiting) else none)

-- One step of a worker's thread; `call` is what a function does to the worker.
pub data WorkerStep (call : ℕ → Worker → Worker) (s : System) : System → Type 0 where
  -- sem_wait(&w->work_sem);
  wake :
      (i : ℕ) {w : Worker}
      → s.workers i ≡ some (thread (some w) waiting)
      → 0 < w.work_sem
      → WorkerStep call s (
          system s.cleanup
            (update s.workers i (thread (some (record w { work_sem = w.work_sem - 1 })) woken)))
  -- if (w->terminated) { … break; }
  leave :
      (i : ℕ) {w : Worker}
      → s.workers i ≡ some (thread (some w) woken)
      → w.terminated ≡ true
      → WorkerStep call s (system s.cleanup (update s.workers i (thread (some w) leaving)))
  -- if (w->func == NULL) { … continue; }
  sleep :
      (i : ℕ) {w : Worker}
      → s.workers i ≡ some (thread (some w) woken)
      → w.terminated ≡ false
      → w.func ≡ none
      → WorkerStep call s (system s.cleanup (update s.workers i (thread (some w) waiting)))
  -- w->func(w);
  work :
      (i : ℕ) {w : Worker} {f : ℕ}
      → s.workers i ≡ some (thread (some w) woken)
      → w.terminated ≡ false
      → w.func ≡ some f
      → WorkerStep call s (system s.cleanup (update s.workers i (thread (some (call f w)) waiting)))
  -- free(w); return NULL;
  finish :
      (i : ℕ) {w : Worker}
      → s.workers i ≡ some (thread (some w) leaving)
      → WorkerStep call s (system s.cleanup (update s.workers i (thread none finished)))

-- One step of `cleanup`. A step that uses a worker is there only as long as its memory is: a use of
-- freed memory is undefined, a run of the program may go on behind it in any way, and no step stands
-- for that.
pub data CleanupStep (s : System) : System → Type 0 where
  -- if (workers[i] == NULL) continue;
  skip :
      (i : ℕ)
      → s.cleanup ≡ looking i
      → i < nthreads
      → s.workers i ≡ none
      → CleanupStep s (system (looking (suc i)) s.workers)
  -- workers[i]->terminated = true;
  mark :
      (i : ℕ) {w : Worker} {p : Place}
      → s.cleanup ≡ looking i
      → i < nthreads
      → s.workers i ≡ some (thread (some w) p)
      → CleanupStep s (
          system (marked i) (update s.workers i (thread (some (record w { terminated = true })) p)))
  -- sem_post(&workers[i]->work_sem);
  post :
      (i : ℕ) {w : Worker} {p : Place}
      → s.cleanup ≡ marked i
      → s.workers i ≡ some (thread (some w) p)
      → CleanupStep s (
          system
            (posted i)
            (update s.workers i (thread (some (record w { work_sem = w.work_sem + 1 })) p)))
  -- pthread_join(workers[i]->thread, NULL), first the argument
  read :
      (i : ℕ) {w : Worker} {p : Place}
      → s.cleanup ≡ posted i
      → s.workers i ≡ some (thread (some w) p)
      → CleanupStep s (system (joining i) s.workers)
  join :
      (i : ℕ) {m : Option Worker}
      → s.cleanup ≡ joining i
      → s.workers i ≡ some (thread m finished)
      → CleanupStep s (system (joined i) s.workers)
  -- sem_destroy(&workers[i]->work_sem);
  destroy :
      (i : ℕ) {w : Worker} {p : Place}
      → s.cleanup ≡ joined i
      → s.workers i ≡ some (thread (some w) p)
      → CleanupStep s (system (looking (suc i)) s.workers)
  -- the end of the loop
  stop : (i : ℕ) → s.cleanup ≡ looking i → nthreads ≤ i → CleanupStep s (system ended s.workers)

pub data Step (call : ℕ → Worker → Worker) (s t : System) : Type 0 where
  worker_step : WorkerStep call s t → Step call s t
  cleanup_step : CleanupStep s t → Step call s t

-- The states after a number of steps.
pub data Reach (call : ℕ → Worker → Worker) (s : System) : ℕ → System → Type 0 where
  here : Reach call s 0 s
  next : {n : ℕ} {t u : System} → Reach call s n t → Step call t u → Reach call s (suc n) u

-- `cleanup` is about to use a worker that has been freed: its thread, or its semaphore once it has
-- joined it.
abbrev pub IsDangling : System → Type 0
IsDangling s =
    (i : ℕ) × ((s.cleanup ≡ posted i) ⊎ (s.cleanup ≡ joined i))
    × (s.workers i ≡ some (thread none finished))
