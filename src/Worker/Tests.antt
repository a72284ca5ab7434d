-- ===== src/Worker/Tests.antt =====
-- A server with two workers, and one that exits before it has started any.
use mini_dropbox.Prelude.{ℕ, ◌≤◌, none, some, ◌≡◌, ◌≢◌, ◌⊎◌, refl, arith}
use mini_dropbox.Worker.{
  Worker, thread, finished, posted, ended, System, update, system, start_workers, Step, worker_step,
  cleanup_step, wake, leave, finish, skip, mark, post, read, join, stop, Reach, here, next,
  IsDangling,
}
use mini_dropbox.Worker.Cleanup.{cleanup-IsDangling}

abbrev call : ℕ → Worker → Worker
call f w = w

program : Unit {0}
unfolding start_workers update
program = tt

-- `cleanup` reads the thread of the first worker before that worker ends.
abbrev joined_first : (s : System) × Reach call (start_workers none 2) 7 s
unfolding program
joined_first = (
  _,
  next
      (next
        (next
          (next
            (next
              (next (next here (cleanup_step (mark 0 refl (omega arith) refl)))
                (cleanup_step (post 0 refl refl)))
              (cleanup_step (read 0 refl refl)))
            (worker_step (wake 0 refl (omega arith))))
          (worker_step (leave 0 refl refl)))
        (worker_step (finish 0 refl)))
      (cleanup_step (join 0 refl refl)),
)

-- The first worker ends before that.
late :
    (s : System) × Reach call (start_workers none 2) 5 s
    × (s.cleanup ≡ posted 0)
    × (s.workers 0 ≡ some (thread none finished))
unfolding program
late = (
  _,
  next
      (next
        (next
          (next (next here (cleanup_step (mark 0 refl (omega arith) refl)))
            (cleanup_step (post 0 refl refl)))
          (worker_step (wake 0 refl (omega arith))))
        (worker_step (leave 0 refl refl)))
      (worker_step (finish 0 refl)),
  refl,
  refl,
)

-- Before a worker has been started `cleanup` ends.
none_started : Reach call (start_workers none 0) 11 (system ended (start_workers none 0).workers)
unfolding program
none_started =
    next
      (next
        (next
          (next
            (next
              (next
                (next
                  (next
                    (next
                      (next (next here (cleanup_step (skip 0 refl (omega arith) refl)))
                        (cleanup_step (skip 1 refl (omega arith) refl)))
                      (cleanup_step (skip 2 refl (omega arith) refl)))
                    (cleanup_step (skip 3 refl (omega arith) refl)))
                  (cleanup_step (skip 4 refl (omega arith) refl)))
                (cleanup_step (skip 5 refl (omega arith) refl)))
              (cleanup_step (skip 6 refl (omega arith) refl)))
            (cleanup_step (skip 7 refl (omega arith) refl)))
          (cleanup_step (skip 8 refl (omega arith) refl)))
        (cleanup_step (skip 9 refl (omega arith) refl)))
      (cleanup_step (stop 10 refl (omega arith)))

cleanup-IsDangling_example :
    (7 ≤ 7)
    × (joined_first.0.cleanup ≢ ended)
    × (IsDangling joined_first.0 ⊎ ((t : System) × Step call joined_first.0 t))
cleanup-IsDangling_example = cleanup-IsDangling call none {created = 2} (omega arith) joined_first.1
