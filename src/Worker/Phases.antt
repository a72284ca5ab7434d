-- ===== src/Worker/Phases.antt =====
-- The places that `cleanup` of src/server.c and the first worker go through.
use mini_dropbox.Prelude.{
  ℕ, suc, ◌+◌, ◌-◌, ◌≤◌, true, Option, none, some, ◌≡◌, ◌≢◌, refl, ap, arith, ap₂,
}
use mini_dropbox.Worker.{
  Worker, Place, waiting, woken, leaving, finished, Thread, thread, Progress, looking, marked,
  posted, joining, joined, ended, new_worker,
}

-- A worker that has been marked: with the post, behind sem_wait, behind the loop, freed.
pub data Stage : Type 0 where
  called awake breaking gone : Stage

abbrev pub ending_worker : Option ℕ → ℕ → Worker
ending_worker junk sem = record { id = 0; work_sem = sem; terminated = true; func = junk }

abbrev pub ending : Option ℕ → ℕ → Place → Thread
ending junk sem p = thread (some (ending_worker junk sem)) p

abbrev pub stage : Option ℕ → Stage → Thread
stage junk called = ending junk 1 waiting
stage junk awake = ending junk 0 woken
stage junk breaking = ending junk 0 leaving
stage junk gone = thread none finished

abbrev pub steps : Stage → ℕ
steps called = 0
steps awake = 1
steps breaking = 2
steps gone = 3

-- Where `cleanup` and the first worker are after `n` steps.
pub data Phase (junk : Option ℕ) (n : ℕ) (c : Progress) (t : Option Thread) : Type 0 where
  at_start :
      n ≡ 0
      → c ≡ looking 0
      → t ≡ some (thread (some (new_worker junk 0)) waiting)
      → Phase junk n c t
  at_mark : n ≡ 1 → c ≡ marked 0 → t ≡ some (ending junk 0 waiting) → Phase junk n c t
  at_post :
      (k : Stage) → n ≡ 2 + steps k → c ≡ posted 0 → t ≡ some (stage junk k) → Phase junk n c t
  at_read :
      (k : Stage) → n ≡ 3 + steps k → c ≡ joining 0 → t ≡ some (stage junk k) → Phase junk n c t
  at_join : n ≡ 7 → c ≡ joined 0 → t ≡ some (thread none finished) → Phase junk n c t

-- The first worker goes on from stage `k`.
abbrev Advances : Option ℕ → Thread → Stage → Type 0
Advances junk t k = (k2 : Stage) × (steps k2 ≡ suc (steps k)) × (t ≡ stage junk k2)

pub advance :
    {junk : Option ℕ} {n : ℕ} {c : Progress} {m : Option Thread} {t u : Thread}
    → ((v : Worker) → v.work_sem ≡ 0 → t ≢ thread (some v) waiting)
    → t ≢ thread none finished
    → ((k : Stage) → t ≡ stage junk k → Advances junk u k)
    → m ≡ some t
    → Phase junk n c m
    → Phase junk (suc n) c (some u)
advance {junk} a d f h (at_start e i g) = absurd (a (new_worker junk 0) refl cc)
advance {junk} a d f h (at_mark e i g) = absurd (a (ending_worker junk 0) refl cc)
advance a d f h (at_post k e i g) =
    let (k2, s, x) = f k cc in at_post k2 (omega (arith, e, s)) i (ap some x)
advance a d f h (at_read k e i g) =
    let (k2, s, x) = f k cc in at_read k2 (omega (arith, e, s)) i (ap some x)
advance a d f h (at_join e i g) = absurd (d cc)

pub worker_of : (w v : Worker) (p q : Place) → thread (some w) p ≡ thread (some v) q → w ≡ v
worker_of w v p q e = cc

pub wake-Advances :
    (junk : Option ℕ) (w : Worker) (k : Stage)
    → thread (some w) waiting ≡ stage junk k
    → Advances junk (thread (some (record w { work_sem = w.work_sem - 1 })) woken) k
wake-Advances junk w called e = (
  awake,
  refl,
  ap (λ v. thread (some (record v { work_sem = v.work_sem - 1 })) woken)
      (worker_of w _ waiting waiting e),
)
wake-Advances junk w awake e = cc
wake-Advances junk w breaking e = cc
wake-Advances junk w gone e = cc

pub leave-Advances :
    (junk : Option ℕ) (w : Worker) (k : Stage)
    → thread (some w) woken ≡ stage junk k
    → Advances junk (thread (some w) leaving) k
leave-Advances junk w called e = cc
leave-Advances junk w awake e = (breaking, refl, cc)
leave-Advances junk w breaking e = cc
leave-Advances junk w gone e = cc

pub finish-Advances :
    (junk : Option ℕ) (w : Worker) (k : Stage)
    → thread (some w) leaving ≡ stage junk k
    → Advances junk (thread none finished) k
finish-Advances junk w called e = cc
finish-Advances junk w awake e = cc
finish-Advances junk w breaking e = (gone, refl, refl)
finish-Advances junk w gone e = cc

-- `cleanup` changes the worker it is at.
modify :
    (g : Worker → Worker) {t : Option Thread} {w v : Worker} {p q : Place}
    → t ≡ some (thread (some w) p)
    → t ≡ some (thread (some v) q)
    → some (thread (some (g w)) p) ≡ some (thread (some (g v)) q)
modify g {w} {v} {p} {q} e f = ap₂ (λ x y. some (thread (some (g x)) y)) same cc
  where
    same : w ≡ v
    same = cc

unfoldable pub about : Progress → ℕ
about (looking i) = i
about (marked i) = i
about (posted i) = i
about (joining i) = i
about (joined i) = i
about ended = 0

pub Phase-about :
    {junk : Option ℕ} {n : ℕ} {c : Progress} {t : Option Thread} → Phase junk n c t → about c ≡ 0
unfolding about
Phase-about (at_start e f g) = ap about f
Phase-about (at_mark e f g) = ap about f
Phase-about (at_post k e f g) = ap about f
Phase-about (at_read k e f g) = ap about f
Phase-about (at_join e f g) = ap about f

steps-bound : (k : Stage) → steps k ≤ 3
steps-bound called = omega arith
steps-bound awake = omega arith
steps-bound breaking = omega arith
steps-bound gone = omega arith

module _ {junk : Option ℕ} {n : ℕ} {c : Progress} {t : Option Thread} where
  pub sleep-Phase :
      {w : Worker} → Phase junk n c t → t ≡ some (thread (some w) woken) → w.terminated ≡ true
  sleep-Phase (at_start e f g) h = cc
  sleep-Phase (at_mark e f g) h = cc
  sleep-Phase (at_post called e f g) h = cc
  sleep-Phase (at_post awake e f g) h = cc
  sleep-Phase (at_post breaking e f g) h = cc
  sleep-Phase (at_post gone e f g) h = cc
  sleep-Phase (at_read called e f g) h = cc
  sleep-Phase (at_read awake e f g) h = cc
  sleep-Phase (at_read breaking e f g) h = cc
  sleep-Phase (at_read gone e f g) h = cc
  sleep-Phase (at_join e f g) h = cc

  pub mark-Phase :
      {w : Worker} {p : Place}
      → Phase junk n c t
      → c ≡ looking 0
      → t ≡ some (thread (some w) p)
      → Phase junk (suc n) (marked 0) (some (thread (some (record w { terminated = true })) p))
  mark-Phase (at_start e f g) h k =
      at_mark (ap suc e) refl (modify (λ v. record v { terminated = true }) k g)
  mark-Phase (at_mark e f g) h k = cc
  mark-Phase (at_post s e f g) h k = cc
  mark-Phase (at_read s e f g) h k = cc
  mark-Phase (at_join e f g) h k = cc

  pub post-Phase :
      {w : Worker} {p : Place}
      → Phase junk n c t
      → c ≡ marked 0
      → t ≡ some (thread (some w) p)
      → Phase junk
          (suc n)
          (posted 0)
          (some (thread (some (record w { work_sem = w.work_sem + 1 })) p))
  post-Phase (at_start e f g) h k = cc
  post-Phase (at_mark e f g) h k =
      at_post called (ap suc e) refl (modify (λ v. record v { work_sem = v.work_sem + 1 }) k g)
  post-Phase (at_post s e f g) h k = cc
  post-Phase (at_read s e f g) h k = cc
  post-Phase (at_join e f g) h k = cc

  pub read-Phase : Phase junk n c t → c ≡ posted 0 → Phase junk (suc n) (joining 0) t
  read-Phase (at_start e f g) h = cc
  read-Phase (at_mark e f g) h = cc
  read-Phase (at_post s e f g) h = at_read s (omega (arith, e)) refl g
  read-Phase (at_read s e f g) h = cc
  read-Phase (at_join e f g) h = cc

  pub join-Phase :
      {m : Option Worker}
      → Phase junk n c t
      → c ≡ joining 0
      → t ≡ some (thread m finished)
      → Phase junk (suc n) (joined 0) t
  join-Phase (at_start e f g) h k = cc
  join-Phase (at_mark e f g) h k = cc
  join-Phase (at_post s e f g) h k = cc
  join-Phase (at_read called e f g) h k = cc
  join-Phase (at_read awake e f g) h k = cc
  join-Phase (at_read breaking e f g) h k = cc
  join-Phase (at_read gone e f g) h k = at_join (ap suc e) refl g
  join-Phase (at_join e f g) h k = cc

  pub skip-Phase : Phase junk n c t → c ≡ looking 0 → t ≡ none → Phase junk (suc n) (looking 1) t
  skip-Phase (at_start e f g) h k = cc
  skip-Phase (at_mark e f g) h k = cc
  skip-Phase (at_post s e f g) h k = cc
  skip-Phase (at_read s e f g) h k = cc
  skip-Phase (at_join e f g) h k = cc

  pub destroy-Phase :
      {w : Worker} {p : Place}
      → Phase junk n c t
      → c ≡ joined 0
      → t ≡ some (thread (some w) p)
      → Phase junk (suc n) (looking 1) t
  destroy-Phase (at_start e f g) h k = cc
  destroy-Phase (at_mark e f g) h k = cc
  destroy-Phase (at_post s e f g) h k = cc
  destroy-Phase (at_read s e f g) h k = cc
  destroy-Phase (at_join e f g) h k = cc

  pub Phase-bound : Phase junk n c t → n ≤ 7
  Phase-bound (at_start e f g) = omega (arith, e)
  Phase-bound (at_mark e f g) = omega (arith, e)
  Phase-bound (at_post s e f g) = omega (arith, e, steps-bound s)
  Phase-bound (at_read s e f g) = omega (arith, e, steps-bound s)
  Phase-bound (at_join e f g) = omega (arith, e)

  pub Phase-going : Phase junk n c t → c ≢ ended
  Phase-going (at_start e f g) = λ h. cc
  Phase-going (at_mark e f g) = λ h. cc
  Phase-going (at_post s e f g) = λ h. cc
  Phase-going (at_read s e f g) = λ h. cc
  Phase-going (at_join e f g) = λ h. cc
