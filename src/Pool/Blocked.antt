-- ===== src/Pool/Blocked.antt =====
-- A `submit` that blocks on a full queue does not block for good.
use mathlib.Core.Path.{subst}
use event_pipeline_extension.Prelude.{
  sym, ℕ, ◌<◌, ◌≤◌, ◌≡◌, ◌≢◌, refl, some, List, [], ◌∷◌, ◌++◌, arith, length, nat_beq_self,
}
use event_pipeline_extension.Pool.{
  Key, Entry, item, sentinel, Thread, waiting, working, unstarted, exited, WorkerPool, update,
  route, put, submit, take, finish,
}
use event_pipeline_extension.Pool.Bounds.{route-lt}
use event_pipeline_extension.Pool.Runs.{Reach, Reach-IsValid}
use event_pipeline_extension.Pool.Drain.{IsOpen, IsPlain}
use event_pipeline_extension.Pool.Running.{took_head, Reach-IsRunning}
use event_pipeline_extension.Pool.Progress.{take-head, finish-working}

module _ {A : Type 0} where
  -- A run in which the workers take and finish items, and no other thread steps.
  pub data Work (p : WorkerPool A) : WorkerPool A → Type 0 where
    unmoved : Work p p
    took :
        (i : ℕ) {p' p'' : WorkerPool A}
        → Work p p'
        → i < p'.num_workers
        → take i p' ≡ some p''
        → Work p p''
    ended :
        (i : ℕ) (a : A) {p' p'' : WorkerPool A}
        → Work p p'
        → i < p'.num_workers
        → finish i p' ≡ some (a, p'')
        → Work p p''

  -- A run of workers after which the queue of worker `i` has room.
  record Room (p₀ p : WorkerPool A) (i : ℕ) : Type 0 where
    last : WorkerPool A
    work : Work p₀ last
    workers : last.num_workers ≡ p.num_workers
    room : length (last.queues i) < last.queue_size

  Room-waiting :
      (p₀ p : WorkerPool A) (i : ℕ) (q : List (Entry A))
      → Work p₀ p
      → i < p.num_workers
      → 0 < p.queue_size
      → p.threads i ≡ waiting
      → p.queues i ≡ q
      → length q ≤ p.queue_size
      → IsPlain q
      → Room p₀ p i
  Room-waiting p₀ p i [] d lt positive idle empty le plain = record {
    last = p;
    work = d;
    workers = refl;
    room = rw empty positive;
  }
  Room-waiting p₀ p i (sentinel ∷ q) d lt positive idle full le plain = absurd plain
  Room-waiting p₀ p i (item a ∷ q) d lt positive idle full le plain = record {
    last = took_head i (item a) q p;
    work = took i d lt (take-head i (item a) q p idle full);
    workers = refl;
    room = rw (nat_beq_self i) (omega arith);
  }

  Room-worker :
      (p : WorkerPool A) (i : ℕ) (t : Thread A)
      → i < p.num_workers
      → 0 < p.queue_size
      → p.threads i ≡ t
      → t ≢ unstarted
      → t ≢ exited
      → length (p.queues i) ≤ p.queue_size
      → IsPlain (p.queues i)
      → Room p p i
  Room-worker p i waiting lt positive now s r le plain =
      Room-waiting p p i (p.queues i) unmoved lt positive now refl le plain
  Room-worker p i unstarted lt positive now s r le plain = absurd (s refl)
  Room-worker p i exited lt positive now s r le plain = absurd (r refl)
  Room-worker p i (working a) lt positive now s r le plain =
      let free = record p { threads = update p.threads i waiting } in
      let v =
        Room-waiting p free i (p.queues i) (ended i a unmoved lt (finish-working i a p now)) lt
          positive (rw (nat_beq_self i) refl) refl le plain in
      record { last = v.last; work = v.work; workers = v.workers; room = v.room }

  put-room :
      (i : ℕ) (e : Entry A) (p : WorkerPool A)
      → length (p.queues i) < p.queue_size
      → put i e p ≡ some (record p { queues = update p.queues i (p.queues i ++ e ∷ []) })
  unfolding put
  put-room i e p h = ground arith

  submit-room :
      (k : Key) (a : A) (n : ℕ) (p : WorkerPool A)
      → p.num_workers ≡ n
      → length (p.queues (route n k)) < p.queue_size
      → (p' : WorkerPool A) × (submit k a p ≡ some p')
  unfolding submit
  submit-room k a n p workers room = (
    _,
    put-room (route p.num_workers k) (item a) p
        (subst (λ m. length (p.queues (route m k)) < p.queue_size) (sym workers) room),
  )

module _ {A : Type 0} (key_of : A → Key) where
  -- No deadlock: in every state that a pool can get into and in which no sentinel is queued and no
  -- thread has returned, each `submit` is possible after some steps of the workers alone, however full
  -- the queue of the item's worker is.
  pub submit_unblocks :
      {n size : ℕ} {p : WorkerPool A} {all done : List A} (a : A)
      → Reach key_of n size p all done
      → IsOpen p
      → (p' p'' : WorkerPool A) × Work p p' × (submit (key_of a) a p' ≡ some p'')
  submit_unblocks {p} a x o =
      let v = Reach-IsValid key_of x in
      let i = route p.num_workers (key_of a) in
      let lt : i < p.num_workers =
        route-lt p.num_workers (key_of a) (omega (arith, v.positive.0, v.workers)) in
      let w =
        Room-worker p i (p.threads i) lt (omega (arith, v.positive.1, v.bound)) refl
          (Reach-IsRunning key_of x i lt) (o.running i) (v.bounded i) (o.plain i) in
      let (after, submitted) = submit-room (key_of a) a p.num_workers w.last w.workers w.room in
      (w.last, after, w.work, submitted)
