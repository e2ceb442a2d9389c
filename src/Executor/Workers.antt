-- ===== src/Executor/Workers.antt =====
-- The bookkeeping of the queue when a worker takes a task and lets it go.
use novel_crawler.Prelude.{
  ℕ, ◌+◌, ◌≤◌, String, Bool, true, false, List, ◌∷◌, Option, none, some, ◌≡◌, arith, eq_refl,
  length, is_some, if◌then◌else◌, ltb, Bool-cases, inl, inr,
}
use novel_crawler.Task.Status.{TaskStatus}
use novel_crawler.Executor.State.{Executor, is_in, discard, remove_one, get, pop, put_nowait}
use novel_crawler.Executor.Worker.{let_go, finish}
use novel_crawler.Executor.Counts.{
  count_queue, count_id, is_in-discard, count_id-remove_one, length-append, get-pop,
}
use novel_crawler.Executor.Steps.{Sound, held, queued_once, unqueued_once, unqueued_pending}

-- A task whose id heads the queue goes over to the worker.
pub take-Sound :
    (s : Executor) (id : String) (b : Bool) (rest : List (String × Bool))
    → Sound s
    → s.queue ≡ (id, b) ∷ rest
    → Sound (record s { queue = rest; running = id ∷ s.running })
unfolding count_queue count_id
take-Sound s id b rest good front = record {
  once = λ x.
      let before : count_queue x ((id, b) ∷ rest) + count_id x s.running
          ≡ (if is_in x s.scheduled then 1 else 0) =
        rw front at (good.once x) in
      ground arith;
  pending = good.pending;
  bounded =
      let before : length ((id, b) ∷ rest) ≤ s.max_queue_size = rw front at good.bounded in
      ground arith;
}

module _ (s : Executor) (good : Sound s) (id : String) (mine : is_in id s.running ≡ true) where
  -- The state in which `finally` looks for a pending resume.
  abbrev released : Executor
  released = record s {
    running = remove_one id s.running;
    scheduled = discard id s.scheduled;
    pending_resumes = pop id s.pending_resumes;
  }

  released_once : (x : String) → held x released ≡ (if is_in x released.scheduled then 1 else 0)
  released_once x =
      let before = good.once x in
      ground (arith, count_id-remove_one id x s.running mine, is_in-discard id x s.scheduled)

  released_pending :
      (x : String)
      → is_some (get x released.pending_resumes) ≡ true
      → is_in x released.scheduled ≡ true
  released_pending x h =
      let before = good.pending x in
      ground (arith, get-pop id x s.pending_resumes, is_in-discard id x s.scheduled)

  released-Sound : Sound released
  released-Sound = record {
    once = λ x. released_once x;
    pending = λ x h. released_pending x h;
    bounded = good.bounded;
  }

  released_free : is_in id released.scheduled ≡ false
  released_free = rw (is_in-discard id id s.scheduled, eq_refl id)

  unmarked-Sound :
      (versions : List (String × ℕ)) → Sound (record released { scheduled_versions = versions })
  unmarked-Sound versions = record {
    once = λ x. released_once x;
    pending = λ x h. released_pending x h;
    bounded = good.bounded;
  }

  let_go-Sound : (resume : Option (Bool × TaskStatus)) → Sound (let_go id resume released).0
  unfolding let_go put_nowait
  let_go-Sound none = unmarked-Sound (pop id s.scheduled_versions)
  let_go-Sound (some (b, r)) = elim (Bool-cases s.closing) [
    | inl closed ↦ rw closed (record {
      once = λ x. released_once x;
      pending = λ x h. released_pending x h;
      bounded = good.bounded;
    })
    | inr open_ ↦ elim (Bool-cases (ltb (length s.queue) s.max_queue_size)) [
      | inl room ↦
          rw (open_, room)
            (record {
              once = λ x. queued_once released released-Sound id b x released_free;
              pending = λ x h. unfold is_in in rw (released_pending x h) (ground arith);
              bounded = rw (length-append (id, b) s.queue) (ground arith);
            })
      | inr full ↦
          rw (open_, full)
            (record {
              once = λ x. unqueued_once released released-Sound id x released_free;
              pending = λ x h. unqueued_pending released released-Sound id x released_free h;
              bounded = good.bounded;
            })
    ]
  ]

  pub finish-Sound : Sound (finish id s).0
  unfolding finish
  finish-Sound = let_go-Sound (get id s.pending_resumes)
