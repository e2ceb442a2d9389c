-- ===== src/Executor/Steps.antt =====
-- The scheduling methods under the lock, and the invariant of the queue, the scheduled set and the
-- workers.
use novel_crawler.Prelude.{
  ℕ, ◌+◌, ◌≤◌, String, Bool, true, false, not, ◌||◌, List, [], ◌∷◌, ◌++◌, none, ◌≡◌, refl, arith,
  eq_iff, length, is_some, if◌then◌else◌, ltb, Result, ok, err, Bool-cases, inl, inr,
}
use novel_crawler.Task.Status.{TaskStatus, recoverable_failed}
use novel_crawler.Task.Records.{TaskRecord, TaskError, is_terminal}
use novel_crawler.Executor.State.{Executor, is_in, discard, get, set, put_nowait}
use novel_crawler.Executor.Schedule.{
  Scheduling, is_submittable, is_interrupted, is_current, enqueue, submit_found, activate_found,
  resume_found,
}
use novel_crawler.Executor.Counts.{
  count_queue, count_id, is_in-discard, count_queue-append, length-append, get-set,
}

-- How often the queue and the workers hold a task.
abbrev pub held : String → Executor → ℕ
held id s = count_queue id s.queue + count_id id s.running

pub record Sound (s : Executor) : Type 0 where
  pub once : (id : String) → held id s ≡ (if is_in id s.scheduled then 1 else 0)
  pub pending :
      (id : String) → is_some (get id s.pending_resumes) ≡ true → is_in id s.scheduled ≡ true
  pub bounded : length s.queue ≤ s.max_queue_size

put_nowait-none :
    (id : String) (b : Bool) (s : Executor)
    → put_nowait id b s ≡ none
    → ltb (length s.queue) s.max_queue_size ≡ false
unfolding put_nowait
put_nowait-none id b s h = ground arith

pub either-Sound :
    (b : Bool) (x y : Scheduling)
    → (b ≡ true → Sound x.0)
    → (b ≡ false → Sound y.0)
    → Sound (if b then x else y).0
either-Sound true x y p q = p refl
either-Sound false x y p q = q refl

module _ (s : Executor) (good : Sound s) (id : String) where
  pub queued_once :
      (b : Bool) (x : String)
      → is_in id s.scheduled ≡ false
      → count_queue x (s.queue ++ ((id, b) ∷ [])) + count_id x s.running
        ≡ (if is_in x (id ∷ s.scheduled) then 1 else 0)
  unfolding is_in
  queued_once b x new =
      let once = good.once x in ground (arith, eq_iff id x, count_queue-append x id b s.queue)

  pub unqueued_once :
      (x : String)
      → is_in id s.scheduled ≡ false
      → held x s ≡ (if is_in x (discard id (id ∷ s.scheduled)) then 1 else 0)
  unfolding is_in
  unqueued_once x new =
      let once = good.once x in ground (arith, eq_iff id x, is_in-discard id x (id ∷ s.scheduled))

  pub unqueued_pending :
      (x : String)
      → is_in id s.scheduled ≡ false
      → is_some (get x s.pending_resumes) ≡ true
      → is_in x (discard id (id ∷ s.scheduled)) ≡ true
  unfolding is_in
  unqueued_pending x new h =
      let marked = good.pending x h in
      ground (arith, eq_iff id x, is_in-discard id x (id ∷ s.scheduled))

  enqueue-Sound :
      (version : ℕ) (b : Bool) → is_in id s.scheduled ≡ false → Sound (enqueue id version b s).0
  unfolding enqueue put_nowait
  enqueue-Sound version b new = elim (Bool-cases (ltb (length s.queue) s.max_queue_size)) [
    | inl room ↦
        rw (room, enqueue, put_nowait)
          (record {
            once = λ x. queued_once b x new;
            pending = λ x h. unfold is_in in rw (good.pending x h) (ground arith);
            bounded = rw (length-append (id, b) s.queue) (ground arith);
          })
    | inr full ↦
        rw (full, enqueue, put_nowait)
          (record {
            once = λ x. unqueued_once x new;
            pending = λ x h. unqueued_pending x new h;
            bounded = good.bounded;
          })
  ]

  deferred-Sound :
      (versions : List (String × ℕ)) (r : Bool × TaskStatus)
      → is_in id s.scheduled ≡ true
      → Sound
          (record s { scheduled_versions = versions; pending_resumes = set id r s.pending_resumes })
  deferred-Sound versions r there = record {
    once = good.once;
    pending = λ x h.
        let known = get-set id x r s.pending_resumes in
        let before = good.pending x in ground (arith, eq_iff id x);
    bounded = good.bounded;
  }

  pub submit_found-Sound : (found : Result TaskError TaskRecord) → Sound (submit_found id s found).0
  unfolding submit_found
  submit_found-Sound (err e) = good
  submit_found-Sound (ok task) =
      either-Sound s.closing _ _ (λ h. good)
        (λ open_.
          either-Sound
            (is_terminal task || (not (is_submittable task.status) || is_in id s.scheduled)) _ _
            (λ h. good) (λ free. enqueue-Sound task.version false (ground arith)))

  pub activate_found-Sound :
      (found : Result TaskError TaskRecord) → Sound (activate_found id s found).0
  unfolding activate_found
  activate_found-Sound (err e) = good
  activate_found-Sound (ok task) =
      either-Sound (not (is_interrupted task.status)) _ _ (λ h. good)
        (λ h.
          either-Sound (is_in id s.scheduled) _ _
            (λ there.
              either-Sound (is_current (get id s.scheduled_versions) task.version) _ _ (λ c. good)
                (λ c. deferred-Sound _ (true, recoverable_failed) there))
            (λ new. enqueue-Sound task.version true new))

  pub resume_found-Sound :
      (task : TaskRecord) (b : Bool) (r : TaskStatus) → Sound (resume_found id b r s (ok task)).0
  unfolding resume_found
  resume_found-Sound task b r = elim (Bool-cases (is_in id s.scheduled)) [
    | inl there ↦ rw there (deferred-Sound _ (b, r) there)
    | inr new ↦ rw new (enqueue-Sound task.version b new)
  ]
