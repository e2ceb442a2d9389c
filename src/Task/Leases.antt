-- ===== src/Task/Leases.antt =====
-- The interaction leases, and the recovery of tasks that wait without one.
use novel_crawler.Prelude.{
  ℕ, suc, String, ◌==◌, Bool, true, false, ◌&&◌, List, [], ◌∷◌, none, some, ◌≡◌, refl, arith, ok,
  err, is_ok, any, text_lt, ◌=?◌, =?_refl, eq_iff, eq_refl, Bool-cases, inl, inr,
}
use novel_crawler.Task.Status.{waiting_for_user, same_status, allowed_transitions}
use novel_crawler.Task.Python.{Python}
use novel_crawler.Task.Checks.{validate_interaction_lease}
use novel_crawler.Task.Records.{
  TaskError, value_error, task_version_conflict, interaction_lease_active,
}
use novel_crawler.Task.Db.{TaskRow, Db, LeaseRow, find_task, find_lease, delete_lease, transaction}
use novel_crawler.Task.Repository.{
  transition_to_waiting_with_lease, owns_interaction_lease, is_held, release_interaction_lease,
  release_rows, recover_lost_interaction, apply_recover, interaction_recovery_errors, lease_clock,
  is_live, waiting_row, orphaned_rows, is_orphaned,
}
use novel_crawler.Task.History.{Consistent, Unique}
use novel_crawler.Task.Tables.{find_task-id, find_task-set_task}
use novel_crawler.Task.Steps.{apply_recover_lem}
use novel_crawler.Task.Gate.{wait_outcome}

-- The test of `owns_interaction_lease` on the rows.
abbrev holds : String → String → ℕ → String → List LeaseRow → Bool
holds id owner epoch now leases =
    any (λ l. is_held id owner epoch l && text_lt now l.expires_at) leases

holds-delete_lease :
    (id owner : String) (epoch : ℕ) (now : String) (ls : List LeaseRow)
    → holds id owner epoch now (delete_lease id ls) ≡ false
unfolding delete_lease is_held
holds-delete_lease id owner epoch now [] = refl
holds-delete_lease id owner epoch now (l ∷ ls) =
    ground (arith, holds-delete_lease id owner epoch now ls)

holds-release_rows :
    (id owner : String) (epoch : ℕ) (now : String) (ls : List LeaseRow)
    → holds id owner epoch now (release_rows id owner epoch ls) ≡ false
unfolding release_rows is_held
holds-release_rows id owner epoch now [] = refl
holds-release_rows id owner epoch now (l ∷ ls) =
    ground (arith, holds-release_rows id owner epoch now ls)

module _ (py : Python) (id : String) (db : Db) where
  -- Behind a wait the lease is held by its owner and epoch alone, until it runs out: every valid
  -- question of `owns_interaction_lease` is answered so.
  pub wait_gives_lease :
      (t : TaskRow) (owner : String) (epoch : ℕ) (expires now : String) (owner' : String)
      (epoch' : ℕ) (now' : String)
      → Consistent db
      → find_task id db.tasks ≡ some t
      → allowed_transitions t.status waiting_for_user ≡ true
      → validate_interaction_lease py owner epoch expires ≡ ok tt
      → validate_interaction_lease py owner' epoch' now' ≡ ok tt
      → owns_interaction_lease py id owner' epoch' now'
          (transition_to_waiting_with_lease py id t.version owner epoch expires now db).0
        ≡ ok ((owner == owner' && epoch =? epoch') && text_lt now' expires)
  unfolding owns_interaction_lease is_held
  wait_gives_lease t owner epoch expires now owner' epoch' now' good found allowed valid asked =
      rw (wait_outcome py id db good t found owner epoch expires now valid allowed, asked)
        (ground (arith, holds-delete_lease id owner' epoch' now' db.leases, eq_refl id))

  -- Behind a release by an owner and epoch, these hold the lease of the task no longer.
  pub release_ends_lease :
      (owner : String) (epoch : ℕ) (now : String)
      → validate_interaction_lease py owner epoch "2000-01-01T00:00:00+00:00" ≡ ok tt
      → validate_interaction_lease py owner epoch now ≡ ok tt
      → owns_interaction_lease py id owner epoch now
          (release_interaction_lease py id owner epoch db).0
        ≡ ok false
  unfolding owns_interaction_lease release_interaction_lease transaction
  release_ends_lease owner epoch now valid asked =
      rw (valid, asked, holds-release_rows id owner epoch now db.leases)

orphaned_absent :
    (id now : String) (leases : List LeaseRow) (ts : List TaskRow)
    → find_task id ts ≡ none
    → any (λ (u : TaskRow). u.task_id == id) (orphaned_rows now leases ts) ≡ false
unfolding find_task orphaned_rows
orphaned_absent id now leases [] h = refl
orphaned_absent id now leases (u ∷ ts) h = ground (arith, orphaned_absent id now leases ts)

-- A task is listed exactly if it waits and no lease of it is live.
orphaned_listed :
    (id now : String) (leases : List LeaseRow) (ts : List TaskRow) (t : TaskRow)
    → Unique ts
    → find_task id ts ≡ some t
    → any (λ (u : TaskRow). u.task_id == id) (orphaned_rows now leases ts)
      ≡ is_orphaned now leases t
unfolding find_task orphaned_rows
orphaned_listed id now leases [] t q h = ground arith
orphaned_listed id now leases (u ∷ ts) t q h = ground (
  arith,
  eq_iff u.task_id id,
  orphaned_absent id now leases ts,
  orphaned_listed id now leases ts t q.1,
)

module _ (py : Python) (id : String) (db : Db) (good : Consistent db) (t : TaskRow)
    (found : find_task id db.tasks ≡ some t) where
  -- `recover_lost_interaction`, called at the version of the task with a known error code and the time
  -- `clock`, returns exactly for the tasks that `list_orphaned_waiting` selects at that time.
  pub recovers_orphans :
      (code clock now : String)
      → any (λ e. e == code) interaction_recovery_errors ≡ true
      → (clock == "") ≡ false
      → is_ok (recover_lost_interaction py id t.version code (some clock) now db).1
        ≡ any (λ (u : TaskRow). u.task_id == id) (orphaned_rows clock db.leases db.tasks)
  unfolding recover_lost_interaction lease_clock transaction
  recovers_orphans code clock now known given =
      rw (known, given, orphaned_listed id clock db.leases db.tasks t good.unique found)
        (unfold is_orphaned in
          rw (find_task-id id db.tasks t found)
            (elim (Bool-cases (same_status t.status waiting_for_user)) [
              | inr idle ↦ unfold apply_recover in rw (found, =?_refl t.version, idle)
              | inl waits ↦ elim (Bool-cases (is_live (find_lease id db.leases) clock)) [
                | inl live ↦ unfold apply_recover in rw (found, =?_refl t.version, waits, live)
                | inr dead ↦
                    rw (
                      apply_recover_lem id t now code clock py db good found waits dead,
                      waits,
                      dead,
                    )
              ]
            ]))

  -- Behind a wait with a lease, and until the lease runs out, the task is not recovered: whatever
  -- version and error code it is called with, `recover_lost_interaction` at a time before the end of
  -- the lease raises and changes nothing.
  pub live_lease_protects :
      (owner : String) (epoch : ℕ) (expires now : String) (v : ℕ) (code clock now' : String)
      → allowed_transitions t.status waiting_for_user ≡ true
      → validate_interaction_lease py owner epoch expires ≡ ok tt
      → (clock == "") ≡ false
      → text_lt clock expires ≡ true
      → let db' = (transition_to_waiting_with_lease py id t.version owner epoch expires now db).0 in
        (e : TaskError) × (recover_lost_interaction py id v code (some clock) now' db'
          ≡ (db', err e))
  unfolding recover_lost_interaction lease_clock transaction
  live_lease_protects owner epoch expires now v code clock now' allowed valid given early =
      let there =
        find_task-set_task (waiting_row now) (λ u. unfold waiting_row in refl) id id db.tasks t
          found in
      rw (wait_outcome py id db good t found owner epoch expires now valid allowed, given)
        (elim (Bool-cases (any (λ e. e == code) interaction_recovery_errors)) [
          | inr unknown ↦ (value_error "interaction_recovery_error_invalid", rw unknown refl)
          | inl known ↦ elim (Bool-cases (suc t.version =? v)) [
            | inr stale ↦ (
              task_version_conflict,
              unfold apply_recover waiting_row in rw (known, there, eq_refl, stale),
            )
            | inl same ↦ (
              interaction_lease_active,
              unfold apply_recover is_live find_lease waiting_row in
                  rw (known, there, eq_refl, same, early),
            )
          ]
        ])
