-- ===== src/Task/Growth.antt =====
-- How a task and the log of events go on over a run of the repository.
use mathlib.Core.Path.{subst}
use mathlib.Core.List.{append_assoc}
use novel_crawler.Prelude.{
  suc, ◌≤◌, String, ◌==◌, true, false, List, [], ◌∷◌, ◌++◌, some, ◌≡◌, refl, sym, ap, ◌∙◌, inl, inr,
  arith, eq_iff, Bool-cases,
}
use novel_crawler.Task.Status.{TaskStatus, is_terminal_status, allowed_transitions}
use novel_crawler.Task.Python.{Python}
use novel_crawler.Task.Checks.{Limits}
use novel_crawler.Task.Db.{TaskRow, EventRow, NewEvent, Db, find_task, set_task}
use novel_crawler.Task.History.{recorded_edge, Consistent}
use novel_crawler.Task.Tables.{find_task-set_task}
use novel_crawler.Task.Advance.{IsStep}
use novel_crawler.Task.Effects.{Effect, unchanged, born, moved}
use novel_crawler.Task.Refinement.{perform-Effect}
use novel_crawler.Task.Runs.{perform-Consistent}
use novel_crawler.Task.Calls.{Call, perform, run}

-- How a row may go on: it stays as it is, or it takes one recorded edge to the next version.
pub data Grows (t : TaskRow) (t' : TaskRow) : Type 0 where
  same : t' ≡ t → Grows t t'
  moves : t'.version ≡ suc t.version → recorded_edge t.status t'.status ≡ true → Grows t t'

abbrev pub Grown : String → TaskRow → Db → Type 0
Grown id t db = (t' : TaskRow) × (find_task id db.tasks ≡ some t') × Grows t t'

moved-Grown :
    (db db' : Db) (id j : String) (f : TaskRow → TaskRow) (t u : TaskRow) (e : NewEvent)
    → find_task id db.tasks ≡ some t
    → IsStep id f t e
    → db'.tasks ≡ set_task id t.version f db.tasks
    → find_task j db.tasks ≡ some u
    → Grown j u db'
moved-Grown db db' id j f t u e found step p held = elim (Bool-cases (id == j)) [
  | inl me ↦
      let at_j = find_task-set_task f step.keeps id j db.tasks t found in
      let is_here : t ≡ u = ground (arith, eq_iff id j) in
      (f t, rw (p, at_j, me) refl, subst (λ x. Grows x (f t)) is_here (moves step.bumped step.edge))
  | inr other ↦
      let at_j = find_task-set_task f step.keeps id j db.tasks t found in
      (u, rw (p, at_j, other) held, same refl)
]

Effect-Grown :
    (db db' : Db) (j : String) (u : TaskRow)
    → Effect db db'
    → find_task j db.tasks ≡ some u
    → Grown j u db'
Effect-Grown db db' j u (unchanged p q) held = (u, rw p held, same refl)
Effect-Grown db db' j u (born id url json now missing p q) held =
    (u, rw p (unfold find_task in ground (arith, eq_iff id j)), same refl)
Effect-Grown db db' j u (moved id f t e found step p q) held =
    moved-Grown db db' id j f t u e found step p held

-- Statuses joined by recorded edges.
pub data Reaches (s : TaskStatus) : TaskStatus → Type 0 where
  here : Reaches s s
  next : {t u : TaskStatus} → Reaches s t → recorded_edge t u ≡ true → Reaches s u

Reaches-trans : {s t u : TaskStatus} → Reaches s t → Reaches t u → Reaches s u
Reaches-trans p here = p
Reaches-trans p (next q e) = next (Reaches-trans p q) e

-- The row `t'` is what `t` has become.
pub record Later (t t' : TaskRow) : Type 0 where
  pub grows : t.version ≤ t'.version
  pub tagged : t'.version ≡ t.version → t' ≡ t
  pub ends : is_terminal_status t.status ≡ true → t' ≡ t
  pub reaches : Reaches t.status t'.status

Later-refl : (t : TaskRow) → Later t t
Later-refl t = record { grows = omega arith; tagged = λ h. refl; ends = λ h. refl; reaches = here }

terminal_stuck :
    (s s' : TaskStatus) → is_terminal_status s ≡ true → recorded_edge s s' ≡ true → false ≡ true
unfolding recorded_edge allowed_transitions
terminal_stuck s s' h e = ground arith

Grows-Later : (t t' : TaskRow) → Grows t t' → Later t t'
Grows-Later t t' (same e) = subst (Later t) (sym e) (Later-refl t)
Grows-Later t t' (moves n e) = record {
  grows = omega arith;
  tagged = λ h. absurd (omega arith);
  ends = λ h. cc (terminal_stuck t.status t'.status h e);
  reaches = next here e;
}

Later-trans : (t u w : TaskRow) → Later t u → Later u w → Later t w
Later-trans t u w a b = record {
  grows = omega (arith, a.grows, b.grows);
  tagged =
      λ h. b.tagged (omega (arith, a.grows, b.grows)) ∙ a.tagged (omega (arith, a.grows, b.grows));
  ends = λ h. b.ends (rw (a.ends h) h) ∙ a.ends h;
  reaches = Reaches-trans a.reaches b.reaches;
}

-- From consistent tables, whatever calls are made, a task stays and has a later row: the version
-- has not fallen, a row at the old version is the old row, a terminal row is unchanged, and the old
-- status leads to the new one by recorded edges.
pub run-Later :
    (py : Python) (limits : Limits) (cs : List Call) (db : Db) (id : String) (t : TaskRow)
    → Consistent db
    → find_task id db.tasks ≡ some t
    → (t' : TaskRow) × (find_task id (run py limits cs db).tasks ≡ some t') × Later t t'
unfolding run
run-Later py limits [] db id t good found = (t, found, Later-refl t)
run-Later py limits (c ∷ cs) db id t good found =
    let (u, there, grown) =
      Effect-Grown db (perform py limits c db) id t (perform-Effect py limits db good c) found in
    let (w, last, later) =
      run-Later py limits cs (perform py limits c db) id u (perform-Consistent py limits c db good)
        there in
    (w, last, Later-trans t u w (Grows-Later t u grown) later)

Effect-log : (db db' : Db) → Effect db db' → (new : List EventRow) × (db'.events ≡ new ++ db.events)
Effect-log db db' (unchanged p q) = ([], q)
Effect-log db db' (born id url json now missing p q) = (_ ∷ [], q)
Effect-log db db' (moved id f t e found step p q) = (_ ∷ [], q)

-- The log of events only grows: a run puts new events before those that were there.
pub run_log_grows :
    (py : Python) (limits : Limits) (cs : List Call) (db : Db)
    → Consistent db
    → (new : List EventRow) × ((run py limits cs db).events ≡ new ++ db.events)
unfolding run
run_log_grows py limits [] db good = ([], refl)
run_log_grows py limits (c ∷ cs) db good =
    let db' = perform py limits c db in
    let (first, p) = Effect-log db db' (perform-Effect py limits db good c) in
    let (later, q) = run_log_grows py limits cs db' (perform-Consistent py limits c db good) in
    (later ++ first, q ∙ ap (λ es. later ++ es) p ∙ sym (append_assoc later first db.events))
