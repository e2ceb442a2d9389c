-- ===== src/Deletion/Table.antt =====
-- Laws of the statements on `deletion_jobs`.
use novel_crawler.Prelude.{
  ℕ, Bool, true, ◌&&◌, List, [], ◌∷◌, none, some, ◌=?◌, ◌≡◌, refl, arith, Bool-cases, inl, inr,
}
use novel_crawler.Deletion.Jobs.{JobRow, is_pending, find_job, update_job, delete_job}

-- `id INTEGER PRIMARY KEY`
abbrev pub Unique : List JobRow → Type 0
Unique [] = Unit
Unique (j ∷ js) = (find_job j.id js ≡ none) × Unique js

module _ (id : ℕ) (where_ : JobRow → Bool) (f : JobRow → JobRow)
    (keeps : (j : JobRow) → (f j).id ≡ j.id) where
  pub find-update :
      (js : List JobRow) (j : JobRow)
      → find_job id js ≡ some j
      → where_ j ≡ true
      → find_job id (update_job id where_ f js) ≡ some (f j)
  unfolding find_job update_job
  find-update [] j found met = cc
  find-update (k ∷ js) j found met = ground (arith, keeps k, find-update js j)

  pub find-update_absent :
      (i : ℕ) (js : List JobRow)
      → find_job i js ≡ none
      → find_job i (update_job id where_ f js) ≡ none
  unfolding find_job update_job
  find-update_absent i [] missing = refl
  find-update_absent i (k ∷ js) missing = ground (arith, keeps k, find-update_absent i js)

  pub Unique-update : (js : List JobRow) → Unique js → Unique (update_job id where_ f js)
  unfolding update_job
  Unique-update [] q = tt
  Unique-update (k ∷ js) q = elim (Bool-cases (k.id =? id && where_ k)) [
    | inl met ↦ rw met (rw (keeps k) (find-update_absent k.id js q.0), Unique-update js q.1)
    | inr other ↦ rw other (find-update_absent k.id js q.0, Unique-update js q.1)
  ]

find-delete_absent :
    (id i : ℕ) (js : List JobRow) → find_job i js ≡ none → find_job i (delete_job id js) ≡ none
unfolding find_job delete_job
find-delete_absent id i [] missing = refl
find-delete_absent id i (k ∷ js) missing = ground (arith, find-delete_absent id i js)

same_absent : (i j : ℕ) (js : List JobRow) → i ≡ j → find_job i js ≡ none → find_job j js ≡ none
same_absent i j js p missing = rw p at missing

pub find-delete :
    (id : ℕ) (js : List JobRow) (j : JobRow)
    → Unique js
    → find_job id js ≡ some j
    → is_pending j.state ≡ true
    → find_job id (delete_job id js) ≡ none
unfolding find_job delete_job
find-delete id [] j q found open_ = cc
find-delete id (k ∷ js) j q found open_ =
    ground (arith, find-delete id js j q.1, same_absent k.id id js, find-delete_absent id id js)
