-- ===== src/Executor/Counts.antt =====
-- How often a task is in the queue and in the hands of workers.
use novel_crawler.Prelude.{
  ℕ, suc, ◌+◌, String, ◌==◌, Bool, true, not, ◌&&◌, ◌||◌, List, [], ◌∷◌, ◌++◌, ◌≡◌, refl, ap, arith,
  eq_iff, length, is_some, if◌then◌else◌,
}
use novel_crawler.Executor.State.{is_in, discard, remove_one, get, pop, set}

unfoldable pub count_queue : String → List (String × Bool) → ℕ
count_queue id [] = 0
count_queue id ((k, b) ∷ xs) = let rest = count_queue id xs in if k == id then suc rest else rest

unfoldable pub count_id : String → List String → ℕ
count_id id [] = 0
count_id id (x ∷ xs) = let rest = count_id id xs in if x == id then suc rest else rest

pub is_in-discard :
    (y x : String) (xs : List String) → is_in x (discard y xs) ≡ (not (y == x) && is_in x xs)
unfolding is_in discard
is_in-discard y x [] = ground arith
is_in-discard y x (z ∷ xs) =
    ground (arith, is_in-discard y x xs, eq_iff z y, eq_iff z x, eq_iff y x)

pub count_queue-append :
    (x y : String) (b : Bool) (q : List (String × Bool))
    → count_queue x (q ++ ((y, b) ∷ [])) ≡ count_queue x q + (if y == x then 1 else 0)
unfolding count_queue
count_queue-append x y b [] = ground arith
count_queue-append x y b ((k, c) ∷ q) = ground (arith, count_queue-append x y b q)

pub count_id-remove_one :
    (y x : String) (xs : List String)
    → is_in y xs ≡ true
    → count_id x (remove_one y xs) + (if y == x then 1 else 0) ≡ count_id x xs
unfolding is_in count_id remove_one
count_id-remove_one y x [] h = cc
count_id-remove_one y x (z ∷ xs) h =
    ground (arith, count_id-remove_one y x xs, eq_iff z y, eq_iff z x, eq_iff y x)

pub length-append :
    (x : String × Bool) (q : List (String × Bool)) → length (q ++ (x ∷ [])) ≡ suc (length q)
length-append x [] = refl
length-append x (y ∷ q) = ap suc (length-append x q)

module _ {A : Type 0} where
  pub get-pop :
      (y x : String) (d : List (String × A))
      → is_some (get x (pop y d)) ≡ (not (y == x) && is_some (get x d))
  unfolding get pop
  get-pop y x [] = ground arith
  get-pop y x ((k, a) ∷ d) = ground (arith, get-pop y x d, eq_iff k y, eq_iff k x, eq_iff y x)

  pub get-set :
      (y x : String) (a : A) (d : List (String × A))
      → is_some (get x (set y a d)) ≡ (y == x || is_some (get x d))
  unfolding get set
  get-set y x a d = ground (arith, get-pop y x d)
