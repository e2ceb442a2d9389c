-- ===== src/Deletion/Paths.antt =====
-- `_valid_manifest_relative_path` of storage.py: a path of a manifest is a list of code points.
use novel_crawler.Prelude.{
  ℕ, String, Bool, true, false, not, ◌&&◌, ◌||◌, List, [], ◌∷◌, ◌++◌, ◌=?◌, any, all, codes,
  if◌then◌else◌, ◌≡◌, refl, ap, ◌∙◌, arith, Bool-cases, inl, inr,
}

-- A part of a path, between two slashes.
abbrev pub Part : Type 0
Part = List ℕ

abbrev pub push : ℕ → List Part → List Part
push c [] = (c ∷ []) ∷ []
push c (p ∷ ps) = (c ∷ p) ∷ ps

-- `value.split("/")`
unfoldable pub split_slash : List ℕ → List Part
split_slash [] = [] ∷ []
split_slash (c ∷ cs) = let rest = split_slash cs in if c =? b'/' then [] ∷ rest else push c rest

-- `part in {"", ".", ".."}`
abbrev pub is_dots : Part → Bool
is_dots [] = true
is_dots (c ∷ []) = c =? b'.'
is_dots (c ∷ d ∷ []) = c =? b'.' && d =? b'.'
is_dots (c ∷ d ∷ e ∷ p) = false

abbrev pub is_slash : ℕ → Bool
is_slash c = c =? b'/'

-- NUL, backslash or colon.
abbrev pub is_forbidden : ℕ → Bool
is_forbidden c = c =? 0 || (c =? b'\\' || c =? b':')

abbrev pub starts_slash : List ℕ → Bool
starts_slash [] = false
starts_slash (c ∷ cs) = is_slash c

unfoldable pub ends_slash : List ℕ → Bool
ends_slash [] = false
ends_slash (c ∷ []) = is_slash c
ends_slash (c ∷ d ∷ cs) = ends_slash (d ∷ cs)

-- `"//" in value`
unfoldable pub has_double_slash : List ℕ → Bool
has_double_slash [] = false
has_double_slash (c ∷ cs) = (is_slash c && starts_slash cs) || has_double_slash cs

abbrev pub is_blank : List ℕ → Bool
is_blank [] = true
is_blank (c ∷ cs) = false

unfoldable pub is_relative_path : List ℕ → Bool
unfolding split_slash ends_slash has_double_slash
is_relative_path cs =
    not (is_blank cs || (any is_forbidden cs || (has_double_slash cs || ends_slash cs)))
    && (not (starts_slash cs) && all (λ p. not (is_dots p)) (split_slash cs))

unfoldable pub valid_manifest_relative_path : String → Bool
unfolding is_relative_path
valid_manifest_relative_path value = is_relative_path (codes value)

-- How a system follows one part of a path from a place: `.` stays, and `..` goes up.
abbrev pub up : List Part → List Part
up [] = []
up (h ∷ here) = here

unfoldable pub follow : Part → List Part → List Part
follow [] here = here
follow (c ∷ []) here = if c =? b'.' then here else (c ∷ []) ∷ here
follow (c ∷ d ∷ []) here = if c =? b'.' && d =? b'.' then up here else (c ∷ d ∷ []) ∷ here
follow (c ∷ d ∷ e ∷ p) here = (c ∷ d ∷ e ∷ p) ∷ here

-- How it walks along the parts of a path: of the place, the last part comes first.
unfoldable pub walk : List Part → List Part → List Part
unfolding follow
walk here [] = here
walk here (p ∷ ps) = walk (follow p here) ps

-- A place strictly below a directory: the directory, and at least one part more.
abbrev pub IsBelow : List Part → List Part → Type 0
IsBelow here there = (p : Part) × (ps : List Part) × (there ≡ p ∷ (ps ++ here))

append_cons : (p : Part) (ps here : List Part) → ps ++ (p ∷ here) ≡ (ps ++ (p ∷ [])) ++ here
append_cons p [] here = refl
append_cons p (q ∷ ps) here = ap (λ xs. q ∷ xs) (append_cons p ps here)

-- Below a directory of the place is below the place.
IsBelow-up : (q : Part) (here there : List Part) → IsBelow (q ∷ here) there → IsBelow here there
IsBelow-up q here there (p, ps, h) =
    (p, ps ++ (q ∷ []), h ∙ ap (λ xs. p ∷ xs) (append_cons q ps here))

abbrev is_plain : Part → Bool
is_plain p = not (is_dots p)

follow_plain : (here : List Part) (p : Part) → is_plain p ≡ true → follow p here ≡ p ∷ here
unfolding follow
follow_plain here [] h = cc
follow_plain here (c ∷ []) h = ground arith
follow_plain here (c ∷ d ∷ []) h = ground arith
follow_plain here (c ∷ d ∷ e ∷ p) h = refl

walk_plain :
    (here : List Part) (p : Part) (ps : List Part)
    → is_plain p ≡ true
    → walk here (p ∷ ps) ≡ walk (p ∷ here) ps
unfolding walk
walk_plain here p ps h = ap (λ there. walk there ps) (follow_plain here p h)

walk-IsBelow :
    (here : List Part) (p : Part) (ps : List Part)
    → all is_plain (p ∷ ps) ≡ true
    → IsBelow here (walk here (p ∷ ps))
walk-IsBelow here p [] h = (p, [], walk_plain here p [] (ground arith) ∙ unfold walk in refl)
walk-IsBelow here p (q ∷ ps) h =
    rw (walk_plain here p (q ∷ ps) (ground arith))
      (IsBelow-up p here (walk (p ∷ here) (q ∷ ps)) (walk-IsBelow (p ∷ here) q ps (ground arith)))

split_starts : (cs : List ℕ) → (p : Part) × (ps : List Part) × (split_slash cs ≡ p ∷ ps)
unfolding split_slash
split_starts [] = ([], [], refl)
split_starts (c ∷ cs) =
    let (p, ps, h) = split_starts cs in
    elim (Bool-cases (c =? b'/')) [
      | inl slash ↦ rw slash ([], split_slash cs, refl)
      | inr other ↦ rw (other, h) (c ∷ p, ps, refl)
    ]

-- A path that the manifest accepts leads from any directory to a place strictly below it.
pub path-IsBelow :
    (here : List Part) (value : String)
    → valid_manifest_relative_path value ≡ true
    → IsBelow here (walk here (split_slash (codes value)))
unfolding valid_manifest_relative_path is_relative_path
path-IsBelow here value h =
    let (p, ps, parts) = split_starts (codes value) in
    let plain : all is_plain (split_slash (codes value)) ≡ true = ground arith in
    rw parts (walk-IsBelow here p ps (rw parts at plain))
