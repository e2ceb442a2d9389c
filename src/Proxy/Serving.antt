-- ===== src/Proxy/Serving.antt =====
-- Which proxies a pool serves.
use Prim.Native.Nat.{◌%◌}
use native.Mathlib.Nat.{mod-lt}
use novel_crawler.Prelude.{
  ℕ, suc, ◌<◌, String, ◌==◌, eq_refl, Bool, true, false, ◌&&◌, ◌||◌, List, [], ◌∷◌, ◌++◌, Option,
  none, some, length, any, ltb, if◌then◌else◌, ◌≡◌, refl, sym, ap, ◌∙◌, arith, Bool-cases, inl, inr,
}
use novel_crawler.Proxy.Pool.{
  ProxyEntry, fail_entry, reset_entry, ProxyPool, empty_pool, add, alive_entries, get_at, to_dict,
  advance_index, next, is_proxy, fail_first, record_fail, reset_entries, reset_all,
}

-- The methods that change a pool, with their arguments.
pub data PoolCall : Type 0 where
  add_proxy : String → String → PoolCall
  take_next : ℕ → PoolCall
  report_fail : Option (String × String) → PoolCall
  reset_proxies : PoolCall

unfoldable pub apply : PoolCall → ProxyPool → ProxyPool
unfolding add next record_fail reset_all
apply (add_proxy url scheme) pool = add url scheme pool
apply (take_next choice) pool = (next choice pool).0
apply (report_fail proxy) pool = record_fail proxy pool
apply reset_proxies pool = reset_all pool

unfoldable pub apply_all : List PoolCall → ProxyPool → ProxyPool
unfolding apply
apply_all [] pool = pool
apply_all (c ∷ cs) pool = apply_all cs (apply c pool)

-- A proxy is out exactly when it has failed as often as it may.
abbrev IsCounted : ProxyEntry → Type 0
IsCounted e = (e.alive ≡ ltb e.fail_count e.max_fails) × (0 < e.max_fails)

abbrev AllCounted : List ProxyEntry → Type 0
AllCounted [] = Unit
AllCounted (e ∷ es) = IsCounted e × AllCounted es

fail-IsCounted : (e : ProxyEntry) → IsCounted e → IsCounted (fail_entry e)
fail-IsCounted e (same, some_fails) = (ground arith, some_fails)

reset-IsCounted : (e : ProxyEntry) → IsCounted e → IsCounted (reset_entry e)
reset-IsCounted e (same, some_fails) = (ground arith, some_fails)

append-AllCounted :
    (es : List ProxyEntry) (e : ProxyEntry)
    → AllCounted es
    → IsCounted e
    → AllCounted (es ++ (e ∷ []))
append-AllCounted [] e h c = (c, tt)
append-AllCounted (d ∷ es) e h c = (h.0, append-AllCounted es e h.1 c)

fail-AllCounted :
    (proxy : String × String) (es : List ProxyEntry)
    → AllCounted es
    → AllCounted (fail_first proxy es)
unfolding fail_first
fail-AllCounted proxy [] h = tt
fail-AllCounted proxy (e ∷ es) h = elim (Bool-cases (is_proxy proxy e)) [
  | inl here ↦ rw here (fail-IsCounted e h.0, h.1)
  | inr other ↦ rw other (h.0, fail-AllCounted proxy es h.1)
]

reset-AllCounted : (es : List ProxyEntry) → AllCounted es → AllCounted (reset_entries es)
unfolding reset_entries
reset-AllCounted [] h = tt
reset-AllCounted (e ∷ es) h = (reset-IsCounted e h.0, reset-AllCounted es h.1)

advance_index_entries :
    (es : List ProxyEntry) (pool : ProxyPool) → (advance_index es pool).entries ≡ pool.entries
advance_index_entries [] pool = refl
advance_index_entries (e ∷ es) pool = refl

next_entries : (choice : ℕ) (pool : ProxyPool) → (next choice pool).0.entries ≡ pool.entries
unfolding next
next_entries choice pool = elim (Bool-cases (pool.rotate_strategy == "random")) [
  | inl random ↦ rw random refl
  | inr rotate ↦ rw rotate (advance_index_entries (alive_entries pool.entries) pool)
]

apply-AllCounted :
    (c : PoolCall) (pool : ProxyPool) → AllCounted pool.entries → AllCounted (apply c pool).entries
unfolding apply add record_fail reset_all
apply-AllCounted (add_proxy url scheme) pool h =
    append-AllCounted pool.entries _ h (refl, omega arith)
apply-AllCounted (take_next choice) pool h = rw (next_entries choice pool) h
apply-AllCounted (report_fail none) pool h = h
apply-AllCounted (report_fail (some proxy)) pool h = fail-AllCounted proxy pool.entries h
apply-AllCounted reset_proxies pool h = reset-AllCounted pool.entries h

apply_all-AllCounted :
    (cs : List PoolCall) (pool : ProxyPool)
    → AllCounted pool.entries
    → AllCounted (apply_all cs pool).entries
unfolding apply_all
apply_all-AllCounted [] pool h = h
apply_all-AllCounted (c ∷ cs) pool h =
    apply_all-AllCounted cs (apply c pool) (apply-AllCounted c pool h)

-- A proxy that may still fail.
abbrev pub is_healthy : ProxyEntry → Bool
is_healthy e = ltb e.fail_count e.max_fails

abbrev is_served : ProxyEntry → ProxyEntry → Bool
is_served e d = is_proxy (e.scheme, e.url) d && is_healthy d

serves_self : (e : ProxyEntry) → IsCounted e → e.alive ≡ true → is_served e e ≡ true
serves_self e c live =
    let healthy : is_healthy e ≡ true = sym c.0 ∙ live in
    let scheme : (e.scheme == e.scheme) ≡ true = eq_refl e.scheme in
    let url : (e.url == e.url) ≡ true = eq_refl e.url in rw (scheme, url, healthy) refl

or_right : (b c : Bool) → c ≡ true → (b || c) ≡ true
or_right b c h = ground arith

or_left : (b c : Bool) → b ≡ true → (b || c) ≡ true
or_left b c h = ground arith

-- Of the list of those alive, each index below its length holds a healthy proxy.
get_at_healthy :
    (n : ℕ) (es : List ProxyEntry)
    → AllCounted es
    → n < length (alive_entries es)
    → (e : ProxyEntry) × (get_at n (alive_entries es) ≡ some e) × (any (is_served e) es ≡ true)
unfolding alive_entries get_at
get_at_healthy n [] h lt = absurd (omega arith)
get_at_healthy ℕ.zero (e ∷ es) h lt = elim (Bool-cases e.alive) [
  | inl live ↦ (
    e,
    ap (λ b. get_at 0 (if b then e ∷ alive_entries es else alive_entries es)) live,
    or_left (is_served e e) (any (is_served e) es) (serves_self e h.0 live),
  )
  | inr dead ↦
      let (x, found, there) = get_at_healthy 0 es h.1 (rw dead at lt) in
      (
        x,
        ap (λ b. get_at 0 (if b then e ∷ alive_entries es else alive_entries es)) dead ∙ found,
        or_right (is_served x e) (any (is_served x) es) there,
      )
]
get_at_healthy (suc n) (e ∷ es) h lt = elim (Bool-cases e.alive) [
  | inl live ↦
      let more : suc n < suc (length (alive_entries es)) = rw live at lt in
      let (x, found, there) = get_at_healthy n es h.1 (omega arith) in
      (
        x,
        ap (λ b. get_at (suc n) (if b then e ∷ alive_entries es else alive_entries es)) live
            ∙ found,
        or_right (is_served x e) (any (is_served x) es) there,
      )
  | inr dead ↦
      let (x, found, there) = get_at_healthy (suc n) es h.1 (rw dead at lt) in
      (
        x,
        ap (λ b. get_at (suc n) (if b then e ∷ alive_entries es else alive_entries es)) dead
            ∙ found,
        or_right (is_served x e) (any (is_served x) es) there,
      )
]

no_healthy :
    (es : List ProxyEntry) → AllCounted es → any is_healthy es ≡ false → alive_entries es ≡ []
unfolding alive_entries
no_healthy [] h out = refl
no_healthy (e ∷ es) h out =
    let c = h.0.0 in
    let dead : e.alive ≡ false = ground arith in
    let rest : any is_healthy es ≡ false = ground arith in rw dead (no_healthy es h.1 rest)

some_healthy :
    (es : List ProxyEntry)
    → AllCounted es
    → any is_healthy es ≡ true
    → 0 < length (alive_entries es)
unfolding alive_entries
some_healthy [] h out = cc
some_healthy (e ∷ es) h out = elim (Bool-cases e.alive) [
  | inl live ↦ rw live (omega arith)
  | inr dead ↦
      let c = h.0.0 in
      let rest : any is_healthy es ≡ true = ground arith in rw dead (some_healthy es h.1 rest)
]

-- An answer of `next`: none where no proxy may still fail, and else one that may.
abbrev pub Serves : List ProxyEntry → Option (String × String) → Type 0
Serves es out =
    (any is_healthy es ≡ false → out ≡ none)
    × (any is_healthy es ≡ true
        → (proxy : String × String) × (out ≡ some proxy)
          × (any (λ d. is_proxy proxy d && is_healthy d) es ≡ true))

pick-Serves :
    (n : ℕ) (es : List ProxyEntry)
    → AllCounted es
    → Serves es (to_dict (get_at (n % length (alive_entries es)) (alive_entries es)))
pick-Serves n es h = (none_left, some_left)
  where
    none_left :
        any is_healthy es ≡ false
        → to_dict (get_at (n % length (alive_entries es)) (alive_entries es)) ≡ none
    none_left out =
        ap (λ alive. to_dict (get_at (n % length alive) alive)) (no_healthy es h out)
        ∙ unfold get_at in refl

    some_left :
        any is_healthy es ≡ true
        → (proxy : String × String) × (to_dict
              (get_at (n % length (alive_entries es)) (alive_entries es))
            ≡ some proxy)
          × (any (λ d. is_proxy proxy d && is_healthy d) es ≡ true)
    some_left there =
        let (e, found, healthy) =
          get_at_healthy (n % length (alive_entries es)) es h
            (mod-lt n (some_healthy es h there)) in
        ((e.scheme, e.url), ap to_dict found, healthy)

-- A pool that started empty, whatever calls were made of it, and by either strategy: `next` returns
-- None exactly where every proxy has failed as often as it may since the last reset, and else a proxy
-- that has failed less often.
pub next-Serves :
    (strategy : String) (cs : List PoolCall) (choice : ℕ)
    → let pool = apply_all cs (empty_pool strategy) in Serves pool.entries (next choice pool).1
unfolding next
next-Serves strategy cs choice =
    let pool = apply_all cs (empty_pool strategy) in
    let counted = apply_all-AllCounted cs (empty_pool strategy) tt in
    elim (Bool-cases (pool.rotate_strategy == "random")) [
      | inl random ↦ rw random (pick-Serves choice pool.entries counted)
      | inr rotate ↦ rw rotate (pick-Serves pool.index pool.entries counted)
    ]
