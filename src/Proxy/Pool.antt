-- ===== src/Proxy/Pool.antt =====
-- `ProxyEntry` and `ProxyPool` of proxy_pool.py. The lock of the pool makes each method one step.
use Prim.Native.Nat.{◌%◌}
use novel_crawler.Prelude.{
  ℕ, suc, String, ◌==◌, Bool, true, false, ◌&&◌, List, [], ◌∷◌, ◌++◌, Option, none, some, length,
  leb, ◌=?◌, codes, if◌then◌else◌,
}

pub record ProxyEntry : Type 0 where
  pub url : String
  pub scheme : String
  pub fail_count : ℕ
  pub max_fails : ℕ
  pub alive : Bool

-- `ProxyEntry.record_fail`
abbrev pub fail_entry : ProxyEntry → ProxyEntry
fail_entry e = record e {
  fail_count = suc e.fail_count;
  alive = if leb e.max_fails (suc e.fail_count) then false else e.alive;
}

-- `ProxyEntry.reset`
abbrev pub reset_entry : ProxyEntry → ProxyEntry
reset_entry e = record e { fail_count = 0; alive = true }

pub record ProxyPool : Type 0 where
  pub entries : List ProxyEntry
  pub rotate_strategy : String
  pub index : ℕ

-- A pool without proxies.
abbrev pub empty_pool : String → ProxyPool
empty_pool strategy = record { entries = []; rotate_strategy = strategy; index = 0 }

-- `proxy_url.split("://")[0]`, `none` where the text has no `://`.
abbrev pub starts_mark : String → Bool
starts_mark s = is_mark (codes s)
  where
    is_mark : List ℕ → Bool
    is_mark (c ∷ d ∷ e ∷ cs) = c =? b':' && (d =? b'/' && e =? b'/')
    is_mark _ = false

abbrev pub cons_text : (String → String) → Option String → Option String
cons_text f none = none
cons_text f (some s) = some (f s)

unfoldable pub before_mark : String → Option String
before_mark String.[] = none
before_mark (String.◌∷◌ c s) =
    let rest = before_mark s in
    if starts_mark (String.◌∷◌ c s) then some "" else cons_text (λ t. String.◌∷◌ c t) rest

abbrev pub or_scheme : String → Option String → String
or_scheme scheme none = scheme
or_scheme scheme (some found) = found

-- `add`; `max_fails` is 3 by default.
unfoldable pub add : String → String → ProxyPool → ProxyPool
unfolding before_mark
add url scheme pool = record pool {
  entries =
      pool.entries
      ++ (record {
        url = url;
        scheme = or_scheme scheme (before_mark url);
        fail_count = 0;
        max_fails = 3;
        alive = true;
      }
          ∷ []);
}

-- `[e for e in self.entries if e.alive]`
unfoldable pub alive_entries : List ProxyEntry → List ProxyEntry
alive_entries [] = []
alive_entries (e ∷ es) = let rest = alive_entries es in if e.alive then e ∷ rest else rest

unfoldable pub get_at : ℕ → List ProxyEntry → Option ProxyEntry
get_at n [] = none
get_at ℕ.zero (e ∷ es) = some e
get_at (suc n) (e ∷ es) = get_at n es

-- A dict with one scheme and its proxy.
abbrev pub to_dict : Option ProxyEntry → Option (String × String)
to_dict none = none
to_dict (some e) = some (e.scheme, e.url)

-- `self._index += 1`, behind the return for a pool with no proxy that is alive.
abbrev pub advance_index : List ProxyEntry → ProxyPool → ProxyPool
advance_index [] pool = pool
advance_index (e ∷ es) pool = record pool { index = suc pool.index }

-- `next`; `choice` is the number from which `random.choice` takes its index.
unfoldable pub next : ℕ → ProxyPool → ProxyPool × Option (String × String)
unfolding alive_entries get_at
next choice pool =
    let alive = alive_entries pool.entries in
    if pool.rotate_strategy == "random"
    then (pool, to_dict (get_at (choice % length alive) alive))
    else (advance_index alive pool, to_dict (get_at (pool.index % length alive) alive))

abbrev pub is_proxy : String × String → ProxyEntry → Bool
is_proxy (scheme, url) e = scheme == e.scheme && url == e.url

-- The first entry of the dict's proxy has failed once more.
unfoldable pub fail_first : String × String → List ProxyEntry → List ProxyEntry
fail_first proxy [] = []
fail_first proxy (e ∷ es) =
    let rest = fail_first proxy es in if is_proxy proxy e then fail_entry e ∷ es else e ∷ rest

-- `record_fail`
unfoldable pub record_fail : Option (String × String) → ProxyPool → ProxyPool
unfolding fail_first
record_fail none pool = pool
record_fail (some proxy) pool = record pool { entries = fail_first proxy pool.entries }

unfoldable pub reset_entries : List ProxyEntry → List ProxyEntry
reset_entries [] = []
reset_entries (e ∷ es) = reset_entry e ∷ reset_entries es

-- `reset_all`
unfoldable pub reset_all : ProxyPool → ProxyPool
unfolding reset_entries
reset_all pool = record pool { entries = reset_entries pool.entries }

-- `alive_count`
unfoldable pub alive_count : ProxyPool → ℕ
unfolding alive_entries
alive_count pool = length (alive_entries pool.entries)
