-- ===== src/Proxy/Witness.antt =====
-- A pool of two proxies of which one has failed three times.
use novel_crawler.Prelude.{String, List, [], ◌∷◌, Option, some, ◌≡◌, refl}
use novel_crawler.Proxy.Pool.{
  empty_pool, next, add, before_mark, record_fail, fail_first, alive_entries, get_at, alive_count,
}
use novel_crawler.Proxy.Serving.{
  PoolCall, add_proxy, take_next, report_fail, apply, apply_all, Serves, next-Serves,
}

abbrev bad : Option (String × String)
bad = some ("http", "http://a")

abbrev calls : List PoolCall
calls =
    add_proxy "http://a" "http"
    ∷ add_proxy "b:1" "http"
    ∷ take_next 0
    ∷ report_fail bad
    ∷ report_fail bad
    ∷ report_fail bad
    ∷ []

one_left : alive_count (apply_all calls (empty_pool "round_robin")) ≡ 1
unfolding alive_count apply_all apply add before_mark next record_fail fail_first alive_entries
    get_at
one_left = refl

next-Serves_example :
    let pool = apply_all calls (empty_pool "round_robin") in Serves pool.entries (next 0 pool).1
next-Serves_example = next-Serves "round_robin" calls 0
