-- ===== src/Client/Cached.antt =====
-- `Fetch` of client.go over the cache.
use tgju_api_go.Common.{◌+◌, true, false, ◌≡◌, refl, ◌∙◌, ltb, length, ◌==◌}
use tgju_api_go.Market.{Market, valid}
use tgju_api_go.Errors.{err}
use tgju_api_go.Cache.{Cache, Decision, hit, lead, decide, start, settle, lifetime}
use tgju_api_go.Cache.Fresh.{start-InFlight, decide_cycle}
use tgju_api_go.Client.{Call, led_result, do_by, do_alone, fetch, unknown}

-- the cache behind a call that leads
abbrev pub led : Market → Call → Cache → Cache
led m k c = settle k.end (length c.cells) k.loaded (start m c)

fetch_valid :
    (m : Market) (k : Call) (c : Cache) (d : Decision)
    → valid m ≡ true
    → (c.ttl == 0) ≡ false
    → decide k.now m c ≡ d
    → fetch m k c ≡ ((do_by m k c d).0.0, (do_by m k c d).1)
unfolding fetch do_alone
fetch_valid m k c d v t e = rw v (rw t (rw e refl))

fetch_invalid :
    (m : Market) (k : Call) (c : Cache) → valid m ≡ false → fetch m k c ≡ (err (unknown m), c)
unfolding fetch
fetch_invalid m k c v = rw v refl

led_ttl : (m : Market) (k : Call) (c : Cache) → (led m k c).ttl ≡ c.ttl
unfolding settle start
led_ttl m k c = refl

start_ttl : (m : Market) (c : Cache) → (start m c).ttl ≡ c.ttl
unfolding start
start_ttl m c = refl

-- With the cache on, a fetch that finds nothing to serve gives what it loads, or the context's error
-- where that ends before the load does. Either way every later fetch within the lifetime of what was
-- loaded, a failure's being shorter, gives that, whatever it would load itself, and leaves the cache as
-- it is.
pub fetch-fetch :
    (m : Market) (k later : Call) (c : Cache)
    → valid m ≡ true
    → (c.ttl == 0) ≡ false
    → decide k.now m c ≡ lead
    → ltb later.now (k.end + lifetime c.ttl k.loaded) ≡ true
    → (fetch m k c ≡ (led_result k, led m k c))
      × (fetch m later (led m k c) ≡ (k.loaded, led m k c))
fetch-fetch m k later c v t e h =
    let d =
      (decide_cycle m (length c.cells) (start m c) (start-InFlight m c) 0 k.end later.now
        k.loaded).1 in
    let served : decide later.now m (led m k c) ≡ hit k.loaded =
      d ∙ (rw (start_ttl m c) (rw h refl)) in
    let on : ((led m k c).ttl == 0) ≡ false = rw (led_ttl m k c) t in
    (fetch_valid m k c lead v t e, fetch_valid m later (led m k c) (hit k.loaded) v on served)
