-- ===== src/Clients/Postgresclient/Examples.antt =====
-- A pool that does not answer: the world is the count of the pools that are open.
use iron_book.Common.{ℕ, suc, String, ◌≡◌, refl, arith, ◌-◌, sym, ap, some}
use iron_book.Common.Result.{ok, err}
use iron_book.Clients.Postgresclient.{Pgxpool, new}
use iron_book.Clients.Postgresclient.Pools.{Counts, grown, new-grown}

abbrev silent : Pgxpool ℕ
silent = record {
  Config = String;
  Pool = String;
  parse_config = λ dsn. ok dsn;
  with_max_conns = λ n c. c;
  new_pool = λ c w. (ok c, suc w);
  ping = λ pool w. (some "no answer", w);
  close = λ pool w. w - 1;
}

opened : (c : String) (w w' : ℕ) (e : String) → silent.new_pool c w ≡ (err e, w') → w' ≡ w
opened c w w' e h = absurd (cc (ap (λ x. x.0) h))

closed : (pool : String) (w n : ℕ) → w ≡ suc n → silent.close pool w ≡ n
closed pool w n h = omega (arith, h)

abbrev silent_counts : Counts silent
silent_counts = record {
  open_pools = λ w. w;
  opens = λ c w w' pool h. sym (ap (λ x. x.1) h);
  opens_none = opened;
  pings = λ pool w. refl;
  closes = closed;
}

new-grown_example :
    silent_counts.open_pools (new silent "postgres://localhost" 3).1
    ≡ grown (new silent "postgres://localhost" 3).0 3
new-grown_example = new-grown silent silent_counts "postgres://localhost" 3
