-- ===== src/Clients/Postgresclient/Pools.antt =====
-- The pools that are open.
use iron_book.Common.{ℕ, suc, String, ◌≡◌, refl, ◌∙◌, Option, none, some}
use iron_book.Common.Result.{Result, ok, err}
use iron_book.Common.Steps.{followed, relabelled}
use iron_book.Clients.Postgresclient.{Pgxpool, pinged, new}

-- The package as it is documented, by the count of the pools that are open.
pub record Counts {W : Type 0} (p : Pgxpool W) : Type 0 where
  pub open_pools : W → ℕ
  pub opens :
      (c : p.Config) (w w' : W) (pool : p.Pool)
      → p.new_pool c w ≡ (ok pool, w')
      → open_pools w' ≡ suc (open_pools w)
  pub opens_none :
      (c : p.Config) (w w' : W) (e : String)
      → p.new_pool c w ≡ (err e, w')
      → open_pools w' ≡ open_pools w
  pub pings : (pool : p.Pool) (w : W) → open_pools (p.ping pool w).1 ≡ open_pools w
  pub closes :
      (pool : p.Pool) (w : W) (n : ℕ) → open_pools w ≡ suc n → open_pools (p.close pool w) ≡ n

-- The count after a result: one more for a pool, and the same for an error.
abbrev pub grown : {A : Type 0} → Result A → ℕ → ℕ
grown (ok a) n = suc n
grown (err e) n = n

module _ {W : Type 0} (p : Pgxpool W) (c : Counts p) where
  after_ping :
      (n : ℕ) (pool : p.Pool) (x : Option String × W)
      → c.open_pools x.1 ≡ suc n
      → let r = relabelled "ping: " (pinged p pool x) in c.open_pools r.1 ≡ grown r.0 n
  unfolding pinged
  after_ping n pool (none, w) h = h
  after_ping n pool (some e, w) h = c.closes pool w n h

  after_pool :
      (cfg : p.Config) (w : W) (x : Result p.Pool × W)
      → p.new_pool cfg w ≡ x
      → let r =
          followed
            (relabelled "connect: " x)
            (λ pool w₁. relabelled "ping: " (pinged p pool (p.ping pool w₁))) in
        c.open_pools r.1 ≡ grown r.0 (c.open_pools w)
  after_pool cfg w (ok pool, w₁) h =
      after_ping (c.open_pools w) pool (p.ping pool w₁) (c.pings pool w₁ ∙ c.opens cfg w w₁ pool h)
  after_pool cfg w (err e, w₁) h = c.opens_none cfg w w₁ e h

  after_parse :
      (w : W) (x : Result p.Config)
      → let r = followed (relabelled "parse dsn: " (x, w)) (λ cfg w₀.
        followed
          (relabelled "connect: " (p.new_pool (p.with_max_conns 16 cfg) w₀))
          (λ pool w₁. relabelled "ping: " (pinged p pool (p.ping pool w₁)))) in
        c.open_pools r.1 ≡ grown r.0 (c.open_pools w)
  after_parse w (ok cfg) = after_pool (p.with_max_conns 16 cfg) w _ refl
  after_parse w (err e) = refl

  -- The client leaves no pool behind: where it gives one, one more is open, and where it fails, at
  -- any of its steps, as many as before.
  pub new-grown :
      (dsn : String) (w : W) → c.open_pools (new p dsn w).1 ≡ grown (new p dsn w).0 (c.open_pools w)
  unfolding new
  new-grown dsn w = after_parse w (p.parse_config dsn)
