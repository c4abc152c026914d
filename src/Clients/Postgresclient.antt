-- ===== src/Clients/Postgresclient.antt =====
-- pkg/postgresclient/client.go. The package pgxpool is a parameter.
pub mod Pools
pub mod Examples
use iron_book.Common.{ℕ, String, Option, none, some}
use iron_book.Common.Result.{Result, ok, err}
use iron_book.Common.Steps.{Step, ◌>>=◌, labelled, consult}

-- github.com/jackc/pgx/v5/pgxpool.
pub record Pgxpool (World : Type 0) : Type 1 where
  pub Config : Type 0
  pub Pool : Type 0
  pub parse_config : String → Result Config
  pub with_max_conns : ℕ → Config → Config
  pub new_pool : Config → World → Result Pool × World
  pub ping : Pool → World → Option String × World
  pub close : Pool → World → World

module _ {W : Type 0} (p : Pgxpool W) where
  -- A pool that does not answer is closed.
  unfoldable pub pinged : p.Pool → Option String × W → Result p.Pool × W
  pinged pool (none, w) = (ok pool, w)
  pinged pool (some e, w) = (err e, p.close pool w)

  unfoldable pub new : String → Step W p.Pool
  unfolding pinged
  new dsn = do
    cfg ← labelled "parse dsn: " (consult (λ w. p.parse_config dsn))
    pool ← labelled "connect: " (p.new_pool (p.with_max_conns 16 cfg))
    labelled "ping: " (λ w. pinged pool (p.ping pool w))

  -- `Close`, for a pool that may be nil.
  unfoldable pub close : Option p.Pool → W → W
  close none w = w
  close (some pool) w = p.close pool w
