-- ===== src/Admission/Main.antt =====
-- The server of apps/admission-webhook/main.go: its settings from the environment, its certificate
-- and its routes. crypto/tls and net/http are parameters.
use iron_book.Common.{ℕ, String, List, [], ◌∷◌, Option, str_eq, if◌then◌else◌}
use iron_book.Common.Result.{Result}
use iron_book.Common.Steps.{Step, ◌>>=◌, labelled, attempt}

-- `envOr`, with what `os.Getenv` gives.
unfoldable pub env_or : (String → String) → String → String → String
env_or getenv key fallback = let v = getenv key in if str_eq v "" then fallback else v

pub data Handler : Type 0 where
  handle healthz not_found : Handler

-- The handler of a path, as `ServeMux` has cleaned it.
unfoldable pub route : String → Handler
route path =
    if str_eq path "/validate"
    then handle
    else if str_eq path "/healthz"
    then healthz
    else not_found

-- `srv`: `min_version` is the number of a version of TLS.
pub record WebServer (Cert : Type 0) : Type 0 where
  pub addr : String
  pub handler : String → Handler
  pub certificates : List Cert
  pub min_version : ℕ

pub record Outside : Type 1 where
  pub World : Type 0
  pub Cert : Type 0
  pub load_key_pair : String → String → World → Result Cert × World
  pub listen_tls : WebServer Cert → World → Option String × World

-- `tls.VersionTLS12`.
abbrev pub version_tls12 : ℕ
version_tls12 = 771

module _ (o : Outside) where
  unfoldable pub main : (String → String) → Step o.World (Unit {0})
  unfolding env_or route
  main getenv = do
    cert ← labelled "load cert: " (
        o.load_key_pair (env_or getenv "IRONBOOK_TLS_CERT" "/tls/tls.crt")
          (env_or getenv "IRONBOOK_TLS_KEY" "/tls/tls.key"))
    labelled "serve: " (
        attempt (
          o.listen_tls (record {
            addr = env_or getenv "IRONBOOK_ADDR" ":8443";
            handler = route;
            certificates = cert ∷ [];
            min_version = version_tls12;
          })))
