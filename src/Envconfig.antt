-- ===== src/Envconfig.antt =====
-- What the configurations use of github.com/kelseyhightower/envconfig, which is a third-party
-- package: `envconfig.Process("ironbook", &c)` fills the fields of a struct in their order and
-- stops at the first that it cannot fill.
pub mod Plain
use Prim.Native.Char.{code}
use iron_book.Common.{
  ℕ, String, ◌≡◌, ◌<◌, Bool, true, false, Option, none, some, str_eq, if◌then◌else◌,
}
use iron_book.Common.Int.{pos}
use iron_book.Common.Text.{concat}
use iron_book.Common.Decimal.{fmt_int}
use iron_book.Common.Result.{Result, ok, err}

-- `os.LookupEnv`.
abbrev pub Environment : Type 0
Environment = String → Option String

-- The tags of a field: `envconfig`, `required`, `default`.
pub record Field : Type 0 where
  pub name : String
  pub required : Bool
  pub fallback : String

abbrev pub required_field : String → Field
required_field name = record { name = name; required = true; fallback = "" }

abbrev pub default_field : String → String → Field
default_field name fallback = record { name = name; required = false; fallback = fallback }

abbrev pub key : Field → String
key f = concat "IRONBOOK_" f.name

-- What is found for one field, by the type of the field.
pub record Envconfig : Type 0 where
  pub text : Field → Environment → Result String
  pub boolean : Field → Environment → Result Bool
  pub uint32 : Field → Environment → Result ℕ

-- Neither the variable of the field nor the one without the prefix is set.
abbrev pub IsUnset : Environment → Field → Type 0
IsUnset env f = (env (key f) ≡ none) × (env f.name ≡ none)

abbrev pub show_bool : Bool → String
show_bool true = "true"
show_bool false = "false"

-- The documented behaviour: a variable that is set counts, then the default; a required field
-- has one of them.
pub record IsDocumented (e : Envconfig) : Type 0 where
  pub set_text :
      (f : Field) (env : Environment) (v : String) → env (key f) ≡ some v → e.text f env ≡ ok v
  pub default_text :
      (f : Field) (env : Environment)
      → IsUnset env f
      → f.required ≡ false
      → e.text f env ≡ ok f.fallback
  pub missing :
      (f : Field) (env : Environment)
      → IsUnset env f
      → f.required ≡ true
      → f.fallback ≡ ""
      → (m : String) × (e.text f env ≡ err m)
  pub set_boolean :
      (f : Field) (env : Environment) (b : Bool)
      → env (key f) ≡ some (show_bool b)
      → e.boolean f env ≡ ok b
  pub default_boolean :
      (f : Field) (env : Environment) (b : Bool)
      → IsUnset env f
      → f.required ≡ false
      → f.fallback ≡ show_bool b
      → e.boolean f env ≡ ok b
  pub default_uint32 :
      (f : Field) (env : Environment) (n : ℕ)
      → IsUnset env f
      → f.required ≡ false
      → f.fallback ≡ fmt_int (pos n)
      → n < 4294967296
      → e.uint32 f env ≡ ok n
