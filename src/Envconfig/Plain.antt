-- ===== src/Envconfig/Plain.antt =====
-- A concrete reading of the environment that does as documented.
use iron_book.Common.{
  ℕ, String, ◌≡◌, refl, arith, Bool, true, false, ◌&&◌, List, [], ◌∷◌, Option, none, some, str_eq,
  if◌then◌else◌,
}
use iron_book.Common.Int.{ℤ, pos, negsuc}
use iron_book.Common.Decimal.{parse_int}
use iron_book.Common.Decimal.RoundTrip.{parse_int-fmt_int}
use iron_book.Common.Result.{Result, ok, err, ◌>>=◌}
use iron_book.Envconfig.{Envconfig, Environment, Field, key, show_bool, IsDocumented}

abbrev or_default : Field → Option String → Result String
or_default f (some v) = ok v
or_default f none =
    if f.required && str_eq f.fallback "" then err "required key missing value" else ok f.fallback

abbrev first_set : Field → Option String → Option String → Result String
first_set f (some v) unprefixed = ok v
first_set f none unprefixed = or_default f unprefixed

abbrev text_of : Field → Environment → Result String
text_of f env = first_set f (env (key f)) (env f.name)

abbrev number : Option ℤ → Result ℕ
number none = err "converting to uint32"
number (some (pos n)) = ok n
number (some (negsuc n)) = err "converting to uint32"

abbrev truth : String → Result Bool
truth s =
    if str_eq s "true"
    then ok true
    else if str_eq s "false"
    then ok false
    else err "converting to bool"

abbrev pub plain : Envconfig
plain = record {
  text = text_of;
  boolean = λ f env. text_of f env >>= truth;
  uint32 = λ f env. text_of f env >>= λ s. number (parse_int s);
}

truth-show_bool : (b : Bool) → truth (show_bool b) ≡ ok b
truth-show_bool true = refl
truth-show_bool false = refl

pub plain-IsDocumented : IsDocumented plain
plain-IsDocumented = record {
  set_text = λ f env v set. rw set refl;
  default_text = λ f env (unset, unset') optional. rw (unset, unset', optional) refl;
  missing = λ f env (unset, unset') required empty.
      ("required key missing value", rw (unset, unset', required, empty) refl);
  set_boolean = λ f env b set. rw set (truth-show_bool b);
  default_boolean =
      λ f env b (unset, unset') optional h. rw (unset, unset', optional, h) (truth-show_bool b);
  default_uint32 = λ f env n (unset, unset') optional h small.
      rw (unset, unset', optional, h, parse_int-fmt_int (pos n) (omega arith)) refl;
}

-- The environment with some variables.
abbrev pub listed : List (String × String) → Environment
listed [] name = none
listed ((n, v) ∷ vars) name = let rest = listed vars name in if str_eq n name then some v else rest
