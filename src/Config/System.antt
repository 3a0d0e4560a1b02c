-- ===== src/Config/System.antt =====
-- config/src/errors.rs and configs/macros.rs, over the environment and the files of the system.
use Prim.Native.Char.{code}
use seda_rust.Base.{
  ℕ, ◌+◌, ◌*◌, ◌-◌, Bool, ◌&&◌, Option, none, some, List, String, eqb, leb, ltb, if◌then◌else◌,
}

pub data CryptoError : Type 0 where
  io key_derivation bn254_error invalid_master_key_length from_hex : CryptoError

pub data ConfigError : Type 0 where
  config_io_error invalid_toml_config : ConfigError
  must_provide_field failed_to_get_current_dir unwanted_config : String → ConfigError
  crypto_error : CryptoError → ConfigError

-- `panic` is an `unwrap` or an `expect` that fails.
pub data Result (A : Type 0) : Type 0 where
  ok : A → Result A
  err : ConfigError → Result A
  panic : Result A

-- `?` where no file is touched
abbrev pub and_then : {A B : Type 0} → Result A → (A → Result B) → Result B
and_then (ok a) f = f a
and_then (err e) f = err e
and_then panic f = panic

-- What is found in the process, at its start, but for the files. `random` is what the generator of the
-- system gives next; an error's text is left out.
pub record System : Type 0 where
  pub env_var : String → Option String
  pub current_dir : Option String
  pub readable : String → Bool
  pub writable : String → Bool
  pub random : List ℕ
  pub consensus_wasm_path : String

-- The texts of the files, by their paths: paths with different texts name different files.
abbrev pub Files : Type 0
Files = String → Option String

abbrev pub Run : Type 0 → Type 0
Run A = Files → Result A × Files

abbrev pub bind : {A B : Type 0} → Result A × Files → (A → Run B) → Result B × Files
bind (ok a, files) f = f a files
bind (err e, files) f = (err e, files)
bind (panic, files) f = (panic, files)

abbrev pub ◌>>=◌ : {A B : Type 0} → Run A → (A → Run B) → Run B
◌>>=◌ m f files = bind (m files) f

abbrev pub ◌>>◌ : {B : Type 0} → Run (Unit {0}) → Run B → Run B
m >> k = m >>= λ _. k

infixl 5 ◌>>=◌ ◌>>◌
abbrev pub lift : {A : Type 0} → Result A → Run A
lift r files = (r, files)

abbrev pub pure : {A : Type 0} → A → Run A
pure a files = (ok a, files)

abbrev pub fail : {A : Type 0} → ConfigError → Run A
fail e files = (err e, files)

-- `map_err` and `?` on a call of a library
abbrev pub ok_or : {A : Type 0} → Option A → ConfigError → Result A
ok_or none e = err e
ok_or (some a) e = ok a

abbrev pub unwrap : {A : Type 0} → Option A → Result A
unwrap none = panic
unwrap (some a) = ok a

-- The command line overrides the file.
unfoldable pub merge_config_cli :
    {A B : Type 0} → Option A → Option A → Result B → (A → Result B) → Result B
merge_config_cli none none default parse = default
merge_config_cli none (some field) default parse = parse field
merge_config_cli (some field) none default parse = parse field
merge_config_cli (some other) (some field) default parse = parse field

-- The form with no default
unfoldable pub merge_option : {A : Type 0} → Option A → Option A → Option A
merge_option none none = none
merge_option none (some field) = some field
merge_option (some field) none = some field
merge_option (some other) (some field) = some field

unfoldable pub env_overwrite : {A : Type 0} → System → A → String → (String → A) → A
env_overwrite sys field name parse = elim (sys.env_var name) [ none ↦ field | some var ↦ parse var ]

-- `str::parse` of an unsigned integer below `limit`: an optional plus sign, and decimal digits.
abbrev digit : ℕ → Option ℕ
digit c = if leb 48 c && leb c 57 then some (c - 48) else none

unfoldable pub parse_digits : ℕ → ℕ → String → Option ℕ
parse_digits limit acc String.[] = some acc
parse_digits limit acc (String.◌∷◌ c s) = elim (digit (code c)) [
  | none ↦ none
  | some d ↦
      let rest = parse_digits limit (acc * 10 + d) s in
      if ltb (acc * 10 + d) limit then rest else none
]

abbrev parse_nonempty : ℕ → String → Option ℕ
parse_nonempty limit String.[] = none
parse_nonempty limit (String.◌∷◌ c s) = parse_digits limit 0 (String.◌∷◌ c s)

unfoldable pub parse_unsigned : ℕ → String → Option ℕ
parse_unsigned limit String.[] = none
parse_unsigned limit (String.◌∷◌ c s) =
    if eqb (code c) 43 then parse_nonempty limit s else parse_nonempty limit (String.◌∷◌ c s)
