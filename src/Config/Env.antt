-- ===== src/Config/Env.antt =====
-- `env_str_or_file`, `env_str`, `env_duration`, `env_usize`, `env_u32` and `env_bool` of
-- src/config.rs. The warnings about values that cannot be read are not modelled.
use harbor_router.Common.{
  ℕ, ◌^◌, Bool, true, false, ◌||◌, Option, none, some, [], ◌++◌, ltb, if◌then◌else◌, is_empty, trim,
  parse_u64, text_eq, Text, codes, Outcome, ok, err,
}
use harbor_router.Config.Durations.{parse_go_duration}

-- What the process is given: `std::env::var`, which is an error (`none`) for a variable that is not
-- set or is not Unicode, and `std::fs::read_to_string`, whose error is what it displays.
pub record Process : Type 0 where
  pub var : Text → Option Text
  pub read_to_string : Text → Outcome Text

abbrev pub read_error : (key path e : Text) → Text
read_error key path e =
    codes "failed to read " ++ (key ++ (codes " from " ++ (path ++ (codes ": " ++ e))))

-- A secret that is read from a file is trimmed, one from a variable is not.
abbrev pub secret_of_file : Process → (key path : Text) → Outcome Text
secret_of_file p key path = elim (p.read_to_string path) [
  | ok contents ↦ ok (trim contents)
  | err e ↦ err (read_error key path e)
]

abbrev pub var_or_default : Process → Text → Text
var_or_default p key = elim (p.var key) [ none ↦ [] | some v ↦ v ]

unfoldable pub env_str_or_file : Process → Text → Outcome Text
env_str_or_file p key = elim (p.var (key ++ codes "_FILE")) [
  | none ↦ ok (var_or_default p key)
  | some path ↦ if is_empty path then ok (var_or_default p key) else secret_of_file p key path
]

unfoldable pub env_str : Process → (key default : Text) → Text
env_str p key default = elim (p.var key) [ none ↦ default | some v ↦ v ]

-- `v.parse().unwrap_or(default)`, for a value that is set and not empty.
abbrev pub env_parsed {ℓ} : {A : Type ℓ} → Process → Text → (Text → Option A) → A → A
env_parsed p key parse default = elim (p.var key) [
  | none ↦ default
  | some v ↦ if is_empty v then default else elim (parse v) [ none ↦ default | some a ↦ a ]
]

-- Milliseconds.
unfoldable pub env_duration : Process → (key : Text) → ℕ → ℕ
env_duration p key default = env_parsed p key parse_go_duration default

-- `usize` has 64 bits.
unfoldable pub env_usize : Process → (key : Text) → ℕ → ℕ
env_usize p key default = env_parsed p key parse_u64 default

-- `parse::<u32>`: a numeral of u64 that does not fit is an error here.
unfoldable pub parse_u32 : Text → Option ℕ
parse_u32 s = elim (parse_u64 s) [ none ↦ none | some n ↦ if ltb n (2 ^ 32) then some n else none ]

unfoldable pub env_u32 : Process → (key : Text) → ℕ → ℕ
env_u32 p key default = env_parsed p key parse_u32 default

unfoldable pub env_bool : Process → (key : Text) → Bool → Bool
env_bool p key default = elim (p.var key) [
  | none ↦ default
  | some v ↦
      if text_eq v (codes "true") || text_eq v (codes "1") || text_eq v (codes "yes")
      then true
      else if text_eq v (codes "false") || text_eq v (codes "0") || text_eq v (codes "no")
      then false
      else default
]
