-- ===== src/Config/Examples.antt =====
-- The configuration of small environments, and durations.
use harbor_router.Common.{
  ℕ, ◌%◌, ◌^◌, ◌≡◌, ◌↔◌, refl, true, false, none, some, List, [], ◌∷◌, arith, if◌then◌else◌,
  strip_prefix, before, split_once, decimal_value, parse_u64, trim, text_eq, lookup, insert,
  is_empty, Dict, Text, codes, ok, err,
}
use harbor_router.Config.Floats.{
  one, unit_of, rounds_up, nearest_multiple, nearest, decimal, parse_f64, times, as_u64,
}
use harbor_router.Config.Durations.{
  take_number, unit_ms, one_char_unit, take_unit, take_component, components, parse_go_duration,
}
use harbor_router.Config.Durations.Printed.{
  DurationUnit, hours, minutes, print_duration, total, parse_go_duration-print_duration,
}
use harbor_router.Config.Env.{
  Process, env_str_or_file, env_str, env_duration, env_usize, parse_u32, env_u32, env_bool,
  read_error,
}
use harbor_router.Config.Load.{
  Config, clone, debug_fmt, credentials_unset, db_out_of_range, with_values, load,
}
use harbor_router.Config.Load.Refusals.{IsMadeOf, url_of, db_of, load_iff}
use harbor_router.Config.Load.Redacted.{is_secret_key, debug_fmt-load}
use harbor_router.Config.Urls.{should_warn_plaintext_url}

-- 0.29 * 1000 is rounded to 290, although no f64 is 0.29.
durations : Unit {0}
unfolding one unit_of rounds_up nearest_multiple nearest decimal_value decimal parse_f64 times
    as_u64 split_once take_number unit_ms one_char_unit take_unit take_component components
    parse_go_duration
durations =
    let combined : parse_go_duration (codes "2h30m15s") ≡ some 9015000 = refl in
    let fraction : parse_go_duration (codes "0.29s") ≡ some 290 = refl in
    let cut_off : parse_go_duration (codes "1.5ms") ≡ some 1 = refl in
    let half : parse_go_duration (codes ".5m") ≡ some 30000 = refl in
    let no_unit : parse_go_duration (codes "10") ≡ none = refl in
    let no_number : parse_go_duration (codes "abc") ≡ none = refl in
    let two_points : parse_go_duration (codes "1.2.3s") ≡ none = refl in
    let unknown : parse_go_duration (codes "1d") ≡ none = refl in
    let nothing : parse_go_duration [] ≡ none = refl in tt

-- The sum of two components that are cut to the largest u64 overflows.
overflow :
    parse_go_duration (codes "99999999999999999999h99999999999999999999h")
    ≡ some 18446744073709551614
unfolding one unit_of rounds_up nearest_multiple nearest decimal_value decimal parse_f64 times
    as_u64 split_once take_number unit_ms one_char_unit take_unit take_component components
    parse_go_duration
overflow = refl

abbrev ninety_minutes : List (ℕ × DurationUnit)
ninety_minutes = (30, minutes) ∷ []

parse_go_duration-print_duration_example :
    parse_go_duration (print_duration ((1, hours) ∷ ninety_minutes))
    ≡ some (total ((1, hours) ∷ ninety_minutes) % 2 ^ 64)
parse_go_duration-print_duration_example =
    parse_go_duration-print_duration 1 hours ninety_minutes (omega arith, (omega arith, tt))

-- The user comes from a file although the variable is set too, and the database is given.
abbrev variables : (password : Text) → Dict Text
variables password =
    (codes "HARBOR_USERNAME", codes "other")
    ∷ (codes "HARBOR_USERNAME_FILE", codes "/vault/user")
    ∷ (codes "HARBOR_PASSWORD", password)
    ∷ (codes "REDIS_DB", codes "3")
    ∷ (codes "CACHE_TTL", codes "5m")
    ∷ []

abbrev process : Dict Text → Process
process vars = record {
  var = λ key. lookup key vars;
  read_to_string = λ path.
      if text_eq path (codes "/vault/user")
      then ok (codes " robot\n")
      else err (codes "no such file");
}

abbrev config : (password : Text) → Config
config password =
    with_values (process (variables password)) (url_of (process (variables password)))
      (codes "robot") password [] (db_of (process (variables password)))

loads : Unit {0}
unfolding load with_values env_str_or_file env_str env_duration env_usize parse_u32 env_u32 env_bool
    lookup text_eq trim parse_u64 should_warn_plaintext_url strip_prefix before insert
loads =
    let loaded : load (process (variables (codes "s3cret"))) ≡ ok (config (codes "s3cret")) =
      refl in
    let database : db_of (process (variables (codes "s3cret"))) ≡ 3 = refl in
    let without : load (process []) ≡ err credentials_unset = refl in
    let lost : load (process ((codes "HARBOR_USERNAME_FILE", codes "/gone") ∷ []))
        ≡ err (read_error (codes "HARBOR_USERNAME") (codes "/gone") (codes "no such file")) =
      refl in
    let too_high : load (process (insert (codes "REDIS_DB") (codes "16") (variables (codes "a"))))
        ≡ err (db_out_of_range 16) =
      refl in
    let local : should_warn_plaintext_url (codes "http://harbor-core:80") ≡ false = refl in
    let remote : should_warn_plaintext_url (codes "http://harbor.example.com/v2") ≡ true = refl in
    tt

loaded_lem :
    (password : Text)
    → is_empty password ≡ false
    → load (process (variables password)) ≡ ok (config password)
unfolding load with_values env_str_or_file env_str env_duration env_usize parse_u32 env_u32 env_bool
    lookup text_eq trim parse_u64
loaded_lem [] h = cc
loaded_lem (_ ∷ _) h = refl

load_iff_example : (load (process (variables (codes "s3cret"))) ≡ ok (config (codes "s3cret"))) ↔ (
    (user password redis : Text) × IsMadeOf
      (process (variables (codes "s3cret")))
      user
      password
      redis
    × (config (codes "s3cret")
        ≡ with_values
            (process (variables (codes "s3cret")))
            (url_of (process (variables (codes "s3cret"))))
            user
            password
            redis
            (db_of (process (variables (codes "s3cret"))))))
load_iff_example = load_iff (process (variables (codes "s3cret"))) (config (codes "s3cret"))

same_but_secrets :
    (key : Text)
    → is_secret_key key ≡ false
    → (process (variables (codes "a"))).var key ≡ (process (variables (codes "b"))).var key
unfolding lookup is_secret_key
same_but_secrets key h = ground (arith, h)

debug_fmt-load_example : debug_fmt (clone (config (codes "a"))) ≡ debug_fmt (config (codes "b"))
debug_fmt-load_example =
    debug_fmt-load (process (variables (codes "a"))) (process (variables (codes "b")))
      (config (codes "a")) (config (codes "b")) same_but_secrets (loaded_lem (codes "a") refl)
      (loaded_lem (codes "b") refl)
