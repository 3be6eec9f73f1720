-- ===== src/Config/Load/Redacted.antt =====
-- What `Debug` of src/config.rs shows depends on no secret.
use mathlib.Core.Path.{fun_ext}
use mathlib.Core.Option
use harbor_router.Common.{
  ◌≡◌, refl, ap, inl, inr, Bool, false, Option, none, some, List, [], ◌∷◌, any, if◌then◌else◌,
  Bool-cases, Text, codes, text_eq, ok,
}
use harbor_router.Config.Env.{Process, env_str, env_duration, env_usize, env_u32, env_bool}
use harbor_router.Config.Load.{
  Config, SecretString, secret, expose_secret, with_values, load, clone, debug_fmt,
}
use harbor_router.Config.Load.Refusals.{url_of, db_of, load_inverse}

-- The variables that hold a secret, or the path of one.
abbrev pub secret_keys : List Text
secret_keys =
    codes "HARBOR_USERNAME"
    ∷ codes "HARBOR_USERNAME_FILE"
    ∷ codes "HARBOR_PASSWORD"
    ∷ codes "HARBOR_PASSWORD_FILE"
    ∷ codes "REDIS_PASSWORD"
    ∷ codes "REDIS_PASSWORD_FILE"
    ∷ []

unfoldable pub is_secret_key : Text → Bool
is_secret_key key = any (λ k. text_eq k key) secret_keys

-- The variables of p where q has a secret, and else those of q.
mixed : (p q : Process) → Text → Option Text
mixed p q key = if is_secret_key key then p.var key else q.var key

var-eq-mixed :
    (p q : Process)
    → ((key : Text) → is_secret_key key ≡ false → p.var key ≡ q.var key)
    → p.var ≡ mixed p q
unfolding mixed
var-eq-mixed p q agree = fun_ext λ key. elim (Bool-cases (is_secret_key key)) [
  | inl hidden ↦ rw (mixed, hidden) refl
  | inr seen ↦ rw (mixed, seen) (agree key seen)
]

debug_values :
    (p q : Process) (user password redis user' password' redis' : Text)
    → ((key : Text) → is_secret_key key ≡ false → p.var key ≡ q.var key)
    → debug_fmt (with_values p (url_of p) user password redis (db_of p))
      ≡ debug_fmt (with_values q (url_of q) user' password' redis' (db_of q))
unfolding debug_fmt with_values mixed is_secret_key text_eq env_str env_duration env_usize env_u32
    env_bool
debug_values p q user password redis user' password' redis' agree =
    ap
      (λ v.
        let p' : Process = record { var = v; read_to_string = p.read_to_string } in
        debug_fmt (with_values p' (url_of p') user password redis (db_of p')))
      (var-eq-mixed p q agree)

secret_eta : (s : SecretString) → secret (expose_secret s) ≡ s
secret_eta (secret t) = refl

copied : (o : Option SecretString) → Option.map (λ s. secret (expose_secret s)) o ≡ o
copied none = refl
copied (some (secret t)) = refl

-- A copy is the configuration itself.
clone-id : (c : Config) → clone c ≡ c
unfolding clone
clone-id c =
    rw (clone, secret_eta c.harbor_username, secret_eta c.harbor_password, copied c.redis_password)
      refl

-- What `Debug` shows of a copy of a configuration depends on no secret: two environments that
-- differ only in the variables of the secrets and in the files give the same, if both are loaded.
pub debug_fmt-load :
    (p q : Process) (c d : Config)
    → ((key : Text) → is_secret_key key ≡ false → p.var key ≡ q.var key)
    → load p ≡ ok c
    → load q ≡ ok d
    → debug_fmt (clone c) ≡ debug_fmt d
debug_fmt-load p q c d agree from_p from_q =
    let (user, password, redis, m, e) = load_inverse p c from_p in
    let (user', password', redis', m', e') = load_inverse q d from_q in
    rw (clone-id c, e, e') (debug_values p q user password redis user' password' redis' agree)
