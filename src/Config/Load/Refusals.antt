-- ===== src/Config/Load/Refusals.antt =====
-- When the configuration is loaded, and when it is refused.
use harbor_router.Common.{
  ℕ, ◌≤◌, ◌≡◌, ◌↔◌, refl, sym, ap, ◌∙◌, Bool, true, false, ◌||◌, arith, ltb, is_empty, Text, codes,
  Outcome, ok, ◌>>◌, bail_if, >>=_inverse,
}
use harbor_router.Config.Env.{Process, env_str_or_file, env_str, env_u32}
use harbor_router.Config.Load.{
  Config, url_unset, credentials_unset, db_out_of_range, with_values, load,
}

abbrev pub url_of : Process → Text
url_of p = env_str p (codes "HARBOR_URL") (codes "http://harbor-core:80")

abbrev pub db_of : Process → ℕ
db_of p = env_u32 p (codes "REDIS_DB") 0

-- What a configuration that is loaded was made of: every secret could be read, the credentials and
-- the URL are not empty, the database has an admissible number.
pub record IsMadeOf (p : Process) (user password redis : Text) : Type 0 where
  pub read_user : env_str_or_file p (codes "HARBOR_USERNAME") ≡ ok user
  pub read_password : env_str_or_file p (codes "HARBOR_PASSWORD") ≡ ok password
  pub read_redis : env_str_or_file p (codes "REDIS_PASSWORD") ≡ ok redis
  pub has_url : is_empty (url_of p) ≡ false
  pub has_user : is_empty user ≡ false
  pub has_password : is_empty password ≡ false
  pub has_db : db_of p ≤ 15

bail_if-eq-ok {ℓ} :
    {A : Type ℓ} (test : Bool) (e : Text) (m : Outcome A) {a : A}
    → (bail_if test e >> m) ≡ ok a
    → (test ≡ false) × (m ≡ ok a)
bail_if-eq-ok true e m h = cc
bail_if-eq-ok false e m h = (refl, h)

pub load_inverse :
    (p : Process) (c : Config)
    → load p ≡ ok c
    → (user password redis : Text) × IsMadeOf p user password redis
      × (c ≡ with_values p (url_of p) user password redis (db_of p))
unfolding load
load_inverse p c h =
    let (user, read_user, h1) = >>=_inverse (env_str_or_file p (codes "HARBOR_USERNAME")) _ h in
    let (password, read_password, h2) =
      >>=_inverse (env_str_or_file p (codes "HARBOR_PASSWORD")) _ h1 in
    let (has_url, h3) = bail_if-eq-ok (is_empty (url_of p)) url_unset _ h2 in
    let (has_both, h4) =
      bail_if-eq-ok (is_empty user || is_empty password) credentials_unset _ h3 in
    let (redis, read_redis, h5) = >>=_inverse (env_str_or_file p (codes "REDIS_PASSWORD")) _ h4 in
    let (in_range, h6) = bail_if-eq-ok (ltb 15 (db_of p)) (db_out_of_range (db_of p)) _ h5 in
    let no_user : is_empty user ≡ false = ground arith in
    let no_password : is_empty password ≡ false = ground arith in
    (
      user,
      password,
      redis,
      record {
        read_user = read_user;
        read_password = read_password;
        read_redis = read_redis;
        has_url = has_url;
        has_user = no_user;
        has_password = no_password;
        has_db = ground arith;
      },
      cc,
    )

load_forward :
    (p : Process) (user password redis : Text)
    → IsMadeOf p user password redis
    → load p ≡ ok (with_values p (url_of p) user password redis (db_of p))
unfolding load
load_forward p user password redis m =
    let in_range : ltb 15 (db_of p) ≡ false = ground (arith, m.has_db) in
    rw
      (
        load, m.read_user, m.read_password, m.has_url, m.has_user, m.has_password, m.read_redis,
        in_range,
      )
      refl

-- The configuration is loaded exactly when the three secrets can be read, the URL of Harbor, the
-- user and the password are not empty and the number of the Redis database is at most 15, and it
-- is then made of those values.
pub load_iff :
    (p : Process) (c : Config)
    → (load p ≡ ok c) ↔ (
        (user password redis : Text) × IsMadeOf p user password redis
        × (c ≡ with_values p (url_of p) user password redis (db_of p)))
load_iff p c = (
  load_inverse p c,
  λ (user, password, redis, m, e). load_forward p user password redis m ∙ ap (λ d. ok d) (sym e),
)
