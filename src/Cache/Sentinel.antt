-- ===== src/Cache/Sentinel.antt =====
-- `RedisCache::from_sentinel` and `try_reconnect` of src/cache.rs: what the client library is asked
-- for. The library is a parameter: building a client and connecting may fail, with the error that is
-- displayed.
pub mod Listed
use Prim.Native.Nat.{max}
use harbor_router.Common.{
  ℕ, ◌/◌, ◌++◌, Bool, true, false, Option, none, some, List, [], ◌∷◌, if◌then◌else◌, is_empty,
  split, trim, Text, codes, Outcome, ok, err, ◌>>=◌, ◌>>◌, bail_if,
}

pub data TlsMode : Type 0 where
  insecure : TlsMode

-- `SentinelNodeConnectionInfo`, of the master's nodes.
pub record NodeConnection : Type 0 where
  pub db : ℕ
  pub password : Option Text
  pub tls_mode : Option TlsMode

pub record Sentinel : Type 1 where
  pub Client : Type 0
  pub Connection : Type 0
  pub build : (urls : List Text) (master_name : Text) → NodeConnection → Outcome Client
  pub connect : Client → Outcome Connection

pub record Connected (s : Sentinel) : Type 0 where
  pub connection : s.Connection
  pub ttl_secs : ℕ
  pub prefix : Text

-- The URL of a piece of the list, unless it is blank.
unfoldable pub sentinel_url : (scheme piece : Text) → Option Text
sentinel_url scheme piece =
    let s = trim piece in if is_empty s then none else some (scheme ++ (codes "://" ++ s))

abbrev pub filter_map {ℓ κ} : {A : Type ℓ} {B : Type κ} → (A → Option B) → List A → List B
filter_map f [] = []
filter_map f (x ∷ xs) = elim (f x) [ none ↦ filter_map f xs | some y ↦ y ∷ filter_map f xs ]

abbrev pub scheme_of : Bool → Text
scheme_of tls = if tls then codes "rediss" else codes "redis"

unfoldable pub sentinel_urls : (sentinels : Text) → (tls : Bool) → List Text
unfolding sentinel_url
sentinel_urls sentinels tls = filter_map (sentinel_url (scheme_of tls)) (split b',' sentinels)

abbrev pub connection_failed : Text → Text
connection_failed e = codes "initial Redis Sentinel connection failed: " ++ e

unfoldable pub map_err {ℓ} : {A : Type ℓ} → (Text → Text) → Outcome A → Outcome A
map_err f (ok a) = ok a
map_err f (err e) = err (f e)

-- The time to live is in milliseconds.
unfoldable pub from_sentinel :
    (s : Sentinel) (sentinels master_name : Text) (password : Option Text) (db ttl : ℕ)
    (prefix : Text)
    → (tls : Bool) → Outcome (Connected s)
unfolding sentinel_urls map_err
from_sentinel s sentinels master_name password db ttl prefix tls = do
  let urls = sentinel_urls sentinels tls
  bail_if (is_empty urls) (codes "REDIS_SENTINELS: no valid host:port pairs")
  client ←
      s.build urls master_name
        (record { db = db; password = password; tls_mode = if tls then some insecure else none })
  connection ← map_err connection_failed (s.connect client)
  ok (record { connection = connection; ttl_secs = max (ttl / 1000) 1; prefix = prefix })

-- The connection after a failed call. A call that comes while another one reconnects leaves it alone.
unfoldable pub try_reconnect :
    (s : Sentinel) → (locked : Bool) → s.Client → s.Connection → s.Connection
try_reconnect s true client connection = connection
try_reconnect s false client connection = elim (s.connect client) [
  | ok fresh ↦ fresh
  | err e ↦ connection
]
