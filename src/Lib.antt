-- ===== src/Lib.antt =====
-- A model of harbor_router, a proxy in front of the proxy-cache projects of a Harbor registry. A
-- client asks for "image:reference"; the router finds the project that has it and hands its answer on.
--
-- The program's parts, and the files that model them (paths from the repository's root):
-- - src/circuit_breaker.rs, Breaker: one record of counters for each project. The shared map is the
--   field `projects` of `CircuitBreaker`, which the operations new, is_available, record_success and
--   record_failure take and return; the gauge and the counted transitions are fields too.
--   Breaker.Calls runs sequences of whole calls. Breaker.Threads splits each operation into its
--   atomic accesses and lets threads interleave them. Breaker.Refines has what the breaker promises: a
--   function from projects to records, and the answers to the calls.
-- - src/discovery.rs (the check of a project's name) and src/proxy.rs (the checks of an image and of a
--   reference, the library/ prefix), Validation.
-- - src/proxy.rs parse_path, Proxy.Paths; the URLs that src/proxy.rs and src/resolver.rs build,
--   Proxy.Urls.
-- - src/cache.rs trait CacheBackend, Cache: a record of operations that the resolver takes as a
--   parameter. Cache.Moka and Cache.Redis are the two implementations over parameters for their
--   libraries, Cache.Sentinel the connection to Redis. Cache.Lawful has the laws that a cache without
--   eviction and failure meets, and a dictionary that meets them.
-- - src/discovery.rs, Discovery: the pages of Harbor's API (a parameter), read by a loop on fuel, for
--   which Discovery.Pages shows how much is enough; a round whose fuel is out is one that still reads
--   pages. The list is kept in World and the shared cache.
-- - src/metrics.rs, Metrics: Popularity has the tables of the most requested images, Registry the metrics
--   that are registered, Render the text that is scraped.
-- - src/config.rs, Config: Env reads the variables and files of a Process, Load is Config::load, Durations
--   the parser of durations over the part of f64 that it uses (Floats), Urls the warning on URLs.
-- - src/main.rs, Server: the routes, the probes, the limiter and the log around the handlers of
--   src/proxy.rs, as one function on a Server (the Gateway, the limiter, its counter and the log);
--   Server.Boot is the way from a Process through the configuration to the components, with their HTTP
--   clients (Clients) and the listeners (Sockets).
-- - src/proxy.rs, Handlers: Headers builds responses, Blobs and Registry are the handlers, which take
--   and return a Gateway (the resolver's World and the tables of images), Logs is the request log.
-- - src/resolver.rs, Resolver. World holds the state that the operations pass on (cache, breaker,
--   projects, a counter of moments) and the Environment that answers for the network, the clock and
--   the executor: a request's reply, the time, and the order in which futures complete. Status,
--   CacheValue and Accept are the pure helpers; Fetch is fetch_manifest and its retries; Fanout is
--   parallel_lookup; Manifest is resolve_manifest and cached_project; Tags is resolve_tags; Warmup
--   stores and loads the mappings of popular images. In these one task runs at a time, and the
--   environment says which role it has in a flight; Flight is singleflight as a machine of callers
--   that share the map of flights.
--
-- Texts are lists of character codes. Numbers are natural numbers; the u32 count of failures wraps at
-- 2^32, where a debug build would panic, and so does the factor 2^attempt of the retry delay. Durations
-- and times are in milliseconds, but for the breaker's epoch seconds. Loops are structural recursion:
-- the retries on the attempts left, the fan-out on the list of turns in which its futures complete. A
-- thread of the breaker has the fuel of the accesses it makes; Breaker.Threads.Solo shows that five are
-- enough for a thread that is alone. The parser of durations has the length of its text as fuel;
-- Config.Durations.Progress shows that more changes nothing. Every f64 there is a multiple of 2^-1074,
-- kept as a natural number, so that the rounding is that of the machine.
--
-- Not modelled: the HTTP server and client, TLS and the parsing of URLs and socket addresses, the Redis,
-- Moka, governor and axum libraries (which are parameters where the code relies on them), the values of
-- the counters and histograms of src/metrics.rs but for those named above and the text that the
-- library makes of them, and of src/main.rs the runtime, the tasks and the shutdown.
pub mod Common
pub mod Metrics
pub mod Breaker
pub mod Validation
pub mod Proxy
pub mod Cache
pub mod Config
pub mod Resolver
pub mod Handlers
pub mod Discovery
pub mod Server
