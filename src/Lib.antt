-- ===== src/Lib.antt =====
-- The parts of summerrs-admin that decide by themselves: the rate limiter of
-- crates/summer-common/src/rate_limit, the permissions, path rules, storage and sessions of
-- crates/summer-auth/src, the SQL of the table tools of crates/summer-mcp/src/table_tools, and the
-- dictionary bundles of crates/summer-domain/src.
--
-- The parts and their files:
-- - Base and Base/: Boolean tests, lists, machine integers (Base/Word), and texts as lists of
--   bytes (Base/Text: `format!` of numbers, prefixes, separators; Base/Trim: `str::trim`).
-- - RateLimit/Config, RateLimit/Decision, RateLimit/Keys: config.rs, decision.rs and the cache
--   keys of algorithms.rs and engine.rs.
-- - RateLimit/Algorithms: the memory algorithms of algorithms.rs, one function per check on the
--   cell that the cache holds. `gcra_round` and `slot_round` are one round of the
--   compare-and-exchange loops; RateLimit/Algorithms/Threads runs such rounds of any number of
--   threads as a step relation.
-- - RateLimit/Platform: what is not in the repository: the moka caches, the Redis connection and
--   scripts, the MD5 digest and the ip networks. RateLimit/Scripts reads the scripts' replies.
-- - RateLimit/Engine: engine.rs, `RateLimitEngine` with its caches and counters as a record that
--   every operation takes and returns. RateLimit/Context: context.rs and reservation.rs over it.
-- --   `decisions` (RateLimit/Engine/Failure) and `serve` (Context/Shadow) are runs of requests, one behind the
-- --   other.
-- - Auth/Permission: `permission_matches` of session/manager.rs. Auth/Bitmap: bitmap.rs.
-- - Auth/PublicRoutes: public_routes.rs. Auth/PathAuth: path_auth.rs, the rules with their cache of
--   compiled patterns, and `requires_auth`.
-- - Auth/UserType: user_type.rs. Auth/Storage: storage/memory.rs, with the trait of
--   storage/mod.rs as a record in Auth/Session.
-- - Auth/Session: `validate_token`, `logout`, `kick_out`, `force_refresh`, `ban_user` and their kin
--   of session/manager.rs; Auth/Refresh: its `refresh`, with `encode_access` and `encode_refresh` of
--   token/jwt.rs. Auth/Tokens: the claims and checks of token/jwt.rs.
-- - Sql/Scanner: `collect_sql_tokens` of sql_scanner.rs as a step function on its states, with an
--   independent grammar in Sql/Scanner/Lexes. Sql/Guards: `normalize_readonly_sql` and
--   `normalize_exec_sql` over it.
-- - Sql/Schema: what schema.rs puts into SQL text. Sql/Shorthand, Sql/Filters and Sql/Assignments:
--   query_builder.rs, and Sql/Selection the column list of schema.rs. Sql/Filters/Clause has the
--   conditions that a WHERE clause may be made of.
-- - Domain/Sync and Domain/Dict: sync.rs and the bundles of dict.rs. Domain/Table is a database table
--   as sea-orm offers it, with what SQL documents of it as named laws; Domain/Table/Steps proves what
--   one write at a key leaves, and Domain/Dict applies it to types and items.
-- The engine calls the algorithms, the context calls the engine. A session uses the bitmap for the
-- permissions in a token, the user types for keys, and the storage for what is denied. The guards
-- call the scanner; the filters, assignments and keys share the binding of values in Sql/Schema.
--
-- State is passed explicitly. A fallible operation returns an Option (none is a panic) or a result
-- type of its module. Loops over lists are structural. Fuel is used twice: in `decimal`, one more
-- than the number, where `decimal-value` shows that it is enough, and in the SQL scanner, as much as
-- the text has bytes, where `collect_sql_tokens_total` does.
--
-- Bounds: u32, u64 and i64 keep their saturation or wrap-around where the code has it. The clock is
-- a number of milliseconds or seconds since the epoch, so it is not negative; where a theorem needs
-- that saturation does not happen it takes a clock below 2^62 ms or an i64. Sums of a time in
-- seconds and a lifetime in seconds are taken not to overflow.
--
-- Not modelled: the Lua scripts (they run on the Redis server), HTTP extractors, logging, the
-- eviction of the caches beyond what Platform states, `login`, `get_devices` and the device policy of
-- session/manager.rs, the cryptography of tokens, menus (menu.rs), the single operations on
-- dictionaries, the parameters of sql_scanner.rs, the order clause of query_builder.rs, the router and generators of summer-mcp, and the
-- crates summer-plugins, summer-system, summer-admin-macros, summer-migration and app. sea-orm,
-- serde_json and PostgreSQL are parameters.

pub mod Base
pub mod RateLimit
pub mod Auth
pub mod Sql
pub mod Domain
