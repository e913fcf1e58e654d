-- ===== src/Lib.antt =====
-- Rate limiting for trillium: a server handler that meters requests against a quota, and a client
-- handler that paces its own.
--
-- The parts and the files that model them. Paths of the code are from the repository's root.
--
--   Quota        src/headers/quota.rs: `Quota`, its constructors, and `QuotaUnit`; Units, below it,
--                says which units are read from a token.
--   Bucket       src/bucket.rs: `Bucket::new` is `fresh`, `try_consume` keeps its name. A `Duration`
--                or an `Instant` is its number of nanoseconds, and a panic of
--                `Duration::from_secs_f64` the result `none`. Files below it: Bounds (the range of
--                levels), Total (when it returns), Drain (calls within one instant), Scaled (a bucket of
--                whole numbers), Rate and Retry (calls over time), Rewind (calls out of order), Drift
--                and RoundedRate (calls over time, with the rounding errors of binary64).
--   Store        src/store.rs: one bucket for each key in a cache, `consume` being one atomic step on
--                it. Files below it: Moka (the cache as an interface), Validity (states that calls
--                and losses of entries reach), Partitions and Concurrency (interleaved calls), Expiry
--                (what a dropped entry changes), Total (when `consume` returns).
--   Limiter      src/limiter.rs: `RateLimiter` with its builders, Network (`network_key`), Seconds
--                (`secs_ceil`), Handler (`Handler::run`), Announced, Answer and Honest (its responses),
--                Total (when `run` returns), Serve, Through, Alone, Served and RoundedServed (one
--                request after another), Built (builders and requests in any order), and Trillium
--                (the connection as an interface).
--   Client       src/client.rs: Throttle (`claim` and `back_off` on the map of arrival times),
--                Signals (`server_backoff`), Handler (the two hooks), New and Interval (a new
--                throttle); Pacing, Burst, Order, Scopes and Backoff are about sequences of claims,
--                Slower about claims and push-backs mixed, RetryAfter about the number in the field
--                of that name, and Responses about `after_response` on every response.
--   Headers      src/headers/: Limit and Policy are the two kinds of item, Items the parse loop that
--                they have in common, Fields `from_headers`, Sf the helpers of sf.rs, Decimal the
--                digits of a number, Outcome the results of a parse, Parser `sfparse` as an
--                interface, Halting and Total the end of the loops, Located what `sfparse` says of
--                its ranges, Slices and Panics what becomes of malformed input, Reading
--                what the loops make of an item, Grammar the items of RFC 9651, Numerals and
--                Spelling the numbers and strings of an item, and LimitRoundTrip, PolicySpelling
--                and PolicyRoundTrip what is read from a written one.
--   Together     src/limiter.rs with src/client.rs and src/headers/: Refusal (a client whose request
--                is refused) and Stacked (limiters one behind another); Paced,
--                Rounding and Unrefused (client and server with one quota), Paced and Rounding on
--                src/bucket.rs alone.
--   Float        `f64` as an interface (`F64`) with the facts of IEEE 754 arithmetic that proofs rest
--                on (`IsIeee`), and Float/Rounded the bounds on its rounding errors (`IsRounded`).
--                Float/Binary meets both: it is binary64, each operation rounded to nearest with
--                ties to even. Its parts: Nearest, Exponent and Round (how a fraction is rounded),
--                Defs (the operations), Made, Order and Arithmetic (what `IsIeee` asks), Bounds,
--                Errors and Seconds (what `IsRounded` asks), Laws (both). Float/Exact meets
--                `IsIeee` without rounding, by fractions, infinity and NaN.
--   Debug        `fmt::Debug` as src/limiter.rs and src/client.rs write it, with Limiter/Debug and
--                Client/Debug.
--   Common, Time what all of these share. Tests has a concrete run for each result that has
--                conditions; its Reader parses a part of RFC 9651, and Conforming shows that
--                it reads the items of Headers/Grammar. Tests/Suite runs the
--                repository's own tests, those of the modules and of tests/client.rs, on the
--                definitions, over binary64 but for src/store.rs: one that passes is equal to
--                `passed`.
--
-- The limiter's `run` reads a key off the connection, calls `consume` of its store, which calls
-- `try_consume` on the key's bucket, and writes the decision with the items of Headers. The client
-- reads such items from a response and backs off.
--
-- State is passed explicitly, and a call that panics gives no new state. Calls that run under a lock,
-- of the cache's key or of the client's mutex, are single steps, so that threads are lists of calls.
-- Natural numbers stand for `u64`; where the code would overflow, panic or saturate, the definitions
-- say so, with overflow checks on. The parse loops run on fuel, one more than what the parser has
-- left to read; a number has fewer digits than the fuel of `decimal`.
--
-- Taken as parameters: moka's cache, trillium's connection and headers, `sfparse`, base64,
-- `fastrand`, the origin of a URL, the clock and `f64`. Bucket/Scaled, Bucket/Rate, Bucket/Rewind,
-- Bucket/Retry, Store/Expiry, Client/Interval, Limiter/Honest, Limiter/Served, Together/Paced,
-- Together/Rounding and Together/Unrefused are about exact arithmetic: rounding is outside them,
-- but for durations, which are rounded to the nearest nanosecond. The other files are about every
-- `f64` that meets those facts, as binary64 does, and Bucket/Drift, Bucket/RoundedRate and
-- Limiter/RoundedServed bound what its rounding errors add.
--
-- Not modelled: derived `Debug`, the borrowing of `Cow` (a text has no owner, so that `into_owned`
-- copies), the sleep that the client awaits, and the crate's attributes and re-exports.
pub mod Common
pub mod Time
pub mod Debug
pub mod Quota
pub mod Float
pub mod Bucket
pub mod Store
pub mod Headers
pub mod Limiter
pub mod Client
pub mod Together
mod Tests
