-- ===== src/Together/Stacked.antt =====
-- src/limiter.rs and src/headers/rate_limit.rs: the items of limiters that are mounted one behind
-- another, as a client reads them.
use trillium_ratelimit.Common.{
  ℕ, ◌+◌, ◌≤◌, ◌<◌, ◌≡◌, ◌∙◌, refl, sym, ap, true, Option, none, some, arith, List, [], ◌∷◌, ◌++◌,
  map, Text, All,
}
use trillium_ratelimit.Time.{Instant, from_secs, as_secs}
use trillium_ratelimit.Float.{F64}
use trillium_ratelimit.Bucket.{Bucket, Decision}
use trillium_ratelimit.Store.Moka.{Cache}
use trillium_ratelimit.Store.{Store, consume}
use trillium_ratelimit.Headers.Outcome.{ok}
use trillium_ratelimit.Headers.Parser.{SfParser, IsConsuming}
use trillium_ratelimit.Headers.Fields.{HeaderMap, parse_lines, limits_from_headers}
use trillium_ratelimit.Headers.Limit.{RateLimit, parse_list, display, rate_limit_header}
use trillium_ratelimit.Headers.LimitRoundTrip.{in_seconds, IsSendable, limit-parse_list-display}
use trillium_ratelimit.Headers.Grammar.{ReadsRfc, IsBase64}
use trillium_ratelimit.Headers.Spelling.{number_limit, IsPrintable, Holds}
use trillium_ratelimit.Limiter.{RateLimiter}
use trillium_ratelimit.Limiter.Trillium.{ConnApi, IsConn}
use trillium_ratelimit.Limiter.Handler.{course, metered, run}
use trillium_ratelimit.Limiter.Announced.{announced_key, announced_limit}
use trillium_ratelimit.Limiter.Answer.{run_admitted}

map-append : {A B : Type 0} (g : A → B) (xs ys : List A) → map g (xs ++ ys) ≡ map g xs ++ map g ys
map-append g [] ys = refl
map-append g (x ∷ xs) ys = ap (λ t. g x ∷ t) (map-append g xs ys)

All-append :
    {A : Type 0} (P : A → Type 0) (xs : List A) (y : A) → All P xs → P y → All P (xs ++ (y ∷ []))
All-append P [] y h k = (k, tt)
All-append P (x ∷ xs) y (h, hs) k = (h, All-append P xs y hs k)

parse_lines-display :
    (sf : SfParser) (ls : List RateLimit)
    → IsConsuming sf
    → ReadsRfc sf
    → All IsSendable ls
    → parse_lines (parse_list sf) (map some (map display ls)) ≡ ok (map in_seconds ls)
unfolding parse_lines
parse_lines-display sf [] consuming rfc sendable = refl
parse_lines-display sf (l ∷ ls) consuming rfc (one, others) = rw (
  limit-parse_list-display sf l consuming rfc one,
  parse_lines-display sf ls consuming rfc others,
)

as_secs-from_secs : (n : ℕ) → as_secs (from_secs n) ≡ n
as_secs-from_secs n = omega arith

-- The field lines of a response arrive as they were appended.
abbrev pub Arrives : (api : ConnApi) (fields : HeaderMap) → api.Conn → fields.Headers → Type 0
Arrives api fields answer headers =
    fields.get_values headers rate_limit_header
    ≡ some (map some (api.values answer rate_limit_header))

module _ (f : F64) {K : Type 0} (moka : Cache (Option K) (Bucket f)) (api : ConnApi)
    (conns : IsConn api) (random : ℕ → ℕ) (encode : Text → Text)
    (draws : (max : ℕ) → random max ≤ max) (fields : HeaderMap) (sf : SfParser)
    (consuming : IsConsuming sf) (rfc : ReadsRfc sf)
    (base64 : (t : Text) → IsBase64 (encode t)) where
  open api use {Conn, values}

  announced_key-IsBase64 :
      (render : Option (K → Text)) (key : Option K)
      → Holds IsBase64 (announced_key encode render key)
  announced_key-IsBase64 none key = tt
  announced_key-IsBase64 (some render) none = tt
  announced_key-IsBase64 (some render) (some key) = base64 (render key)

  in_seconds-announced :
      (l : RateLimiter f moka api) (key : Option K) (d : Decision) (n : ℕ)
      → in_seconds (announced_limit f moka api encode l key d n)
        ≡ announced_limit f moka api encode l key d n
  in_seconds-announced l key d n = rw as_secs-from_secs refl

  -- Where limiters are stacked, each adds its own item: a client that could read the items of a
  -- response so far also reads, behind them and as one field, the item of a limiter that admits a
  -- metered request, with the limiter's name, the tokens that the store says are left, the encoded
  -- partition key where there is one, and a reset of whole seconds, which is at least the time to
  -- full and less than a second more than it and the jitter. The resets before it are read in whole
  -- seconds. The field lines arrive as they were appended, the connection meets its laws, `fastrand`
  -- stays in its bounds, and what encodes the keys writes base64. The parser reads what it hands
  -- back, and every item of RFC 9651 as that document defines it. The names are printable ASCII, all numbers stay
  -- below 10^15, and the keys before are base64.
  pub stacked_items :
      (l l' : RateLimiter f moka api) (conn answer : Conn) (now : Instant) (key : Option K)
      (s : Store f moka) (d : Decision) (headers : fields.Headers) (so_far : List RateLimit)
      → course (l.extractor conn) l.missing_key ≡ metered key
      → consume f moka l.store now key 1 ≡ some (s, d)
      → d.allowed ≡ true
      → IsPrintable l.policy_name
      → d.remaining < number_limit
      → d.time_to_full + l.jitter + from_secs 1 ≤ from_secs number_limit
      → run f moka api random encode l conn now ≡ some (l', answer)
      → values conn rate_limit_header ≡ map display so_far
      → Arrives api fields answer headers
      → All IsSendable so_far
      → (secs : ℕ) × (limits_from_headers fields sf headers
          ≡ ok (map in_seconds so_far ++ (announced_limit f moka api encode l key d secs ∷ [])))
        × (d.time_to_full ≤ from_secs secs)
        × (from_secs secs < d.time_to_full + l.jitter + from_secs 1)
  unfolding limits_from_headers
  stacked_items l l' conn answer now key s d headers so_far on taken yes' plain few room ran before
        arrives sendable =
      let (given, secs, e, _, _, limits, _, low, high) =
        run_admitted f moka api conns random encode draws l conn now key s d on taken yes'
          (omega (arith, room)) in
      let same : given ≡ answer = cc (e, ran) in
      let item = announced_limit f moka api encode l key d secs in
      let lines : values answer rate_limit_header ≡ map display (so_far ++ (item ∷ [])) =
        rw (same, before) at limits ∙ sym (map-append display so_far (item ∷ [])) in
      let soon : as_secs (from_secs secs) < number_limit =
        omega (arith, high, room, as_secs-from_secs secs) in
      let own : IsSendable item = (plain, few, soon, announced_key-IsBase64 l.partition_key key) in
      let parsed =
        parse_lines-display sf (so_far ++ (item ∷ [])) consuming rfc
          (All-append IsSendable so_far item sendable own) in
      let read = map-append in_seconds so_far (item ∷ []) in
      (
        secs,
        rw (arrives, lines)
            (parsed
              ∙ ap ok (
                  read
                  ∙ ap (λ r. map in_seconds so_far ++ (r ∷ []))
                      (in_seconds-announced l key d secs))),
        low,
        high,
      )
