-- ===== src/Auth/Tests.antt =====
-- The theorems at concrete users, rules, tokens and buckets.
use broker.Prelude.{
  ℕ, ◌+◌, ◌-◌, ◌<◌, ◌≤◌, ltb, Bytes, codes, [], false, length, ◌≡◌, refl, arith, bytes_eq_instance,
}
use mathlib.Core.Path.{subst}
use broker.Prelude.Maps.{lookup}
use broker.Router.Segments.{topic_matches_filter}
use broker.Auth.{
  Authenticator, perm_publish, new_authenticator, add_acl_rule, check_acl, topic_filter_matches,
}
use broker.Auth.Acl.{FirstMatch, topic_filter_matches-topic_matches_filter, check_acl-FirstMatch}
use broker.Auth.Tokens.{
  Claims, Parsed, parsed, parse_expired, parse_failed, auth_jwt, max_tokens, IsLive, IsVouched,
  length-auth_jwt, auth_jwt-IsLive,
}
use broker.Auth.Limiter.{Floats, new_rate_limiter, allow, IsCapped, allow-IsCapped}

topic_filter_matches-topic_matches_filter_example :
    topic_filter_matches (codes "a/#") (codes "a/b/c")
    ≡ topic_matches_filter (codes "a/b/c") (codes "a/#")
topic_filter_matches-topic_matches_filter_example =
    topic_filter_matches-topic_matches_filter (codes "a/#") (codes "a/b/c")

-- No client may publish below `secret`.
abbrev secretive : Authenticator
secretive =
    add_acl_rule (record { client_glob = codes "*"; topic_filter = codes "secret/#"; perm = 0 })
      new_authenticator

check_acl-FirstMatch_example :
    FirstMatch secretive.acl_rules
      (codes "ann")
      (codes "secret/a")
      perm_publish
      (check_acl (codes "ann") (codes "secret/a") perm_publish secretive)
check_acl-FirstMatch_example =
    check_acl-FirstMatch (codes "ann") (codes "secret/a") perm_publish secretive

-- A parser that takes every token, for a claim that lasts another ten units.
abbrev ten_more : Bytes → ℕ → Parsed
ten_more token now =
    parsed (record {
      client_id = codes "ann";
      username = codes "ann";
      roles = [];
      expires_at = now + 10;
    })

length-auth_jwt_example : length (auth_jwt ten_more 5 (codes "token") []).0 ≤ max_tokens
length-auth_jwt_example = length-auth_jwt ten_more 5 (codes "token") [] (omega arith)

abbrev Outlives : ℕ → Parsed → Type 0
Outlives at parse_expired = Unit
Outlives at parse_failed = Unit
Outlives at (parsed c) = at < c.expires_at

parsed-expires : (t : Bytes) (at : ℕ) (c : Claims) → ten_more t at ≡ parsed c → at < c.expires_at
parsed-expires t at c e = subst (Outlives at) e (omega arith)

no_tokens-IsVouched : IsVouched ten_more []
unfolding lookup
no_tokens-IsVouched = record { vouched = λ t c found. absurd (ground (arith, found)) }

auth_jwt-IsLive_example :
    IsLive ten_more 5 (codes "token") (auth_jwt ten_more 5 (codes "token") []).1
    × IsVouched ten_more (auth_jwt ten_more 5 (codes "token") []).0
auth_jwt-IsLive_example =
    auth_jwt-IsLive ten_more parsed-expires 5 (codes "token") [] no_tokens-IsVouched

-- Whole tokens, and time in whole units.
abbrev whole : Floats ℕ
whole = record {
  one = 1;
  plus = λ a b. a + b;
  minus = λ a b. a - b;
  times = λ a b. a;
  below = ltb;
  seconds = λ now last. now - last;
}

one_less : (x : ℕ) → ltb 5 x ≡ false → ltb 5 (x - 1) ≡ false
one_less x h = ground arith

no_buckets-IsCapped : IsCapped whole (new_rate_limiter whole 1 5)
unfolding lookup
no_buckets-IsCapped = record { capped = λ id b found. absurd (ground (arith, found)) }

allow-IsCapped_example : IsCapped whole (allow whole 7 (codes "ann") (new_rate_limiter whole 1 5)).0
allow-IsCapped_example =
    allow-IsCapped whole 7 (codes "ann") (new_rate_limiter whole 1 5) refl one_less
      no_buckets-IsCapped
