-- ===== src/Auth/Acl.antt =====
-- The access rules of internal/auth/auth.go: the order in which they decide, and their matcher
-- beside the router's.
use broker.Prelude.{
  ℕ, ◌==◌, bit_and, Bytes, List, [], ◌∷◌, ◌++◌, Bool, true, false, not, ◌≡◌, ◌⊎◌, refl, ap, ◌∙◌,
  arith, All, Bool-cases, inl, inr,
}
use broker.Router.Segments.{strings_split, match_segs, topic_matches_filter}
use broker.Router.Segments.Join.{split_filter-strings_split}
use broker.Auth.{
  AclRule, Authenticator, acl_match_segs, topic_filter_matches, rule_matches, check_rules,
  check_acl,
}

acl_match_segs-match_segs : (f t : List Bytes) → acl_match_segs f t ≡ match_segs t f
unfolding acl_match_segs match_segs
acl_match_segs-match_segs [] t = refl
acl_match_segs-match_segs (seg ∷ f) [] = refl
acl_match_segs-match_segs (seg ∷ f) (s ∷ t) = ground (arith, acl_match_segs-match_segs f t)

-- The matcher of the access rules and the router's `topicMatchesFilter` agree on every filter and
-- topic.
pub topic_filter_matches-topic_matches_filter :
    (filter topic : Bytes) → topic_filter_matches filter topic ≡ topic_matches_filter topic filter
unfolding topic_filter_matches topic_matches_filter
topic_filter_matches-topic_matches_filter filter topic =
    acl_match_segs-match_segs (strings_split filter) (strings_split topic)
    ∙ rw (split_filter-strings_split filter, split_filter-strings_split topic)

-- What the rules say of a client and a topic: the first rule that matches, or none.
abbrev pub FirstMatch : List AclRule → Bytes → Bytes → ℕ → Bool → Type 0
FirstMatch rules client_id topic perm answer =
    (All (λ r. rule_matches r client_id topic ≡ false) rules × (answer ≡ true))
    ⊎ ((before : List AclRule) × (r : AclRule) × (after : List AclRule) × (rules
          ≡ before ++ (r ∷ after))
        × All (λ r. rule_matches r client_id topic ≡ false) before
        × (rule_matches r client_id topic ≡ true)
        × (answer ≡ not (bit_and r.perm perm == 0)))

check_rules-FirstMatch :
    (rules : List AclRule) (client_id topic : Bytes) (perm : ℕ)
    → FirstMatch rules client_id topic perm (check_rules rules client_id topic perm)
unfolding check_rules
check_rules-FirstMatch [] client_id topic perm = inl (tt, refl)
check_rules-FirstMatch (r ∷ rules) client_id topic perm =
    elim (Bool-cases (rule_matches r client_id topic)) [
      | inl here ↦ inr ([], r, rules, refl, tt, here, rw here)
      | inr other ↦ elim (check_rules-FirstMatch rules client_id topic perm) [
        | inl (none_match, allowed) ↦ inl ((other, none_match), rw other allowed)
        | inr (before, s, after, split, skipped, found, says) ↦
            inr (r ∷ before, s, after, ap (◌∷◌ r) split, (other, skipped), found, rw other says)
      ]
    ]

-- `checkACL` answers by the first rule that matches the client and the topic, with yes exactly if
-- that rule has the permission, and with yes if no rule matches.
pub check_acl-FirstMatch :
    (client_id topic : Bytes) (perm : ℕ) (a : Authenticator)
    → FirstMatch a.acl_rules client_id topic perm (check_acl client_id topic perm a)
unfolding check_acl
check_acl-FirstMatch client_id topic perm a =
    check_rules-FirstMatch a.acl_rules client_id topic perm
