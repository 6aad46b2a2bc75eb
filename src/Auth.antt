-- ===== src/Auth.antt =====
-- `Authenticator` of internal/auth/auth.go: users, certificates and access rules. The password hash,
-- bcrypt, is third-party code: its results are arguments. Each method runs alone.
pub mod Acl
pub mod Users
pub mod Tokens
pub mod Limiter
mod Tests
use broker.Prelude.{
  ℕ, ◌==◌, if◌then◌else◌, bit_and, Bytes, codes, List, [], ◌∷◌, Bool, true, false, not, ◌&&◌, ◌||◌,
  Option, none, some, bytes_eq, bytes_eq_instance,
}
use broker.Prelude.Maps.{lookup, insert}
use broker.Protocol.Topic.{is_empty, has_prefix}
use broker.Router.Segments.{strings_split}

pub data AuthError : Type 0 where
  bad_credentials token_expired token_invalid banned denied : AuthError

abbrev pub perm_none : ℕ
perm_none = 0

abbrev pub perm_subscribe : ℕ
perm_subscribe = 1

abbrev pub perm_publish : ℕ
perm_publish = 2

pub record AclRule : Type 0 where
  pub client_glob : Bytes
  pub topic_filter : Bytes
  pub perm : ℕ

pub record User : Type 0 where
  pub username : Bytes
  pub password_hash : Bytes
  pub roles : List Bytes
  pub is_banned : Bool

-- `map[string]struct{}` of the revoked serial numbers is a list of keys.
pub record Authenticator : Type 0 where
  pub users : List (Bytes × User)
  pub acl_rules : List AclRule
  pub revoked_cert_serials : List Bytes

unfoldable pub glob_match : Bytes → Bytes → Bool
glob_match pattern s = bytes_eq pattern (codes "*") || bytes_eq pattern s

-- `matchSegs(f, t, fi, ti)`: the lists stand for the tails `f[fi:]` and `t[ti:]`.
unfoldable pub acl_match_segs : List Bytes → List Bytes → Bool
acl_match_segs [] t = is_empty t
acl_match_segs (seg ∷ f) [] = bytes_eq seg (codes "#")
acl_match_segs (seg ∷ f) (s ∷ t) =
    if bytes_eq seg (codes "#")
    then true
    else if not (bytes_eq seg (codes "+")) && not (bytes_eq seg s)
    then false
    else acl_match_segs f t

unfoldable pub topic_filter_matches : Bytes → Bytes → Bool
unfolding acl_match_segs strings_split
topic_filter_matches filter topic = acl_match_segs (strings_split filter) (strings_split topic)

unfoldable pub rule_matches : AclRule → Bytes → Bytes → Bool
unfolding glob_match topic_filter_matches
rule_matches r client_id topic =
    glob_match r.client_glob client_id && topic_filter_matches r.topic_filter topic

-- `New` and `loadDefaultACL`
unfoldable pub new_authenticator : Authenticator
new_authenticator = record {
  users = [];
  acl_rules =
      record { client_glob = codes "*"; topic_filter = codes "$SYS/#"; perm = perm_subscribe } ∷ [];
  revoked_cert_serials = [];
}

-- The loop of `checkACL`.
unfoldable pub check_rules : List AclRule → Bytes → Bytes → ℕ → Bool
unfolding rule_matches
check_rules [] client_id topic perm = true
check_rules (r ∷ rules) client_id topic perm =
    if rule_matches r client_id topic
    then not (bit_and r.perm perm == 0)
    else check_rules rules client_id topic perm

unfoldable pub check_acl : Bytes → Bytes → ℕ → Authenticator → Bool
unfolding check_rules
check_acl client_id topic perm a = check_rules a.acl_rules client_id topic perm

unfoldable pub can_publish : Bytes → Bytes → Authenticator → Bool
unfolding check_acl has_prefix
can_publish client_id topic a =
    if has_prefix topic (codes "$SYS/") then false else check_acl client_id topic perm_publish a

unfoldable pub can_subscribe : Bytes → Bytes → Authenticator → Bool
unfolding check_acl
can_subscribe client_id filter a = check_acl client_id filter perm_subscribe a

unfoldable pub add_acl_rule : AclRule → Authenticator → Authenticator
add_acl_rule rule a = record a { acl_rules = rule ∷ a.acl_rules }

-- `hash` is what `bcrypt.GenerateFromPassword` returned, `none` for its error; the result is false
-- for that error.
unfoldable pub add_user : Bytes → Option Bytes → List Bytes → Authenticator → Authenticator × Bool
add_user username none roles a = (a, false)
add_user username (some hash) roles a =
    let u : User = record {
      username = username;
      password_hash = hash;
      roles = roles;
      is_banned = false;
    } in
    (record a { users = insert username u a.users }, true)

unfoldable pub set_banned : Bytes → Bool → Authenticator → Authenticator
set_banned username b a = elim (lookup username a.users) [
  | none ↦ a
  | some u ↦ record a { users = insert username (record u { is_banned = b }) a.users }
]

-- `compare hash password` is whether `bcrypt.CompareHashAndPassword` returns nil. `none` is nil.
unfoldable pub auth_password :
    (Bytes → Bytes → Bool) → Bytes → Bytes → Authenticator → Option AuthError
auth_password compare username password a = elim (lookup username a.users) [
  | none ↦ some bad_credentials
  | some u ↦
      if u.is_banned
      then some banned
      else if compare u.password_hash password
      then none
      else some bad_credentials
]

-- `serials` are trimmed and in lower case already, by functions of package `strings`.
unfoldable pub set_revoked_serials : List Bytes → Authenticator → Authenticator
set_revoked_serials serials a = record a { revoked_cert_serials = not_blank serials }
  where
    not_blank : List Bytes → List Bytes
    not_blank [] = []
    not_blank (s ∷ rest) = if is_empty s then not_blank rest else s ∷ not_blank rest

-- What the code reads of a certificate: the serial number in hexadecimal, and the two names.
pub record Certificate : Type 0 where
  pub serial : Bytes
  pub common_name : Bytes
  pub subject : Bytes

unfoldable pub is_listed : Bytes → List Bytes → Bool
is_listed s [] = false
is_listed s (t ∷ ts) = bytes_eq t s || is_listed s ts

pub data Identity : Type 0 where
  identified : Bytes → Identity
  rejected : AuthError → Identity

unfoldable pub auth_x509 : Option Certificate → Authenticator → Identity
unfolding is_listed
auth_x509 none a = rejected bad_credentials
auth_x509 (some cert) a =
    if is_listed cert.serial a.revoked_cert_serials
    then rejected banned
    else if is_empty cert.common_name
    then identified cert.subject
    else identified cert.common_name
