-- ===== src/Auth/Users.antt =====
-- Passwords and bans of internal/auth/auth.go.
use broker.Prelude.{
  if◌then◌else◌, Bytes, List, Bool, true, false, none, some, bytes_eq, bytes_eq_self, ◌≡◌, arith,
  Bool-cases, Option-cases, inl, inr, bytes_eq_instance,
}
use broker.Prelude.Maps.{lookup, lookup-insert}
use broker.Auth.{bad_credentials, banned, User, Authenticator, add_user, set_banned, auth_password}

-- The user that `AddUser` stores.
abbrev created : Bytes → Bytes → List Bytes → User
created username hash roles = record {
  username = username;
  password_hash = hash;
  roles = roles;
  is_banned = false;
}

module _ (compare : Bytes → Bytes → Bool) where
  -- After `AddUser`, the new user logs in with the password of the hash alone, banned or not before,
  -- and the others as they did.
  auth_password-add_user :
      (user other hash password : Bytes) (roles : List Bytes) (a : Authenticator)
      → auth_password compare other password (add_user user (some hash) roles a).0 ≡ (
          if bytes_eq user other
          then (if compare hash password then none else some bad_credentials)
          else auth_password compare other password a)
  unfolding auth_password add_user
  auth_password-add_user user other hash password roles a =
      elim (Bool-cases (bytes_eq user other)) [
        | inl same ↦
            rw (lookup-insert user other (created user hash roles) a.users, same, auth_password)
        | inr different ↦
            rw
              (lookup-insert user other (created user hash roles) a.users, different, auth_password)
      ]

  -- Whoever could log in is told of the ban after `SetBanned`.
  auth_password-set_banned :
      (user password : Bytes) (a : Authenticator)
      → auth_password compare user password a ≡ none
      → auth_password compare user password (set_banned user true a) ≡ some banned
  unfolding auth_password set_banned
  auth_password-set_banned user password a ok = elim (Option-cases (lookup user a.users)) [
    | inl unknown ↦ absurd (ground (arith, unknown))
    | inr (u, known) ↦ rw (
      known,
      set_banned,
      lookup-insert user user (record u { is_banned = true }) a.users,
      bytes_eq_self user,
      auth_password,
    )
  ]
