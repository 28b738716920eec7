-- ===== src/Auth/Login.antt =====
-- services/auth-service/index.js: who gets tokens, and what a refresh token is good for.
use mathlib.Core.Path.{subst}
use tactix.Common.{
  ℕ, String, ◌≡◌, ◌≢◌, sym, ap, ◌∙◌, true, not, ◌&&◌, Option, none, some, List, [], ◌==◌, eq_iff,
  arith, Bool-cases, Option-cases, inl, inr, and_split,
}
use tactix.Json.{Json, text, member, truthy}
use tactix.Auth.Service.{
  Entry, Found, take_entries, Payload, Lifetime, minutes, days, session, renewed, Directory,
  ldap_authenticate, claims_for, login, refresh,
}

-- What a search starts from.
abbrev pub nothing_found : Json → Found
nothing_found upn = record { user_dn = none; groups = []; name = upn }

-- The directory finds entries for the name, and the last of them binds with the password.
pub record IsKnown (directory : Directory) (filter : Json → String) (upn password : Json)
    : Type 0 where
  pub entries : List Entry
  pub dn : String
  pub serves : directory.serves ≡ true
  pub searched : directory.search (filter upn) ≡ some entries
  pub last : (take_entries upn entries (nothing_found upn)).user_dn ≡ some dn
  pub named : dn ≢ ""
  pub bound : directory.bind dn password ≡ true

module _ (directory : Directory) (filter : Json → String) where
  ldap_authenticate_sound :
      (upn password : Json) (user : List String × Json)
      → ldap_authenticate directory filter upn password ≡ some user
      → IsKnown directory filter upn password
  unfolding ldap_authenticate
  ldap_authenticate_sound upn password user h = elim (Bool-cases directory.serves) [
    | inr down ↦ absurd (ground arith)
    | inl up ↦ elim (Option-cases (directory.search (filter upn))) [
      | inl failed ↦ absurd (ground arith)
      | inr (entries, searched) ↦
          elim (Option-cases (take_entries upn entries (nothing_found upn)).user_dn) [
            | inl missing ↦ absurd (ground arith)
            | inr (dn, last) ↦
                let tests : (not (dn == "") && directory.bind dn password) ≡ true = ground arith in
                let (named, bound) =
                  and_split (not (dn == "")) (directory.bind dn password) tests in
                record {
                  entries = entries;
                  dn = dn;
                  serves = up;
                  searched = searched;
                  last = last;
                  named = λ h. ground (arith, eq_iff dn "");
                  bound = bound;
                }
          ]
    ]
  ]

module _ (directory : Directory) (filter : Json → String) (sign : Payload → Lifetime → String)
    (iss : String) (access_ttl refresh_ttl : ℕ) where
  -- The body names a user and a password that is not falsy, the directory knows them, and both tokens
  -- are signed over what it found.
  pub record IsLogin (body upn name : Json) (access token : String) (groups : List String)
      : Type 0 where
    pub password : Json
    pub upn_lem : member "upn" body ≡ some upn
    pub password_lem : member "password" body ≡ some password
    pub given : truthy (some password) ≡ true
    pub known : IsKnown directory filter upn password
    pub user : ldap_authenticate directory filter upn password ≡ some (groups, name)
    pub access_lem : access ≡ sign (claims_for iss upn name groups "tactix") (minutes access_ttl)
    pub refresh_lem : token ≡ sign (claims_for iss upn name groups "refresh") (days refresh_ttl)

  to_IsLogin :
      (body u v n name p : Json) (groups g : List String) (access token : String)
      → member "upn" body ≡ some u
      → member "password" body ≡ some p
      → truthy (some p) ≡ true
      → ldap_authenticate directory filter u p ≡ some (g, n)
      → session
          (sign (claims_for iss u n g "tactix") (minutes access_ttl))
          (sign (claims_for iss u n g "refresh") (days refresh_ttl))
          u
          n
          g
        ≡ session access token v name groups
      → IsLogin body v name access token groups
  to_IsLogin body u v n name p groups g access token here there given found same =
      let eu : u ≡ v = cc in
      let en : n ≡ name = cc in
      let eg : g ≡ groups = cc in
      record {
        password = p;
        upn_lem = here ∙ ap some eu;
        password_lem = there;
        given = given;
        known =
            subst (λ w. IsKnown directory filter w p) eu
              (ldap_authenticate_sound directory filter u p (g, n) found);
        user =
            ap (λ w. ldap_authenticate directory filter w p) (sym eu)
            ∙ found
            ∙ (λ i. some (eg i, en i));
        access_lem = cc;
        refresh_lem = cc;
      }

  -- A login that is answered with tokens gave a password that is not falsy, so that no bind is made
  -- without one, for a name that the directory finds and whose last entry binds with that password;
  -- both tokens are signed over that name and the groups and display name that the search found, one
  -- with the audience "tactix" and one with "refresh".
  pub login-IsLogin :
      (body upn name : Json) (access token : String) (groups : List String)
      → login directory filter sign iss access_ttl refresh_ttl body
        ≡ session access token upn name groups
      → IsLogin body upn name access token groups
  unfolding login
  login-IsLogin body upn name access token groups h = elim (Option-cases (member "upn" body)) [
    | inl missing ↦ absurd (ground arith)
    | inr (u, here) ↦ elim (Option-cases (member "password" body)) [
      | inl missing ↦ absurd (ground arith)
      | inr (p, there) ↦ elim (Bool-cases (truthy (some u) && truthy (some p))) [
        | inr falsy ↦ absurd (ground arith)
        | inl both ↦ elim (Option-cases (ldap_authenticate directory filter u p)) [
          | inl unknown ↦ absurd (ground arith)
          | inr ((g, n), found) ↦
              to_IsLogin body u upn n name p groups g access token here there
                (and_split (truthy (some u)) (truthy (some p)) both).1 found (ground arith)
        ]
      ]
    ]
  ]

  module _ (verify : String → String → Json → Option Payload) (body upn name : Json)
      (access token : String) (groups : List String) where
    -- The refresh token of a login buys the access token again: if `jwt.verify` reads back, for the
    -- audience "refresh" and this issuer, the claims that were signed for them, then `/refresh` answers
    -- an access token signed over the same user, name and groups, for the same lifetime.
    pub refresh-login :
        (request : Json)
        → login directory filter sign iss access_ttl refresh_ttl body
          ≡ session access token upn name groups
        → member "refresh" request ≡ some (text token)
        → token ≢ ""
        → verify "refresh" iss
            (text (sign (claims_for iss upn name groups "refresh") (days refresh_ttl)))
          ≡ some (claims_for iss upn name groups "refresh")
        → refresh sign verify iss access_ttl request ≡ renewed access
    unfolding refresh
    refresh-login request logged given nonempty honest =
        let l = login-IsLogin body upn name access token groups logged in
        ground (arith, l.access_lem, l.refresh_lem, eq_iff token "")
