-- ===== src/LogParser/Feeds.antt =====
-- parse.go: what each consumer does with one parsed line. `none` is a panic of `GetDescription`.
use ciscollector_v.Common.{
  ℕ, Bool, false, not, ◌&&◌, ◌||◌, Option, none, some, List, [], ◌∷◌, ◌++◌, Text, lit, beq,
  contains, has_prefix, to_lower, length, ltb, if◌then◌else◌, ◌≡◌, refl, inl, inr, Option-cases,
  Bool-cases,
}
use ciscollector_v.Common.Options.{◌>>=◌}
use ciscollector_v.Utils.Containers.{get, LockSet, add_key}
use ciscollector_v.HbaRules.Defs.{HbaFileRule, validate_entry}
use ciscollector_v.LogParser.ParsedData.{
  ParsedData, get_user, get_host, get_database, get_description,
}

-- `config.LogParser.PgSettings`
pub record PgSettings : Type 0 where
  pub log_line_prefix : Text
  pub log_connections : Bool

-- A regular expression, as its `FindStringSubmatch`; `MatchString` is whether that finds something.
abbrev pub Regexp : Type 0
Regexp = Text → Option (List Text)

-- `LogPrefixPostgresIpsRegexp`, `UserConnAuthRegexp` and the `passwordRegex` of the leak parser
pub record Patterns : Type 0 where
  pub connection_received : Regexp
  pub connection_authorized : Regexp
  pub password_literal : Regexp

pub record LeakedPasswordResponse : Type 0 where
  pub query : Text
  pub password : Text

abbrev pub supported_encryption_algorithms : List Text
supported_encryption_algorithms =
    lit "md5" ∷ lit "scram-sha-256" ∷ lit "plain" ∷ lit "crypt" ∷ lit "password" ∷ []

-- the loop over the algorithms: the password is taken for an encrypted one
unfoldable pub is_encrypted : List Text → Text → Bool
unfolding has_prefix
is_encrypted [] password_lower = false
is_encrypted (alg ∷ algs) password_lower =
    has_prefix password_lower alg && ltb (length alg) (length password_lower)
    || is_encrypted algs password_lower

abbrev pub add_found : LockSet → Option Text → LockSet
add_found s none = s
add_found s (some key) = add_key key s

abbrev pub not_blank : Text → Option Text
not_blank t = if beq t [] then none else some t

module _ {Time : Type 0} (cnf : PgSettings) (patterns : Patterns) where
  -- The group of a message that matches; the outer `none` is a panic.
  unfoldable pub message_group : Regexp → ℕ → ParsedData Time → Option (Option Text)
  unfolding get get_description
  message_group re i d = do
    desc ← get_description d
    elim (re desc) [ none ↦ some none | some parts ↦ some (some (get parts i)) ]

  -- the part of `Feed` that goes by the message, if connections are logged
  unfoldable pub feed_message : Regexp → ℕ → LockSet → ParsedData Time → Option LockSet
  unfolding message_group
  feed_message re i s d =
      if not cnf.log_connections
      then some s
      else do found ← message_group re i d; some (add_found s found)

  -- `UniqueIPParser.Feed`
  unfoldable pub unique_ip_feed : LockSet → ParsedData Time → Option LockSet
  unfolding feed_message get_host contains add_key
  unique_ip_feed s d =
      if contains cnf.log_line_prefix (lit "%h") || contains cnf.log_line_prefix (lit "%r")
      then elim (get_host d) [
        | some host ↦ some (add_key host s)
        | none ↦ feed_message patterns.connection_received 3 s d
      ]
      else feed_message patterns.connection_received 3 s d

  -- `UniqueUserParser.Feed`
  unfoldable pub unique_user_feed : LockSet → ParsedData Time → Option LockSet
  unfolding feed_message get_user contains add_key
  unique_user_feed s d =
      if contains cnf.log_line_prefix (lit "%u")
      then elim (get_user d) [
        | some user ↦ some (add_key user s)
        | none ↦ feed_message patterns.connection_authorized 3 s d
      ]
      else feed_message patterns.connection_authorized 3 s d

  -- A value of the line, or else of its message; the inner `none` ends the feed.
  unfoldable pub value_or_message :
      Option Text → Regexp → ℕ → ParsedData Time → Option (Option Text)
  unfolding message_group beq
  value_or_message (some v) re i d = some (some v)
  value_or_message none re i d =
      if not cnf.log_connections
      then some none
      else do found ← message_group re i d; some (elim found [ none ↦ none | some t ↦ not_blank t ])

  -- `HbaUnusedLineParser.Feed`
  unfoldable pub hba_unused_feed : HbaFileRule → ParsedData Time → Option HbaFileRule
  unfolding value_or_message get_user get_host get_database validate_entry
  hba_unused_feed rule d = do
    user ← value_or_message (get_user d) patterns.connection_authorized 3 d
    elim user [
      | none ↦ some rule
      | some u ↦
          (value_or_message (get_host d) patterns.connection_received 3 d >>= λ host. elim host [
            | none ↦ some rule
            | some h ↦
                (value_or_message (get_database d) patterns.connection_authorized 5 d
                  >>= λ database. elim database [
                    | none ↦ some rule
                    | some db ↦ some (validate_entry db u h rule)
                  ])
          ])
    ]

  -- `PasswordLeakParser.Feed`; a match of the pattern has one group
  unfoldable pub password_leak_feed :
      List LeakedPasswordResponse → ParsedData Time → Option (List LeakedPasswordResponse)
  unfolding get_description get is_encrypted
  password_leak_feed leaks d = do
    msg ← get_description d
    elim (patterns.password_literal msg) [
      | none ↦ some leaks
      | some resp ↦
          if is_encrypted supported_encryption_algorithms (to_lower (get resp 1))
          then some leaks
          else some (leaks ++ record { query = msg; password = get resp 1 } ∷ [])
    ]

-- A consumer fed with the lines of a log, in order.
unfoldable pub feed_all : {S D : Type 0} → (S → D → Option S) → S → List D → Option S
feed_all feed s [] = some s
feed_all feed s (d ∷ ds) = do s' ← feed s d; feed_all feed s' ds

-- The line has a description: `GetDescription` does not panic.
abbrev pub IsComplete : {Time : Type 0} → ParsedData Time → Type 0
IsComplete d = (desc : Text) × (get_description d ≡ some desc)

module _ {Time : Type 0} (cnf : PgSettings) (patterns : Patterns) where
  pub message_group-IsComplete :
      (re : Regexp) (i : ℕ) (d : ParsedData Time)
      → IsComplete d
      → (found : Option Text) × (message_group cnf patterns re i d ≡ some found)
  unfolding message_group
  message_group-IsComplete re i d (desc, e) = elim (Option-cases (re desc)) [
    | inl p ↦ (none, rw (e, p) refl)
    | inr (parts, p) ↦ (some (get parts i), rw (e, p) refl)
  ]

  pub value_or_message-IsComplete :
      (v : Option Text) (re : Regexp) (i : ℕ) (d : ParsedData Time)
      → IsComplete d
      → (found : Option Text) × (value_or_message cnf patterns v re i d ≡ some found)
  unfolding value_or_message
  value_or_message-IsComplete (some v) re i d h = (some v, refl)
  value_or_message-IsComplete none re i d h = elim (Bool-cases cnf.log_connections) [
    | inr f ↦ (none, simp f)
    | inl t ↦
        let (found, e) = message_group-IsComplete re i d h in
        (elim found [ none ↦ none | some m ↦ not_blank m ], simp (t, e))
  ]
