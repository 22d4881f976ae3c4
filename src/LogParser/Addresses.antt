-- ===== src/LogParser/Addresses.antt =====
-- `UniqueIPParser` and `UniqueUserParser` of parse.go: what the two sets hold after a whole log.
use ciscollector_v.Common.{
  ◌≡◌, refl, ap, ◌∙◌, inl, inr, Bool, true, false, not, ◌&&◌, ◌||◌, Option, none, some, List, [],
  ◌∷◌, Text, lit, beq, contains, any, All, if◌then◌else◌, arith, Bool-cases,
}
use ciscollector_v.Common.Options.{◌>>=◌}
use ciscollector_v.Utils.Containers.{LockSet, is_available}
use ciscollector_v.Utils.Counting.{is_available-add_key}
use ciscollector_v.LogParser.ParsedData.{ParsedData, get_user, get_host}
use ciscollector_v.LogParser.Feeds.{
  PgSettings, Regexp, Patterns, IsComplete, message_group-IsComplete, add_found, message_group,
  feed_message, unique_ip_feed, unique_user_feed, feed_all,
}

-- the key that a line adds shows `j`
abbrev pub adds : Text → Option (Option Text) → Bool
adds j (some (some k)) = beq k j && not (beq k [])
adds j _ = false

is_available-add_found :
    (s : LockSet) (k : Option Text) (j : Text)
    → is_available j (add_found s k) ≡ (adds j (some k) || is_available j s)
is_available-add_found s none j = refl
is_available-add_found s (some k) j = is_available-add_key k j s

feed_all-keys :
    {D : Type 0} (feed : LockSet → D → Option LockSet) (key : D → Option (Option Text))
    (ds : List D)
    → ((s : LockSet) (d : D) → feed s d ≡ (key d >>= λ k. some (add_found s k)))
    → All (λ d. (k : Option Text) × (key d ≡ some k)) ds
    → (s : LockSet)
    → (s' : LockSet) × (feed_all feed s ds ≡ some s')
      × ((j : Text) → is_available j s' ≡ (any (λ d. adds j (key d)) ds || is_available j s))
unfolding feed_all any
feed_all-keys feed key [] h ks s = (s, refl, λ j. refl)
feed_all-keys feed key (d ∷ ds) h ((k, e), ks) s =
    let one : feed s d ≡ some (add_found s k) =
      h s d ∙ ap (λ o. o >>= λ i. some (add_found s i)) e in
    let (s', run, holds) = feed_all-keys feed key ds h ks (add_found s k) in
    (s', rw one run, λ j. ground (arith, holds j, is_available-add_found s k j, ap (adds j) e))

module _ {Time : Type 0} (cnf : PgSettings) (patterns : Patterns) where
  -- The key that a line adds to a set: a value that the prefix gives, or else what the message
  -- says. The outer `none` is a panic.
  unfoldable pub key_of : Bool → Option Text → Regexp → ParsedData Time → Option (Option Text)
  key_of true (some v) re d = some (some v)
  key_of true none re d =
      if not cnf.log_connections then some none else message_group cnf patterns re 3 d
  key_of false v re d =
      if not cnf.log_connections then some none else message_group cnf patterns re 3 d

  key_of-IsComplete :
      (wanted : Bool) (v : Option Text) (re : Regexp) (d : ParsedData Time)
      → IsComplete d
      → (k : Option Text) × (key_of wanted v re d ≡ some k)
  unfolding key_of
  key_of-IsComplete true (some v) re d h = (some v, refl)
  key_of-IsComplete true none re d h = elim (Bool-cases cnf.log_connections) [
    | inr f ↦ (none, simp f)
    | inl t ↦
        let (found, e) = message_group-IsComplete cnf patterns re 3 d h in (found, simp (t, e))
  ]
  key_of-IsComplete false v re d h = elim (Bool-cases cnf.log_connections) [
    | inr f ↦ (none, simp f)
    | inl t ↦
        let (found, e) = message_group-IsComplete cnf patterns re 3 d h in (found, simp (t, e))
  ]

  keys-IsComplete :
      (wanted : Bool) (v : ParsedData Time → Option Text) (re : Regexp)
      (ds : List (ParsedData Time))
      → All IsComplete ds
      → All (λ d. (k : Option Text) × (key_of wanted (v d) re d ≡ some k)) ds
  keys-IsComplete wanted v re [] h = tt
  keys-IsComplete wanted v re (d ∷ ds) (h, hs) =
      (key_of-IsComplete wanted (v d) re d h, keys-IsComplete wanted v re ds hs)

  -- the key of a line for the addresses, and for the users
  abbrev pub ip_key : ParsedData Time → Option (Option Text)
  ip_key d =
      key_of (contains cnf.log_line_prefix (lit "%h") || contains cnf.log_line_prefix (lit "%r"))
        (get_host d) patterns.connection_received d

  abbrev pub user_key : ParsedData Time → Option (Option Text)
  user_key d =
      key_of (contains cnf.log_line_prefix (lit "%u")) (get_user d) patterns.connection_authorized d

  ip-step :
      (s : LockSet) (d : ParsedData Time)
      → unique_ip_feed cnf patterns s d ≡ (ip_key d >>= λ k. some (add_found s k))
  unfolding unique_ip_feed feed_message key_of
  ip-step s d = ground arith

  user-step :
      (s : LockSet) (d : ParsedData Time)
      → unique_user_feed cnf patterns s d ≡ (user_key d >>= λ k. some (add_found s k))
  unfolding unique_user_feed feed_message key_of
  user-step s d = ground arith

  -- If every line of a log has a description, then the parser of the addresses takes them all, and
  -- its set holds exactly the addresses that were there and those that some line shows: in the
  -- host of the prefix, or else in a "connection received" message, if connections are logged.
  pub unique_ip_feed-addresses :
      (ds : List (ParsedData Time)) (s : LockSet)
      → All IsComplete ds
      → (s' : LockSet) × (feed_all (unique_ip_feed cnf patterns) s ds ≡ some s')
        × ((j : Text) → is_available j s' ≡ (any (λ d. adds j (ip_key d)) ds || is_available j s))
  unique_ip_feed-addresses ds s h =
      feed_all-keys (unique_ip_feed cnf patterns) ip_key ds ip-step
        (keys-IsComplete _ get_host _ ds h) s

  -- If every line of a log has a description, then the parser of the users takes them all, and its
  -- set holds exactly the users that were there and those that some line shows: in the user of
  -- the prefix, or else in a "connection authorized" message, if connections are logged.
  pub unique_user_feed-users :
      (ds : List (ParsedData Time)) (s : LockSet)
      → All IsComplete ds
      → (s' : LockSet) × (feed_all (unique_user_feed cnf patterns) s ds ≡ some s')
        × ((j : Text) → is_available j s' ≡ (any (λ d. adds j (user_key d)) ds || is_available j s))
  unique_user_feed-users ds s h =
      feed_all-keys (unique_user_feed cnf patterns) user_key ds user-step
        (keys-IsComplete _ get_user _ ds h) s
