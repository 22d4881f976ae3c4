-- ===== src/LogParser/Passwords.antt =====
-- `PasswordLeakParser` of parse.go: which passwords the parser of the leaks reports.
use ciscollector_v.Common.{◌≡◌, some, List, Text, to_lower}
use ciscollector_v.Utils.Containers.{get}
use ciscollector_v.LogParser.ParsedData.{ParsedData, get_description}
use ciscollector_v.LogParser.Encrypted.{marks, IsMarked}
use ciscollector_v.LogParser.Feeds.{PgSettings, Patterns, LeakedPasswordResponse}

abbrev pub leak_of : Text → List Text → LeakedPasswordResponse
leak_of msg resp = record { query = msg; password = get resp 1 }

module _ {Time : Type 0} (cnf : PgSettings) (patterns : Patterns) where
  -- The description of the line has a password literal that is not one of the five words, in any
  -- case, with more text after it.
  pub record Exposes (d : ParsedData Time) (x : LeakedPasswordResponse) : Type 0 where
    pub parts : List Text
    pub described : get_description d ≡ some x.query
    pub matched : patterns.password_literal x.query ≡ some parts
    pub literal : get parts 1 ≡ x.password
    pub plain : ¬ IsMarked marks (to_lower x.password)
