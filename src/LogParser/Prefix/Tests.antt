-- ===== src/LogParser/Prefix/Tests.antt =====
-- The prefix "%u@%d ", and prefixes of which the program makes no expression.
use ciscollector_v.Common.{
  ◌≡◌, ◌≢◌, refl, false, beq, beq_iff, none, some, [], ◌∷◌, Text, lit, All, length, ◌+◌,
}
use ciscollector_v.Common.Maps.{lookup, text_eq}
use ciscollector_v.Common.Options.{OnSome}
use ciscollector_v.LogParser.Prefix.{generate_regex_string, reg_exp_level}
use ciscollector_v.LogParser.Prefix.Groups.{quote, AreEscapes, IsIndex, GroupAt, is_meta}
use ciscollector_v.LogParser.Prefix.Level.{
  AreDistinct, known_placeholders, generate_regex_string-IsIndex, generate_regex_string-level,
}

prefix_runs :
    generate_regex_string quote (lit "%u@%d ")
    ≡ some (
      lit
          "(\\s*)(\\S*)@(\\S*) (\\s*)(DEBUG5|DEBUG4|DEBUG3|DEBUG2|DEBUG1|INFO|NOTICE|LOG|WARNING|ERROR|FATAL|PANIC|DETAIL|HINT|STATEMENT|CONTEXT|LOCATION):\\s+(.*)$",
      (lit "%u", 2) ∷ (lit "%d", 3) ∷ [],
    )
unfolding generate_regex_string is_meta beq
prefix_runs = refl

-- A `%` at the end is a panic.
trailing_runs : generate_regex_string quote (lit "%u %") ≡ none
unfolding generate_regex_string is_meta beq
trailing_runs = refl

short_prefix-AreEscapes : AreEscapes (lit "%u@%d ")
unfolding is_meta
short_prefix-AreEscapes =
    ((λ _. refl), ((λ _. refl), ((λ _. refl), ((λ _. refl), ((λ _. refl), tt)))))

apart : (a b : Text) → beq a b ≡ false → a ≢ b
apart a b h e = cc (h, (beq_iff a b).1 e)

short_prefix-AreDistinct : AreDistinct (known_placeholders (lit "%u@%d "))
unfolding known_placeholders lookup beq
short_prefix-AreDistinct = ((apart (lit "%u") (lit "%d") refl, tt), (tt, tt))

generate_regex_string-IsIndex_example :
    OnSome (λ (regex, m). All (IsIndex regex) m) (generate_regex_string quote (lit "%u@%d "))
generate_regex_string-IsIndex_example =
    generate_regex_string-IsIndex quote (λ s. refl) (lit "%u@%d ") short_prefix-AreEscapes

generate_regex_string-level_example :
    OnSome
      (λ (regex, m). GroupAt regex (length m + 3) reg_exp_level)
      (generate_regex_string quote (lit "%u@%d "))
generate_regex_string-level_example =
    generate_regex_string-level quote (λ s. refl) (lit "%u@%d ") short_prefix-AreEscapes
      short_prefix-AreDistinct
