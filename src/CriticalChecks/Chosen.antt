-- ===== src/CriticalChecks/Chosen.antt =====
-- critical_checks_resolve.go: the result of the scan that decides the checks of one setting.
use ciscollector_v.Common.{ℕ, Bool, List, [], ◌∷◌, Text, lit, contains}
use ciscollector_v.CriticalChecks.Settings.{CisResult, Tools, cis_search_blob}

-- The checks that go by one setting.
abbrev pub guc_checks : List (ℕ × Text)
guc_checks =
    (9, lit "listen_addresses")
    ∷ (11, lit "log_connections")
    ∷ (12, lit "log_disconnections")
    ∷ (13, lit "log_statement")
    ∷ (14, lit "log_line_prefix")
    ∷ []

module _ (tools : Tools) where
  -- The text of the result shows the setting.
  abbrev pub shows : Text → CisResult → Bool
  shows guc r = contains (cis_search_blob tools r) guc
