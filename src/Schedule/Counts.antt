-- ===== src/Schedule/Counts.antt =====
-- collector_schedules.go: counting the commands on their way to the schedule map.
use ciscollector_v.Common.{
  ℕ, ◌+◌, ◌≡◌, refl, sym, ap, ◌∙◌, inl, inr, Bool, true, false, not, ◌&&◌, ◌||◌, Option, some, List,
  [], ◌∷◌, ◌++◌, Text, lit, beq, trim_space, count, is_nil, contains_text, if◌then◌else◌, arith,
  Bool-cases, Option-cases,
}
use ciscollector_v.Common.TextLaws.{trim_space-trim_space}
use ciscollector_v.Common.Maps.{lookup, insert, text_eq}
use ciscollector_v.Schedule.Commands.{
  Command, built, parse_scan_commands, commands_from_postgres, Parts, file_command, file_commands,
  partition_scheduled_commands, is_log_parser_root_command,
}
use ciscollector_v.Schedule.Crons.{
  Cron, Config, Schedules, commands_at, append_commands, assign_schedule_commands,
  log_parser_schedule, collector_schedule_ready, merge_parts, assign_parts, use_separate_pii,
  use_separate_log, collector_parts, collector_schedules, merge_cron, merge_legacy_crons,
  build_collector_schedule_map,
}
use ciscollector_v.Schedule.Complete.{
  then_build-eq-built, built_inj, ready_schedules-parts, merge_cron-built,
}

count-append {ℓ} :
    {A : Type ℓ} (p : A → Bool) (xs ys : List A) → count p (xs ++ ys) ≡ count p xs + count p ys
unfolding count
count-append p [] ys = omega arith
count-append p (x ∷ xs) ys = omega (arith, count-append p xs ys)

module _ (p : Command → Bool) where
  -- How many of the scheduled commands pass the test.
  unfoldable pub scheduled : Schedules → ℕ
  unfolding count
  scheduled [] = 0
  scheduled ((sched, cmds) ∷ out) = count p cmds + scheduled out

  abbrev pub parts_count : Parts → ℕ
  parts_count q = count p q.main + count p q.pii + count p q.log

  scheduled-insert :
      (out : Schedules) (sched : Text) (cmds : List Command)
      → scheduled (insert sched cmds out) + count p (commands_at (lookup sched out))
        ≡ scheduled out + count p cmds
  unfolding scheduled insert lookup count
  scheduled-insert [] sched cmds = omega arith
  scheduled-insert ((k, v) ∷ out) sched cmds = elim (Bool-cases (beq k sched)) [
    | inl e ↦ rw e (omega arith)
    | inr e ↦ rw e (omega (arith, scheduled-insert out sched cmds))
  ]

  scheduled-append_commands :
      (out : Schedules) (sched : Text) (cmds : List Command)
      → scheduled (append_commands out sched cmds) ≡ scheduled out + count p cmds
  unfolding append_commands
  scheduled-append_commands out sched cmds = omega (
    arith,
    scheduled-insert out sched (commands_at (lookup sched out) ++ cmds),
    count-append p (commands_at (lookup sched out)) cmds,
  )

  count-is_nil : (cmds : List Command) → is_nil cmds ≡ true → count p cmds ≡ 0
  unfolding count
  count-is_nil [] h = refl
  count-is_nil (c ∷ cmds) h = cc

  -- the schedule is not blank, or else there is nothing for it
  abbrev HasPlace : Text → List Command → Type 0
  HasPlace sched cmds = (beq (trim_space sched) [] ≡ true) → (is_nil cmds ≡ true)

  scheduled-assign :
      (out : Schedules) (sched : Text) (cmds : List Command)
      → HasPlace sched cmds
      → scheduled (assign_schedule_commands out sched cmds) ≡ scheduled out + count p cmds
  unfolding assign_schedule_commands
  scheduled-assign out sched cmds h = elim (Bool-cases (beq (trim_space sched) [])) [
    | inl t ↦ rw t (omega (arith, count-is_nil cmds (h t)))
    | inr f ↦ elim (Bool-cases (is_nil cmds)) [
      | inl t ↦ rw (f, t) (omega (arith, count-is_nil cmds t))
      | inr g ↦ rw (f, g) (scheduled-append_commands out sched cmds)
    ]
  ]

  parts-file_command :
      (c : Command) (q : Parts)
      → parts_count (file_command c q) ≡ parts_count q + (if p c then 1 else 0)
  unfolding file_command count
  parts-file_command c q = elim (Bool-cases (beq c.name (lit "pii_scanner"))) [
    | inl t ↦ rw t (omega (arith, count-append p q.pii (c ∷ [])))
    | inr f ↦ elim (Bool-cases (is_log_parser_root_command c.name)) [
      | inl t ↦ rw (f, t) (omega (arith, count-append p q.log (c ∷ [])))
      | inr g ↦ rw (f, g) (omega (arith, count-append p q.main (c ∷ [])))
    ]
  ]

  parts-file_commands :
      (cmds : List Command) (q : Parts)
      → parts_count (file_commands cmds q) ≡ parts_count q + count p cmds
  unfolding file_commands count
  parts-file_commands [] q = omega arith
  parts-file_commands (c ∷ cmds) q =
      omega (arith, parts-file_commands cmds (file_command c q), parts-file_command c q)

  parts-merge_parts : (a b : Bool) (q : Parts) → parts_count (merge_parts a b q) ≡ parts_count q
  unfolding merge_parts count
  parts-merge_parts true true q = refl
  parts-merge_parts true false q = omega (arith, count-append p q.main q.log)
  parts-merge_parts false true q = omega (arith, count-append p q.main q.pii)
  parts-merge_parts false false q =
      omega (arith, count-append p (q.main ++ q.pii) q.log, count-append p q.main q.pii)

  parts-collector_parts :
      (c : Config) (cmds : List Command) (q : Parts)
      → (contains_text (parse_scan_commands c.collector.scan_commands) (lit "all")
          && (use_separate_pii c || use_separate_log c))
        ≡ false
      → collector_parts c cmds ≡ built q
      → parts_count q ≡ count p cmds
  unfolding collector_parts partition_scheduled_commands count
  parts-collector_parts c cmds q n e =
      elim (Bool-cases (not (use_separate_pii c) && not (use_separate_log c))) [
        | inl t ↦
            let same : record { main = cmds; pii = []; log = [] } ≡ q =
              built_inj (rw (n, t) at e) in
            rw (sym same) (omega arith)
        | inr f ↦
            let same : merge_parts (use_separate_pii c) (use_separate_log c)
                  (partition_scheduled_commands cmds)
                ≡ q =
              built_inj (rw (n, f) at e) in
            rw (sym same) (
              omega (
                arith,
                parts-merge_parts (use_separate_pii c) (use_separate_log c)
                    (partition_scheduled_commands cmds),
                parts-file_commands cmds (record { main = []; pii = []; log = [] }),
              ))
      ]

  -- a part is empty unless it has a schedule of its own
  abbrev IsPlaced : Config → Parts → Type 0
  IsPlaced c q = HasPlace (trim_space c.pii_schedule) q.pii × HasPlace (log_parser_schedule c) q.log

  pii-schedule :
      (c : Config) → use_separate_pii c ≡ true → beq (trim_space c.pii_schedule) [] ≡ false
  unfolding use_separate_pii
  pii-schedule c h = ground arith

  log-schedule : (c : Config) → use_separate_log c ≡ true → beq (log_parser_schedule c) [] ≡ false
  unfolding use_separate_log
  log-schedule c h = ground arith

  trim-log_parser_schedule :
      (c : Config) → trim_space (log_parser_schedule c) ≡ log_parser_schedule c
  unfolding log_parser_schedule
  trim-log_parser_schedule c = elim (Option-cases c.collector.log_parser) [
    | inl e ↦ rw e refl
    | inr (lp, e) ↦ rw e (trim_space-trim_space lp.schedule)
  ]

  split_twice {ℓ} : {C : Type ℓ} {b : Bool} → b ≡ true → b ≡ false → C
  split_twice t f = cc

  HasPlace-of :
      (a b : Bool) (pii log : Text) (q : Parts)
      → (a ≡ true → beq (trim_space pii) [] ≡ false)
      → (b ≡ true → beq (trim_space log) [] ≡ false)
      → HasPlace pii (merge_parts a b q).pii × HasPlace log (merge_parts a b q).log
  unfolding merge_parts
  HasPlace-of true true pii log q h k = ((λ e. split_twice e (h refl)), λ e. split_twice e (k refl))
  HasPlace-of true false pii log q h k = ((λ e. split_twice e (h refl)), λ e. refl)
  HasPlace-of false true pii log q h k = ((λ e. refl), λ e. split_twice e (k refl))
  HasPlace-of false false pii log q h k = ((λ e. refl), λ e. refl)

  collector_parts-IsPlaced :
      (c : Config) (cmds : List Command) (q : Parts)
      → (contains_text (parse_scan_commands c.collector.scan_commands) (lit "all")
          && (use_separate_pii c || use_separate_log c))
        ≡ false
      → collector_parts c cmds ≡ built q
      → IsPlaced c q
  unfolding collector_parts
  collector_parts-IsPlaced c cmds q n e =
      elim (Bool-cases (not (use_separate_pii c) && not (use_separate_log c))) [
        | inl t ↦
            let same : record { main = cmds; pii = []; log = [] } ≡ q =
              built_inj (rw (n, t) at e) in
            rw (sym same) ((λ h. refl), λ h. refl)
        | inr f ↦
            let same : merge_parts (use_separate_pii c) (use_separate_log c)
                  (partition_scheduled_commands cmds)
                ≡ q =
              built_inj (rw (n, f) at e) in
            rw (sym same) (
              HasPlace-of (use_separate_pii c) (use_separate_log c) (trim_space c.pii_schedule)
                (log_parser_schedule c) (partition_scheduled_commands cmds)
                (λ h. rw (trim_space-trim_space c.pii_schedule) (pii-schedule c h))
                (λ h. rw (trim-log_parser_schedule c) (log-schedule c h)))
      ]

  scheduled-assign_parts :
      (a b d : Text) (q : Parts)
      → HasPlace a q.main
      → HasPlace b q.pii
      → HasPlace d q.log
      → scheduled (assign_parts a b d q []) ≡ parts_count q
  unfolding assign_parts scheduled
  scheduled-assign_parts a b d q h k l =
      let one = assign_schedule_commands [] a q.main in
      let two = assign_schedule_commands one b q.pii in
      omega (
        arith,
        scheduled-assign [] a q.main h,
        scheduled-assign one b q.pii k,
        scheduled-assign two d q.log l,
      )

  collector-schedule :
      (c : Config)
      → collector_schedule_ready c ≡ true
      → beq (trim_space c.collector.schedule) [] ≡ false
  unfolding collector_schedule_ready
  collector-schedule c h = elim (Option-cases c.postgres) [
    | inl e ↦ let x = rw e at h in cc
    | inr (pg, e) ↦ let x = rw e at h in ground arith
  ]

  scheduled-collector_schedules :
      (c : Config) (cmds : List Command) (out : Schedules)
      → collector_schedule_ready c ≡ true
      → (contains_text (parse_scan_commands c.collector.scan_commands) (lit "all")
          && (use_separate_pii c || use_separate_log c))
        ≡ false
      → commands_from_postgres c.postgres c.collector.scan_commands c.collector.log_parser
        ≡ built cmds
      → collector_schedules c ≡ built out
      → scheduled out ≡ count p cmds
  unfolding collector_schedules
  scheduled-collector_schedules c cmds out r n e k =
      let (cs, q, e1, e2, same) = ready_schedules-parts c (rw r at k) in
      let cmds_same : cs ≡ cmds = built_inj (sym e1 ∙ e) in
      let placed = collector_parts-IsPlaced c cs q n e2 in
      rw same (
        omega (
          arith,
          scheduled-assign_parts (trim_space c.collector.schedule) (trim_space c.pii_schedule)
              (log_parser_schedule c) q
              (λ h.
                split_twice h
                  (rw (trim_space-trim_space c.collector.schedule) (collector-schedule c r)))
              placed.0 placed.1,
          parts-collector_parts c cs q n e2,
          ap (count p) cmds_same,
        ))

  -- How many of the commands of the `[[crons]]` entries pass the test.
  unfoldable pub in_crons : List Cron → ℕ
  unfolding count
  in_crons [] = 0
  in_crons (cr ∷ crons) = count p cr.commands + in_crons crons

  scheduled-merge_legacy_crons :
      (next : Text → Option (ℕ × ℕ)) (i : ℕ) (crons : List Cron) (out out' : Schedules)
      → merge_legacy_crons next i crons out ≡ built out'
      → scheduled out' ≡ scheduled out + in_crons crons
  unfolding merge_legacy_crons in_crons
  scheduled-merge_legacy_crons next i [] out out' e = omega (arith, ap scheduled (built_inj e))
  scheduled-merge_legacy_crons next i (cr ∷ crons) out out' e =
      let (mid, e1, e2) =
        then_build-eq-built (merge_cron next (i + 1) cr out)
          (λ o. merge_legacy_crons next (i + 1) crons o) e in
      let (_, step) = merge_cron-built next (i + 1) cr out mid e1 in
      let one : scheduled mid ≡ scheduled out + count p cr.commands = elim step [
        | inl (none_given, same) ↦
            omega (arith, ap scheduled same, count-is_nil cr.commands none_given)
        | inr (_, same) ↦ omega (
          arith,
          ap scheduled same,
          scheduled-append_commands out (trim_space cr.schedule) cr.commands,
        )
      ] in
      omega (arith, one, scheduled-merge_legacy_crons next (i + 1) crons mid out' e2)

  -- If the `[collector]` section is ready, its commands are not "all" with a schedule of their own
  -- for the personal data or the logs, and there is a schedule map, then of the commands with any
  -- property the map has as many as the `[collector]` section and the `[[crons]]` entries
  -- together: each is scheduled exactly once.
  pub build_collector_schedule_map-count :
      (next : Text → Option (ℕ × ℕ)) (c : Config) (cmds : List Command) (out : Schedules)
      → collector_schedule_ready c ≡ true
      → (contains_text (parse_scan_commands c.collector.scan_commands) (lit "all")
          && (use_separate_pii c || use_separate_log c))
        ≡ false
      → commands_from_postgres c.postgres c.collector.scan_commands c.collector.log_parser
        ≡ built cmds
      → build_collector_schedule_map next (some c) ≡ built out
      → scheduled out ≡ count p cmds + in_crons c.crons
  unfolding build_collector_schedule_map
  build_collector_schedule_map-count next c cmds out r n e k =
      let (mid, e1, e2) =
        then_build-eq-built (collector_schedules c) (λ o. merge_legacy_crons next 0 c.crons o) k in
      omega (
        arith,
        scheduled-collector_schedules c cmds mid r n e e1,
        scheduled-merge_legacy_crons next 0 c.crons mid out e2,
      )
