-- ===== src/Schedule/Complete.antt =====
-- collector_schedules.go: the entries of the schedule map, and the `[[crons]]` that it accepts.
use ciscollector_v.Common.{
  ℕ, ◌+◌, ◌-◌, ◌*◌, ◌≤◌, ◌≡◌, refl, sym, ◌⊎◌, ◌↔◌, inl, inr, true, false, ◌||◌, Option, some, List,
  [], ◌∷◌, ◌++◌, Text, beq, leb, leb→le, trim_space, is_nil, All, arith, Bool-cases, Option-cases,
}
use ciscollector_v.Common.TextLaws.{trim_space-trim_space}
use ciscollector_v.Common.Maps.{lookup, insert, text_eq}
use ciscollector_v.Schedule.Commands.{
  Command, Built, built, rejected, ◌then_build◌, commands_from_postgres, Parts,
}
use ciscollector_v.Schedule.Crons.{
  Cron, Config, Schedules, commands_at, append_commands, assign_schedule_commands,
  log_parser_schedule, collector_schedule_ready, assign_parts, collector_parts, ready_schedules,
  collector_schedules, is_less_than_24_hours, merge_cron, merge_legacy_crons,
  build_collector_schedule_map,
}

pub then_build-eq-built :
    {A B : Type 0} (m : Built A) (f : A → Built B) {b : B}
    → (m then_build f) ≡ built b
    → (a : A) × (m ≡ built a) × (f a ≡ built b)
then_build-eq-built (rejected e) f h = cc
then_build-eq-built (built a) f h = (a, refl, h)

-- An entry has a schedule that is not blank, and at least one command.
abbrev pub IsUseful : Text × List Command → Type 0
IsUseful (sched, cmds) = (beq (trim_space sched) [] ≡ false) × (is_nil cmds ≡ false)

is_nil-append : {A : Type 0} (xs ys : List A) → is_nil ys ≡ false → is_nil (xs ++ ys) ≡ false
is_nil-append [] ys h = h
is_nil-append (x ∷ xs) ys h = refl

insert-IsUseful :
    (out : Schedules) (sched : Text) (cmds : List Command)
    → IsUseful (sched, cmds)
    → All IsUseful out
    → All IsUseful (insert sched cmds out)
unfolding insert
insert-IsUseful [] sched cmds h hs = (h, tt)
insert-IsUseful ((k, v) ∷ out) sched cmds h (g, hs) = elim (Bool-cases (beq k sched)) [
  | inl e ↦ rw (e, insert) ((g.0, h.1), hs)
  | inr e ↦ rw (e, insert) (g, insert-IsUseful out sched cmds h hs)
]

append_commands-IsUseful :
    (out : Schedules) (sched : Text) (cmds : List Command)
    → IsUseful (sched, cmds)
    → All IsUseful out
    → All IsUseful (append_commands out sched cmds)
unfolding append_commands
append_commands-IsUseful out sched cmds h hs =
    insert-IsUseful out sched (commands_at (lookup sched out) ++ cmds)
      (h.0, is_nil-append (commands_at (lookup sched out)) cmds h.1) hs

assign-IsUseful :
    (out : Schedules) (sched : Text) (cmds : List Command)
    → All IsUseful out
    → All IsUseful (assign_schedule_commands out sched cmds)
unfolding assign_schedule_commands
assign-IsUseful out sched cmds hs = elim (Bool-cases (beq (trim_space sched) [] || is_nil cmds)) [
  | inl e ↦ rw e hs
  | inr e ↦ rw e (append_commands-IsUseful out sched cmds (ground arith, ground arith) hs)
]

pub built_inj : {A : Type 0} {a b : A} → built a ≡ built b → a ≡ b
built_inj e = cc

pub ready_schedules-parts :
    (c : Config) {out : Schedules}
    → ready_schedules c ≡ built out
    → (cmds : List Command) × (p : Parts) × (commands_from_postgres c.postgres
          c.collector.scan_commands c.collector.log_parser
        ≡ built cmds)
      × (collector_parts c cmds ≡ built p)
      × (out
          ≡ assign_parts
              (trim_space c.collector.schedule)
              (trim_space c.pii_schedule)
              (log_parser_schedule c)
              p
              [])
unfolding ready_schedules
ready_schedules-parts c e =
    let (cmds, e1, e2) = then_build-eq-built _ _ e in
    let (p, e3, e4) = then_build-eq-built _ _ e2 in (cmds, p, e1, e3, sym (built_inj e4))

assign_parts-IsUseful :
    (a b d : Text) (p : Parts) (out : Schedules)
    → All IsUseful out
    → All IsUseful (assign_parts a b d p out)
unfolding assign_parts
assign_parts-IsUseful a b d p out h =
    let one = assign_schedule_commands out a p.main in
    let two = assign_schedule_commands one b p.pii in
    assign-IsUseful two d p.log (assign-IsUseful one b p.pii (assign-IsUseful out a p.main h))

collector_schedules-IsUseful :
    (c : Config) {out : Schedules} → collector_schedules c ≡ built out → All IsUseful out
unfolding collector_schedules
collector_schedules-IsUseful c {out} e = elim (Bool-cases (collector_schedule_ready c)) [
  | inr f ↦ let same : [] ≡ out = built_inj (rw f at e) in rw (sym same) tt
  | inl t ↦
      let (cmds, p, e1, e2, same) = ready_schedules-parts c (rw t at e) in
      rw same (
        assign_parts-IsUseful (trim_space c.collector.schedule) (trim_space c.pii_schedule)
          (log_parser_schedule c) p [] tt)
]

module _ (get_next_two_occurrences : Text → Option (ℕ × ℕ)) where
  -- The entry has a schedule, which the cron library reads, and whose next two times lie 24 hours
  -- or more apart.
  abbrev pub IsRare : Cron → Type 0
  IsRare cr =
      (beq (trim_space cr.schedule) [] ≡ false)
      × (first : ℕ) × (second : ℕ) × (get_next_two_occurrences (trim_space cr.schedule)
          ≡ some (first, second))
      × (24 * 3600 ≤ second - first)

  pub merge_cron-built :
      (i : ℕ) (cr : Cron) (out out' : Schedules)
      → merge_cron get_next_two_occurrences i cr out ≡ built out'
      → IsRare cr
        × (((is_nil cr.commands ≡ true) × (out' ≡ out))
            ⊎ ((is_nil cr.commands ≡ false)
                × (out' ≡ append_commands out (trim_space cr.schedule) cr.commands)))
  unfolding merge_cron is_less_than_24_hours
  merge_cron-built i cr out out' e = elim (Bool-cases (beq (trim_space cr.schedule) [])) [
    | inl t ↦ let x = rw t at e in cc
    | inr f ↦ elim (Option-cases (get_next_two_occurrences (trim_space cr.schedule))) [
      | inl p ↦ let x = rw (f, p) at e in cc
      | inr ((a, b), p) ↦ elim (Bool-cases (leb (24 * 3600) (b - a))) [
        | inr g ↦ let x = rw (f, p, g) at e in cc
        | inl g ↦ elim (Bool-cases (is_nil cr.commands)) [
          | inl z ↦ (
            (f, a, b, p, leb→le (24 * 3600) (b - a) g),
            inl (z, sym (built_inj (rw (f, p, g, z) at e))),
          )
          | inr z ↦ (
            (f, a, b, p, leb→le (24 * 3600) (b - a) g),
            inr (z, sym (built_inj (rw (f, p, g, z) at e))),
          )
        ]
      ]
    ]
  ]

  merge_legacy_crons-built :
      (i : ℕ) (crons : List Cron) (out out' : Schedules)
      → merge_legacy_crons get_next_two_occurrences i crons out ≡ built out'
      → All IsUseful out
      → All IsRare crons × All IsUseful out'
  unfolding merge_legacy_crons
  merge_legacy_crons-built i [] out out' e h = (tt, rw (sym (built_inj e)) h)
  merge_legacy_crons-built i (cr ∷ crons) out out' e h =
      let (mid, e1, e2) =
        then_build-eq-built (merge_cron get_next_two_occurrences (i + 1) cr out)
          (λ o. merge_legacy_crons get_next_two_occurrences (i + 1) crons o) e in
      let (rare, step) = merge_cron-built (i + 1) cr out mid e1 in
      let useful : All IsUseful mid = elim step [
        | inl (_, same) ↦ rw same h
        | inr (some_command, same) ↦ rw same (
            append_commands-IsUseful out (trim_space cr.schedule) cr.commands
              (rw (trim_space-trim_space cr.schedule) rare.0, some_command) h)
      ] in
      let rest = merge_legacy_crons-built (i + 1) crons mid out' e2 useful in
      ((rare, rest.0), rest.1)

  merge_cron-IsRare :
      (i : ℕ) (cr : Cron) (out : Schedules)
      → IsRare cr
      → (out' : Schedules) × (merge_cron get_next_two_occurrences i cr out ≡ built out')
  unfolding merge_cron is_less_than_24_hours
  merge_cron-IsRare i cr out (f, a, b, p, le) =
      let g : leb (24 * 3600) (b - a) ≡ true = ground arith in
      elim (Bool-cases (is_nil cr.commands)) [
        | inl z ↦ (out, rw (f, p, g, z) refl)
        | inr z ↦ (append_commands out (trim_space cr.schedule) cr.commands, rw (f, p, g, z) refl)
      ]

  merge_legacy_crons-IsRare :
      (i : ℕ) (crons : List Cron) (out : Schedules)
      → All IsRare crons
      → (out' : Schedules) × (merge_legacy_crons get_next_two_occurrences i crons out ≡ built out')
  unfolding merge_legacy_crons
  merge_legacy_crons-IsRare i [] out h = (out, refl)
  merge_legacy_crons-IsRare i (cr ∷ crons) out h =
      let (mid, one) = merge_cron-IsRare (i + 1) cr out h.0 in
      let (out', rest) = merge_legacy_crons-IsRare (i + 1) crons mid h.1 in (out', rw one rest)

  -- A configuration has a schedule map exactly if its collector section has one and every `[[crons]]`
  -- entry has a schedule that is not blank, that the cron library reads, and whose next two times,
  -- seen from the moment of the check, lie 24 hours or more apart. Every entry of the map then has
  -- a schedule that is not blank and at least one command.
  pub build_collector_schedule_map-IsUseful :
      (c : Config)
      → (((out : Schedules) × (build_collector_schedule_map get_next_two_occurrences (some c)
              ≡ built out))
          ↔ (((mid : Schedules) × (collector_schedules c ≡ built mid)) × All IsRare c.crons))
        × ((out : Schedules)
            → build_collector_schedule_map get_next_two_occurrences (some c) ≡ built out
            → All IsUseful out)
  unfolding build_collector_schedule_map
  build_collector_schedule_map-IsUseful c = (
    (
      (λ (out, e).
          let (mid, e1, e2) = parts out e in
          (
            (mid, e1),
            (merge_legacy_crons-built 0 c.crons mid out e2 (collector_schedules-IsUseful c e1)).0,
          )),
      λ ((mid, e1), rare).
          let (out, e2) = merge_legacy_crons-IsRare 0 c.crons mid rare in (out, rw e1 e2),
    ),
    λ out e.
        let (mid, e1, e2) = parts out e in
        (merge_legacy_crons-built 0 c.crons mid out e2 (collector_schedules-IsUseful c e1)).1,
  )
    where
      parts :
          (out : Schedules)
          → build_collector_schedule_map get_next_two_occurrences (some c) ≡ built out
          → (mid : Schedules) × (collector_schedules c ≡ built mid)
            × (merge_legacy_crons get_next_two_occurrences 0 c.crons mid ≡ built out)
      parts out e =
          then_build-eq-built (collector_schedules c)
            (λ o. merge_legacy_crons get_next_two_occurrences 0 c.crons o) e
