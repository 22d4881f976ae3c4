-- ===== src/BackupHistory/Clock.antt =====
-- What cmd/ciscollector/backuphistory.go relies on of the package `time`: days, ISO weeks and
-- months are numbered in the order of the instants, a day or seven days on is the next number, and
-- so is a month on from the first 28 days of a month. From a later day, `AddDate` may skip a month.
use ciscollector_v.Common.{ℕ, ◌+◌, ◌≤◌, ◌<◌, ◌≡◌, ◌↔◌, ap, true, arith, Text, beq, beq_iff, ==_iff}
use ciscollector_v.BackupHistory.Defs.{Clock, daily, weekly, monthly, same_week}
use ciscollector_v.BackupHistory.Walk.{IsNumbered}

pub record Calendar (Time : Type 0) : Type 0 where
  pub day : Time → ℕ
  pub week : Time → ℕ
  pub month : Time → ℕ
  pub day_of_month : Time → ℕ
  -- the year and the week of a number
  pub iso : ℕ → ℕ × ℕ
  pub date_text : ℕ → Text
  pub month_text : ℕ → Text

pub record IsClock {Time : Type 0} (c : Clock Time) (k : Calendar Time) : Type 0 where
  pub day_order : (t u : Time) → c.instant t ≤ c.instant u → k.day t ≤ k.day u
  pub week_order : (t u : Time) → c.instant t ≤ c.instant u → k.week t ≤ k.week u
  pub month_order : (t u : Time) → c.instant t ≤ c.instant u → k.month t ≤ k.month u
  pub date_only_lem : (t : Time) → c.date_only t ≡ k.date_text (k.day t)
  pub year_month_lem : (t : Time) → c.year_month t ≡ k.month_text (k.month t)
  pub iso_week_lem : (t : Time) → c.iso_week t ≡ k.iso (k.week t)
  pub date_text_inj : (m n : ℕ) → k.date_text m ≡ k.date_text n → m ≡ n
  pub month_text_inj : (m n : ℕ) → k.month_text m ≡ k.month_text n → m ≡ n
  pub week_text_inj : (m n : ℕ) → c.week_text (k.iso m) ≡ c.week_text (k.iso n) → m ≡ n
  pub next_day : (t : Time) → k.day (c.add_days 1 t) ≡ k.day t + 1
  pub next_week : (t : Time) → k.week (c.add_days 7 t) ≡ k.week t + 1
  pub next_month :
      (t : Time)
      → k.day_of_month t ≤ 28
      → (k.month (c.add_months 1 t) ≡ k.month t + 1) × (k.day_of_month (c.add_months 1 t) ≤ 28)
  pub later_month : (t : Time) → k.month t < k.month (c.add_months 1 t)

same_week_iff : (a b : ℕ × ℕ) → (same_week a b ≡ true) ↔ (a ≡ b)
same_week_iff (y, w) (z, v) = ground (arith, ==_iff y z, ==_iff w v)

-- Texts that tell a number are equal when the numbers are.
same_text :
    {Time : Type 0} (label : Time → Text) (number : Time → ℕ) (text : ℕ → Text)
    → ((t : Time) → label t ≡ text (number t))
    → ((m n : ℕ) → text m ≡ text n → m ≡ n)
    → (t u : Time) → (beq (label t) (label u) ≡ true) ↔ (number t ≡ number u)
same_text label number text tells inj t u = ground (
  arith,
  beq_iff (label t) (label u),
  tells t,
  tells u,
  inj (number t) (number u),
  λ (e : number t ≡ number u). ap text e,
)

abbrev pub Always : {Time : Type 0} → Time → Type 0
Always t = Unit

module _ {Time : Type 0} {c : Clock Time} {k : Calendar Time} (law : IsClock c k) where
  pub daily-IsNumbered : IsNumbered (daily c) k.day k.date_text Always
  daily-IsNumbered = record {
    same_iff =
        λ t u. same_text c.date_only k.day k.date_text law.date_only_lem law.date_text_inj t u;
    label_lem = law.date_only_lem;
    text_inj = law.date_text_inj;
    next_lem = λ t _. (law.next_day t, tt);
  }

  abbrev pub week_label : ℕ → Text
  week_label n = c.week_text (k.iso n)

  pub weekly-IsNumbered : IsNumbered (weekly c) k.week week_label Always
  weekly-IsNumbered = record {
    same_iff = λ t u. ground (
      arith,
      same_week_iff (c.iso_week t) (c.iso_week u),
      law.iso_week_lem t,
      law.iso_week_lem u,
      (λ (e : k.week t ≡ k.week u). ap k.iso e),
      λ (e : k.iso (k.week t) ≡ k.iso (k.week u)).
          law.week_text_inj (k.week t) (k.week u) (ap c.week_text e),
    );
    label_lem = λ t. ap c.week_text (law.iso_week_lem t);
    text_inj = law.week_text_inj;
    next_lem = λ t _. (law.next_week t, tt);
  }

  abbrev pub IsEarly : Time → Type 0
  IsEarly t = k.day_of_month t ≤ 28

  pub monthly-IsNumbered : IsNumbered (monthly c) k.month k.month_text IsEarly
  monthly-IsNumbered = record {
    same_iff = λ t u.
        same_text c.year_month k.month k.month_text law.year_month_lem law.month_text_inj t u;
    label_lem = law.year_month_lem;
    text_inj = law.month_text_inj;
    next_lem = law.next_month;
  }
