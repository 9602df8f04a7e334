-- ===== src/Pricing/Coverage.antt =====
-- What an estimate covers.
use clean.Base.{
  ℕ, ◌+◌, ◌-◌, ◌*◌, ◌/◌, ◌≤◌, ◌<◌, ◌≡◌, refl, true, false, List, [], ◌∷◌, none, some, leb, keep,
  any, All, arith, Bool-cases, Option-cases, inl, inr,
}
use mathlib.Core.Path.{subst}
use clean.Pricing.Lookup.{lookup_row-least}
use native.Mathlib.Nat.{mul-le-mul_left}
use mathlib.Core.Option.{some-injective}
use clean.Pricing.{
  Request, HoursRow, Threshold, Config, Estimate, before, suffices, baths_up, lookup_row,
  team_size_from, team_size, round_up, extra_hours, discount, total_cleaner_hours, breakdown,
  estimate,
}

-- A number of cleaners that is positive in every row.
abbrev pub AllPositive : List Threshold → Type 0
AllPositive = All (λ (t : Threshold). 1 ≤ t.team_size)

team_size_from-le :
    (last : ℕ) (ts : List Threshold) (hours : ℕ)
    → 1 ≤ last
    → AllPositive ts
    → 1 ≤ team_size_from last ts hours
unfolding team_size_from
team_size_from-le last [] hours low all = low
team_size_from-le last (t ∷ ts) hours low (here, all) =
    elim (Bool-cases (leb hours (t.max_cleaner_hours * 100))) [
      | inl fits ↦ rw (team_size_from, fits) here
      | inr more ↦ rw (team_size_from, more) (team_size_from-le t.team_size ts hours here all)
    ]

team_size-le :
    (ts : List Threshold) (hours n : ℕ) → AllPositive ts → team_size ts hours ≡ some n → 1 ≤ n
unfolding team_size
team_size-le [] hours n all e = cc e
team_size-le (t ∷ ts) hours n (here, all) e =
    subst (λ m. 1 ≤ m) (some-injective _ n e)
      (team_size_from-le t.team_size (t ∷ ts) hours here (here, all))

-- A quotient rounded up covers what is divided, with less than one unit to spare.
round_up_unit :
    (hours unit : ℕ)
    → 1 ≤ unit
    → (hours ≤ (hours + (unit - 1)) / unit * unit)
      × ((hours + (unit - 1)) / unit * unit < hours + unit)
round_up_unit hours unit h = (grind arith, grind arith)

reordered : (team m step : ℕ) → m * (team * step * 100) ≡ team * (m * step) * 100
reordered team m step = grind arith

round_up-covers :
    (hours team step : ℕ)
    → 1 ≤ team
    → 1 ≤ step
    → (hours ≤ team * round_up hours team step * 100)
      × (team * round_up hours team step * 100 < hours + team * step * 100)
unfolding round_up
round_up-covers hours team step t s =
    let unit = team * step * 100 in
    let low : 1 ≤ unit = grind arith in
    let (a, b) = round_up_unit hours unit low in
    let same = reordered team ((hours + (unit - 1)) / unit) step in
    (subst (λ n. hours ≤ n) same a, subst (λ n. n < hours + unit) same b)

-- What an estimate adds up to: enough hours, for the cleaning and the minimum, billed in whole steps
-- for every cleaner, and the cost of these hours less the discount, with the add-ons.
pub record Covers (q : Request) (c : Config) (e : Estimate) : Type 0 where
  pub at_least_minimum : c.min_cleaner_hours * 100 ≤ e.total_cleaner_hours
  pub at_least_work :
      e.base_hours * c.multipliers q.cleaning_type + extra_hours c q * 100 ≤ e.total_cleaner_hours
  pub has_team : 1 ≤ e.team_size
  pub billed_enough : e.total_cleaner_hours ≤ e.billed_cleaner_hours * 100
  pub billed_no_more :
      e.billed_cleaner_hours * 100
      < e.total_cleaner_hours + e.team_size * c.time_on_site_rounding_hours * 100
  pub discounted : e.discount_amount ≤ e.labor_cost * 100
  pub adds_up :
      e.total_before_tax + e.discount_amount ≡ e.labor_cost * 100 + e.add_ons_cost * 10_000

breakdown-Covers :
    (q : Request) (c : Config) (base team : ℕ)
    → 1 ≤ team
    → 1 ≤ c.time_on_site_rounding_hours
    → discount c q.frequency ≤ 100
    → Covers q c (breakdown c q base team)
unfolding breakdown total_cleaner_hours
breakdown-Covers q c base team t step off =
    let total = total_cleaner_hours c q base in
    let (a, b) = round_up-covers total team c.time_on_site_rounding_hours t step in
    let labor =
      team * round_up total team c.time_on_site_rounding_hours * c.rate_per_cleaner_hour in
    let less : labor * discount c q.frequency ≤ labor * 100 = mul-le-mul_left labor off in
    record {
      at_least_minimum = omega arith;
      at_least_work = omega arith;
      has_team = t;
      billed_enough = a;
      billed_no_more = b;
      discounted = less;
      adds_up = omega (arith, less);
    }

estimate-Covers :
    (q : Request) (c : Config) (e : Estimate)
    → AllPositive c.team_size_thresholds
    → 1 ≤ c.time_on_site_rounding_hours
    → discount c q.frequency ≤ 100
    → estimate q c ≡ some e
    → Covers q c e
      × ((r : HoursRow) × (lookup_row c.base_hours_table q.beds q.baths ≡ some r)
          × (e.base_hours ≡ r.hours))
unfolding estimate breakdown
estimate-Covers q c e sizes step off went =
    elim (Option-cases (lookup_row c.base_hours_table q.beds q.baths)) [
      | inl absent ↦ let clash : none ≡ some e = rw (estimate, absent) at went in cc clash
      | inr (r, found) ↦
          elim (Option-cases (team_size c.team_size_thresholds (total_cleaner_hours c q r.hours))) [
            | inl nobody ↦
                let clash : none ≡ some e = rw (estimate, found, nobody) at went in cc clash
            | inr (n, sized) ↦
                let is : some (breakdown c q r.hours n) ≡ some e =
                  rw (estimate, found, sized) at went in
                subst
                  (λ (x : Estimate).
                    Covers q c x
                    × ((r' : HoursRow) × (lookup_row c.base_hours_table q.beds q.baths ≡ some r')
                        × (x.base_hours ≡ r'.hours)))
                  (some-injective _ e is)
                  (
                    breakdown-Covers q c r.hours n
                        (team_size-le c.team_size_thresholds (total_cleaner_hours c q r.hours) n
                          sizes sized)
                        step off,
                    (r, found, refl),
                  )
          ]
    ]

-- An estimate takes its hours from a row that is enough for the bedrooms, and for the bathrooms rounded
-- up, before which no such row comes, if the table has one. Its total is at least the minimum, and at
-- least these hours, multiplied for the kind of cleaning, with the extra hours; a team is there; the
-- billed hours cover the total by less than a step for every cleaner; the discount is at most the cost
-- of labor, and what is left of that, with the add-ons, is the price. The teams and the step of the
-- configuration are positive, and the discount is at most everything.
pub estimate_terms :
    (q : Request) (c : Config) (e : Estimate)
    → AllPositive c.team_size_thresholds
    → 1 ≤ c.time_on_site_rounding_hours
    → discount c q.frequency ≤ 100
    → any (suffices q.beds (baths_up q.baths)) c.base_hours_table ≡ true
    → estimate q c ≡ some e
    → Covers q c e
      × ((r : HoursRow) × (e.base_hours ≡ r.hours)
          × (suffices q.beds (baths_up q.baths) r ≡ true)
          × All
              (λ x. before x r ≡ false)
              (keep (suffices q.beds (baths_up q.baths)) c.base_hours_table))
estimate_terms q c e sizes step off some_row went =
    let (covers, (r, found, hours)) = estimate-Covers q c e sizes step off went in
    let (enough, least) = lookup_row-least c.base_hours_table q.beds q.baths r some_row found in
    (covers, (r, hours, enough, least))
