-- ===== src/Pricing/Estimator.antt =====
-- `estimate` of app/domain/pricing/estimator.py with its helpers, on exact numbers. An empty table,
-- of which Python takes the last row, gives nothing.
use clean.Base.{
  ℕ, ◌+◌, ◌-◌, ◌*◌, ◌/◌, Bool, ◌&&◌, ◌||◌, List, [], ◌∷◌, Option, none, some, max, ltb, leb, ◌==◌,
  if◌then◌else◌, keep, ◌or_else◌,
}
use clean.Pricing.Rows.{
  Frequency, weekly, biweekly, AddOns, AddOnPrices, Request, HoursRow, Threshold, Tier, Config,
  Estimate,
}

-- The order of `sorted` by beds and baths.
abbrev pub before : HoursRow → HoursRow → Bool
before a b = ltb a.beds b.beds || ((a.beds == b.beds) && ltb a.baths b.baths)

-- The first of the rows in that order, and the last; of rows that are equal in it the first comes first.
unfoldable pub first_row : List HoursRow → Option HoursRow
first_row [] = none
first_row (r ∷ rs) = elim (first_row rs) [
  | none ↦ some r
  | some q ↦ if before q r then some q else some r
]

unfoldable pub last_row : List HoursRow → Option HoursRow
last_row [] = none
last_row (r ∷ rs) = elim (last_row rs) [
  | none ↦ some r
  | some q ↦ if before q r then some r else some q
]

abbrev pub head : List HoursRow → Option HoursRow
head [] = none
head (r ∷ _) = some r

abbrev pub is_exact : ℕ → ℕ → HoursRow → Bool
is_exact beds baths r = (r.beds == beds) && (r.baths == baths)

abbrev pub suffices : ℕ → ℕ → HoursRow → Bool
suffices beds baths r = leb beds r.beds && leb baths r.baths

-- `math.ceil` of bathrooms in hundredths.
abbrev pub baths_up : ℕ → ℕ
baths_up baths = (baths + 99) / 100

-- `_lookup_base_hours`: the row that it takes.
unfoldable pub lookup_row : List HoursRow → ℕ → ℕ → Option HoursRow
lookup_row table beds baths =
    head (keep (is_exact beds (baths_up baths)) table)
    or_else first_row (keep (suffices beds (baths_up baths)) table)
    or_else last_row table

-- The last row of the thresholds.
abbrev last_size : ℕ → List Threshold → ℕ
last_size n [] = n
last_size n (t ∷ ts) = last_size t.team_size ts

-- `_team_size`, of hours in ten-thousandths.
unfoldable pub team_size_from : ℕ → List Threshold → ℕ → ℕ
team_size_from last [] hours = last
team_size_from last (t ∷ ts) hours =
    let rest = team_size_from t.team_size ts hours in
    if leb hours (t.max_cleaner_hours * 100) then t.team_size else rest

unfoldable pub team_size : List Threshold → ℕ → Option ℕ
team_size [] hours = none
team_size (t ∷ ts) hours = some (team_size_from t.team_size (t ∷ ts) hours)

-- `_round_up` of `hours / team` to the step: the first in ten-thousandths, the step in hundredths.
unfoldable pub round_up : ℕ → ℕ → ℕ → ℕ
round_up hours team step = let unit = team * step * 100 in (hours + (unit - 1)) / unit * step

-- The loop over the tiers.
unfoldable pub grease_hours : List Tier → ℕ → ℕ
grease_hours [] beds = 0
grease_hours (t ∷ ts) beds =
    let rest = grease_hours ts beds in if leb beds t.max_beds then t.extra_hours else rest

unfoldable pub extra_hours : Config → Request → ℕ
extra_hours c q =
    (if q.heavy_grease then grease_hours c.heavy_grease_extra_hours q.beds else 0)
    + (if q.multi_floor then c.multi_floor_extra_hours else 0)

abbrev when : Bool → ℕ → ℕ
when b n = if b then n else 0

unfoldable pub add_ons_cost : AddOnPrices → AddOns → ℕ
add_ons_cost p a =
    when a.oven p.oven
    + when a.fridge p.fridge
    + when a.microwave p.microwave
    + when a.cabinets p.cabinets
    + when a.windows_up_to_5 p.windows_up_to_5
    + when a.balcony p.balcony
    + p.linen_per_bed * a.linen_beds
    + p.steam_armchair * a.steam_armchair
    + p.steam_sofa_2 * a.steam_sofa_2
    + p.steam_sofa_3 * a.steam_sofa_3
    + p.steam_sectional * a.steam_sectional
    + p.steam_mattress * a.steam_mattress
    + p.carpet_spot * a.carpet_spot

-- The discount of the frequencies that recur.
unfoldable pub discount : Config → Frequency → ℕ
discount c weekly = c.recurring_discounts weekly
discount c biweekly = c.recurring_discounts biweekly
discount c _ = 0

unfoldable pub total_cleaner_hours : Config → Request → ℕ → ℕ
total_cleaner_hours c q base =
    max (base * c.multipliers q.cleaning_type + extra_hours c q * 100) (c.min_cleaner_hours * 100)

-- The breakdown for the hours of the table and the size of the team.
unfoldable pub breakdown : Config → Request → ℕ → ℕ → Estimate
breakdown c q base team =
    let total = total_cleaner_hours c q base in
    let on_site = round_up total team c.time_on_site_rounding_hours in
    let labor = team * on_site * c.rate_per_cleaner_hour in
    let off = labor * discount c q.frequency in
    record {
      base_hours = base;
      total_cleaner_hours = total;
      team_size = team;
      time_on_site_hours = on_site;
      billed_cleaner_hours = team * on_site;
      labor_cost = labor;
      add_ons_cost = add_ons_cost c.add_ons q.add_ons;
      discount_amount = off;
      total_before_tax = labor * 100 - off + add_ons_cost c.add_ons q.add_ons * 10_000;
    }

-- `estimate`
unfoldable pub estimate : Request → Config → Option Estimate
estimate q c = elim (lookup_row c.base_hours_table q.beds q.baths) [
  | none ↦ none
  | some r ↦ elim (team_size c.team_size_thresholds (total_cleaner_hours c q r.hours)) [
    | none ↦ none
    | some team ↦ some (breakdown c q r.hours team)
  ]
]
