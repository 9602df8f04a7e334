-- ===== src/Pricing/Scenarios.antt =====
-- The configuration of pricing/economy_v1.json, for up to four bedrooms, and a deep cleaning every week.
use clean.Base.{ℕ, ◌≤◌, ◌≡◌, refl, true, false, [], ◌∷◌, some, keep, All, arith}
use clean.Pricing.{
  CleaningType, standard, deep, move_out_empty, move_in_empty, Frequency, weekly, biweekly, Request,
  HoursRow, Threshold, Config, Estimate, before, first_row, suffices, lookup_row, team_size_from,
  team_size, round_up, grease_hours, extra_hours, add_ons_cost, discount, total_cleaner_hours,
  breakdown, estimate,
}
use clean.Pricing.Coverage.{Covers, estimate_terms}

abbrev multiplier : CleaningType → ℕ
multiplier standard = 100
multiplier deep = 120
multiplier move_out_empty = 135
multiplier move_in_empty = 135

abbrev recurring : Frequency → ℕ
recurring weekly = 10
recurring biweekly = 5
recurring _ = 0

abbrev row : ℕ → ℕ → ℕ → HoursRow
row beds baths hours = record { beds = beds; baths = baths; hours = hours }

abbrev up_to : ℕ → ℕ → Threshold
up_to hours team = record { max_cleaner_hours = hours; team_size = team }

abbrev economy : Config
economy = record {
  rate_per_cleaner_hour = 3500;
  min_cleaner_hours = 300;
  time_on_site_rounding_hours = 50;
  team_size_thresholds = up_to 450 1 ∷ up_to 800 2 ∷ up_to 999_900 3 ∷ [];
  multipliers = multiplier;
  heavy_grease_extra_hours =
      record { max_beds = 2; extra_hours = 50 }
      ∷ record { max_beds = 4; extra_hours = 100 }
      ∷ record { max_beds = 999; extra_hours = 150 }
      ∷ [];
  multi_floor_extra_hours = 50;
  recurring_discounts = recurring;
  base_hours_table =
      row 1 1 250 ∷ row 2 1 300 ∷ row 2 2 350 ∷ row 3 2 400 ∷ row 3 3 450 ∷ row 4 2 450 ∷ [];
  add_ons = record {
    oven = 3000;
    fridge = 2000;
    microwave = 1000;
    cabinets = 4000;
    windows_up_to_5 = 3000;
    balcony = 2500;
    linen_per_bed = 1000;
    steam_armchair = 4500;
    steam_sofa_2 = 9000;
    steam_sofa_3 = 11_000;
    steam_sectional = 15_000;
    steam_mattress = 11_000;
    carpet_spot = 3500;
  };
}

abbrev request : Request
request = record {
  beds = 3;
  baths = 150;
  cleaning_type = deep;
  heavy_grease = true;
  multi_floor = true;
  frequency = weekly;
  add_ons = record {
    oven = true;
    fridge = false;
    microwave = false;
    cabinets = false;
    windows_up_to_5 = false;
    balcony = false;
    linen_beds = 2;
    steam_armchair = 0;
    steam_sofa_2 = 0;
    steam_sofa_3 = 0;
    steam_sectional = 0;
    steam_mattress = 0;
    carpet_spot = 0;
  };
}

-- 6.3 hours by a team of two, in three and a half hours each.
abbrev estimated : Estimate
estimated = record {
  base_hours = 400;
  total_cleaner_hours = 63_000;
  team_size = 2;
  time_on_site_hours = 350;
  billed_cleaner_hours = 700;
  labor_cost = 2_450_000;
  add_ons_cost = 5000;
  discount_amount = 24_500_000;
  total_before_tax = 270_500_000;
}

is_estimated : estimate request economy ≡ some estimated
unfolding estimate lookup_row first_row team_size team_size_from total_cleaner_hours extra_hours
    grease_hours breakdown round_up add_ons_cost discount
is_estimated = refl

weekly_discount : discount economy weekly ≤ 100
unfolding discount
weekly_discount = omega arith

estimate_terms_example :
    Covers request economy estimated
    × ((r : HoursRow) × (400 ≡ r.hours)
        × (suffices 3 2 r ≡ true)
        × All (λ x. before x r ≡ false) (keep (suffices 3 2) economy.base_hours_table))
estimate_terms_example =
    estimate_terms request economy estimated (omega arith, (omega arith, (omega arith, tt)))
      (omega arith) weekly_discount refl is_estimated
