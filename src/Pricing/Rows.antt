-- ===== src/Pricing/Rows.antt =====
-- The requests of app/domain/pricing/models.py and the configuration of the estimator. Hours,
-- bathrooms, multipliers and discounts are in hundredths, prices in cents.
use clean.Base.{ℕ, Bool, List}

pub data CleaningType : Type 0 where
  standard deep move_out_empty move_in_empty : CleaningType

pub data Frequency : Type 0 where
  one_time weekly biweekly monthly : Frequency

-- `AddOns`, and their prices in the configuration.
pub record AddOns : Type 0 where
  pub oven : Bool
  pub fridge : Bool
  pub microwave : Bool
  pub cabinets : Bool
  pub windows_up_to_5 : Bool
  pub balcony : Bool
  pub linen_beds : ℕ
  pub steam_armchair : ℕ
  pub steam_sofa_2 : ℕ
  pub steam_sofa_3 : ℕ
  pub steam_sectional : ℕ
  pub steam_mattress : ℕ
  pub carpet_spot : ℕ

pub record AddOnPrices : Type 0 where
  pub oven : ℕ
  pub fridge : ℕ
  pub microwave : ℕ
  pub cabinets : ℕ
  pub windows_up_to_5 : ℕ
  pub balcony : ℕ
  pub linen_per_bed : ℕ
  pub steam_armchair : ℕ
  pub steam_sofa_2 : ℕ
  pub steam_sofa_3 : ℕ
  pub steam_sectional : ℕ
  pub steam_mattress : ℕ
  pub carpet_spot : ℕ

-- `EstimateRequest`
pub record Request : Type 0 where
  pub beds : ℕ
  pub baths : ℕ
  pub cleaning_type : CleaningType
  pub heavy_grease : Bool
  pub multi_floor : Bool
  pub frequency : Frequency
  pub add_ons : AddOns

-- The rows of the tables of the configuration.
pub record HoursRow : Type 0 where
  pub beds : ℕ
  pub baths : ℕ
  pub hours : ℕ

pub record Threshold : Type 0 where
  pub max_cleaner_hours : ℕ
  pub team_size : ℕ

pub record Tier : Type 0 where
  pub max_beds : ℕ
  pub extra_hours : ℕ

-- `PricingConfig.data`
pub record Config : Type 0 where
  pub rate_per_cleaner_hour : ℕ
  pub min_cleaner_hours : ℕ
  pub time_on_site_rounding_hours : ℕ
  pub team_size_thresholds : List Threshold
  pub multipliers : CleaningType → ℕ
  pub heavy_grease_extra_hours : List Tier
  pub multi_floor_extra_hours : ℕ
  pub recurring_discounts : Frequency → ℕ
  pub base_hours_table : List HoursRow
  pub add_ons : AddOnPrices

-- The breakdown of an estimate before its amounts are rounded: `total_cleaner_hours` is in
-- ten-thousandths of an hour, `time_on_site_hours` and `billed_cleaner_hours` in hundredths;
-- `labor_cost` is in hundredths of a cent, the discount and the total in ten-thousandths.
pub record Estimate : Type 0 where
  pub base_hours : ℕ
  pub total_cleaner_hours : ℕ
  pub team_size : ℕ
  pub time_on_site_hours : ℕ
  pub billed_cleaner_hours : ℕ
  pub labor_cost : ℕ
  pub add_ons_cost : ℕ
  pub discount_amount : ℕ
  pub total_before_tax : ℕ
