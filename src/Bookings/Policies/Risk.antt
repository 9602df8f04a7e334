-- ===== src/Bookings/Policies/Risk.antt =====
-- `evaluate_risk` of app/domain/bookings/service.py: the score and the band of a booking's risk.
use clean.Base.{
  ℕ, ◌+◌, ◌≤◌, ◌≡◌, min, max, Bool, true, false, ◌&&◌, not, List, [], ◌∷◌, ◌++◌, Option, ltb, leb,
  if◌then◌else◌, arith, ◌==◌,
}
use clean.Bookings.Policies.{is_high_value, hours}

pub data Band : Type 0 where
  low medium high : Band

pub data RiskReason : Type 0 where
  new_client high_total short_lead area_flagged cancel_history : RiskReason

-- `RiskAssessment`
pub record Assessment : Type 0 where
  pub risk_score : ℕ
  pub risk_band : Band
  pub risk_reasons : List RiskReason
  pub requires_deposit : Bool
  pub requires_manual_confirmation : Bool

abbrev weight : Bool → ℕ → ℕ
weight c n = if c then n else 0

-- The sum of the weights.
pub risk_points : Bool → Option ℕ → ℕ → Bool → ℕ → ℕ
risk_points has_history total lead_time flagged cancels =
    weight (not has_history) 20
    + weight (is_high_value total) 25
    + weight (ltb lead_time (hours 24)) 20
    + weight flagged 15
    + weight (not (cancels == 0)) 45
    + weight (ltb 1 cancels) 10

pub band_of : ℕ → Band
band_of score = if leb 75 score then high else (if leb 45 score then medium else low)

abbrev is_high : Band → Bool
is_high high = true
is_high _ = false

abbrev is_low : Band → Bool
is_low low = true
is_low _ = false

abbrev if_risk : Bool → RiskReason → List RiskReason
if_risk c r = if c then r ∷ [] else []

-- `evaluate_risk`, on what it reads about the client, the price, the notice, the area and the
-- cancellations.
pub evaluate_risk : Bool → Option ℕ → ℕ → Bool → ℕ → Assessment
unfolding risk_points band_of
evaluate_risk has_history total lead_time flagged cancels =
    let score = min (max (risk_points has_history total lead_time flagged cancels) 0) 100 in
    record {
      risk_score = score;
      risk_band = band_of score;
      risk_reasons =
          if_risk (not has_history) new_client
          ++ if_risk (is_high_value total) high_total
          ++ if_risk (ltb lead_time (hours 24)) short_lead
          ++ if_risk flagged area_flagged
          ++ if_risk (not (cancels == 0)) cancel_history;
      requires_deposit = not (is_low (band_of score));
      requires_manual_confirmation = is_high (band_of score);
    }

-- A client who is known, has cancelled nothing and gives a day's notice is never a risk; one
-- cancellation is enough to ask for a deposit, and two, from a client without history, for a manual
-- confirmation. A deposit is asked for from a score of 45, a confirmation from 75.
-- The score is at most 100, and a confirmation is asked for only where a deposit is.
pub risk_terms :
    (has_history flagged : Bool) (total : Option ℕ) (lead_time cancels : ℕ)
    → let r = evaluate_risk has_history total lead_time flagged cancels in
      (r.risk_score ≤ 100)
      × (r.requires_deposit ≡ leb 45 r.risk_score)
      × (r.requires_manual_confirmation ≡ leb 75 r.risk_score)
      × ((r.requires_manual_confirmation && not r.requires_deposit) ≡ false)
      × ((not (cancels == 0) && not r.requires_deposit) ≡ false)
      × ((ltb 1 cancels && (not has_history && not r.requires_manual_confirmation)) ≡ false)
      × ((has_history && ((cancels == 0) && (not (ltb lead_time (hours 24)) && r.requires_deposit)))
          ≡ false)
unfolding evaluate_risk risk_points band_of
risk_terms has_history flagged total lead_time cancels = (
  omega arith,
  ground arith,
  ground arith,
  ground arith,
  ground arith,
  ground arith,
  ground arith,
)
