-- ===== src/Bookings/Policies/Scenarios.antt =====
-- The terms of a deep clean for a new client, a day and a half ahead.
use clean.Base.{◌≤◌, ◌≡◌, false, ◌&&◌, not, some, ltb, leb, ◌==◌}
use clean.Bookings.Policies.{hours}
use clean.Bookings.Policies.Risk.{evaluate_risk, risk_terms}

risk_terms_example :
    let r = evaluate_risk false (some 32000) 3600 false 2 in
    (r.risk_score ≤ 100)
    × (r.requires_deposit ≡ leb 45 r.risk_score)
    × (r.requires_manual_confirmation ≡ leb 75 r.risk_score)
    × ((r.requires_manual_confirmation && not r.requires_deposit) ≡ false)
    × ((not (2 == 0) && not r.requires_deposit) ≡ false)
    × ((ltb 1 2 && (not false && not r.requires_manual_confirmation)) ≡ false)
    × ((false && ((2 == 0) && (not (ltb 3600 (hours 24)) && r.requires_deposit))) ≡ false)
risk_terms_example = risk_terms false false (some 32000) 3600 2
