-- ===== src/Disputes/Refunds.antt =====
-- The refunds of a booking against what it was charged.
use clean.Base.{
  ℕ, ◌+◌, ◌≤◌, ◌≡◌, ◌<◌, ◌⊎◌, refl, List, Option, none, some, ok, arith, inl, inr, >>=-eq-ok, ap,
  sym, ◌∙◌, put-keeps,
}
use clean.Base.Int.{ℤ, pos, pos_part, ◌-ℤ◌}
use clean.Disputes.Lifecycle.{run-keeps}
use clean.Disputes.Settled.{decide_dispute-Settled}
use clean.Disputes.{
  Store, Booking, Dispute, Facts, Decision, no_refund, partial_refund, full_refund, credit_note,
  Result, Error, effective_base_charge, available, decision_amount, adjust, settle, open_dispute,
  attach_facts, decide_dispute, close_dispute, Call, decide_call, perform, run,
  validate_refund_amount, facts_collected, facts_collected,
}

-- The refunds of a booking stay within what it was charged, where the charge is known.
abbrev pub IsWithinCharge : Booking → Type 0
IsWithinCharge b =
    (base : ℤ) → effective_base_charge b ≡ ok base → b.totals.refund_total ≤ pos_part base

ok-injective : {a b : ℤ} → ◌≡◌ {A = Result Error ℤ} (ok a) (ok b) → a ≡ b
ok-injective e = cc

validated_amount :
    (b : Booking) (amount : ℤ) (n : ℕ)
    → validate_refund_amount b amount ≡ ok n
    → (base : ℤ) × (effective_base_charge b ≡ ok base) × (n ≤ available base b) × (0 < n)
unfolding validate_refund_amount
validated_amount b amount n e =
    let (base, known, rest) = >>=-eq-ok (effective_base_charge b) _ e in
    (base, known, ground arith, ground arith)

-- A refund that is decided is at most what is left of the charge.
refund_amount :
    (b : Booking) (d : Decision) (amount : Option ℤ) (n : ℕ)
    → decision_amount b d amount ≡ ok n
    → (d ≡ partial_refund) ⊎ (d ≡ full_refund)
    → (base : ℤ) × (effective_base_charge b ≡ ok base) × (n ≤ available base b)
unfolding decision_amount
refund_amount b no_refund amount n e r = absurd (ground arith)
refund_amount b credit_note amount n e r = absurd (ground arith)
refund_amount b partial_refund none n e r = cc
refund_amount b partial_refund (some a) n e r = let v = validated_amount b a n e in (v.0, v.1, v.2)
refund_amount b full_refund none n e r =
    let (base, known, rest) = >>=-eq-ok (effective_base_charge b) _ e in (base, known, ground arith)
refund_amount b full_refund (some a) n e r =
    let (_, _, rest) = >>=-eq-ok (effective_base_charge b) _ e in
    let v = validated_amount b a n rest in (v.0, v.1, v.2)

refunded-IsWithinCharge :
    (b : Booking) (d : Decision) (amount : Option ℤ) (n : ℕ)
    → decision_amount b d amount ≡ ok n
    → (d ≡ partial_refund) ⊎ (d ≡ full_refund)
    → IsWithinCharge b
    → IsWithinCharge
        (record b { totals = record b.totals { refund_total = b.totals.refund_total + n } })
unfolding effective_base_charge ◌-ℤ◌
refunded-IsWithinCharge b d amount n e r w base known =
    let (base', known', cap) = refund_amount b d amount n e r in
    let same : base' ≡ base = ok-injective (sym known' ∙ known) in
    let old = w base known in
    let cap' : n ≤ pos_part (base -ℤ pos b.totals.refund_total) = rw (← same) cap in ground arith

pub adjust-IsWithinCharge :
    (b : Booking) (d : Decision) (amount : Option ℤ) (n : ℕ)
    → decision_amount b d amount ≡ ok n
    → IsWithinCharge b
    → IsWithinCharge (record b { totals = adjust d n b.totals })
unfolding adjust
adjust-IsWithinCharge b no_refund amount n e w = w
adjust-IsWithinCharge b credit_note amount n e w = unfold effective_base_charge in w
adjust-IsWithinCharge b partial_refund amount n e w =
    refunded-IsWithinCharge b partial_refund amount n e (inl refl) w
adjust-IsWithinCharge b full_refund amount n e w =
    refunded-IsWithinCharge b full_refund amount n e (inr refl) w

abbrev pub AllWithinCharge : Store → Type 0
AllWithinCharge s = (k : ℕ) (b : Booking) → s.bookings k ≡ some b → IsWithinCharge b

-- A decision that goes through changes one booking, by the amount that was allowed for it.
decide_dispute-AllWithinCharge :
    (id now : ℕ) (d : Decision) (amount : Option ℤ) (notes : Option ℕ) (s s' : Store)
    → decide_dispute id now d amount notes s ≡ ok s'
    → AllWithinCharge s
    → AllWithinCharge s'
unfolding settle
decide_dispute-AllWithinCharge id now d amount notes s s' e w k c h =
    let t = decide_dispute-Settled id now d amount notes s s' e in
    put-keeps (λ _ b. IsWithinCharge b) t.dispute.booking_id _ s.bookings w
      (adjust-IsWithinCharge t.booking d amount t.amount_cents t.allowed
        (w t.dispute.booking_id t.booking t.booked))
      k c (ap (λ (x : Store). x.bookings k) (sym t.written) ∙ h)

perform-AllWithinCharge :
    (c : Call) (s s' : Store) → perform c s ≡ ok s' → AllWithinCharge s → AllWithinCharge s'
unfolding perform open_dispute attach_facts close_dispute
perform-AllWithinCharge (decide_call id now d amount notes) s s' e w k b h =
    decide_dispute-AllWithinCharge id now d amount notes s s' e w k b h
perform-AllWithinCharge c s s' e w k b h =
    let same : s'.bookings k ≡ s.bookings k = ground arith in w k b (sym same ∙ h)

-- After any calls on any number of disputes, in any order and with any amounts asked for, the
-- refunds of every booking stay within its effective base charge, if they did before.
pub run-AllWithinCharge :
    (cs : List Call) (s : Store) → AllWithinCharge s → AllWithinCharge (run cs s)
run-AllWithinCharge = run-keeps AllWithinCharge perform-AllWithinCharge

-- A full refund with no amount named, on a dispute with evidence and a booking whose charge is
-- known and not exceeded, goes through and refunds the booking up to exactly that charge.
pub full_refund_exhausts :
    (id now : ℕ) (notes : Option ℕ) (s : Store) (d : Dispute) (b : Booking) (f : Facts) (base : ℤ)
    → s.disputes id ≡ some d
    → d.state ≡ facts_collected
    → d.facts_snapshot ≡ some f
    → s.bookings d.booking_id ≡ some b
    → effective_base_charge b ≡ ok base
    → b.totals.refund_total ≤ pos_part base
    → (s' : Store) × (decide_dispute id now full_refund none notes s ≡ ok s')
      × (b' : Booking) × (s'.bookings d.booking_id ≡ some b')
      × (b'.totals.refund_total ≡ pos_part base)
unfolding decide_dispute decision_amount settle adjust ◌-ℤ◌
full_refund_exhausts id now notes s d b f base found ready evidence booked known within = (
  settle id now d b f full_refund (available base b) notes s,
  ground arith,
  record b { totals = adjust full_refund (available base b) b.totals },
  ground arith,
  ground arith,
)
