-- ===== src/Disputes/Ledger.antt =====
-- The adjustment events against the totals of the bookings.
use clean.Base.{
  ℕ, ◌+◌, ◌≡◌, refl, sym, ap, ◌∙◌, ◌==◌, if◌then◌else◌, false, List, [], ◌∷◌, Option, some, ok,
  arith, put-keeps_ne,
}
use clean.Base.Int.{ℤ}
use clean.Disputes.{
  Store, Decision, partial_refund, full_refund, credit_note, Booking, Adjustment, Totals, adjust,
  settle, settled_event, Call, open_call, attach_call, decide_call, close_call, perform, run,
}
use clean.Disputes.Settled.{
  Settled, decide_dispute-Settled, open_dispute-Opened, attach_facts-Attached, close_dispute-Closed,
}
use clean.Disputes.Lifecycle.{run-keeps}

-- What an event refunds, and what it credits.
abbrev pub refunds : Decision → ℕ → ℕ
refunds partial_refund n = n
refunds full_refund n = n
refunds _ n = 0

abbrev pub credits : Decision → ℕ → ℕ
credits credit_note n = n
credits _ n = 0

abbrev pub refunded : ℕ → List Adjustment → ℕ
refunded k [] = 0
refunded k (a ∷ as') =
    (if a.booking_id == k then refunds a.adjustment_type a.amount_cents else 0) + refunded k as'

abbrev pub credited : ℕ → List Adjustment → ℕ
credited k [] = 0
credited k (a ∷ as') =
    (if a.booking_id == k then credits a.adjustment_type a.amount_cents else 0) + credited k as'

-- The totals of a booking are those at first, and what the events on it refund and credit.
pub record Agrees (first : ℕ → Option Totals) (events : List Adjustment) (k : ℕ) (b : Booking)
    : Type 0 where
  pub start : Totals
  pub began : first k ≡ some start
  pub same_base : b.totals.base_charge ≡ start.base_charge
  pub refunds_match : b.totals.refund_total ≡ start.refund_total + refunded k events
  pub credits_match : b.totals.credit_note_total ≡ start.credit_note_total + credited k events

adjusted-Agrees :
    (first : ℕ → Option Totals) (events : List Adjustment) (k : ℕ) (b : Booking) (d : Decision)
    (n : ℕ) (a : Adjustment)
    → a.booking_id ≡ k
    → a.adjustment_type ≡ d
    → a.amount_cents ≡ n
    → Agrees first events k b
    → Agrees first (a ∷ events) k (record b { totals = adjust d n b.totals })
unfolding adjust
adjusted-Agrees first events k b d n a p q r g = record {
  start = g.start;
  began = g.began;
  same_base = ground (arith, g.same_base);
  refunds_match = ground (arith, g.refunds_match);
  credits_match = ground (arith, g.credits_match);
}

other-Agrees :
    (first : ℕ → Option Totals) (events : List Adjustment) (k : ℕ) (b : Booking) (a : Adjustment)
    → (a.booking_id == k) ≡ false
    → Agrees first events k b
    → Agrees first (a ∷ events) k b
other-Agrees first events k b a other g = record {
  start = g.start;
  began = g.began;
  same_base = g.same_base;
  refunds_match = rw other (omega (arith, g.refunds_match));
  credits_match = rw other (omega (arith, g.credits_match));
}

-- So it is with every booking.
abbrev pub Accounts : (ℕ → Option Totals) → Store → Type 0
Accounts first s = (k : ℕ) (b : Booking) → s.bookings k ≡ some b → Agrees first s.adjustments k b

decide_dispute-Accounts :
    (first : ℕ → Option Totals) (id now : ℕ) (d : Decision) (amount : Option ℤ) (notes : Option ℕ)
    (s s' : Store)
    → Settled id now d amount notes s s'
    → Accounts first s
    → Accounts first s'
unfolding settle
decide_dispute-Accounts first id now d amount notes s s' t w k b h =
    let a = settled_event id d t.dispute t.booking t.amount_cents in
    let events : s'.adjustments ≡ a ∷ s.adjustments = ap (λ (x : Store). x.adjustments) t.written in
    rw events (
      put-keeps_ne (Agrees first (a ∷ s.adjustments)) t.dispute.booking_id _ s.bookings
        (λ j u other e. other-Agrees first s.adjustments j u a other (w j u e))
        (adjusted-Agrees first s.adjustments t.dispute.booking_id t.booking d t.amount_cents a refl
          refl refl (w t.dispute.booking_id t.booking t.booked))
        k b (ap (λ (x : Store). x.bookings k) (sym t.written) ∙ h))

perform-Accounts :
    (first : ℕ → Option Totals) (c : Call) (s s' : Store)
    → perform c s ≡ ok s'
    → Accounts first s
    → Accounts first s'
unfolding perform
perform-Accounts first (open_call fresh booking reason by) s s' e w k b h =
    let t = open_dispute-Opened fresh booking reason by s s' e in
    rw t.written (w k b (ap (λ (x : Store). x.bookings k) (sym t.written) ∙ h))
perform-Accounts first (attach_call id f) s s' e w k b h =
    let t = attach_facts-Attached id f s s' e in
    rw t.written (w k b (ap (λ (x : Store). x.bookings k) (sym t.written) ∙ h))
perform-Accounts first (decide_call id now x amount notes) s s' e w k b h =
    decide_dispute-Accounts first id now x amount notes s s'
      (decide_dispute-Settled id now x amount notes s s' e) w k b h
perform-Accounts first (close_call id now note) s s' e w k b h =
    let t = close_dispute-Closed id now note s s' e in
    rw t.written (w k b (ap (λ (x : Store). x.bookings k) (sym t.written) ∙ h))

-- After any calls on a database that began without events, every booking's base charge is what it
-- was, its refunds have grown by exactly the events that refund it, its credit notes by exactly
-- the events that credit it.
pub run-Accounts :
    (cs : List Call) (s : Store) (first : ℕ → Option Totals)
    → s.adjustments ≡ []
    → ((k : ℕ) (b : Booking) → s.bookings k ≡ some b → first k ≡ some b.totals)
    → Accounts first (run cs s)
run-Accounts cs s first clean begun =
    run-keeps (Accounts first) (perform-Accounts first) cs s (λ k b h. rw clean (record {
      start = b.totals;
      began = begun k b h;
      same_base = refl;
      refunds_match = omega arith;
      credits_match = omega arith;
    }))
