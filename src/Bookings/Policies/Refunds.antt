-- ===== src/Bookings/Policies/Refunds.antt =====
-- What a cancellation gives back.
use clean.Base.{ℕ, Bool, true, ◌&&◌, List, [], ◌∷◌, Option, none, some, ltb, leb, if◌then◌else◌}
use clean.Bookings.Policies.{Window, free, partial, late}

ends_after : ℕ → Option ℕ → Bool
ends_after notice none = true
ends_after notice (some e) = ltb notice e

-- The windows that a cancellation so many hours before the start falls into.
pub covers : ℕ → Window → Bool
unfolding ends_after
covers notice w = leb w.start_hours_before notice && ends_after notice w.end_hours_before

-- The refund that the terms of a service promise for so many hours of notice.
pub refund_for : Bool → ℕ → ℕ → ℕ
refund_for heavy partly notice =
    if leb (if heavy then 72 else 48) notice
    then 100
    else (if leb (if heavy then 48 else 24) notice then partly else 0)

-- The windows of `build_cancellation_policy`.
abbrev free_window : ℕ → Window
free_window a = record {
  label = free;
  start_hours_before = a;
  end_hours_before = none;
  refund_percent = 100;
}

abbrev partial_window : ℕ → ℕ → ℕ → Window
partial_window a b partly = record {
  label = partial;
  start_hours_before = b;
  end_hours_before = some a;
  refund_percent = partly;
}

abbrev late_window : ℕ → Window
late_window b = record {
  label = late;
  start_hours_before = 0;
  end_hours_before = some b;
  refund_percent = 0;
}

abbrev windows_of : ℕ → ℕ → ℕ → List Window
windows_of a b partly = free_window a ∷ partial_window a b partly ∷ late_window b ∷ []
