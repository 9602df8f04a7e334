-- ===== src/Bookings/Free.antt =====
-- What a slot of `Slots` is.
use clean.Base.{
  ℕ, zero, suc, ◌+◌, ◌-◌, ◌/◌, ◌≤◌, ◌≡◌, refl, Bool, true, false, ◌||◌, List, [], ◌∷◌, ◌++◌, map,
  Option, none, some, any, keep, All, leb, ◌==◌, Bool-cases, inl, inr, arith,
}
use clean.Bookings.{
  Booking, Store, Calendar, minutes, slot_step, Blocked, blocked_by, conflicts, slots_from,
  blocked_windows, day_window, slots_in, generate_slots, is_slot_available,
}

-- A time at or after `from` at which the duration fits before `day_end` and touches nothing blocked.
pub record IsFree (from duration day_end : ℕ) (blocked : List Blocked) (t : ℕ) : Type 0 where
  pub late_enough : from ≤ t
  pub fits : t + duration ≤ day_end
  pub clear : any (conflicts t (t + duration)) blocked ≡ false

abbrev among : ℕ → List ℕ → Bool
among t ts = any (λ u. u == t) ts

slots_from-IsFree :
    (fuel duration day_end : ℕ) (blocked : List Blocked) (candidate t : ℕ)
    → among t (slots_from fuel duration day_end blocked candidate) ≡ true
    → IsFree candidate duration day_end blocked t
unfolding slots_from
slots_from-IsFree zero duration day_end blocked candidate t h = cc
slots_from-IsFree (suc fuel) duration day_end blocked candidate t h =
    elim (Bool-cases (leb (candidate + duration) day_end)) [
      | inr late ↦ absurd (cc (rw late at h))
      | inl fits ↦ elim (Bool-cases (any (conflicts candidate (candidate + duration)) blocked)) [
        | inl taken ↦
            let v =
              slots_from-IsFree fuel duration day_end blocked (candidate + slot_step) t
                (rw (fits, taken) at h) in
            record { late_enough = omega (arith, v.late_enough); fits = v.fits; clear = v.clear }
        | inr clear ↦ elim (Bool-cases (candidate == t)) [
          | inl here ↦
              let e : candidate ≡ t = ground arith in
              record { late_enough = ground arith; fits = ground arith; clear = rw e at clear }
          | inr other ↦
              let v =
                slots_from-IsFree fuel duration day_end blocked (candidate + slot_step) t
                  (rw (fits, clear, other) at h) in
              record { late_enough = omega (arith, v.late_enough); fits = v.fits; clear = v.clear }
        ]
      ]
    ]

pub clear_of_bookings :
    (q : Blocked → Bool) (p p' : Booking → Bool) (xs : List Booking) (rest : List Blocked)
    → any q (map blocked_by (keep p (keep p' xs)) ++ rest) ≡ false
    → All (λ y. p' y ≡ true → p y ≡ true → q (blocked_by y) ≡ false) xs
clear_of_bookings q p p' [] rest h = tt
clear_of_bookings q p p' (x ∷ xs) rest h = elim (Bool-cases (p' x)) [
  | inr out ↦ (λ i. absurd (ground arith), clear_of_bookings q p p' xs rest (rw out at h))
  | inl in_it ↦ elim (Bool-cases (p x)) [
    | inr out ↦
        (λ i j. absurd (ground arith), clear_of_bookings q p p' xs rest (rw (in_it, out) at h))
    | inl kept ↦
        let h' : (q (blocked_by x) || any q (map blocked_by (keep p (keep p' xs)) ++ rest))
            ≡ false =
          rw (in_it, kept) at h in
        (λ i j. ground arith, clear_of_bookings q p p' xs rest (ground arith))
  ]
]

-- Any time of the list is free after the start, and any free time of the grid is in the list.
slots_in-IsFree :
    (o : Option (ℕ × ℕ)) (duration : ℕ) (s : Store) (team : ℕ) (excluded : Option ℕ) (t : ℕ)
    → among t (slots_in o duration s team excluded) ≡ true
    → (w : ℕ × ℕ) × (o ≡ some w)
      × IsFree w.0 duration w.1 (blocked_windows s team w.0 w.1 excluded) t
unfolding slots_in
slots_in-IsFree none duration s team excluded t h = cc
slots_in-IsFree (some w) duration s team excluded t h =
    (w, refl, slots_from-IsFree (suc ((w.1 - w.0) / slot_step)) duration w.1 _ w.0 t h)

-- A slot that is available starts no earlier than the working day of its local date, ends no later,
-- and touches neither a blackout of the team nor, with half an hour around it, a blocking booking of
-- the team in the day's window, except the excluded one.
pub is_slot_available-IsFree :
    (c : Calendar) (t duration : ℕ) (s : Store) (team : ℕ) (excluded : Option ℕ)
    → is_slot_available c t duration s team excluded ≡ true
    → (w : ℕ × ℕ) × (day_window c
          (c.local_date t)
          (s.working_hours team (c.weekday (c.local_date t)))
        ≡ some w)
      × IsFree w.0 (minutes duration) w.1 (blocked_windows s team w.0 w.1 excluded) t
unfolding is_slot_available generate_slots
is_slot_available-IsFree c t duration s team excluded h = slots_in-IsFree _ _ s team excluded t h
