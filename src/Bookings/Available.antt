-- ===== src/Bookings/Available.antt =====
-- What an available slot keeps clear of, in terms of the rows.
use clean.Base.{
  ℕ, ◌+◌, ◌≤◌, ◌<◌, ◌≡◌, ◌⊎◌, sym, ap, true, false, not, ◌||◌, List, [], ◌∷◌, ◌++◌, map, Option,
  none, some, any, keep, All, leb, ◌==◌, Bool-cases, inl, inr, arith,
}
use mathlib.Core.Option.{some-injective}
use clean.Bookings.{
  Booking, Blackout, WorkingHours, Store, Calendar, minutes, finish, is_blocking, Blocked,
  blocked_by, blacked_out, conflicts, is_excluded, touches, in_window, blocked_windows, window_of,
  day_window, is_slot_available,
}
use clean.Bookings.Free.{is_slot_available-IsFree}

-- The hours of a working day: the team's own, or from nine to six.
abbrev pub hours_of : Option WorkingHours → ℕ × ℕ
hours_of none = (minutes 540, minutes 1080)
hours_of (some h) = (h.start_time, h.end_time)

-- From `t` to `t'` nothing of a blackout of the team.
abbrev pub IsOutside : ℕ → ℕ → ℕ → Blackout → Type 0
IsOutside team t t' o = ((o.team_id == team) ≡ false) ⊎ ((o.ends_at ≤ t) ⊎ (t' ≤ o.starts_at))

-- From half an hour before `t` to half an hour after `t'` nothing of a booking of the team, unless its
-- status does not block, it is the excluded one, or it is longer than twelve hours.
abbrev pub IsClear : ℕ → Option ℕ → ℕ → ℕ → Booking → Type 0
IsClear team excluded t t' b =
    (((b.team_id == team) ≡ false)
      ⊎ ((is_blocking b.status ≡ false)
          ⊎ ((is_excluded excluded b ≡ true) ⊎ (720 < b.duration_minutes))))
    ⊎ ((finish b + minutes 30 ≤ t) ⊎ (t' + minutes 30 ≤ b.starts_at))

window_of-hours :
    (c : Calendar) (date start end : ℕ) (w : ℕ × ℕ)
    → window_of c date start end ≡ some w
    → w ≡ (c.at date start, c.at date end)
unfolding window_of
window_of-hours c date start end w h = elim (Bool-cases (leb end start)) [
  | inl closed ↦ let clash : none ≡ some w = rw closed at h in cc clash
  | inr open_day ↦
      let h' : some (c.at date start, c.at date end) ≡ some w = rw open_day at h in
      sym (some-injective _ w h')
]

day_window-hours :
    (c : Calendar) (date : ℕ) (o : Option WorkingHours) (w : ℕ × ℕ)
    → day_window c date o ≡ some w
    → w ≡ (c.at date (hours_of o).0, c.at date (hours_of o).1)
unfolding day_window
day_window-hours c date none w h = window_of-hours c date _ _ w h
day_window-hours c date (some x) w h = window_of-hours c date _ _ w h

outside :
    (team day_start day_end t t' : ℕ) (os : List Blackout)
    → day_start ≤ t
    → t' ≤ day_end
    → any (conflicts t t') (map blacked_out (keep (touches team day_start day_end) os)) ≡ false
    → All (IsOutside team t t') os
outside team day_start day_end t t' [] from to h = tt
outside team day_start day_end t t' (o ∷ os) from to h =
    elim (Bool-cases (touches team day_start day_end o)) [
      | inl kept ↦
          let h' : (conflicts t t' (blacked_out o)
                || any (conflicts t t')
                    (map blacked_out (keep (touches team day_start day_end) os)))
              ≡ false =
            rw kept at h in
          (
            unfold conflicts blacked_out in ground (arith, h'),
            outside team day_start day_end t t' os from to (ground arith),
          )
      | inr left_out ↦ (
        unfold touches in ground (arith, left_out),
        outside team day_start day_end t t' os from to (rw left_out at h),
      )
    ]

apart :
    (t t' : ℕ) (b : Booking)
    → conflicts t t' (blocked_by b) ≡ false
    → (finish b + minutes 30 ≤ t) ⊎ (t' + minutes 30 ≤ b.starts_at)
unfolding conflicts blocked_by
apart t t' b e = ground (arith, e)

-- A booking that the window leaves out.
far_apart :
    (team day_start day_end t t' : ℕ) (excluded : Option ℕ) (b : Booking)
    → day_start ≤ t
    → t' ≤ day_end
    → in_window team day_start day_end b ≡ false
    → IsClear team excluded t t' b
unfolding in_window
far_apart team day_start day_end t t' excluded b from to out = ground (arith, out)

clear :
    (team day_start day_end t t' : ℕ) (excluded : Option ℕ) (bs : List Booking)
    (rest : List Blocked)
    → day_start ≤ t
    → t' ≤ day_end
    → any (conflicts t t') (
        map blocked_by
          (keep (λ b. not (is_excluded excluded b)) (keep (in_window team day_start day_end) bs))
        ++ rest)
      ≡ false
    → All (IsClear team excluded t t') bs × (any (conflicts t t') rest ≡ false)
clear team day_start day_end t t' excluded [] rest from to h = (tt, h)
clear team day_start day_end t t' excluded (b ∷ bs) rest from to h =
    elim (Bool-cases (in_window team day_start day_end b)) [
      | inr out ↦
          let (ih, ends) =
            clear team day_start day_end t t' excluded bs rest from to (rw out at h) in
          ((far_apart team day_start day_end t t' excluded b from to out, ih), ends)
      | inl in_it ↦ elim (Bool-cases (is_excluded excluded b)) [
        | inl own ↦
            let (ih, ends) =
              clear team day_start day_end t t' excluded bs rest from to (rw (in_it, own) at h) in
            ((inl (inr (inr (inl own))), ih), ends)
        | inr other ↦
            let h' : (conflicts t t' (blocked_by b)
                  || any (conflicts t t') (
                      map blocked_by (
                        keep (λ x. not (is_excluded excluded x))
                          (keep (in_window team day_start day_end) bs))
                      ++ rest))
                ≡ false =
              rw (in_it, other) at h in
            let (ih, ends) =
              clear team day_start day_end t t' excluded bs rest from to (ground arith) in
            ((inr (apart t t' b (ground arith)), ih), ends)
      ]
    ]

-- A slot that is available lies within the team's hours of its local date, or from nine to six if it
-- has none. It overlaps no blackout of the team, and keeps half an hour apart from every booking of the
-- team that is pending or confirmed, except the excluded one and bookings longer than twelve hours.
pub is_slot_available-IsClear :
    (c : Calendar) (t duration : ℕ) (s : Store) (team : ℕ) (excluded : Option ℕ)
    → is_slot_available c t duration s team excluded ≡ true
    → let date = c.local_date t in
      let (start, end) = hours_of (s.working_hours team (c.weekday date)) in
      (c.at date start ≤ t)
      × (t + minutes duration ≤ c.at date end)
      × All (IsOutside team t (t + minutes duration)) s.blackouts
      × All (IsClear team excluded t (t + minutes duration)) s.bookings
unfolding blocked_windows
is_slot_available-IsClear c t duration s team excluded h =
    let (w, day, v) = is_slot_available-IsFree c t duration s team excluded h in
    let hours = day_window-hours c (c.local_date t) _ w day in
    let (bookings, others) =
      clear team w.0 w.1 t (t + minutes duration) excluded s.bookings _ v.late_enough v.fits
        v.clear in
    (
      rw (ap (λ (p : ℕ × ℕ). p.0) hours) at v.late_enough,
      rw (ap (λ (p : ℕ × ℕ). p.1) hours) at v.fits,
      outside team w.0 w.1 t (t + minutes duration) s.blackouts v.late_enough v.fits others,
      bookings,
    )
