-- ===== src/Bookings/Written.antt =====
-- One row written, or inserted: how far apart the rows are.
use clean.Base.{
  ℕ, ◌≤◌, ◌≡◌, refl, Bool, true, List, [], ◌∷◌, Option, none, some, All, ◌==◌, Bool-cases, inl, inr,
  arith, any,
}
use clean.Bookings.{
  cancelled, Booking, Store, Calendar, is_blocking, is_slot_available, replace, find, Decision,
  create_booking, insert, new_booking, reschedule_booking, cancel_unless, write, is_same, Error,
  is_excluded,
}
use clean.Bookings.Overlaps.{
  are_apart, IsShort, ApartFromAll, AllApart, replace-AllApart, are_apart_self, idle_apart,
  found_All, found_apart, available_apart,
}
use clean.Bookings.Runs.{IsValid}

replace-IsShort :
    (new : Booking) (xs : List Booking)
    → IsShort new
    → All IsShort xs
    → All IsShort (replace new xs)
unfolding replace
replace-IsShort new [] h a = tt
replace-IsShort new (x ∷ xs) h a = elim (Bool-cases (x.booking_id == new.booking_id)) [
  | inl p ↦ rw p (h, replace-IsShort new xs h a.1)
  | inr p ↦ rw p (a.0, replace-IsShort new xs h a.1)
]

write-IsValid :
    (new : Booking) (s : Store)
    → IsShort new
    → ApartFromAll new s.bookings
    → IsValid s
    → IsValid (write new s)
unfolding write
write-IsValid new s h a v = record {
  all_short = replace-IsShort new s.bookings h v.all_short;
  all_apart = replace-AllApart new s.bookings (are_apart_self new) a v.all_apart;
}

-- A row that keeps its place, and blocks no more than before.
still_apart :
    (b new : Booking) (ys : List Booking)
    → new.booking_id ≡ b.booking_id
    → new.team_id ≡ b.team_id
    → new.starts_at ≡ b.starts_at
    → new.duration_minutes ≡ b.duration_minutes
    → (is_blocking new.status ≡ true → is_blocking b.status ≡ true)
    → ApartFromAll b ys
    → ApartFromAll new ys
unfolding are_apart
still_apart b new [] i t st d k a = tt
still_apart b new (y ∷ ys) i t st d k a = (
  elim (Bool-cases (is_blocking new.status)) [
    | inl p ↦ rw (i, t, st, d, p) (ground (arith, a.0, k p))
    | inr p ↦ ground arith
  ],
  still_apart b new ys i t st d k a.1,
)

-- The same for a row that was found.
pub found-IsValid :
    (p : Booking → Bool) (b new : Booking) (s : Store)
    → find p s.bookings ≡ some b
    → new.booking_id ≡ b.booking_id
    → new.team_id ≡ b.team_id
    → new.starts_at ≡ b.starts_at
    → new.duration_minutes ≡ b.duration_minutes
    → (is_blocking new.status ≡ true → is_blocking b.status ≡ true)
    → IsValid s
    → IsValid (write new s)
found-IsValid p b new s h i t st d k v =
    write-IsValid new s (rw d (found_All IsShort p s.bookings b h v.all_short))
      (still_apart b new s.bookings i t st d k (found_apart p s.bookings b h v.all_apart)) v

insert-IsValid :
    (c : Calendar) (b : Booking) (s : Store) → IsShort b → IsValid s → IsValid (insert c b s).0
unfolding insert AllApart is_excluded
insert-IsValid c b s short v =
    elim (Bool-cases (is_slot_available c b.starts_at b.duration_minutes s b.team_id none)) [
      | inl p ↦ rw p (record {
        all_short = (short, v.all_short);
        all_apart = (available_apart c s b none p (λ y _. refl) v.all_short, v.all_apart);
      })
      | inr p ↦ rw p v
    ]

pub create-IsValid :
    (c : Calendar) (id now team starts_at duration : ℕ) (lead : Option ℕ) (d : Decision) (s : Store)
    → duration ≤ 720
    → IsValid s
    → IsValid (create_booking c id now team starts_at duration lead d s).0
unfolding create_booking new_booking
create-IsValid c id now team starts_at duration lead d s h v =
    elim (Bool-cases (any (λ t. t == team) s.teams)) [
      | inl p ↦ rw p (insert-IsValid c _ s (omega arith) v)
      | inr p ↦ rw p v
    ]

pub reschedule-IsValid :
    (c : Calendar) (starts_at duration : ℕ) (b : Booking) (s : Store)
    → duration ≤ 720
    → IsValid s
    → IsValid (reschedule_booking c starts_at duration b s).0
unfolding reschedule_booking is_excluded
reschedule-IsValid c starts_at duration b s h v = elim (Bool-cases (is_same b.status cancelled)) [
  | inl p ↦ rw p v
  | inr p ↦
      elim (Bool-cases (is_slot_available c starts_at duration s b.team_id (some b.booking_id))) [
        | inr q ↦ rw (p, q) v
        | inl q ↦
            let new = record b { starts_at = starts_at; duration_minutes = duration } in
            rw (p, q)
              (write-IsValid new s (omega arith)
                (available_apart c s new (some b.booking_id) q (λ y other. ground arith)
                  v.all_short)
                v)
      ]
]

pub cancel_unless-IsValid :
    (o : Option Error) (b : Booking) (s : Store)
    → IsShort b
    → IsValid s
    → IsValid (cancel_unless o b s).0
unfolding cancel_unless
cancel_unless-IsValid none b s h v =
    write-IsValid (record b { status = cancelled }) s h (idle_apart _ s.bookings refl) v
cancel_unless-IsValid (some e) b s h v = v
