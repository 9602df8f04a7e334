-- ===== src/Bookings/Overlaps.antt =====
-- When two bookings compete for the same time of a team, and what available slots have to do with it.
use clean.Base.{
  ℕ, ◌+◌, ◌≤◌, ◌≡◌, refl, Bool, true, false, not, ◌&&◌, ◌||◌, List, [], ◌∷◌, map, Option, some,
  keep, All, leb, ◌==◌, Bool-cases, inl, inr, arith,
}
use clean.Bookings.{
  Booking, Store, Calendar, minutes, buffer, finish, blocked_by, conflicts, is_blocking,
  blocked_windows, in_window, is_excluded, is_slot_available, replace, find, blacked_out, touches,
}
use mathlib.Core.Path.{subst}
use mathlib.Core.Option.{some-injective}
use clean.Bookings.Free.{is_slot_available-IsFree, clear_of_bookings}

-- Two rows that do not compete for the same time. Rows with one identifier, the primary key, are one
-- booking, which does not compete with itself.
unfoldable pub are_apart : Booking → Booking → Bool
are_apart x y =
    (x.booking_id == y.booking_id)
    || (not (x.team_id == y.team_id)
        || (not (is_blocking x.status && is_blocking y.status)
            || (leb (finish x + buffer) y.starts_at || leb (finish y + buffer) x.starts_at)))

-- A booking of at most twelve hours.
abbrev pub IsShort : Booking → Type 0
IsShort b = minutes b.duration_minutes ≤ minutes 720

abbrev pub ApartFromAll : Booking → List Booking → Type 0
ApartFromAll x ys = All (λ y. are_apart x y ≡ true) ys

-- Every two rows.
unfoldable pub AllApart : List Booking → Type 0
AllApart [] = Unit
AllApart (x ∷ xs) = ApartFromAll x xs × AllApart xs

are_apart-sym : (x y : Booking) → are_apart x y ≡ true → are_apart y x ≡ true
unfolding are_apart
are_apart-sym x y h = ground arith

replace-apart_from :
    (x new : Booking) (ys : List Booking)
    → are_apart x new ≡ true
    → ApartFromAll x ys
    → ApartFromAll x (replace new ys)
unfolding replace
replace-apart_from x new [] h a = tt
replace-apart_from x new (y ∷ ys) h a = elim (Bool-cases (y.booking_id == new.booking_id)) [
  | inl p ↦ rw p (h, replace-apart_from x new ys h a.1)
  | inr p ↦ rw p (a.0, replace-apart_from x new ys h a.1)
]

pub replace-AllApart :
    (new : Booking) (xs : List Booking)
    → are_apart new new ≡ true
    → ApartFromAll new xs
    → AllApart xs
    → AllApart (replace new xs)
unfolding replace AllApart
replace-AllApart new [] r n a = a
replace-AllApart new (x ∷ xs) r n a = elim (Bool-cases (x.booking_id == new.booking_id)) [
  | inl p ↦ rw p (replace-apart_from new new xs r n.1, replace-AllApart new xs r n.1 a.1)
  | inr p ↦
      rw p (
        replace-apart_from x new xs (are_apart-sym new x n.0) a.0,
        replace-AllApart new xs r n.1 a.1,
      )
]

pub are_apart_self : (x : Booking) → are_apart x x ≡ true
unfolding are_apart
are_apart_self x = ground arith

-- A booking that does not block is apart from every other.
pub idle_apart :
    (x : Booking) (ys : List Booking) → is_blocking x.status ≡ false → ApartFromAll x ys
unfolding are_apart
idle_apart x [] h = tt
idle_apart x (y ∷ ys) h = (ground arith, idle_apart x ys h)

pub found_All {ℓ} :
    (P : Booking → Type ℓ) (p : Booking → Bool) (xs : List Booking) (b : Booking)
    → find p xs ≡ some b
    → All P xs
    → P b
unfolding find
found_All P p [] b h a = cc
found_All P p (x ∷ xs) b h a = elim (Bool-cases (p x)) [
  | inl here ↦ let e : some x ≡ some b = rw here at h in subst P (some-injective x b e) a.0
  | inr there ↦ found_All P p xs b (rw there at h) a.1
]

-- A booking found among the rows is apart from all of them.
pub found_apart :
    (p : Booking → Bool) (xs : List Booking) (b : Booking)
    → find p xs ≡ some b
    → AllApart xs
    → ApartFromAll b xs
unfolding find AllApart
found_apart p [] b h a = tt
found_apart p (x ∷ xs) b h a = elim (Bool-cases (p x)) [
  | inl here ↦
      let e : some x ≡ some b = rw here at h in
      subst (λ z. ApartFromAll z (x ∷ xs)) (some-injective x b e) (are_apart_self x, a.0)
  | inr there ↦
      let e : find p xs ≡ some b = rw there at h in
      (
        are_apart-sym x b (found_All (λ y. are_apart x y ≡ true) p xs b e a.0),
        found_apart p xs b e a.1,
      )
]

-- A free time is apart from each short booking, or the booking is the excluded one.
free_apart :
    (team day_start day_end : ℕ) (new y : Booking)
    → new.team_id ≡ team
    → day_start ≤ new.starts_at
    → finish new ≤ day_end
    → IsShort y
    → (in_window team day_start day_end y ≡ true
        → (new.booking_id == y.booking_id) ≡ false
        → conflicts new.starts_at (finish new) (blocked_by y) ≡ false)
    → are_apart new y ≡ true
unfolding are_apart in_window conflicts blocked_by
free_apart team day_start day_end new y t lo hi short clear =
    elim (Bool-cases (new.booking_id == y.booking_id)) [
      | inl same ↦ ground arith
      | inr other ↦ elim (Bool-cases (in_window team day_start day_end y)) [
        | inl seen ↦
            let free : conflicts new.starts_at (finish new) (blocked_by y) ≡ false =
              clear seen other in
            ground arith
        | inr unseen ↦ ground arith
      ]
    ]

-- A slot that is available is apart from all short bookings but the excluded one.
window_apart :
    (team day_start day_end : ℕ) (new : Booking) (excluded : Option ℕ) (ys : List Booking)
    → new.team_id ≡ team
    → day_start ≤ new.starts_at
    → finish new ≤ day_end
    → ((y : Booking) → (new.booking_id == y.booking_id) ≡ false → is_excluded excluded y ≡ false)
    → All IsShort ys
    → All
        (λ y.
          in_window team day_start day_end y ≡ true
          → not (is_excluded excluded y) ≡ true
          → conflicts new.starts_at (finish new) (blocked_by y) ≡ false)
        ys
    → ApartFromAll new ys
window_apart team day_start day_end new excluded [] t lo hi ex short clear = tt
window_apart team day_start day_end new excluded (y ∷ ys) t lo hi ex short clear = (
  free_apart team day_start day_end new y t lo hi short.0
      (λ seen other. clear.0 seen (rw (ex y other) refl)),
  window_apart team day_start day_end new excluded ys t lo hi ex short.1 clear.1,
)

pub available_apart :
    (c : Calendar) (s : Store) (new : Booking) (excluded : Option ℕ)
    → is_slot_available c new.starts_at new.duration_minutes s new.team_id excluded ≡ true
    → ((y : Booking) → (new.booking_id == y.booking_id) ≡ false → is_excluded excluded y ≡ false)
    → All IsShort s.bookings
    → ApartFromAll new s.bookings
unfolding blocked_windows
available_apart c s new excluded h ex short =
    let (w, _, v) =
      is_slot_available-IsFree c new.starts_at new.duration_minutes s new.team_id excluded h in
    window_apart new.team_id w.0 w.1 new excluded s.bookings refl v.late_enough v.fits ex short (
      clear_of_bookings (conflicts new.starts_at (finish new)) (λ b. not (is_excluded excluded b))
        (in_window new.team_id w.0 w.1) s.bookings
        (map blacked_out (keep (touches new.team_id w.0 w.1) s.blackouts)) v.clear)
