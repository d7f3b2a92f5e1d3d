-- ===== src/Depayloader/Increasing.antt =====
-- kmsutils.c: the times that leave a depayloader grow.
use kms_core.Prelude.{ℕ, ◌+◌, ◌*◌, ◌<◌, ◌≤◌, ◌≡◌, refl, ap, List, [], ◌∷◌, arith, length}
use kms_core.Depayloader.{clock_time_none, msecond, adjust_pts_out, pts_out}

-- The times are above `last` and grow, and each is at least what it was and at most `limit`.
pub data Grows (limit : ℕ) : ℕ → List ℕ → List ℕ → Type 0 where
  done : (last : ℕ) → Grows limit last [] []
  more :
      (last pts time : ℕ) (before after : List ℕ)
      → last < time
      → pts ≤ time
      → time ≤ limit
      → Grows limit time before after
      → Grows limit last (pts ∷ before) (time ∷ after)

abbrev pub AllUpTo : ℕ → List ℕ → Type 0
AllUpTo top [] = Unit
AllUpTo top (x ∷ xs) = (x ≤ top) × AllUpTo top xs

adjusted :
    (last pts top : ℕ)
    → last ≤ top
    → pts ≤ top
    → top + msecond < clock_time_none
    → (last < adjust_pts_out last pts)
      × (pts ≤ adjust_pts_out last pts)
      × (adjust_pts_out last pts ≤ top + msecond)
unfolding adjust_pts_out
adjusted last pts top l p room = ground arith

AllUpTo-weaken : (top top' : ℕ) (xs : List ℕ) → top ≤ top' → AllUpTo top xs → AllUpTo top' xs
AllUpTo-weaken top top' [] le all = tt
AllUpTo-weaken top top' (x ∷ xs) le all = (omega arith, AllUpTo-weaken top top' xs le all.1)

grown :
    (limit last top : ℕ) (buffers : List ℕ)
    → last ≤ top
    → AllUpTo top buffers
    → limit ≡ top + length buffers * msecond
    → limit < clock_time_none
    → Grows limit last buffers (pts_out last buffers)
unfolding pts_out
grown limit last top [] l all e room = done last
grown limit last top (pts ∷ buffers) l all e room =
    let (above, least, most) = adjusted last pts top l all.0 (omega arith) in
    more last pts (adjust_pts_out last pts) buffers _ above least (omega arith) (
      grown limit (adjust_pts_out last pts) (top + msecond) buffers most
        (AllUpTo-weaken top (top + msecond) buffers (omega arith) all.1) (omega arith) room)

-- The times grow already.
abbrev pub Ascends : ℕ → List ℕ → Type 0
Ascends last [] = Unit
Ascends last (x ∷ xs) = (last < x) × Ascends x xs

unchanged : (last pts : ℕ) → last < pts → adjust_pts_out last pts ≡ pts
unfolding adjust_pts_out
unchanged last pts lt = ground arith

kept : (last : ℕ) (buffers : List ℕ) → Ascends last buffers → pts_out last buffers ≡ buffers
unfolding pts_out
kept last [] up = refl
kept last (pts ∷ buffers) up =
    let e = unchanged last pts up.0 in rw e (ap (λ (l : List ℕ). pts ∷ l) (kept pts buffers up.1))

first_kept : (pts : ℕ) → adjust_pts_out clock_time_none pts ≡ pts
unfolding adjust_pts_out
first_kept pts = ground arith

-- When all buffers of a new depayloader have a time, and the greatest of them leaves a millisecond for
-- each buffer below GST_CLOCK_TIME_NONE, the first keeps its time and the times of the others grow
-- strictly from it: none gets less than it had, or more than that greatest time and a millisecond for
-- each buffer. Times that grow already are all kept.
pub pts_out-Grows :
    (pts top : ℕ) (buffers : List ℕ)
    → pts ≤ top
    → AllUpTo top buffers
    → top + length buffers * msecond < clock_time_none
    → (pts_out clock_time_none (pts ∷ buffers) ≡ pts ∷ pts_out pts buffers)
      × Grows (top + length buffers * msecond) pts buffers (pts_out pts buffers)
      × (Ascends pts buffers → pts_out pts buffers ≡ buffers)
unfolding pts_out
pts_out-Grows pts top buffers l all room = (
  rw (first_kept pts) refl,
  grown (top + length buffers * msecond) pts top buffers l all refl room,
  kept pts buffers,
)
