-- ===== src/RembEventManager/Scanning.antt =====
-- kmsutils.c, the loop of `remb_event_manager_calc_min`.
use kms_core.Prelude.{
  ℕ, ◌+◌, ◌^◌, ◌≤◌, ◌<◌, ◌≡◌, refl, min, inl, inr, ◌⊎◌, [], ◌∷◌, arith, if◌then◌else◌, ◌==◌,
  Bool-cases,
}
use kms_core.Prelude.Tables.{All}
use kms_core.RembEventManager.{HashValue, Table, expired, scan}

-- Nothing asks for less than `least`.
abbrev pub Above : ℕ → Table → Type 0
Above least = All (λ v. least ≤ v.bitrate)

-- Something asks for just that.
abbrev pub Attained : ℕ → Table → Type 0
Attained least [] = ⊥
Attained least (e ∷ table) = (e.value.bitrate ≡ least) ⊎ Attained least table

-- The least of the bitrates; 0 stands for none.
abbrev pub Least : ℕ → Table → Type 0
Least least table = ((table ≡ []) × (least ≡ 0)) ⊎ (Above least table × Attained least table)

abbrev pub AllPositive : Table → Type 0
AllPositive = All (λ v. 0 < v.bitrate)

abbrev pub NotBefore : ℕ → Table → Type 0
NotBefore time = All (λ v. time ≤ v.ts)

abbrev pub NotAfter : ℕ → Table → Type 0
NotAfter time = All (λ v. v.ts ≤ time)

-- The entries that have not expired.
abbrev pub fresh : ℕ → ℕ → Table → Table
fresh interval time [] = []
fresh interval time (e ∷ table) =
    if expired interval time e.value.ts
    then fresh interval time table
    else e ∷ fresh interval time table

module _ (interval time : ℕ) where
  pub All-fresh :
      (P : HashValue → Type 0) (table : Table) → All P table → All P (fresh interval time table)
  All-fresh P [] all = tt
  All-fresh P (e ∷ table) all = elim (Bool-cases (expired interval time e.value.ts)) [
    | inl old ↦ rw old (All-fresh P table all.1)
    | inr new ↦ rw new (all.0, All-fresh P table all.1)
  ]

  pub scan-table :
      (table : Table) (least oldest : ℕ)
      → (scan interval time table least oldest).table ≡ fresh interval time table
  unfolding scan
  scan-table [] least oldest = refl
  scan-table (e ∷ table) least oldest = ground (
    arith,
    scan-table table least oldest,
    scan-table table (if least == 0 then e.value.bitrate else min least e.value.bitrate)
        (min oldest e.value.ts),
  )

  -- The scan of a table, behind entries whose least bitrate was `least`.
  scan-least_from :
      (table : Table) (least oldest : ℕ)
      → 0 < least
      → AllPositive table
      → (0 < (scan interval time table least oldest).least)
        × ((scan interval time table least oldest).least ≤ least)
        × Above (scan interval time table least oldest).least (fresh interval time table)
        × (((scan interval time table least oldest).least ≡ least)
            ⊎ Attained (scan interval time table least oldest).least (fresh interval time table))
  unfolding scan
  scan-least_from [] least oldest pos all = (pos, omega arith, tt, inl refl)
  scan-least_from (e ∷ table) least oldest pos all = ground (
    arith,
    scan-least_from table least oldest,
    scan-least_from table (min least e.value.bitrate) (min oldest e.value.ts),
  )

  pub scan-Least :
      (table : Table) (oldest : ℕ)
      → AllPositive table
      → Least (scan interval time table 0 oldest).least (fresh interval time table)
  unfolding scan
  scan-Least [] oldest all = inl (refl, refl)
  scan-Least (e ∷ table) oldest all = ground (
    arith,
    scan-Least table oldest,
    scan-least_from table e.value.bitrate (min oldest e.value.ts),
  )

  pub scan-oldest :
      (table : Table) (least oldest : ℕ)
      → ((scan interval time table least oldest).oldest ≤ oldest)
        × NotBefore (scan interval time table least oldest).oldest (fresh interval time table)
  unfolding scan
  scan-oldest [] least oldest = (omega arith, tt)
  scan-oldest (e ∷ table) least oldest = ground (
    arith,
    scan-oldest table least oldest,
    scan-oldest table (if least == 0 then e.value.bitrate else min least e.value.bitrate)
        (min oldest e.value.ts),
  )

  -- The oldest time is that of an entry, if there is one.
  pub scan-oldest_known :
      (table : Table) (least oldest now : ℕ)
      → NotAfter now table
      → ((fresh interval time table ≡ [])
          × ((scan interval time table least oldest).oldest ≡ oldest))
        ⊎ ((scan interval time table least oldest).oldest ≤ now)
  unfolding scan
  scan-oldest_known [] least oldest now all = inl (refl, refl)
  scan-oldest_known (e ∷ table) least oldest now all = ground (
    arith,
    scan-oldest_known table least oldest now,
    scan-oldest table (if least == 0 then e.value.bitrate else min least e.value.bitrate)
        (min oldest e.value.ts),
  )

module _ (interval time : ℕ) where
  pub scan-oldest_none :
      (table : Table) (least oldest : ℕ)
      → fresh interval time table ≡ []
      → (scan interval time table least oldest).oldest ≡ oldest
  unfolding scan
  scan-oldest_none [] least oldest none_left = refl
  scan-oldest_none (e ∷ table) least oldest none_left =
      ground (arith, scan-oldest_none table least oldest)

-- While the clock is not behind the entries and none of them is older than the interval, none is
-- expired.
pub fresh_all :
    (interval time oldest : ℕ) (table : Table)
    → time < 2 ^ 64
    → time ≤ oldest + interval
    → NotBefore oldest table
    → NotAfter time table
    → fresh interval time table ≡ table
unfolding expired
fresh_all interval time oldest [] word young before after = refl
fresh_all interval time oldest (e ∷ table) word young before after =
    ground (arith, fresh_all interval time oldest table word young before.1 after.1)
