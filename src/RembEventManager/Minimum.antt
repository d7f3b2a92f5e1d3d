-- ===== src/RembEventManager/Minimum.antt =====
-- kmsutils.c: the manager's bitrate is the least that the fresh entries ask for.
use kms_core.Prelude.{
  ℕ, ◌≤◌, ◌<◌, ◌≡◌, ◌∙◌, ap, refl, false, ◌&&◌, ◌||◌, inl, inr, ◌⊎◌, [], ◌∷◌, arith, if◌then◌else◌,
  ◌==◌, Bool-cases, ltb, ltb→lt, some, Option-cases,
}
use kms_core.Prelude.Tables.{All-insert, All-weaken, lookup, insert}
use kms_core.RembEventManager.{
  HashValue, Table, Manager, Scan, no_time, expired, scan, set_min, calc_min, new_bitrate,
  update_min,
}
use kms_core.RembEventManager.Scanning.{
  Above, Attained, Least, AllPositive, NotBefore, NotAfter, fresh, All-fresh, scan-table,
  scan-Least, scan-oldest, scan-oldest_known, scan-oldest_none,
}

-- The state between two calls, when the clock has come to `now`. The bitrate can differ from the least
-- one only while the table is empty, and then the next call calculates.
pub record IsValid (m : Manager) (now : ℕ) : Type 0 where
  pub positive : AllPositive m.remb_hash
  pub least : Least m.remb_min m.remb_hash ⊎ ((m.remb_hash ≡ []) × (m.oldest_remb_time ≡ no_time))
  pub aged :
      (m.oldest_remb_time ≡ no_time)
      ⊎ (NotBefore m.oldest_remb_time m.remb_hash × (m.oldest_remb_time ≤ now))
  pub past : NotAfter now m.remb_hash

Attained-insert : (table : Table) (k : ℕ) (v : HashValue) → Attained v.bitrate (insert table k v)
Attained-insert [] k v = inl refl
Attained-insert (e ∷ table) k v = ground (arith, Attained-insert table k v)

Attained-insert_same :
    (table : Table) (k least : ℕ) (v old : HashValue)
    → lookup table k ≡ some old
    → old.bitrate ≡ v.bitrate
    → Attained least table
    → Attained least (insert table k v)
Attained-insert_same [] k least v old found same at = absurd at
Attained-insert_same (e ∷ table) k least v old found same at =
    ground (arith, Attained-insert_same table k least v old)

set_min-fields : (m : Manager) (least : ℕ) → ((set_min m least).0 ≡ record m { remb_min = least })
unfolding set_min
set_min-fields m least = ground arith

positive-Attained :
    (table : Table) (least : ℕ) → AllPositive table → Attained least table → 0 < least
positive-Attained [] least all at = absurd at
positive-Attained (e ∷ table) least all at = ground (arith, positive-Attained table least)

module _ (m : Manager) (default_min time : ℕ) where
  abbrev left : Table
  left = fresh m.clear_interval time m.remb_hash

  abbrev found : Scan
  found = scan m.clear_interval time m.remb_hash 0 no_time

  abbrev calculated : ℕ
  calculated = if found.least == 0 && ltb 0 default_min then default_min else found.least

  pub calc_min-fields :
      (calc_min m default_min time).0
      ≡ record m { remb_hash = left; oldest_remb_time = found.oldest; remb_min = calculated }
  unfolding calc_min
  calc_min-fields =
      set_min-fields _ _
      ∙ ap
          (λ (t : Table). record m {
            remb_hash = t;
            oldest_remb_time = found.oldest;
            remb_min = calculated;
          })
          (scan-table m.clear_interval time m.remb_hash 0 no_time)

  calculated-Least :
      AllPositive m.remb_hash → Least calculated left ⊎ ((left ≡ []) × (found.oldest ≡ no_time))
  calculated-Least positive = elim (scan-Least m.clear_interval time m.remb_hash no_time positive) [
    | inl (empty, zero) ↦
        inr (empty, scan-oldest_none m.clear_interval time m.remb_hash 0 no_time empty)
    | inr (above, at) ↦
        let all = All-fresh m.clear_interval time (λ v. 0 < v.bitrate) m.remb_hash positive in
        let pos = positive-Attained left found.least all at in
        let same : calculated ≡ found.least = ground arith in inl (inr (rw same above, rw same at))
  ]

  pub calc_min-IsValid :
      (now : ℕ)
      → AllPositive m.remb_hash
      → NotAfter now m.remb_hash
      → IsValid (calc_min m default_min time).0 now
  calc_min-IsValid now positive past = rw calc_min-fields (record {
    positive = All-fresh m.clear_interval time (λ v. 0 < v.bitrate) m.remb_hash positive;
    least = calculated-Least positive;
    aged = elim (scan-oldest_known m.clear_interval time m.remb_hash 0 no_time now past) [
      | inl (empty, unset) ↦ inl unset
      | inr known ↦ inr ((scan-oldest m.clear_interval time m.remb_hash 0 no_time).1, known)
    ];
    past = All-fresh m.clear_interval time (λ v. v.ts ≤ now) m.remb_hash past;
  })

module _ (m : Manager) (now bitrate ssrc time entry_time : ℕ) (v : IsValid m now)
    (pos : 0 < bitrate) (later : now ≤ entry_time) where
  abbrev entry : HashValue
  entry = record { bitrate = bitrate; ts = entry_time }

  abbrev stored : Table
  stored = insert m.remb_hash ssrc entry

  stored-AllPositive : AllPositive stored
  stored-AllPositive = All-insert (λ v. 0 < v.bitrate) m.remb_hash ssrc entry v.positive pos

  stored-NotAfter : NotAfter entry_time stored
  stored-NotAfter =
      All-insert (λ v. v.ts ≤ entry_time) m.remb_hash ssrc entry
        (All-weaken (λ v. v.ts ≤ now) (λ v. v.ts ≤ entry_time) m.remb_hash (λ w h. omega arith)
          v.past)
        (omega arith)

  stored-aged :
      (m.oldest_remb_time ≡ no_time)
      ⊎ (NotBefore m.oldest_remb_time stored × (m.oldest_remb_time ≤ entry_time))
  stored-aged = elim v.aged [
    | inl unset ↦ inl unset
    | inr (before, past) ↦ inr (
      All-insert (λ v. m.oldest_remb_time ≤ v.ts) m.remb_hash ssrc entry before (omega arith),
      omega arith,
    )
  ]

  -- With nothing below it, the bitrate that is stored is the least.
  stored-Least : Above bitrate m.remb_hash → Least bitrate stored
  stored-Least above = inr (
    All-insert (λ v. bitrate ≤ v.bitrate) m.remb_hash ssrc entry above (omega arith),
    Attained-insert m.remb_hash ssrc entry,
  )

  below_all : bitrate ≤ m.remb_min → Above bitrate m.remb_hash
  below_all le = elim v.least [
    | inl (inl (empty, zero)) ↦ rw empty tt
    | inl (inr (above, at)) ↦
        All-weaken (λ v. m.remb_min ≤ v.bitrate) (λ v. bitrate ≤ v.bitrate) m.remb_hash
          (λ w h. omega arith) above
    | inr (empty, unset) ↦ rw empty tt
  ]

  kept-Least :
      m.remb_min < bitrate
      → new_bitrate (lookup m.remb_hash ssrc) bitrate ≡ false
      → Least m.remb_min stored
  unfolding new_bitrate
  kept-Least lt same = elim (Option-cases (lookup m.remb_hash ssrc)) [
    | inl absent ↦ absurd (ground arith)
    | inr (old, found) ↦ elim v.least [
      | inl (inl (empty, zero)) ↦ absurd (gone empty found)
      | inl (inr (above, at)) ↦ inr (
        All-insert (λ v. m.remb_min ≤ v.bitrate) m.remb_hash ssrc entry above (omega arith),
        Attained-insert_same m.remb_hash ssrc m.remb_min entry old found (ground arith) at,
      )
      | inr (empty, unset) ↦ absurd (gone empty found)
    ]
  ]
    where
      gone : {old : HashValue} → m.remb_hash ≡ [] → lookup m.remb_hash ssrc ≡ some old → ⊥
      gone empty found = ground arith

  pub update_min-IsValid :
      (calc_time : ℕ) → IsValid (update_min m bitrate ssrc time entry_time calc_time).0 entry_time
  unfolding update_min
  update_min-IsValid calc_time = elim (Bool-cases (ltb bitrate m.remb_min)) [
    | inl less ↦ rw less (
        rw (set_min-fields (record m { remb_hash = stored }) bitrate) (record {
          positive = stored-AllPositive;
          least = inl (stored-Least (below_all (omega (arith, ltb→lt _ _ less))));
          aged = stored-aged;
          past = stored-NotAfter;
        }))
    | inr not_less ↦
        rw not_less
          (elim (Bool-cases (
            new_bitrate (lookup m.remb_hash ssrc) bitrate && ltb m.remb_min bitrate
            || expired m.clear_interval time m.oldest_remb_time)) [
              | inl calculate ↦ rw calculate (
                  calc_min-IsValid (record m { remb_hash = stored }) bitrate calc_time entry_time
                    stored-AllPositive stored-NotAfter)
              | inr keep ↦ rw keep (record {
                positive = stored-AllPositive;
                least = inl (unchanged not_less keep);
                aged = stored-aged;
                past = stored-NotAfter;
              })
            ])
  ]
    where
      unchanged :
          ltb bitrate m.remb_min ≡ false
          → (new_bitrate (lookup m.remb_hash ssrc) bitrate && ltb m.remb_min bitrate
              || expired m.clear_interval time m.oldest_remb_time)
            ≡ false
          → Least m.remb_min stored
      unchanged not_less keep = elim (Bool-cases (ltb m.remb_min bitrate)) [
        | inl more ↦ kept-Least (ltb→lt _ _ more) (ground arith)
        | inr same ↦
            let e : m.remb_min ≡ bitrate = ground arith in
            rw e (stored-Least (below_all (omega arith)))
      ]
