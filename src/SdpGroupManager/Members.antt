-- ===== src/SdpGroupManager/Members.antt =====
-- kmssdpbasegroup.c: the members of a group are registered handlers, each once.
use kms_core.Prelude.{
  ℕ, ◌≡◌, ◌∙◌, refl, sym, inl, inr, true, false, ◌||◌, some, List, [], ◌∷◌, ◌++◌, ◌==◌, arith,
  ==_iff, subst, Bool-cases,
}
use kms_core.Prelude.Sets.{member}
use kms_core.Prelude.Tables.{
  Entry, All, lookup, insert, delete, lookup-insert_self, lookup-insert_ne, lookup-delete_ne,
}
use kms_core.SdpGroupManager.{
  MidExtData, Group, add_media_handler, remove_first, remove_media_handler, remove_from_groups,
}

abbrev pub NoRepeat : List ℕ → Type 0
NoRepeat [] = Unit
NoRepeat (h ∷ hids) = (member h hids ≡ false) × NoRepeat hids

member-append :
    (h new : ℕ) (hids : List ℕ) → member h (hids ++ (new ∷ [])) ≡ (member h hids || new == h)
member-append h new [] = ground arith
member-append h new (x ∷ hids) = ground (arith, member-append h new hids)

joined_self :
    (h new : ℕ) (hids : List ℕ)
    → member h hids ≡ false
    → member h (hids ++ (new ∷ [])) ≡ true
    → new ≡ h
joined_self h new hids outside inside =
    (==_iff new h).0 (ground (arith, member-append h new hids, outside, inside))

NoRepeat-append :
    (new : ℕ) (hids : List ℕ)
    → member new hids ≡ false
    → NoRepeat hids
    → NoRepeat (hids ++ (new ∷ []))
NoRepeat-append new [] fresh n = (refl, tt)
NoRepeat-append new (h ∷ hids) fresh n =
    (ground (arith, member-append h new hids, n.0), NoRepeat-append new hids (ground arith) n.1)

member-remove_first :
    (h hid : ℕ) (hids : List ℕ) → member h (remove_first hids hid) ≡ true → member h hids ≡ true
member-remove_first h hid [] m = m
member-remove_first h hid (x ∷ hids) m = ground (arith, member-remove_first h hid hids)

NoRepeat-remove_first : (hid : ℕ) (hids : List ℕ) → NoRepeat hids → NoRepeat (remove_first hids hid)
NoRepeat-remove_first hid [] n = tt
NoRepeat-remove_first hid (h ∷ hids) n = elim (Bool-cases (h == hid)) [
  | inl same ↦ rw same n.1
  | inr other ↦ rw other (elim (Bool-cases (member h (remove_first hids hid))) [
    | inr apart ↦ (apart, NoRepeat-remove_first hid hids n.1)
    | inl twice ↦ absurd (ground (arith, member-remove_first h hid hids twice, n.0))
  ])
]

member-remove_first_self :
    (hid : ℕ) (hids : List ℕ) → NoRepeat hids → member hid (remove_first hids hid) ≡ false
member-remove_first_self hid [] n = refl
member-remove_first_self hid (h ∷ hids) n = elim (Bool-cases (h == hid)) [
  | inl same ↦ rw same (ground (arith, n.0))
  | inr other ↦ rw other (rw other (member-remove_first_self hid hids n.1))
]

-- The members are registered, and each stands once in the list.
pub record Known (handlers : List (Entry MidExtData)) (group : Group) : Type 0 where
  pub registered :
      (h : ℕ)
      → member h group.handlers ≡ true
      → (ext_data : MidExtData) × (lookup handlers h ≡ some ext_data)
  pub once : NoRepeat group.handlers

pub Known-insert :
    (handlers : List (Entry MidExtData)) (hid : ℕ) (ext_data : MidExtData) (group : Group)
    → Known handlers group
    → Known (insert handlers hid ext_data) group
Known-insert handlers hid ext_data group k = record {
  registered = λ h m. elim (Bool-cases (h == hid)) [
    | inl same ↦ (ext_data, rw ((==_iff h hid).0 same) (lookup-insert_self handlers hid ext_data))
    | inr other ↦
        let (old, there) = k.registered h m in
        (old, lookup-insert_ne handlers h hid ext_data (λ e. ground arith) ∙ there)
  ];
  once = k.once;
}

pub Known-join :
    (handlers : List (Entry MidExtData)) (hid : ℕ) (ext_data : MidExtData) (group : Group)
    → lookup handlers hid ≡ some ext_data
    → Known handlers group
    → Known handlers (add_media_handler group hid)
unfolding add_media_handler
Known-join handlers hid ext_data group there k = elim (Bool-cases (member hid group.handlers)) [
  | inl inside ↦ rw inside k
  | inr new ↦ rw new (record {
    registered = λ h m. elim (Bool-cases (member h group.handlers)) [
      | inl old ↦ k.registered h old
      | inr other ↦ (ext_data, rw (sym (joined_self h hid group.handlers other m)) there)
    ];
    once = NoRepeat-append hid group.handlers new k.once;
  })
]

pub Known-leave :
    (handlers : List (Entry MidExtData)) (hid : ℕ) (group : Group)
    → Known handlers group
    → Known handlers (remove_media_handler group hid)
unfolding remove_media_handler
Known-leave handlers hid group k = elim (Bool-cases (member hid group.handlers)) [
  | inr outside ↦ rw outside k
  | inl inside ↦ rw inside (record {
    registered = λ h m. k.registered h (member-remove_first h hid group.handlers m);
    once = NoRepeat-remove_first hid group.handlers k.once;
  })
]

left_out :
    (hid : ℕ) (group : Group)
    → NoRepeat group.handlers
    → member hid (remove_media_handler group hid).handlers ≡ false
unfolding remove_media_handler
left_out hid group once = elim (Bool-cases (member hid group.handlers)) [
  | inr outside ↦ rw outside outside
  | inl inside ↦ rw inside (member-remove_first_self hid group.handlers once)
]

Known-remove :
    (handlers : List (Entry MidExtData)) (hid : ℕ) (group : Group)
    → Known handlers group
    → Known (delete handlers hid) (remove_media_handler group hid)
Known-remove handlers hid group k =
    let stays = Known-leave handlers hid group k in
    record {
      registered = λ h m. elim (Bool-cases (h == hid)) [
        | inl same ↦
            let e = (==_iff h hid).0 same in
            absurd (
              ground (
                arith,
                left_out hid group k.once,
                subst (λ n. member n (remove_media_handler group hid).handlers ≡ true) e m,
              ))
        | inr other ↦
            let (old, there) = stays.registered h m in
            (old, lookup-delete_ne handlers h hid (λ e. ground arith) ∙ there)
      ];
      once = stays.once;
    }

pub All-Known-remove :
    (handlers : List (Entry MidExtData)) (hid : ℕ) (groups : List (Entry Group))
    → All (Known handlers) groups
    → All (Known (delete handlers hid)) (remove_from_groups groups hid)
unfolding remove_from_groups
All-Known-remove handlers hid [] all = tt
All-Known-remove handlers hid (e ∷ groups) all =
    (Known-remove handlers hid e.value all.0, All-Known-remove handlers hid groups all.1)
