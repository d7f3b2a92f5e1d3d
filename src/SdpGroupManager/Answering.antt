-- ===== src/SdpGroupManager/Answering.antt =====
-- kmssdpbasegroup.c: the mids in the group attribute of an answer.
use Prim.Native.String.{String}
use mathlib.Core.Option.{some-injective}
use text.Mathlib.Text.{◌==◌ as str_eq}
use text.Mathlib.TextEquality.{eq_iff}
use kms_core.Prelude.{
  ℕ, ◌≡◌, ◌∙◌, refl, sym, ap, inl, inr, false, ◌⊎◌, Option, none, some, List, [], ◌∷◌, ◌==◌, arith,
  ==_iff, ==_refl, get_elem?, Bool-cases, Option-cases,
}
use kms_core.SdpGroupManager.{Group}
use kms_core.SdpGroupManager.Attributes.{Media, get_group_val, append_all, add_answer_attributes}
use kms_core.SdpGroupManager.Listing.{
  Belongs, Lists, entry_of, entry, put, append_enabled_medias-put, entry_of-Belongs,
  entry_of_complete,
}

entry-Belongs :
    (filter : Option (List String)) (msg : List Media) (index : ℕ → Option ℕ) (hid : ℕ)
    (hids : List ℕ) (mid : String)
    → entry filter msg (index hid) ≡ some mid
    → Belongs filter msg index (hid ∷ hids) mid
unfolding entry entry_of
entry-Belongs filter msg index hid hids mid h = elim (Option-cases (index hid)) [
  | inl unplaced ↦ absurd (ground (arith, ap (entry filter msg) unplaced, h))
  | inr (place, placed) ↦ elim (Option-cases (get_elem? msg place)) [
    | inl missing ↦
        absurd (ground (arith, ap (entry filter msg) placed, ap (entry_of filter) missing, h))
    | inr (media, found) ↦
        let e : entry filter msg (index hid) ≡ entry_of filter (some media) =
          ap (entry filter msg) placed ∙ ap (entry_of filter) found in
        let (named, enabled, offered) = entry_of-Belongs filter media mid (sym e ∙ h) in
        record {
          hid = hid;
          place = place;
          media = media;
          listed = ground (arith, ==_refl hid);
          placed = placed;
          found = found;
          named = named;
          enabled = enabled;
          offered = offered;
        }
  ]
]

Belongs-entry :
    (filter : Option (List String)) (msg : List Media) (index : ℕ → Option ℕ) (hids : List ℕ)
    (mid : String)
    → (b : Belongs filter msg index hids mid) → entry filter msg (index b.hid) ≡ some mid
unfolding entry
Belongs-entry filter msg index hids mid b =
    ap (entry filter msg) b.placed
    ∙ (ap (entry_of filter) b.found
        ∙ entry_of_complete filter b.media mid b.named b.enabled b.offered)

Belongs-cons :
    (filter : Option (List String)) (msg : List Media) (index : ℕ → Option ℕ) (hid : ℕ)
    (hids : List ℕ) (mid : String)
    → Belongs filter msg index hids mid
    → Belongs filter msg index (hid ∷ hids) mid
Belongs-cons filter msg index hid hids mid b = record {
  hid = b.hid;
  place = b.place;
  media = b.media;
  listed = ground (arith, b.listed);
  placed = b.placed;
  found = b.found;
  named = b.named;
  enabled = b.enabled;
  offered = b.offered;
}

-- A mid belongs to the first handler or to the others.
Belongs-split :
    (filter : Option (List String)) (msg : List Media) (index : ℕ → Option ℕ) (hid : ℕ)
    (hids : List ℕ) (mid : String)
    → Belongs filter msg index (hid ∷ hids) mid
    → (entry filter msg (index hid) ≡ some mid) ⊎ Belongs filter msg index hids mid
Belongs-split filter msg index hid hids mid b = elim (Bool-cases (hid == b.hid)) [
  | inl same ↦
      inl (rw ((==_iff hid b.hid).0 same) (Belongs-entry filter msg index (hid ∷ hids) mid b))
  | inr other ↦ inr (record {
    hid = b.hid;
    place = b.place;
    media = b.media;
    listed = ground (arith, b.listed, other);
    placed = b.placed;
    found = b.found;
    named = b.named;
    enabled = b.enabled;
    offered = b.offered;
  })
]

appended :
    (filter : Option (List String)) (msg : List Media) (index : ℕ → Option ℕ) (hid : ℕ)
    (hids : List ℕ) (str text : String) (e : Option String)
    → entry filter msg (index hid) ≡ e
    → Lists filter msg index hids (put str e) text
    → Lists filter msg index (hid ∷ hids) str text
appended filter msg index hid hids str text none here l = record {
  mids = l.mids;
  written = l.written;
  belong = λ mid used. Belongs-cons filter msg index hid hids mid (l.belong mid used);
  complete = λ mid b. elim (Belongs-split filter msg index hid hids mid b) [
    | inl first ↦ absurd (ground (arith, here, first))
    | inr rest ↦ l.complete mid rest
  ];
}
appended filter msg index hid hids str text (some first) here l = record {
  mids = first ∷ l.mids;
  written = l.written;
  belong = λ mid used. elim (Bool-cases (str_eq first mid)) [
    | inl same ↦
        entry-Belongs filter msg index hid hids mid
          (here ∙ ap (λ (m : String). some m) ((eq_iff first mid).0 same))
    | inr other ↦
        Belongs-cons filter msg index hid hids mid (l.belong mid (ground (arith, used, other)))
  ];
  complete = λ mid b. elim (Belongs-split filter msg index hid hids mid b) [
    | inl at ↦
        let e = some-injective first mid (sym here ∙ at) in ground (arith, (eq_iff first mid).1 e)
    | inr rest ↦ ground (arith, l.complete mid rest)
  ];
}

append_all-Lists :
    (filter : Option (List String)) (msg : List Media) (index : ℕ → Option ℕ) (hids : List ℕ)
    (str : String)
    → Lists filter msg index hids str (append_all filter msg index hids str)
unfolding append_all
append_all-Lists filter msg index [] str = record {
  mids = [];
  written = refl;
  belong = λ mid used. absurd (ground arith);
  complete = λ mid b. absurd (ground (arith, b.listed));
}
append_all-Lists filter msg index (hid ∷ hids) str =
    appended filter msg index hid hids str _ (entry filter msg (index hid)) refl (
      rw (append_enabled_medias-put filter msg (index hid) str)
        (append_all-Lists filter msg index hids (put str (entry filter msg (index hid)))))

-- The group attribute of an answer to an offer with a group of the semantics: it lists, behind the
-- semantics, the mids of the members' medias that are not rejected and stand in the offered group, and
-- no others. The group does not work before the medias.
pub add_answer_attributes-Lists :
    (tokens : String → List String) (self : Group) (index : ℕ → Option ℕ) (offer : List String)
    (answer : List Media) (val : String)
    → self.pre_proc ≡ false
    → get_group_val tokens self.semantics offer ≡ some val
    → (text : String) × (add_answer_attributes tokens self index offer answer ≡ some text)
      × Lists (some (tokens val)) answer index self.handlers self.semantics text
unfolding add_answer_attributes
add_answer_attributes-Lists tokens self index offer answer val post offered = (
  append_all (some (tokens val)) answer index self.handlers self.semantics,
  rw post (rw offered refl),
  append_all-Lists (some (tokens val)) answer index self.handlers self.semantics,
)
