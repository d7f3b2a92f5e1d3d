-- ===== src/Tests/SdpGroupManager.antt =====
-- kmssdpgroupmanager.c with two audio handlers in one group.
use Prim.Native.String.{String, [] as empty, ◌∷◌ as cons, ◌++◌ as append}
use text.Mathlib.Text.{◌==◌ as str_eq}
use text.Mathlib.TextLemmas.{append_cancel_left, nil≢cons, tail-eq_of_cons-eq}
use kms_core.Prelude.{
  ℕ, zero, suc, ◌≡◌, refl, sym, ap, true, false, Option, none, some, List, [], ◌∷◌, arith,
  if◌then◌else◌,
}
use kms_core.SdpGroupManager.{
  MidExtData, Group, GroupManager, new_group_manager, add_handler, add_group, add_handler_to_group,
  add_media_handler,
}
use kms_core.SdpGroupManager.Assigning.{Prints}
use kms_core.SdpGroupManager.Holding.{IsValid}
use kms_core.SdpGroupManager.Offering.{Offers, on_offer_mid-Offers}
use kms_core.SdpGroupManager.Steps.{
  adds_handler, adds_group, joins_group, group_step, Reaches, start, next,
}
use kms_core.SdpGroupManager.Consistency.{IsConsistent}
use kms_core.SdpGroupManager.Reaching.{Reaches-IsConsistent}
use kms_core.SdpGroupManager.Attributes.{Media, add_answer_attributes, get_group_val}
use kms_core.SdpGroupManager.Listing.{Lists}
use kms_core.SdpGroupManager.Answering.{add_answer_attributes-Lists}

abbrev tally : ℕ → String
tally zero = empty
tally (suc n) = cons "i" (tally n)

abbrev tallied : String → ℕ → String
tallied media n = append media (tally n)

tally_injective : (i j : ℕ) → tally i ≡ tally j → i ≡ j
tally_injective zero zero same = refl
tally_injective zero (suc j) same = absurd (nil≢cons same)
tally_injective (suc i) zero same = absurd (nil≢cons (sym same))
tally_injective (suc i) (suc j) same = ap suc (tally_injective i j (tail-eq_of_cons-eq same))

tallied-Prints : (media : String) → Prints tallied media
tallied-Prints media i j small small' same =
    tally_injective i j (append_cancel_left media (tally i) (tally j) same)

abbrev bundle : Group
bundle = record { semantics = "BUNDLE"; pre_proc = false; handlers = [] }

abbrev audio : MidExtData
audio = record { media = "audio"; mid = none }

abbrev with_handler : GroupManager
with_handler = record new_group_manager { handlers = record { key = 1; value = audio } ∷ [] }

abbrev with_handlers : GroupManager
with_handlers = record new_group_manager {
  handlers = record { key = 1; value = audio } ∷ record { key = 2; value = audio } ∷ [];
}

abbrev grouped : GroupManager
grouped = record with_handlers { gid = 1; groups = record { key = 0; value = bundle } ∷ [] }

abbrev joined : GroupManager
joined = record grouped {
  groups = record { key = 0; value = record bundle { handlers = 2 ∷ [] } } ∷ [];
}

adds_first : group_step tallied new_group_manager (adds_handler 1 "audio" true) ≡ some with_handler
unfolding group_step add_handler
adds_first = refl

adds_both : group_step tallied with_handler (adds_handler 2 "audio" true) ≡ some with_handlers
unfolding group_step add_handler
adds_both = refl

groups_them : group_step tallied with_handlers (adds_group bundle) ≡ some grouped
unfolding group_step add_group
groups_them = refl

joins : group_step tallied grouped (joins_group 0 2) ≡ some joined
unfolding group_step add_handler_to_group add_media_handler
joins = refl

reached : Reaches tallied joined
reached =
    next
      (next
        (next (next start (adds_handler 1 "audio" true) refl adds_first)
          (adds_handler 2 "audio" true) refl adds_both)
        (adds_group bundle) refl groups_them)
      (joins_group 0 2) tt joins

Reaches-IsConsistent_example : IsConsistent joined
Reaches-IsConsistent_example = Reaches-IsConsistent tallied joined reached

joined-IsValid : IsValid joined
joined-IsValid = (Reaches-IsConsistent tallied joined reached).valid

on_offer_mid-Offers_example : Offers tallied joined 2 audio
on_offer_mid-Offers_example =
    on_offer_mid-Offers tallied joined 2 audio (tallied-Prints "audio") (omega arith) refl
      joined-IsValid

abbrev tokens : String → List String
tokens val = if str_eq val "BUNDLE a b" then "BUNDLE" ∷ "a" ∷ "b" ∷ [] else val ∷ []

abbrev place : ℕ → Option ℕ
place zero = none
place (suc n) = some n

abbrev medias : List Media
medias =
    record { mid = some "a"; port = 9 }
    ∷ record { mid = some "b"; port = 0 }
    ∷ record { mid = some "c"; port = 9 }
    ∷ []

abbrev members : Group
members = record bundle { handlers = 1 ∷ 2 ∷ 3 ∷ [] }

add_answer_attributes-Lists_example :
    (text : String) × (add_answer_attributes tokens members place
        ("LS a" ∷ "BUNDLE a b" ∷ [])
        medias
      ≡ some text)
    × Lists (some (tokens "BUNDLE a b")) medias place (1 ∷ 2 ∷ 3 ∷ []) "BUNDLE" text
unfolding get_group_val
add_answer_attributes-Lists_example =
    add_answer_attributes-Lists tokens members place ("LS a" ∷ "BUNDLE a b" ∷ []) medias
      "BUNDLE a b" refl refl
