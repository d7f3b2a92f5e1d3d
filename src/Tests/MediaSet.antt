-- ===== src/Tests/MediaSet.antt =====
-- MediaSet.cpp at a pipeline with an element, held by two sessions.
use kms_core.Prelude.{
  ℕ, zero, suc, ◌<◌, ◌≤◌, ◌≡◌, refl, true, false, Option, none, some, [], ◌∷◌, arith,
}
use kms_core.Prelude.Sets.{member, at, add}
use kms_core.Prelude.Tables.{lookup}
use kms_core.MediaSet.{
  MediaSet, is_some, is_empty, is_server_manager, release, unref_session, release_session,
  do_garbage_collection, register, ref, keep_alive_session,
}
use kms_core.MediaSet.Unref.{Ranks}
use kms_core.MediaSet.Sessions.{IsValid, Forgets, unref_session-Forgets}
use kms_core.MediaSet.Releasing.{Releases, release-Releases, release_session-Releases}
use kms_core.MediaSet.Objects.{get_in_session, new_object, enter, add_event_handler}
use kms_core.MediaSet.Calls.{new_media_set, create_object, refer, subscribe, here, next}
use kms_core.MediaSet.Reaching.{Reaches-IsValid}
use kms_core.MediaSet.Registering.{kept}
use kms_core.MediaSet.Referring.{Attached, root, Refers}
use kms_core.MediaSet.Sharing.{get_in_session-Refers}
use kms_core.MediaSet.Collecting.{Collects, do_garbage_collection-Collects}
use kms_core.MediaSet.Creating.{Creates, new_object-Creates}

-- The elements 1 and 2 stand in the pipeline 0.
abbrev parent : ℕ → Option ℕ
parent zero = none
parent (suc zero) = some 0
parent (suc (suc zero)) = some 0
parent (suc (suc (suc x))) = none

abbrev rank : ℕ → ℕ
rank zero = 0
rank (suc x) = 1

parent-Ranks : Ranks parent rank 1
parent-Ranks = record { older = λ x p child. older x p child; bounded = λ x. bounded x }
  where
    older : (x p : ℕ) → parent x ≡ some p → rank p < rank x
    older zero p child = absurd (ground arith)
    older (suc zero) zero child = ground arith
    older (suc zero) (suc p) child = absurd (ground arith)
    older (suc (suc zero)) zero child = ground arith
    older (suc (suc zero)) (suc p) child = absurd (ground arith)
    older (suc (suc (suc x))) p child = absurd (ground arith)

    bounded : (x : ℕ) → rank x ≤ 1
    bounded zero = ground arith
    bounded (suc x) = ground arith

-- Session 5 holds the pipeline and its element 1, session 6 only the pipeline.
abbrev shared : MediaSet
shared = record {
  server_manager = none;
  objects_map = 0 ∷ 1 ∷ [];
  children_map = at (λ x. []) 0 (1 ∷ []);
  session_map = at (at (λ s. []) 5 (0 ∷ 1 ∷ [])) 6 (0 ∷ []);
  reverse_session_map = at (at (λ x. []) 0 (5 ∷ 6 ∷ [])) 1 (5 ∷ []);
  session_in_use = record { key = 5; value = false } ∷ record { key = 6; value = true } ∷ [];
  event_handler = λ s x. [];
  posted = [];
}

shared_closed :
    (t x p : ℕ)
    → member t (shared.reverse_session_map x) ≡ true
    → parent x ≡ some p
    → member t (shared.reverse_session_map p) ≡ true
shared_closed t zero p h child = absurd (ground arith)
shared_closed t (suc zero) zero h child = ground arith
shared_closed t (suc zero) (suc p) h child = absurd (ground arith)
shared_closed t (suc (suc x)) p h child = absurd (ground arith)

shared_known :
    (t x p : ℕ)
    → member t (shared.reverse_session_map x) ≡ true
    → parent x ≡ some p
    → member x (shared.children_map p) ≡ true
shared_known t zero p h child = absurd (ground arith)
shared_known t (suc zero) zero h child = refl
shared_known t (suc zero) (suc p) h child = absurd (ground arith)
shared_known t (suc (suc x)) p h child = absurd (ground arith)

shared_sound : (x p : ℕ) → member x (shared.children_map p) ≡ true → parent x ≡ some p
shared_sound zero zero h = absurd (ground arith)
shared_sound (suc zero) zero h = refl
shared_sound (suc (suc x)) zero h = absurd (ground arith)
shared_sound x (suc p) h = absurd (ground arith)

shared_linked :
    (s x : ℕ)
    → member s (shared.reverse_session_map x) ≡ true
    → member x (shared.session_map s) ≡ true
shared_linked s zero h = ground arith
shared_linked s (suc zero) h = ground arith
shared_linked s (suc (suc x)) h = absurd (ground arith)

shared_backed :
    (s x : ℕ)
    → member x (shared.session_map s) ≡ true
    → member s (shared.reverse_session_map x) ≡ true
shared_backed s zero h = ground arith
shared_backed s (suc zero) h = ground arith
shared_backed s (suc (suc x)) h = absurd (ground arith)

shared_in_use :
    (s x : ℕ)
    → member s (shared.reverse_session_map x) ≡ true
    → is_some (lookup shared.session_in_use s) ≡ true
shared_in_use s zero h = ground arith
shared_in_use s (suc zero) h = ground arith
shared_in_use s (suc (suc x)) h = absurd (ground arith)

shared_held :
    (s x : ℕ) → member s (shared.reverse_session_map x) ≡ true → member x shared.objects_map ≡ true
shared_held s zero h = refl
shared_held s (suc zero) h = refl
shared_held s (suc (suc x)) h = absurd (ground arith)

shared-IsValid : IsValid parent shared
shared-IsValid = record {
  agrees = λ s. record {
    linked = λ x h stays. shared_linked s x h;
    backed = λ x h. shared_backed s x h;
    tree = record { closed = shared_closed; known = shared_known; sound = shared_sound };
  };
  in_use = shared_in_use;
  held = shared_held;
}

pipeline-Attached :
    (p : ℕ) → parent 2 ≡ some p → Attached parent shared.objects_map shared.children_map p
pipeline-Attached zero child = root 0 refl refl
pipeline-Attached (suc p) child = absurd (ground arith)

unref_session-Forgets_example :
    (after : MediaSet) × (unref_session parent 2 shared 5 ≡ some after)
    × Forgets parent 5 shared after
unref_session-Forgets_example =
    unref_session-Forgets parent rank 1 parent-Ranks 2 shared 5 (ground arith) shared-IsValid

release-Releases_example :
    Releases parent shared
      (release parent 2 shared 0)
      (λ after. (t : ℕ) → member t (after.reverse_session_map 0) ≡ false)
release-Releases_example =
    release-Releases parent rank 1 parent-Ranks 2 shared 0 (ground arith) shared-IsValid

holder_closed : Releases parent shared (release_session parent 2 shared 6) (λ after.
    ((x t : ℕ)
      → member 6 (shared.reverse_session_map x) ≡ true
      → member t (after.reverse_session_map x) ≡ false)
    × (is_some (lookup after.session_in_use 6) ≡ false))
holder_closed =
    release_session-Releases parent rank 1 parent-Ranks 2 shared 6 (ground arith) shared-IsValid

get_in_session-Refers_example :
    ((t : ℕ)
      → member t (shared.reverse_session_map 1) ≡ true
      → (after : MediaSet) × (get_in_session (λ x. false) (λ x. true) parent 2 shared 6 1
          ≡ some (after, true))
        × Refers parent 6 1 shared after)
    × (is_empty (shared.reverse_session_map 1) ≡ true
        → is_server_manager shared 1 ≡ false
        → get_in_session (λ x. false) (λ x. true) parent 2 shared 6 1 ≡ some (shared, false))
get_in_session-Refers_example =
    get_in_session-Refers parent rank 1 parent-Ranks (λ x. false) (λ x. true) 2 shared 6 1
      (ground arith) shared-IsValid refl refl

do_garbage_collection-Collects_example :
    (after : MediaSet) × (do_garbage_collection parent 2 shared ≡ some after)
    × Collects parent shared.session_in_use shared after
do_garbage_collection-Collects_example =
    do_garbage_collection-Collects parent rank 1 parent-Ranks 2 shared (ground arith)
      (refl, (refl, tt)) shared-IsValid

new_object-Creates_example :
    (after : MediaSet) × (new_object parent 2 shared 2 ≡ some (after, true))
    × Creates parent rank 1 parent-Ranks 2 shared after
new_object-Creates_example =
    new_object-Creates parent rank 1 parent-Ranks 2 shared 2 (ground arith) pipeline-Attached
      shared-IsValid

abbrev with_pipeline : MediaSet
with_pipeline = enter parent new_media_set 0

pipeline_made : new_object parent 2 new_media_set 0 ≡ some (with_pipeline, true)
unfolding new_object enter new_media_set
pipeline_made = refl

no_parent_above :
    (p : ℕ)
    → parent 0 ≡ some p
    → Attached parent new_media_set.objects_map new_media_set.children_map p
no_parent_above p child = absurd (ground arith)

pipeline_there : Attached parent with_pipeline.objects_map with_pipeline.children_map 0
unfolding enter new_media_set add
pipeline_there = root 0 refl refl

abbrev pipeline_held : MediaSet
pipeline_held = register (kept with_pipeline 5) 5 0

pipeline_referred : ref parent 2 with_pipeline 5 0 ≡ some (pipeline_held, true)
unfolding ref keep_alive_session enter new_media_set add
pipeline_referred = refl

-- The session holds the pipeline.
five_holds : member 5 (pipeline_held.reverse_session_map 0) ≡ true
unfolding enter new_media_set add
five_holds = refl

Reaches-IsValid_example : IsValid parent (add_event_handler pipeline_held 5 0 7)
Reaches-IsValid_example =
    Reaches-IsValid parent (λ x. false) (λ x. true) 2 rank 1 parent-Ranks (ground arith)
      (next
        (next
          (next here (create_object new_media_set with_pipeline 0 no_parent_above pipeline_made))
          (refer with_pipeline pipeline_held 5 0 pipeline_there pipeline_referred))
        (subscribe pipeline_held 5 0 7))
