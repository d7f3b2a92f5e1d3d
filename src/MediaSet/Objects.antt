-- ===== src/MediaSet/Objects.antt =====
-- MediaSet.cpp, the calls on objects: new ones, ones that are looked for, ones that are destroyed, and
-- the subscriptions to their events.
use kms_core.Prelude.{
  ℕ, Bool, true, false, not, ◌&&◌, Option, none, some, List, [], ◌∷◌, if◌then◌else◌,
}
use kms_core.Prelude.Sets.{member, add, erase, at}
use kms_core.MediaSet.{MediaSet, is_some, is_empty, is_server_manager, ref, unref, release}

-- What `getMediaObject` returns, or the error of its exception.
pub data Found : Type 0 where
  found : Found
  media_object_not_found : Found
  transaction_no_commit : Found

-- `uncommitted` are the ids that begin with "newref:", and `alive` are the objects whose weak pointer
-- can be locked.
module _ (uncommitted alive : ℕ → Bool) where
  -- `getMediaObject (mediaObjectRef)`.
  unfoldable pub get_media_object : MediaSet → ℕ → Found
  get_media_object m object =
      if uncommitted object
      then transaction_no_commit
      else if not (member object m.objects_map && alive object)
      then media_object_not_found
      else if is_empty (m.reverse_session_map object) && not (is_server_manager m object)
      then media_object_not_found
      else found

  -- `getMediaObject (sessionId, mediaObjectRef)` and `ref (sessionId, mediaObjectRef)`, with no other
  -- call between their steps.
  unfoldable pub get_in_session : (ℕ → Option ℕ) → ℕ → MediaSet → ℕ → ℕ → Option (MediaSet × Bool)
  get_in_session parent fuel m session object = elim (get_media_object m object) [
    | found ↦ ref parent fuel m session object
    | media_object_not_found ↦ some (m, false)
    | transaction_no_commit ↦ some (m, false)
  ]

  -- `unref (sessionId, mediaObjectRef)`.
  unfoldable pub unref_by_id : (ℕ → Option ℕ) → ℕ → MediaSet → ℕ → ℕ → Option MediaSet
  unref_by_id parent fuel m session object = elim (get_media_object m object) [
    | found ↦ unref parent fuel m session object
    | media_object_not_found ↦ some m
    | transaction_no_commit ↦ some m
  ]

  -- `release (mediaObjectRef)`.
  unfoldable pub release_by_id : (ℕ → Option ℕ) → ℕ → MediaSet → ℕ → Option MediaSet
  release_by_id parent fuel m object = elim (get_media_object m object) [
    | found ↦ release parent fuel m object
    | media_object_not_found ↦ some m
    | transaction_no_commit ↦ some m
  ]

module _ (parent : ℕ → Option ℕ) where
  -- The loop of `ref (mediaObjectPtr)` over the sessions of the parent; an exception ends it.
  unfoldable pub ref_all : ℕ → List ℕ → MediaSet → ℕ → Option (MediaSet × Bool)
  ref_all fuel [] m object = some (m, true)
  ref_all fuel (session ∷ sessions) m object = elim (ref parent fuel m session object) [
    | none ↦ none
    | some (after, true) ↦ ref_all fuel sessions after object
    | some (after, false) ↦ some (after, false)
  ]

  -- The object enters the maps.
  unfoldable pub enter : MediaSet → ℕ → MediaSet
  enter m object = elim (parent object) [
    | none ↦ record m { objects_map = add object m.objects_map }
    | some p ↦ record m {
      objects_map = add object m.objects_map;
      children_map = at m.children_map p (add object (m.children_map p));
    }
  ]

  -- `ref (mediaObjectPtr)` for a pointer that is not null, up to its events.
  unfoldable pub new_object : ℕ → MediaSet → ℕ → Option (MediaSet × Bool)
  new_object fuel m object = elim (parent object) [
    | none ↦ some (enter m object, true)
    | some p ↦ ref_all fuel ((enter m object).reverse_session_map p) (enter m object) object
  ]

-- `releasePointer`, without its event.
unfoldable pub release_pointer : MediaSet → ℕ → MediaSet
release_pointer m object = record m { objects_map = erase object m.objects_map }

-- `setServerManager`.
unfoldable pub set_server_manager : MediaSet → ℕ → MediaSet
set_server_manager m manager =
    if is_some m.server_manager then m else record m { server_manager = some manager }

-- `addEventHandler`.
unfoldable pub add_event_handler : MediaSet → ℕ → ℕ → ℕ → MediaSet
add_event_handler m session object subscription = record m {
  event_handler =
      at m.event_handler session
        (at (m.event_handler session) object (add subscription (m.event_handler session object)));
}

-- `removeEventHandler`.
unfoldable pub remove_event_handler : MediaSet → ℕ → ℕ → ℕ → MediaSet
remove_event_handler m session object subscription = record m {
  event_handler =
      at m.event_handler session
        (at (m.event_handler session) object (erase subscription (m.event_handler session object)));
}

abbrev pub has_one : List ℕ → Bool
has_one (x ∷ []) = true
has_one [] = false
has_one (x ∷ y ∷ xs) = false

-- `empty`.
unfoldable pub empty : MediaSet → Bool
empty m = if is_some m.server_manager then has_one m.objects_map else is_empty m.objects_map
