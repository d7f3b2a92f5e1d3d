-- ===== src/MediaSet.antt =====
-- src/server/implementation/MediaSet.cpp: which sessions hold which media objects. The ids of objects,
-- sessions and subscriptions are strings in the code, which only compares them: here they are numbers.
-- A key that a map does not have and one with an empty set are told apart nowhere below, so that a map
-- to sets is a function. The mutex makes each call one step.
pub mod Tree
pub mod Children
pub mod Leaving
pub mod Unref
pub mod Sessions
pub mod Releasing
pub mod Objects
pub mod Registering
pub mod Referring
pub mod Sharing
pub mod Calls
pub mod Reaching
pub mod Collecting
pub mod Entering
pub mod Creating
use kms_core.Prelude.{
  ℕ, zero, suc, Bool, true, false, not, ◌&&◌, Option, none, some, List, [], ◌∷◌, ◌++◌, ◌==◌,
  if◌then◌else◌,
}
use kms_core.Prelude.Sets.{member, add, erase, at}
use kms_core.Prelude.Tables.{Entry, lookup, insert}

-- The members of `MediaSet`. `posted` are the objects whose `release` has been posted to the workers.
pub record MediaSet : Type 0 where
  pub server_manager : Option ℕ
  pub objects_map : List ℕ
  pub children_map : ℕ → List ℕ
  pub session_map : ℕ → List ℕ
  pub reverse_session_map : ℕ → List ℕ
  pub session_in_use : List (Entry Bool)
  pub event_handler : ℕ → ℕ → List ℕ
  pub posted : List ℕ

abbrev pub is_some {ℓ} : {A : Type ℓ} → Option A → Bool
is_some none = false
is_some (some a) = true

-- `keepAliveSession`: an unknown session is created or is an error.
unfoldable pub keep_alive_session : MediaSet → ℕ → Bool → MediaSet × Bool
keep_alive_session m session create =
    if is_some (lookup m.session_in_use session)
    then (record m { session_in_use = insert m.session_in_use session true }, true)
    else if create
    then (record m { session_in_use = insert m.session_in_use session true }, true)
    else (m, false)

-- The last two lines of `ref`.
abbrev pub register : MediaSet → ℕ → ℕ → MediaSet
register m session object = record m {
  session_map = at m.session_map session (add object (m.session_map session));
  reverse_session_map =
      at m.reverse_session_map object (add session (m.reverse_session_map object));
}

-- `isServerManager`.
unfoldable pub is_server_manager : MediaSet → ℕ → Bool
is_server_manager m object = elim m.server_manager [ none ↦ false | some id ↦ id == object ]

-- A loop over a copy of a container.
unfoldable pub each : (ℕ → MediaSet → Option MediaSet) → List ℕ → MediaSet → Option MediaSet
each f [] m = some m
each f (x ∷ xs) m = elim (f x m) [ none ↦ none | some next ↦ each f xs next ]

abbrev pub is_empty : List ℕ → Bool
is_empty [] = true
is_empty (x ∷ xs) = false

-- `std::map::erase`.
unfoldable pub forget {ℓ} : {V : Type ℓ} → ℕ → List (Entry V) → List (Entry V)
forget k [] = []
forget k (e ∷ table) = if e.key == k then forget k table else e ∷ forget k table

-- An object is no child any more, and has no children.
unfoldable pub drop_children : Option ℕ → (ℕ → List ℕ) → ℕ → ℕ → List ℕ
drop_children none children object = at children object []
drop_children (some p) children object = at (at children p (erase object (children p))) object []

-- The parent of an object is given when it is made.
module _ (parent : ℕ → Option ℕ) where
  -- `ref (sessionId, mediaObject)` along as many parents as `fuel` allows; false is the exception.
  unfoldable pub ref : ℕ → MediaSet → ℕ → ℕ → Option (MediaSet × Bool)
  ref zero m session object = none
  ref (suc fuel) m session object =
      if not (member object m.objects_map)
      then some (m, false)
      else let kept = (keep_alive_session m session true).0 in
        elim (parent object) [
          | none ↦ some (register kept session object, true)
          | some p ↦ elim (ref fuel kept session p) [
            | none ↦ none
            | some (after, true) ↦ some (register after session object, true)
            | some (after, false) ↦ some (after, false)
          ]
        ]

  -- An object without a session leaves the maps.
  unfoldable pub drop_object : MediaSet → ℕ → MediaSet
  drop_object m object = record m {
    children_map = drop_children (parent object) m.children_map object;
    reverse_session_map = at m.reverse_session_map object [];
  }

  -- The part of `unref` behind the children.
  unfoldable pub unref_object : MediaSet → ℕ → ℕ → MediaSet
  unref_object m session object =
      let left = erase session (m.reverse_session_map object) in
      let erased : MediaSet = record m {
        reverse_session_map = at m.reverse_session_map object left;
      } in
      let dropped =
        if is_empty left && not (is_server_manager m object)
        then drop_object erased object
        else erased in
      record dropped {
        event_handler =
            at dropped.event_handler session (at (dropped.event_handler session) object []);
        posted = if is_empty left then object ∷ dropped.posted else dropped.posted;
      }

  -- `unref (sessionId, mediaObject)`, along as many children as `fuel` allows.
  unfoldable pub unref : ℕ → MediaSet → ℕ → ℕ → Option MediaSet
  unref zero m session object = none
  unref (suc fuel) m session object =
      let erased : MediaSet = record m {
        session_map = at m.session_map session (erase object (m.session_map session));
      } in
      elim (each (λ child next. unref fuel next session child) (m.children_map object) erased) [
        | none ↦ none
        | some next ↦ some (unref_object next session object)
      ]

  -- `release (mediaObject)`: the sessions that hold the object let it go.
  unfoldable pub release : ℕ → MediaSet → ℕ → Option MediaSet
  release fuel m object =
      each (λ session next. unref fuel next session object) (m.reverse_session_map object) m

-- A session leaves the maps.
unfoldable pub forget_session : MediaSet → ℕ → MediaSet
forget_session m session = record m {
  session_map = at m.session_map session [];
  session_in_use = forget session m.session_in_use;
  event_handler = at m.event_handler session (λ object. []);
}

module _ (parent : ℕ → Option ℕ) where
  -- `unrefSession`.
  unfoldable pub unref_session : ℕ → MediaSet → ℕ → Option MediaSet
  unref_session fuel m session =
      elim (each (λ object next. unref parent fuel next session object) (m.session_map session) m) [
        | none ↦ none
        | some next ↦ some (forget_session next session)
      ]

  -- `releaseSession`.
  unfoldable pub release_session : ℕ → MediaSet → ℕ → Option MediaSet
  release_session fuel m session =
      elim (each (λ object next. release parent fuel next object) (m.session_map session) m) [
        | none ↦ none
        | some next ↦ some (forget_session next session)
      ]

  -- The loop of `doGarbageCollection` over a copy of the sessions: one that was in use since the last
  -- collection has another chance.
  unfoldable pub collect : ℕ → List (Entry Bool) → MediaSet → Option MediaSet
  collect fuel [] m = some m
  collect fuel (e ∷ sessions) m = elim e.value [
    | true ↦
        collect fuel sessions (record m { session_in_use = insert m.session_in_use e.key false })
    | false ↦ elim (unref_session fuel m e.key) [
      | none ↦ none
      | some next ↦ collect fuel sessions next
    ]
  ]

  -- `doGarbageCollection`, with no other call between its steps.
  unfoldable pub do_garbage_collection : ℕ → MediaSet → Option MediaSet
  do_garbage_collection fuel m = collect fuel m.session_in_use m
