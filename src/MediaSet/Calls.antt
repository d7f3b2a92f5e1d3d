-- ===== src/MediaSet/Calls.antt =====
-- MediaSet.cpp: the calls of a media set.
use kms_core.Prelude.{ℕ, ◌≡◌, ◌⊎◌, Bool, true, false, Option, none, some, []}
use kms_core.Prelude.Sets.{member}
use kms_core.MediaSet.{
  MediaSet, keep_alive_session, ref, unref, release, unref_session, release_session,
  do_garbage_collection,
}
use kms_core.MediaSet.Objects.{
  unref_by_id, release_by_id, get_in_session, new_object, release_pointer, set_server_manager,
  add_event_handler, remove_event_handler,
}
use kms_core.MediaSet.Referring.{Attached}
use kms_core.MediaSet.Collecting.{Distinct}

-- `MediaSet`, the constructor.
unfoldable pub new_media_set : MediaSet
new_media_set = record {
  server_manager = none;
  objects_map = [];
  children_map = λ object. [];
  session_map = λ session. [];
  reverse_session_map = λ object. [];
  session_in_use = [];
  event_handler = λ session object. [];
  posted = [];
}

module _ (parent : ℕ → Option ℕ) where
  -- An object that some session holds, or that stands in the maps with all above it.
  abbrev pub Placed : MediaSet → ℕ → Type 0
  Placed m o =
      ((t : ℕ) × (member t (m.reverse_session_map o) ≡ true))
      ⊎ Attached parent m.objects_map m.children_map o

module _ (parent : ℕ → Option ℕ) (uncommitted alive : ℕ → Bool) (fuel : ℕ) where
  -- A call that returns. An object is destroyed when no session holds it.
  pub data MediaCall : MediaSet → MediaSet → Type 0 where
    create_object :
        (m after : MediaSet) (o : ℕ)
        → ((p : ℕ) → parent o ≡ some p → Attached parent m.objects_map m.children_map p)
        → new_object parent fuel m o ≡ some (after, true)
        → MediaCall m after
    refer :
        (m after : MediaSet) (s o : ℕ)
        → Attached parent m.objects_map m.children_map o
        → ref parent fuel m s o ≡ some (after, true)
        → MediaCall m after
    let_go :
        (m after : MediaSet) (s o : ℕ) → unref parent fuel m s o ≡ some after → MediaCall m after
    let_go_by_id :
        (m after : MediaSet) (s o : ℕ)
        → unref_by_id uncommitted alive parent fuel m s o ≡ some after
        → MediaCall m after
    free_by_id :
        (m after : MediaSet) (o : ℕ)
        → release_by_id uncommitted alive parent fuel m o ≡ some after
        → MediaCall m after
    keep_alive : (m : MediaSet) (s : ℕ) → MediaCall m (keep_alive_session m s false).0
    share :
        (m after : MediaSet) (s o : ℕ)
        → Placed parent m o
        → get_in_session uncommitted alive parent fuel m s o ≡ some (after, true)
        → MediaCall m after
    free : (m after : MediaSet) (o : ℕ) → release parent fuel m o ≡ some after → MediaCall m after
    close :
        (m after : MediaSet) (s : ℕ)
        → release_session parent fuel m s ≡ some after
        → MediaCall m after
    leave :
        (m after : MediaSet) (s : ℕ)
        → unref_session parent fuel m s ≡ some after
        → MediaCall m after
    collect_idle :
        (m after : MediaSet)
        → Distinct m.session_in_use
        → do_garbage_collection parent fuel m ≡ some after
        → MediaCall m after
    destroy :
        (m : MediaSet) (o : ℕ)
        → ((t : ℕ) → member t (m.reverse_session_map o) ≡ false)
        → MediaCall m (release_pointer m o)
    manage : (m : MediaSet) (o : ℕ) → MediaCall m (set_server_manager m o)
    subscribe : (m : MediaSet) (s o h : ℕ) → MediaCall m (add_event_handler m s o h)
    unsubscribe : (m : MediaSet) (s o h : ℕ) → MediaCall m (remove_event_handler m s o h)

  pub data Reaches (start : MediaSet) : MediaSet → Type 0 where
    here : Reaches start start
    next : {m after : MediaSet} → Reaches start m → MediaCall m after → Reaches start after
