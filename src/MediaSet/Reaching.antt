-- ===== src/MediaSet/Reaching.antt =====
-- MediaSet.cpp: what a media set can come to by its calls.
use kms_core.Prelude.{
  ℕ, ◌<◌, ◌≡◌, ◌∙◌, refl, sym, ap, Bool, true, false, Option, none, some, ◌==◌, arith, subst,
  Bool-cases, inl, inr, ==_iff,
}
use kms_core.Prelude.Sets.{member, member-erase}
use kms_core.Prelude.Tables.{lookup}
use kms_core.MediaSet.{MediaSet, is_some, keep_alive_session, ref, unref, release}
use kms_core.MediaSet.Unref.{Ranks}
use kms_core.MediaSet.Sessions.{IsValid, unref_session-Forgets}
use kms_core.MediaSet.Releasing.{release-Releases, release_session-Releases, released_once}
use kms_core.MediaSet.Objects.{
  Found, found, media_object_not_found, transaction_no_commit, get_media_object, unref_by_id,
  release_by_id, get_in_session, release_pointer, set_server_manager, add_event_handler,
  remove_event_handler,
}
use kms_core.MediaSet.Referring.{Attached, ref-Refers}
use kms_core.MediaSet.Registering.{kept-IsValid}
use kms_core.MediaSet.Sharing.{held-Attached}
use kms_core.MediaSet.Collecting.{do_garbage_collection-Collects}
use kms_core.MediaSet.Creating.{new_object-Creates}
use kms_core.MediaSet.Calls.{
  new_media_set, Placed, MediaCall, Reaches, create_object, refer, let_go, let_go_by_id, free_by_id,
  keep_alive, share, free, close, leave, collect_idle, destroy, manage, subscribe, unsubscribe,
  here, next,
}

module _ (parent : ℕ → Option ℕ) (uncommitted alive : ℕ → Bool) (fuel : ℕ) where
  same_maps :
      (m after : MediaSet)
      → after.children_map ≡ m.children_map
      → after.session_map ≡ m.session_map
      → after.reverse_session_map ≡ m.reverse_session_map
      → after.session_in_use ≡ m.session_in_use
      → ((s x : ℕ) → member s (m.reverse_session_map x) ≡ true → member x after.objects_map ≡ true)
      → IsValid parent m
      → IsValid parent after
  same_maps m after c s r u held v = record {
    agrees = λ t. record {
      linked = λ x h stays. rw s ((v.agrees t).linked x (rw (← r) h) stays);
      backed = λ x h. rw r ((v.agrees t).backed x (rw (← s) h));
      tree = record {
        closed = λ t x p h child. rw r ((v.agrees t).tree.closed t x p (rw (← r) h) child);
        known = λ t x p h child. rw c ((v.agrees t).tree.known t x p (rw (← r) h) child);
        sound = λ x p h. (v.agrees t).tree.sound x p (rw (← c) h);
      };
    };
    in_use = λ t x h. rw u (v.in_use t x (rw (← r) h));
    held = λ t x h. held t x (rw (← r) h);
  }

  new_media_set-IsValid : IsValid parent new_media_set
  unfolding new_media_set
  new_media_set-IsValid = record {
    agrees = λ t. record {
      linked = λ x h stays. absurd (ground arith);
      backed = λ x h. absurd (ground arith);
      tree = record {
        closed = λ t x p h child. absurd (ground arith);
        known = λ t x p h child. absurd (ground arith);
        sound = λ x p h. absurd (ground arith);
      };
    };
    in_use = λ t x h. absurd (ground arith);
    held = λ t x h. absurd (ground arith);
  }

  abbrev result : MediaSet → Option (MediaSet × Bool) → MediaSet
  result m none = m
  result m (some (after, done)) = after

  abbrev end_of : MediaSet → Option MediaSet → MediaSet
  end_of m none = m
  end_of m (some after) = after

  -- A call has one result.
  same_result :
      (m a b : MediaSet) (run : Option (MediaSet × Bool))
      → run ≡ some (a, true)
      → run ≡ some (b, true)
      → IsValid parent a
      → IsValid parent b
  same_result m a b run e f v =
      subst (λ (k : MediaSet). IsValid parent k) (ap (result m) (sym e ∙ f)) v

  same_end :
      (m a b : MediaSet) (run : Option MediaSet)
      → run ≡ some a
      → run ≡ some b
      → IsValid parent a
      → IsValid parent b
  same_end m a b run e f v =
      subst (λ (k : MediaSet). IsValid parent k) (ap (end_of m) (sym e ∙ f)) v

  managed : (m : MediaSet) (o : ℕ) → IsValid parent m → IsValid parent (set_server_manager m o)
  unfolding set_server_manager
  managed m o v = elim (Bool-cases (is_some m.server_manager)) [
    | inl has_one ↦ rw has_one v
    | inr none_yet ↦
        rw none_yet
          (same_maps m (record m { server_manager = some o }) refl refl refl refl v.held v)
  ]

  destroyed :
      (m : MediaSet) (o : ℕ)
      → ((t : ℕ) → member t (m.reverse_session_map o) ≡ false)
      → IsValid parent m
      → IsValid parent (release_pointer m o)
  unfolding release_pointer
  destroyed m o out v =
      same_maps m (release_pointer m o) refl refl refl refl
        (λ s x h. rw (member-erase x o m.objects_map) (elim (Bool-cases (o == x)) [
          | inr other ↦ rw other (rw (v.held s x h) refl)
          | inl same ↦
              let e = (==_iff o x).0 same in
              let no = out s in
              let h' = subst (λ (k : ℕ). member s (m.reverse_session_map k) ≡ true) (sym e) h in
              absurd (ground arith)
        ]))
        v

  kept_alive :
      (m : MediaSet) (s : ℕ) → IsValid parent m → IsValid parent (keep_alive_session m s false).0
  unfolding keep_alive_session
  kept_alive m s v = elim (Bool-cases (is_some (lookup m.session_in_use s))) [
    | inl known ↦ rw known (kept-IsValid parent m s v)
    | inr unknown ↦ rw unknown v
  ]

  module _ (rank : ℕ → ℕ) (top : ℕ) (ranks : Ranks parent rank top) (enough : top < fuel) where
    Placed-Attached :
        (m : MediaSet) (o : ℕ)
        → Placed parent m o
        → IsValid parent m
        → Attached parent m.objects_map m.children_map o
    Placed-Attached m o (inl (t, h)) v = held-Attached parent rank top ranks m t o v h
    Placed-Attached m o (inr placed) v = placed

    refer-IsValid :
        (m after : MediaSet) (s o : ℕ)
        → Attached parent m.objects_map m.children_map o
        → ref parent fuel m s o ≡ some (after, true)
        → IsValid parent m
        → IsValid parent after
    refer-IsValid m after s o placed ran v =
        let (a, e, r) =
          ref-Refers parent rank top ranks fuel m s o (let b = ranks.bounded o in omega arith)
            placed v in
        same_result m a after _ e ran r.valid

    let_go-IsValid :
        (m after : MediaSet) (s o : ℕ)
        → unref parent fuel m s o ≡ some after
        → IsValid parent m
        → IsValid parent after
    let_go-IsValid m after s o ran v =
        let r = released_once parent rank top ranks fuel m s o enough v in
        same_end m r.after after _ r.ran ran r.valid

    free-IsValid :
        (m after : MediaSet) (o : ℕ)
        → release parent fuel m o ≡ some after
        → IsValid parent m
        → IsValid parent after
    free-IsValid m after o ran v =
        let r = release-Releases parent rank top ranks fuel m o enough v in
        same_end m r.after after _ r.ran ran r.valid

    -- A call by id is the call on the object that is found, or changes nothing.
    let_go_by_id-IsValid :
        (m after : MediaSet) (s o : ℕ) (f : Found)
        → get_media_object uncommitted alive m o ≡ f
        → unref_by_id uncommitted alive parent fuel m s o ≡ some after
        → IsValid parent m
        → IsValid parent after
    unfolding unref_by_id
    let_go_by_id-IsValid m after s o found at ran v = let_go-IsValid m after s o (ground arith) v
    let_go_by_id-IsValid m after s o media_object_not_found at ran v =
        same_end m m after (some m) refl (ground arith) v
    let_go_by_id-IsValid m after s o transaction_no_commit at ran v =
        same_end m m after (some m) refl (ground arith) v

    free_by_id-IsValid :
        (m after : MediaSet) (o : ℕ) (f : Found)
        → get_media_object uncommitted alive m o ≡ f
        → release_by_id uncommitted alive parent fuel m o ≡ some after
        → IsValid parent m
        → IsValid parent after
    unfolding release_by_id
    free_by_id-IsValid m after o found at ran v = free-IsValid m after o (ground arith) v
    free_by_id-IsValid m after o media_object_not_found at ran v =
        same_end m m after (some m) refl (ground arith) v
    free_by_id-IsValid m after o transaction_no_commit at ran v =
        same_end m m after (some m) refl (ground arith) v

    share-IsValid :
        (m after : MediaSet) (s o : ℕ) (f : Found)
        → Placed parent m o
        → get_media_object uncommitted alive m o ≡ f
        → get_in_session uncommitted alive parent fuel m s o ≡ some (after, true)
        → IsValid parent m
        → IsValid parent after
    unfolding get_in_session
    share-IsValid m after s o found placed at ran v =
        refer-IsValid m after s o (Placed-Attached m o placed v) (ground arith) v
    share-IsValid m after s o media_object_not_found placed at ran v = absurd (ground arith)
    share-IsValid m after s o transaction_no_commit placed at ran v = absurd (ground arith)

    MediaCall-IsValid :
        {m after : MediaSet}
        → MediaCall parent uncommitted alive fuel m after
        → IsValid parent m
        → IsValid parent after
    unfolding add_event_handler remove_event_handler
    MediaCall-IsValid (create_object m after o placed ran) v =
        let (a, e, c) = new_object-Creates parent rank top ranks fuel m o enough placed v in
        same_result m a after _ e ran c.valid
    MediaCall-IsValid (refer m after s o placed ran) v = refer-IsValid m after s o placed ran v
    MediaCall-IsValid (let_go m after s o ran) v = let_go-IsValid m after s o ran v
    MediaCall-IsValid (let_go_by_id m after s o ran) v =
        let_go_by_id-IsValid m after s o (get_media_object uncommitted alive m o) refl ran v
    MediaCall-IsValid (free_by_id m after o ran) v =
        free_by_id-IsValid m after o (get_media_object uncommitted alive m o) refl ran v
    MediaCall-IsValid (keep_alive m s) v = kept_alive m s v
    MediaCall-IsValid (share m after s o placed ran) v =
        share-IsValid m after s o (get_media_object uncommitted alive m o) placed refl ran v
    MediaCall-IsValid (free m after o ran) v = free-IsValid m after o ran v
    MediaCall-IsValid (close m after s ran) v =
        let r = release_session-Releases parent rank top ranks fuel m s enough v in
        same_end m r.after after _ r.ran ran r.valid
    MediaCall-IsValid (leave m after s ran) v =
        let (a, e, f) = unref_session-Forgets parent rank top ranks fuel m s enough v in
        same_end m a after _ e ran f.valid
    MediaCall-IsValid (collect_idle m after d ran) v =
        let (a, e, c) = do_garbage_collection-Collects parent rank top ranks fuel m enough d v in
        same_end m a after _ e ran c.valid
    MediaCall-IsValid (destroy m o out) v = destroyed m o out v
    MediaCall-IsValid (manage m o) v = managed m o v
    MediaCall-IsValid (subscribe m s o h) v =
        same_maps m (add_event_handler m s o h) refl refl refl refl v.held v
    MediaCall-IsValid (unsubscribe m s o h) v =
        same_maps m (remove_event_handler m s o h) refl refl refl refl v.held v

    -- With enough fuel for the depth of the tree of objects, whatever calls succeed on a new media set, in
    -- any order, when a new object has a parent that stands in the maps with all above it or none, a session
    -- refers to objects that stand so or, by their ids, also to those that some session holds, an object
    -- is destroyed only when no session holds it, and the keys of the sessions differ, the maps are valid:
    -- those of sessions and of objects agree, and who holds an object is a known session and holds its
    -- parent.
    pub Reaches-IsValid :
        {m : MediaSet} → Reaches parent uncommitted alive fuel new_media_set m → IsValid parent m
    Reaches-IsValid here = new_media_set-IsValid
    Reaches-IsValid (next before call) = MediaCall-IsValid call (Reaches-IsValid before)
