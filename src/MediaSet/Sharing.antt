-- ===== src/MediaSet/Sharing.antt =====
-- MediaSet.cpp, `getMediaObject (sessionId, mediaObjectRef)`: a session gets an object of another one.
use kms_core.Prelude.{
  ℕ, zero, suc, ◌<◌, ◌≡◌, ◌⊎◌, refl, ap, inl, inr, Bool, true, false, Option, some, List, arith,
  Bool-cases, Option-cases,
}
use kms_core.Prelude.Sets.{member}
use kms_core.MediaSet.{MediaSet, is_empty, is_server_manager}
use kms_core.MediaSet.Tree.{empty_none}
use kms_core.MediaSet.Unref.{Ranks}
use kms_core.MediaSet.Sessions.{IsValid}
use kms_core.MediaSet.Objects.{
  found, media_object_not_found, transaction_no_commit, get_media_object, get_in_session,
}
use kms_core.MediaSet.Referring.{Attached, root, below, Refers, ref-Refers}

module _ (parent : ℕ → Option ℕ) (rank : ℕ → ℕ) (top : ℕ) (ranks : Ranks parent rank top) where
  held-Attached_below :
      (depth : ℕ) (m : MediaSet) (t o : ℕ)
      → rank o < depth
      → IsValid parent m
      → member t (m.reverse_session_map o) ≡ true
      → Attached parent m.objects_map m.children_map o
  held-Attached_below zero m t o enough v h = absurd (omega arith)
  held-Attached_below (suc depth) m t o enough v h = elim (Option-cases (parent o)) [
    | inl top_most ↦ root o top_most (v.held t o h)
    | inr (p, child) ↦ below o p child (v.held t o h) ((v.agrees t).tree.known t o p h child) (
        held-Attached_below depth m t p (let lt = ranks.older o p child in omega arith) v
          ((v.agrees t).tree.closed t o p h child))
  ]

  -- An object that a session holds stands in the maps with all above it.
  pub held-Attached :
      (m : MediaSet) (t o : ℕ)
      → IsValid parent m
      → member t (m.reverse_session_map o) ≡ true
      → Attached parent m.objects_map m.children_map o
  held-Attached m t o = held-Attached_below (suc (rank o)) m t o (omega arith)

  module _ (uncommitted alive : ℕ → Bool) where
    get_media_object_held :
        (m : MediaSet) (t o : ℕ)
        → uncommitted o ≡ false
        → alive o ≡ true
        → member o m.objects_map ≡ true
        → member t (m.reverse_session_map o) ≡ true
        → get_media_object uncommitted alive m o ≡ found
    unfolding get_media_object
    get_media_object_held m t o c a there h =
        elim (Bool-cases (is_empty (m.reverse_session_map o))) [
          | inr some_left ↦ rw (c, there, a, some_left) refl
          | inl none_left ↦
              let e =
                ap (λ (l : List ℕ). member t l) (empty_none (m.reverse_session_map o) none_left) in
              absurd (ground arith)
        ]

    get_media_object_free :
        (m : MediaSet) (o : ℕ)
        → is_empty (m.reverse_session_map o) ≡ true
        → is_server_manager m o ≡ false
        → (get_media_object uncommitted alive m o ≡ transaction_no_commit)
          ⊎ (get_media_object uncommitted alive m o ≡ media_object_not_found)
    unfolding get_media_object
    get_media_object_free m o free normal = elim (Bool-cases (uncommitted o)) [
      | inl c ↦ inl (rw c refl)
      | inr c ↦ inr (rw (c, free, normal) (ground arith))
    ]

    -- Between a session and an object of another one: with enough fuel for the depth of the tree of
    -- objects, a session that asks for a living object by its id gets it if any session holds it, and
    -- then is alive and holds it too, while no session holds less than before and no other session more;
    -- an object that no session holds is refused and nothing changes, unless it is the server manager.
    -- The maps stay valid.
    pub get_in_session-Refers :
        (fuel : ℕ) (m : MediaSet) (s o : ℕ)
        → top < fuel
        → IsValid parent m
        → uncommitted o ≡ false
        → alive o ≡ true
        → ((t : ℕ)
            → member t (m.reverse_session_map o) ≡ true
            → (after : MediaSet) × (get_in_session uncommitted alive parent fuel m s o
                ≡ some (after, true))
              × Refers parent s o m after)
          × (is_empty (m.reverse_session_map o) ≡ true
              → is_server_manager m o ≡ false
              → get_in_session uncommitted alive parent fuel m s o ≡ some (m, false))
    unfolding get_in_session
    get_in_session-Refers fuel m s o enough v c a = (
      λ t h.
          let (after, ran, r) =
            ref-Refers parent rank top ranks fuel m s o (let b = ranks.bounded o in omega arith)
              (held-Attached m t o v h) v in
          (after, rw (get_media_object_held m t o c a (v.held t o h) h, get_in_session) ran, r),
      λ free normal. elim (get_media_object_free m o free normal) [
        | inl e ↦ rw (e, get_in_session) refl
        | inr e ↦ rw (e, get_in_session) refl
      ],
    )
