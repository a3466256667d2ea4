-- ===== src/SessionStore/Files/Published.antt =====
-- `Create` and `Fork` of harness/sessionstore/localfile/store.go: the file that they put in place is
-- read as the state that they made.
use heuristic.Prelude.{
  ℕ, String, ◌≡◌, refl, subst, ◌≢◌, inl, inr, Bool, true, false, some, List, [], ◌∷◌, if◌then◌else◌,
  Option-cases, nat_eq, string_eq, pair_eq, length, All,
}
use heuristic.Prelude.Map
use heuristic.Prelude.Bytes.{Bytes}
use heuristic.Prelude.Exec.{Result, ok, err}
use heuristic.Json.{Json}
use heuristic.SessionStore.{Item, Snapshot}
use heuristic.SessionStore.Head.{StoreError}
use heuristic.SessionStore.State.{StoredState, new_stored_state, fork_stored_state}
use heuristic.SessionStore.Codec.{LogCodec, encode_initial_log}
use heuristic.SessionStore.Codec.Reader.{decode_log}
use heuristic.SessionStore.Codec.Laws.{IsLogCodec, ReadsBack}
use heuristic.SessionStore.Codec.Initial.{bare}
use heuristic.SessionStore.Replay.{of_item}
use heuristic.SessionStore.Codec.Restored.{decode_log-encode_initial_log}
use heuristic.SessionStore.Codec.Restorable.{
  IsRestorable, new_stored_state-IsRestorable, fork_stored_state-IsRestorable,
}
use heuristic.SessionStore.Files.{
  Conditions, Store, StoreFailure, unencodable, PublishFate, unpersisted, unrenamed,
  directory_unsynced, published, publish_file, publish_failure, read_state, notify_observers,
}
use heuristic.SessionStore.Files.Calls.{
  publish, publish_initial_state, create, tell_last, publish_fork, fork,
}
use heuristic.SessionStore.Files.Coherent.{
  ReadsFrom, reads, read_state-ReadsFrom, IsCached, IsCoherent, IsSpared, IsSpared-self,
  insert-IsSpared, evict-IsCoherent, put-IsCoherent,
}
use heuristic.SessionStore.Files.Saved.{view, view-lookup, insert_self}

module _ (j : Json) (c : LogCodec) where
  -- What `Create` and `Fork` leave: of the session's file what was there, and then an error, or the
  -- state that `made` tells of.
  pub data Publishes (made : StoredState → Type 0) (id : String) (files : List (String × Bytes))
      : Result StoreFailure Snapshot × Store → Type 0 where
    withheld :
        (e : StoreFailure) (s : Store)
        → IsCoherent j c s
        → s.files ≡ files
        → Publishes made id files (err e, s)
    placed :
        (r : Result StoreFailure Snapshot) (s : Store) (t : StoredState)
        → IsCoherent j c s
        → IsSpared id files s.files
        → made t
        → view j c id s.files ≡ some t
        → Publishes made id files (r, s)

  -- The fork of a parent that was read.
  abbrev pub IsForkOf : ℕ → String → String → String → List (String × Bytes) → StoredState → Type 0
  IsForkOf at id parent_id previous files t =
      (parent : StoredState) × (view j c parent_id files ≡ some parent)
      × (fork_stored_state parent id previous at ≡ ok t)

  -- The items of the fork are read back as they were written.
  abbrev pub HasReadItems : ℕ → String → String → String → List (String × Bytes) → Type 0
  HasReadItems at id parent_id previous files =
      (t : StoredState)
      → IsForkOf at id parent_id previous files t
      → All (λ (i : Item). ReadsBack j c (of_item (bare i))) t.items

  Publishes-if :
      {made : StoredState → Type 0} {id : String} {files : List (String × Bytes)} (b : Bool)
      (x y : Result StoreFailure Snapshot × Store)
      → Publishes made id files x
      → Publishes made id files y
      → Publishes made id files (if b then x else y)
  Publishes-if true x y p q = p
  Publishes-if false x y p q = q

  module _ (laws : IsLogCodec j c) (with : Conditions) where
    module _ (made : StoredState → Type 0) (id : String) (s : Store) (coherent : IsCoherent j c s)
        (t : StoredState) (proof : made t) (same : t.snapshot.session.id ≡ id) where
      placed_lem :
          (text : Bytes) (fate : PublishFate)
          → decode_log j c text ≡ ok (t, length text)
          → Publishes made t.snapshot.session.id s.files
              (publish j c (record with { publishing = fate }) t (some text) s)
      unfolding publish publish_file publish_failure
      placed_lem text unpersisted e =
          withheld _ _
            (evict-IsCoherent j c t.snapshot.session.id s s.files coherent
              (IsSpared-self _ s.files))
            refl
      placed_lem text unrenamed e =
          withheld _ _
            (evict-IsCoherent j c t.snapshot.session.id s s.files coherent
              (IsSpared-self _ s.files))
            refl
      placed_lem text directory_unsynced e =
          let own = t.snapshot.session.id in
          let file = insert_self own text s.files in
          let spared = insert-IsSpared own text s.files in
          placed _ _ t (evict-IsCoherent j c own s _ coherent spared) spared proof
            (view-lookup j c own _ text t _ file e)
      placed_lem text published e =
          let own = t.snapshot.session.id in
          let file = insert_self own text s.files in
          let spared = insert-IsSpared own text s.files in
          let fresh : IsCached j c own (record { head = t.head; committed_size = length text })
              (Map.insert own text s.files) =
            record {
              text = text;
              state = t;
              file = file;
              decoded = e;
              head_is = refl;
              id_is = refl;
            } in
          placed _ _ t (put-IsCoherent j c own t.head (length text) s _ coherent spared fresh)
            spared proof (view-lookup j c own _ text t _ file e)

      publish_initial_state-Publishes :
          IsRestorable j c t
          → All (λ (i : Item). ReadsBack j c (of_item (bare i))) t.items
          → Publishes made id s.files (publish_initial_state j c with t s)
      unfolding publish_initial_state publish
      publish_initial_state-Publishes h back =
          elim (Option-cases (encode_initial_log j c t.snapshot.session t.items)) [
            | inl p ↦ rw (p, publish) (withheld unencodable s coherent refl)
            | inr (text, p) ↦ rw p (
                subst (λ x. Publishes made x s.files (publish j c with t (some text) s)) same
                  (placed_lem text with.publishing (
                    decode_log-encode_initial_log j c laws t.snapshot.session t.items t text h.timed
                      h.plain h.owned back h.state p)))
          ]

    tell_last-Publishes :
        (made : StoredState → Type 0) (id own : String) (files : List (String × Bytes))
        (items : List Item) (x : Result StoreFailure Snapshot × Store)
        → Publishes made id files x
        → Publishes made id files (tell_last j c with own items x)
    unfolding tell_last notify_observers
    tell_last-Publishes made id own files items (err e, s) h = h
    tell_last-Publishes made id own files [] (ok v, s) (placed r s' t coherent spared is now) =
        placed _ s t coherent spared is now
    tell_last-Publishes made id own files (i ∷ []) (ok v, s)
          (placed r s' t coherent spared is now) =
        placed _ _ t coherent spared is now
    tell_last-Publishes made id own files (i ∷ k ∷ items) (ok v, s) h =
        tell_last-Publishes made id own files (k ∷ items) (ok v, s) h

    -- On a store whose cache is in order, where encoding/json reads back the header of a session
    -- and its line, and where the time is not zero, `Create` leaves the cache in order; it fails
    -- and leaves all files as they were, or the session's file holds a new session of that time,
    -- and so it does whenever the call succeeds, while every other file is as it was.
    pub create-Publishes :
        (id : String) (s : Store)
        → with.now ≢ 0
        → IsCoherent j c s
        → Publishes (λ t. t ≡ new_stored_state id with.now) id s.files (create j c with id s)
    unfolding create
    create-Publishes id s timed coherent =
        let made =
          publish_initial_state-Publishes (λ t. t ≡ new_stored_state id with.now) id s coherent
            (new_stored_state id with.now) refl refl
            (new_stored_state-IsRestorable j c id with.now timed) tt in
        let refused : (e : StoreFailure)
            → Publishes (λ t. t ≡ new_stored_state id with.now) id s.files (err e, s) =
          λ e. withheld e s coherent refl in
        search (Publishes-if, refused)

    publish_fork-Publishes :
        (id parent_id previous : String) (s : Store) (parent : StoredState)
        (r : Result StoreError StoredState)
        → with.now ≢ 0
        → HasReadItems with.now id parent_id previous s.files
        → IsCoherent j c s
        → view j c parent_id s.files ≡ some parent
        → fork_stored_state parent id previous with.now ≡ r
        → Publishes
            (IsForkOf with.now id parent_id previous s.files)
            id
            s.files
            (publish_fork j c with id r s)
    unfolding publish_fork
    publish_fork-Publishes id parent_id previous s parent (err e) timed back coherent was made =
        withheld _ s coherent refl
    publish_fork-Publishes id parent_id previous s parent (ok t) timed back coherent was made =
        let (h, same) =
          fork_stored_state-IsRestorable j c parent id previous with.now t timed made in
        tell_last-Publishes _ id id s.files t.items _ (
          publish_initial_state-Publishes (IsForkOf with.now id parent_id previous s.files) id s
            coherent t (parent, was, made) same h (back t (parent, was, made)))

    read_lem :
        (id previous parent_id : String) (s : Store) (r : Result StoreFailure (StoredState × ℕ))
        → with.now ≢ 0
        → HasReadItems with.now id parent_id previous s.files
        → IsCoherent j c s
        → ReadsFrom j c parent_id s.files r
        → Publishes
            (IsForkOf with.now id parent_id previous s.files)
            id
            s.files
            (elim r as (λ _. Result StoreFailure Snapshot × Store) [
              | err e ↦ (err e, s)
              | ok (parent, size) ↦
                  publish_fork j c with id (fork_stored_state parent id previous with.now) s
            ])
    read_lem id previous parent_id s (err e) timed back coherent h = withheld e s coherent refl
    read_lem id previous parent_id s (ok (p, n)) timed back coherent
          (reads text t size file e same) =
        publish_fork-Publishes id parent_id previous s t _ timed back coherent
          (view-lookup j c parent_id s.files text t size file e) refl

    -- On a store whose cache is in order, where encoding/json reads back the header of a session
    -- and the lines that it makes, and reads back each item of the fork as it was written, which it
    -- does of no raw JSON with white space, and where the time is not zero, `Fork` leaves the cache
    -- in order; it fails and leaves all files as they were, or the new session's file holds the
    -- state that `forkStoredState` makes of the one in the parent's file, and so it does whenever
    -- the call succeeds, while every other file is as it was.
    pub fork-Publishes :
        (id parent_id previous : String) (s : Store)
        → with.now ≢ 0
        → HasReadItems with.now id parent_id previous s.files
        → IsCoherent j c s
        → Publishes
            (IsForkOf with.now id parent_id previous s.files)
            id
            s.files
            (fork j c with id parent_id previous s)
    unfolding fork
    fork-Publishes id parent_id previous s timed back coherent =
        let made =
          read_lem id previous parent_id s (read_state j c with parent_id s) timed back coherent
            (read_state-ReadsFrom j c with parent_id s) in
        let refused : (e : StoreFailure)
            → Publishes (IsForkOf with.now id parent_id previous s.files) id s.files (err e, s) =
          λ e. withheld e s coherent refl in
        search (Publishes-if, refused)
