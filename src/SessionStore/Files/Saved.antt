-- ===== src/SessionStore/Files/Saved.antt =====
-- What the appends of a `Store` leave, whatever stops them: each is the method of `storedState`, on
-- the disk.
use heuristic.Prelude.{
  ℕ, ◌+◌, String, ◌≡◌, refl, sym, ap, ◌∙◌, inl, inr, Option, none, some, List, arith, Option-cases,
  nat_eq, string_eq, pair_eq, length,
}
use heuristic.Prelude.Map
use heuristic.Prelude.Bytes.{Bytes}
use heuristic.Prelude.Exec.{Result, ok, err, Exec}
use heuristic.Json.{Json}
use heuristic.SessionStore.Head.{SessionHead, StoreError}
use heuristic.SessionStore.State.{StoredState}
use heuristic.SessionStore.Replay.{DecodedRecord}
use heuristic.SessionStore.Codec.{LogCodec, LogError, encode_decoded}
use heuristic.SessionStore.Codec.Reader.{decode_log}
use heuristic.SessionStore.Codec.Laws.{IsLogCodec}
use heuristic.SessionStore.Codec.Extends.{Extends}
use heuristic.SessionStore.Files.{
  CachedWriteState, Conditions, Store, StoreFailure, unencodable, append_file, append_failure,
  append, append_line, appended_to, evict_cached_write_state,
}
use heuristic.SessionStore.Files.Disk.{append_file-appended, append_file_atomic}
use heuristic.SessionStore.Files.Coherent.{
  IsCached, IsCoherent, IsSpared, IsSpared-self, insert-IsSpared, evict-IsCoherent, put-IsCoherent,
}

pub insert_self :
    (id : String) (text : Bytes) (files : List (String × Bytes))
    → Map.lookup id (Map.insert id text files) ≡ some text
insert_self id text files =
    let p = Map.lookup-insert id id text files in ground (arith, string_eq.same_iff id id)

module _ (j : Json) (c : LogCodec) where
  view_log : Result LogError (StoredState × ℕ) → Option StoredState
  view_log (err e) = none
  view_log (ok (t, size)) = some t

  -- The state that the file of a session holds.
  unfoldable pub view : String → List (String × Bytes) → Option StoredState
  unfolding view_log
  view id files = elim (Map.lookup id files) [
    | none ↦ none
    | some text ↦ view_log (decode_log j c text)
  ]

  pub view-lookup :
      (id : String) (files : List (String × Bytes)) (text : Bytes) (t : StoredState) (size : ℕ)
      → Map.lookup id files ≡ some text
      → decode_log j c text ≡ ok (t, size)
      → view id files ≡ some t
  unfolding view view_log
  view-lookup id files text t size file e = rw (file, view) (rw (e, view_log) refl)

  -- What a call leaves: the cache in order and the other files as they were; and of the session's
  -- state either what it was, and then an error, or what the method makes of it.
  pub data Outcome (method : Exec StoredState StoreError (Unit {0})) (id : String)
      (files : List (String × Bytes)) : Result StoreFailure (Unit {0}) × Store → Type 0 where
    unchanged :
        (e : StoreFailure) (s : Store)
        → IsCoherent j c s
        → IsSpared id files s.files
        → view id s.files ≡ view id files
        → Outcome method id files (err e, s)
    saved :
        (r : Result StoreFailure (Unit {0})) (s : Store) (t last : StoredState)
        → IsCoherent j c s
        → IsSpared id files s.files
        → view id files ≡ some t
        → method t ≡ (ok tt, last)
        → view id s.files ≡ some last
        → Outcome method id files (r, s)

  module _ (laws : IsLogCodec j c) (with : Conditions)
      (method : Exec StoredState StoreError (Unit {0})) (id : String) where
    appended_to-Outcome :
        (w : CachedWriteState) (s : Store) (h : IsCached j c id w s.files) (d : DecodedRecord)
        (after : SessionHead) (line : Bytes)
        → IsCoherent j c s
        → Extends j c method h.state d after
        → encode_decoded j c d ≡ some line
        → Outcome method id s.files (appended_to j c with id after w.committed_size line h.text s)
    unfolding appended_to
    appended_to-Outcome w s h d after line coherent x made =
        let was = view-lookup id s.files h.text h.state w.committed_size h.file h.decoded in
        let text = append_file with.appending w.committed_size line h.text in
        let files = Map.insert id text s.files in
        let file = insert_self id text s.files in
        let spared = insert-IsSpared id text s.files in
        elim (Option-cases (append_failure with.appending)) [
          | inl p ↦
              let now =
                append_file-appended j c laws h.text line w.committed_size h.state x.last d x.back
                  h.decoded x.next made x.replayed with.appending p in
              let fresh : IsCached j c id
                  (record { head = after; committed_size = w.committed_size + length line }) files =
                record {
                  text = text;
                  state = x.last;
                  file = file;
                  decoded = now;
                  head_is = x.head_is;
                  id_is =
                      ap (λ (k : SessionHead). k.snapshot.session.id) x.head_is
                      ∙ ap (λ k. k.session.id) x.session
                      ∙ h.id_is;
                } in
              rw (p, appended_to)
                (saved (ok tt) _ h.state x.last
                  (put-IsCoherent j c id after _ s files coherent spared fresh) spared was
                  x.method_is (view-lookup id files text x.last _ file now))
          | inr (e, p) ↦
              let coherent' = evict-IsCoherent j c id s files coherent spared in
              rw (p, appended_to)
                (elim (append_file_atomic j c laws h.text line w.committed_size h.state x.last d
                  x.back h.decoded x.next made x.replayed with.appending) [
                    | inl (n, q) ↦
                        unchanged e _ coherent' spared
                          (view-lookup id files text h.state n file q ∙ sym was)
                    | inr (n, q) ↦
                        saved (err e) _ h.state x.last coherent' spared was x.method_is
                          (view-lookup id files text x.last n file q)
                  ])
        ]

    -- `append` of a record that stands for what the method does.
    pub append-Outcome :
        (w : CachedWriteState) (s : Store) (h : IsCached j c id w s.files) (d : DecodedRecord)
        (after : SessionHead)
        → IsCoherent j c s
        → Extends j c method h.state d after
        → Outcome method id s.files (append j c with id after w.committed_size d s)
    unfolding append append_line evict_cached_write_state
    append-Outcome w s h d after coherent x = elim (Option-cases (encode_decoded j c d)) [
      | inl p ↦
          rw (p, append_line)
            (unchanged unencodable _
              (evict-IsCoherent j c id s s.files coherent (IsSpared-self id s.files))
              (IsSpared-self id s.files) refl)
      | inr (line, p) ↦
          rw (p, h.file, append_line) (appended_to-Outcome w s h d after line coherent x p)
    ]
