-- ===== src/SessionStore/Files/Coherent.antt =====
-- The cache of a `Store` and its files: an entry is what reading its file again would give.
use heuristic.Prelude.{
  ℕ, String, ◌≡◌, refl, ◌∙◌, subst, ◌⊎◌, inl, inr, Bool, true, false, Option, none, some, List,
  arith, if◌then◌else◌, Bool-cases, Option-cases, ◌==◌, nat_eq, string_eq, pair_eq,
}
use heuristic.Prelude.Map
use heuristic.Prelude.Bytes.{Bytes}
use heuristic.Prelude.Exec.{Result, ok, err, Result-cases}
use heuristic.Json.{Json}
use heuristic.SessionStore.Head.{SessionHead}
use heuristic.SessionStore.State.{StoredState}
use heuristic.SessionStore.Codec.{LogCodec}
use heuristic.SessionStore.Codec.Reader.{decode_log}
use heuristic.SessionStore.Files.{
  CachedWriteState, Conditions, Store, StoreFailure, put_cached_write_state,
  evict_cached_write_state, read_log, read_state, cache_state, load_write_state,
}

erased :
    (id other : String) (w : CachedWriteState) (m : List (String × CachedWriteState))
    → Map.lookup other (Map.erase id m) ≡ some w
    → ((id == other) ≡ false) × (Map.lookup other m ≡ some w)
erased id other w m e = elim (Bool-cases (id == other)) [
  | inl b ↦ absurd (let p = Map.lookup-erase id other m in ground arith)
  | inr b ↦ (b, let p = Map.lookup-erase id other m in ground arith)
]

inserted :
    (id other : String) (v w : CachedWriteState) (m : List (String × CachedWriteState))
    → Map.lookup other (Map.insert id v m) ≡ some w
    → ((id ≡ other) × (v ≡ w)) ⊎ (((id == other) ≡ false) × (Map.lookup other m ≡ some w))
inserted id other v w m e = elim (Bool-cases (id == other)) [
  | inl b ↦
      inl
        ((string_eq.same_iff id other).0 b, let p = Map.lookup-insert id other v m in ground arith)
  | inr b ↦ inr (b, let p = Map.lookup-insert id other v m in ground arith)
]

-- The file of every other session is as it was.
abbrev pub IsSpared : String → List (String × Bytes) → List (String × Bytes) → Type 0
IsSpared id before after =
    (other : String) → (id == other) ≡ false → Map.lookup other after ≡ Map.lookup other before

pub IsSpared-self : (id : String) (files : List (String × Bytes)) → IsSpared id files files
IsSpared-self id files other b = refl

pub insert-IsSpared :
    (id : String) (text : Bytes) (files : List (String × Bytes))
    → IsSpared id files (Map.insert id text files)
insert-IsSpared id text files other b =
    let p = Map.lookup-insert id other text files in ground arith

module _ (j : Json) (c : LogCodec) where
  pub record IsCached (id : String) (w : CachedWriteState) (files : List (String × Bytes))
      : Type 0 where
    pub text : Bytes
    pub state : StoredState
    pub file : Map.lookup id files ≡ some text
    pub decoded : decode_log j c text ≡ ok (state, w.committed_size)
    pub head_is : state.head ≡ w.head
    pub id_is : state.snapshot.session.id ≡ id

  abbrev pub IsCoherent : Store → Type 0
  IsCoherent s =
      (id : String) (w : CachedWriteState) → Map.lookup id s.cache ≡ some w → IsCached id w s.files

  spared_lem :
      (id other : String) (w : CachedWriteState) (s : Store) (files : List (String × Bytes))
      → IsSpared id s.files files
      → (id == other) ≡ false
      → IsCached other w s.files
      → IsCached other w files
  spared_lem id other w s files spared b h = record {
    text = h.text;
    state = h.state;
    file = spared other b ∙ h.file;
    decoded = h.decoded;
    head_is = h.head_is;
    id_is = h.id_is;
  }

  pub evict-IsCoherent :
      (id : String) (s : Store) (files : List (String × Bytes))
      → IsCoherent s
      → IsSpared id s.files files
      → IsCoherent (evict_cached_write_state id (record s { files = files }))
  unfolding evict_cached_write_state
  evict-IsCoherent id s files h spared other w e =
      let (b, p) = erased id other w s.cache e in
      spared_lem id other w s files spared b (h other w p)

  pub put-IsCoherent :
      (id : String) (head : SessionHead) (size : ℕ) (s : Store) (files : List (String × Bytes))
      → IsCoherent s
      → IsSpared id s.files files
      → IsCached id (record { head = head; committed_size = size }) files
      → IsCoherent (put_cached_write_state id head size (record s { files = files }))
  unfolding put_cached_write_state
  put-IsCoherent id head size s files h spared fresh other w e =
      elim (inserted id other (record { head = head; committed_size = size }) w s.cache e) [
        | inl (same, is) ↦
            subst (λ x. IsCached x w files) same (subst (λ x. IsCached id x files) is fresh)
        | inr (b, p) ↦ spared_lem id other w s files spared b (h other w p)
      ]

  -- What a load of a coherent store gives: an entry that reading the file gives.
  pub data Loads (id : String) (s : Store)
      : Result StoreFailure CachedWriteState × Store → Type 0 where
    unloaded : (e : StoreFailure) → Loads id s (err e, s)
    loaded :
        (w : CachedWriteState) (s' : Store)
        → IsCached id w s'.files
        → IsCoherent s'
        → s'.files ≡ s.files
        → Loads id s (ok w, s')

  Loads-if :
      {id : String} {s : Store} (b : Bool) (x y : Result StoreFailure CachedWriteState × Store)
      → Loads id s x
      → Loads id s y
      → Loads id s (if b then x else y)
  Loads-if true x y p q = p
  Loads-if false x y p q = q

  -- What is read from the file of a session is its state.
  pub data ReadsFrom (id : String) (files : List (String × Bytes))
      : Result StoreFailure (StoredState × ℕ) → Type 0 where
    unread : (e : StoreFailure) → ReadsFrom id files (err e)
    reads :
        (text : Bytes) (t : StoredState) (size : ℕ)
        → Map.lookup id files ≡ some text
        → decode_log j c text ≡ ok (t, size)
        → t.snapshot.session.id ≡ id
        → ReadsFrom id files (ok (t, size))

  ReadsFrom-if :
      {id : String} {files : List (String × Bytes)} (b : Bool)
      (x y : Result StoreFailure (StoredState × ℕ))
      → ReadsFrom id files x
      → ReadsFrom id files y
      → ReadsFrom id files (if b then x else y)
  ReadsFrom-if true x y p q = p
  ReadsFrom-if false x y p q = q

  module _ (with : Conditions) (id : String) where
    read_log-ReadsFrom :
        (file : Option Bytes) (files : List (String × Bytes))
        → Map.lookup id files ≡ file
        → ReadsFrom id files (read_log j c with id file)
    unfolding read_log
    read_log-ReadsFrom none files e = unread _
    read_log-ReadsFrom (some text) files e = elim (Result-cases (decode_log j c text)) [
      | inl (x, p) ↦ rw (p, read_log) (unread _)
      | inr ((t, size), p) ↦ elim (Bool-cases (t.snapshot.session.id == id)) [
        | inr b ↦ rw (p, b, read_log) (unread _)
        | inl b ↦
            rw (p, b, read_log)
              (reads text t size e p ((string_eq.same_iff t.snapshot.session.id id).0 b))
      ]
    ]

    pub read_state-ReadsFrom : (s : Store) → ReadsFrom id s.files (read_state j c with id s)
    unfolding read_state
    read_state-ReadsFrom s =
        let read = read_log-ReadsFrom (Map.lookup id s.files) s.files refl in
        search (ReadsFrom-if, unread)

    cache_state-Loads :
        (s : Store) (r : Result StoreFailure (StoredState × ℕ))
        → IsCoherent s
        → ReadsFrom id s.files r
        → Loads id s (cache_state j c with id s r)
    unfolding cache_state put_cached_write_state
    cache_state-Loads s (err e) h r = unloaded e
    cache_state-Loads s (ok (u, n)) h (reads text t size file e same) =
        let fresh : IsCached id (record { head = t.head; committed_size = size }) s.files = record {
          text = text;
          state = t;
          file = file;
          decoded = e;
          head_is = refl;
          id_is = same;
        } in
        loaded _ _ fresh
          (put-IsCoherent id t.head size s s.files h (IsSpared-self id s.files) fresh) refl

    -- The state that an append starts from.
    pub load_write_state-Loads :
        (s : Store) → IsCoherent s → Loads id s (load_write_state j c with id s)
    unfolding load_write_state
    load_write_state-Loads s h = elim (Option-cases (Map.lookup id s.cache)) [
      | inl p ↦
          let missed = cache_state-Loads s (read_state j c with id s) h (read_state-ReadsFrom s) in
          rw (p, load_write_state) (search (Loads-if, unloaded))
      | inr (w, p) ↦
          let hit : Loads id s (ok w, s) = loaded w s (h id w p) h refl in
          rw (p, load_write_state) (search (Loads-if, unloaded))
    ]
