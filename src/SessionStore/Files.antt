-- ===== src/SessionStore/Files.antt =====
-- harness/sessionstore/localfile/store.go: the files of the sessions, and the cache that spares an
-- append the reading of its file. What the disk does to a call is an argument of it, `Conditions`.
-- The temporary file that `publishFile` renames is not among the files.
pub mod Calls
pub mod Disk
pub mod Coherent
pub mod Saved
pub mod Appends
pub mod Published
pub mod Requests
pub mod Paging
pub mod Examples
use heuristic.Prelude.{
  ℕ, zero, suc, ◌+◌, ◌-◌, String, Bool, true, false, not, Option, none, some, List, [], ◌∷◌, ◌++◌,
  ltb, if◌then◌else◌, ◌==◌, nat_eq, string_eq, length, take, drop, contains,
}
use heuristic.Prelude.Map
use heuristic.Prelude.Bytes.{Bytes}
use heuristic.Prelude.Exec.{Result, ok, err, Exec}
use heuristic.Json.{Json}
use heuristic.Operation.{Operation}
use heuristic.Session.{Turn}
use heuristic.Inbox.{Input}
use heuristic.SessionStore.{
  Item, ItemData, of_tool_call_status, ModelResponse, ToolCallStatus, Snapshot, ResumeState,
}
use heuristic.SessionStore.Head.{
  SessionHead, StoreError, append_input, append_turn, append_model_response,
  append_tool_call_status, save_operation, validate_operation,
}
use heuristic.SessionStore.State.{StoredState, new_stored_state, fork_stored_state, resume}
use heuristic.SessionStore.Replay.{ItemRecord, DecodedRecord, of_item, of_operation}
use heuristic.SessionStore.Codec.{
  LogCodec, LogError, validate_session_id, encode_decoded, encode_initial_log,
}
use heuristic.SessionStore.Codec.Reader.{decode_log}

-- `cachedWriteState`
pub record CachedWriteState : Type 0 where
  pub head : SessionHead
  pub committed_size : ℕ

-- How far `appendFile` gets. Where the write fails, it leaves so many bytes of the record behind.
pub data AppendFate : Type 0 where
  unopened untruncated unsynced unclosed appended : AppendFate
  partly : ℕ → AppendFate

-- How far `publishFile` gets: the last failure comes after the file is in its place.
pub data PublishFate : Type 0 where
  unpersisted unrenamed directory_unsynced published : PublishFate

pub record Conditions : Type 0 where
  pub cancelled : Bool
  pub readable : Bool
  pub now : ℕ
  pub appending : AppendFate
  pub publishing : PublishFate

pub data StoreFailure : Type 0 where
  invalid_id is_cancelled unreadable wrong_session unencodable : StoreFailure
  own_parent no_limit : StoreFailure
  bad_log : LogError → StoreFailure
  rejected : StoreError → StoreFailure
  unwritten : AppendFate → StoreFailure
  unpublished : PublishFate → StoreFailure

-- `Store`, with what its observers were told.
pub record Store : Type 0 where
  pub files : List (String × Bytes)
  pub cache : List (String × CachedWriteState)
  pub observers : List String
  pub observer_order : List String
  pub told : List (String × String × Item)

pub record Page : Type 0 where
  pub items : List Item
  pub next_after : ℕ
  pub more : Bool

-- `New`
abbrev pub new : List (String × Bytes) → Store
new files = record { files = files; cache = []; observers = []; observer_order = []; told = [] }

unfoldable pub add_observer : String → Store → Store
add_observer id s = record s {
  observers = id ∷ s.observers;
  observer_order = s.observer_order ++ id ∷ [];
}

unfoldable pub without : String → List String → List String
without id [] = []
without id (x ∷ xs) = let rest = without id xs in if x == id then rest else x ∷ rest

unfoldable pub remove_observer : String → Store → Store
unfolding without
remove_observer id s = record s { observers = without id s.observers }

unfoldable pub notices : List String → List String → String → Item → List (String × String × Item)
notices observers [] id item = []
notices observers (o ∷ order) id item =
    let rest = notices observers order id item in
    if contains observers o then (o, id, item) ∷ rest else rest

unfoldable pub notify_observers : String → Item → Store → Store
unfolding notices
notify_observers id item s = record s {
  told = s.told ++ notices s.observers s.observer_order id item;
}

unfoldable pub put_cached_write_state : String → SessionHead → ℕ → Store → Store
put_cached_write_state id head size s = record s {
  cache = Map.insert id (record { head = head; committed_size = size }) s.cache;
}

unfoldable pub evict_cached_write_state : String → Store → Store
evict_cached_write_state id s = record s { cache = Map.erase id s.cache }

unfoldable pub zeros : ℕ → Bytes
zeros zero = []
zeros (suc n) = 0 ∷ zeros n

-- `file.Truncate`
unfoldable pub truncate : ℕ → Bytes → Bytes
unfolding zeros
truncate size text = take size text ++ zeros (size - length text)

-- What `appendFile` leaves of a file.
unfoldable pub append_file : AppendFate → ℕ → Bytes → Bytes → Bytes
unfolding truncate
append_file unopened size line text = text
append_file untruncated size line text = text
append_file (partly k) size line text = truncate size text ++ take k line
append_file unsynced size line text = truncate size text ++ line
append_file unclosed size line text = truncate size text ++ line
append_file appended size line text = truncate size text ++ line

-- The error of `appendFile`, on a file that exists.
unfoldable pub append_failure : AppendFate → Option StoreFailure
append_failure appended = none
append_failure fate = some (unwritten fate)

unfoldable pub publish_failure : PublishFate → Option StoreFailure
publish_failure published = none
publish_failure fate = some (unpublished fate)

-- What `publishFile` leaves of the files.
unfoldable pub publish_file :
    PublishFate → String → Bytes → List (String × Bytes) → List (String × Bytes)
publish_file unpersisted id text files = files
publish_file unrenamed id text files = files
publish_file directory_unsynced id text files = Map.insert id text files
publish_file published id text files = Map.insert id text files

module _ (j : Json) (c : LogCodec) (with : Conditions) where
  unfoldable pub read_log : String → Option Bytes → Result StoreFailure (StoredState × ℕ)
  read_log id none = err unreadable
  read_log id (some text) = elim (decode_log j c text) [
    | err e ↦ err (bad_log e)
    | ok (s, size) ↦ if s.snapshot.session.id == id then ok (s, size) else err wrong_session
  ]

  unfoldable pub read_state : String → Store → Result StoreFailure (StoredState × ℕ)
  unfolding read_log
  read_state id s =
      if not (validate_session_id id)
      then err invalid_id
      else if with.cancelled
      then err is_cancelled
      else if not with.readable
      then err unreadable
      else read_log id (Map.lookup id s.files)

  unfoldable pub cache_state :
      String
      → Store
      → Result StoreFailure (StoredState × ℕ)
      → Result StoreFailure CachedWriteState × Store
  unfolding put_cached_write_state
  cache_state id s (err e) = (err e, s)
  cache_state id s (ok (t, size)) = (
    ok (record { head = t.head; committed_size = size }),
    put_cached_write_state id t.head size s,
  )

  unfoldable pub load_write_state : String → Exec Store StoreFailure CachedWriteState
  unfolding cache_state
  load_write_state id s =
      if not (validate_session_id id)
      then (err invalid_id, s)
      else if with.cancelled
      then (err is_cancelled, s)
      else elim (Map.lookup id s.cache) [
        | some cached ↦ (ok cached, s)
        | none ↦ cache_state id s (read_state id s)
      ]

  -- The file that `append` wrote to, and the cache after it.
  unfoldable pub appended_to :
      String → SessionHead → ℕ → Bytes → Bytes → Exec Store StoreFailure (Unit {0})
  unfolding append_file append_failure evict_cached_write_state put_cached_write_state
  appended_to id head size line text s =
      let written = record s {
        files = Map.insert id (append_file with.appending size line text) s.files;
      } in
      elim (append_failure with.appending) [
        | some e ↦ (err e, evict_cached_write_state id written)
        | none ↦ (ok tt, put_cached_write_state id head (size + length line) written)
      ]

  unfoldable pub append_line :
      String → SessionHead → ℕ → Option Bytes → Option Bytes → Exec Store StoreFailure (Unit {0})
  unfolding appended_to evict_cached_write_state
  append_line id head size none file s = (err unencodable, evict_cached_write_state id s)
  append_line id head size (some line) none s =
      (err (unwritten unopened), evict_cached_write_state id s)
  append_line id head size (some line) (some text) s = appended_to id head size line text s

  -- `append`
  unfoldable pub append :
      String → SessionHead → ℕ → DecodedRecord → Exec Store StoreFailure (Unit {0})
  unfolding append_line
  append id head size d s =
      append_line id head size (encode_decoded j c d) (Map.lookup id s.files) s
