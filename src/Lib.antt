-- ===== src/Lib.antt =====
-- Heuristic, an agent harness in Go: a model of its core and proofs about it.
--
-- A session is an append-only history of items. The coordinator, the one loop that owns a session's
-- state, receives inputs from the inbox, operation updates from the operation manager and responses
-- from the model; it adds each new item to its local state, appends it to the session store, and
-- then asks the model or starts operations. After a restart it derives its local state from the
-- items and operations that the store gives back.
--
-- Files and the code that they model:
-- - Prelude: Boolean tests, lists, integers, association lists for Go's maps and sets (Map), and
--   methods that mutate their receiver and may fail (Exec), with Hoare rules; Slices: `take`,
--   `drop`.
-- - Llm: harness/llm/model.go. Operation: harness/operation/operation.go and the call status of
--   harness/tool/tool.go. Session: harness/session/session.go. Primitive: the events and requests
--   of harness/primitives. Only their data.
-- - Json: encoding/json, as the record of the decoders that the program calls: a parameter.
-- - Inbox: harness/inbox/inbox.go (`validate`, `DecodeControlMessage` as `decode_control_message`).
--   Inbox/Queue: harness/inbox/local.go; `new`, `receive` and `deliver` are `New` and the two cases
--   of `run`'s select, `run` any sequence of them. Inbox/Order: what the queue hands out.
-- - SessionStore: the types of harness/sessionstore/sessionstore.go and types of localfile. Under
--   it, Head: one function for each method of `sessionHead` of
--   harness/sessionstore/localfile/state.go; State: the rest of that file, `storedState` with
--   `resume`, `forkStoredState` and its inheritance; Replay: the second loop of `decodeLog` and
--   `replayItem` of harness/sessionstore/localfile/codec.go. Positions, Consistent, Invariant and
--   Refusal are proofs: the index of operations, the head, the stored state, and the refusals; Log
--   is about whole logs, Resume about `resume` and Inherit about forks. Restart joins the store's
--   `resume` and the inbox's `new`.
-- - SessionStore/Codec: the rest of codec.go, the bytes of a log, with
--   harness/sessionstore/itemjson.go and `validateSessionID`; Codec/Reader is `decodeLog`. Under
--   it, Lines, Laws, Made, Scans, Replays and Extends carry a record more through the two loops of
--   `decodeLog`, Committed, Append and Crash are about a log with a whole record or a part of one
--   after it, and Initial, Restored and Restorable about the log of a new session or a fork.
-- - SessionStore/Files: `Store` of harness/sessionstore/localfile/store.go, with the files by
--   session ID and the write-state cache; Files/Calls: its exported methods, `AppendInput` as
--   `append_input_to` and so on. Disk is about `appendFile`, Coherent, Saved and Appends about the
--   cache and the appends, Published about `Create` and `Fork`, Paging about `Items`, and Requests
--   about any sequence of calls. Coordinator/History: `loadHistory` of harness/coordinator/loop.go.
-- - ContextBuilder: harness/contextbuilder/builder.go.
-- - Coordinator: the state of harness/coordinator/loop.go, whose calls of other components are kept
--   in `effects` in the order in which they were accepted. Coordinator/Local is
--   `addItemToLocalState` with its callees, Coordinator/Schedule `scheduleToolCalls`,
--   `reconcileToolCalls` and the dispatch of operations, Coordinator/Loop the handlers and `round`,
--   one turn of the loop of `Run`, and Coordinator/Begin `restore` and what `Run` does before it.
--   Frame, Steps, Commits and Rounds are the lemmas on what each handler keeps; Counters,
--   WriteAhead and HardStop apply them.
-- - Operation/Output: harness/operation/output.go; Output/Runes is about its cuts, in runes.
--   Operation/Step: what the operations share, and their errors. Operation/Value, SkillUse, Shell
--   and ViewImage: value.go, skill_use.go, shell.go and image.go of harness/operation, each a state
--   machine over the events of primitives; Operation/RemoteJob: remote_job.go, remote_job_output.go
--   and remote_job_handler.go. Under them, SkillUse/Identity, Shell/Kept, Shell/Reads and
--   Shell/Laws, ViewImage/Kept and ViewImage/Laws, RemoteJob/Failing and RemoteJob/Updates are
--   proofs; Shell/Steps, Shell/Events and Shell/Handle hold the shell's methods.
-- - Operation/Manager: the actor of harness/operation/local_manager.go over any Operation/Machine,
--   an interface of operations and laws: Manager/Accept is `acceptLocalStep`, Manager/Round the
--   cases of the select of `run` and `drainLocalPrimitives`. Log, Sound, Steps, Returns, Rounds,
--   Reports and Runs carry its invariant through a round, Fuel is about the depth of
--   `acceptLocalStep`. Operation/Local gives the machine of the program, by the type of the
--   operation, Local/Steps and Local/Laws its laws, and Local/Runs joins it with the manager.
-- - Fixtures and the modules named Examples are concrete values, tests and witnesses.
--
-- Conventions. A method with a pointer receiver takes the state and returns it, also beside an
-- error. A Go string type with constants is a data type with `other` for the rest; a run-time panic
-- is `panicked` or `none`, and the manager ends at the error `panicked` of an operation. Times are
-- numbers. The uint64 sequence of items wraps at 2 ^ 64; counters that Go keeps in an `int` are
-- natural numbers. Two definitions take fuel: `accept_step`, since `acceptLocalStep` calls itself,
-- for which 2 is enough, because the step after a dispatch that could not be started ends the
-- operation; and `load_pages`, since the loop of `loadHistory` has no bound of its own, for which
-- one more than the number of items is enough. Every other loop follows a list or a count. The maps
-- that a cached head shares with the copy that an append works on are values here: a refused method
-- leaves the head as it was, and a failed append evicts it.
--
-- Parameters, for code that is not the program's: encoding/json (`Json`, `LogCodec`, and the codecs
-- of the states of operations), unicode/utf8, path/filepath and the texts of fmt's errors (the
-- `Library` of each operation), the handlers of remote jobs, and for the coordinator a `World`:
-- which calls the other components accept, `uuid.New`, the tools' translators, and the sorting and
-- encoding of the heartbeat's payload. Where a theorem needs more of them, it is a named
-- hypothesis: `IsDecoder` of unicode/utf8, and of encoding/json `IsEncoder` for a remote job,
-- `IsLogCodec` for the lines of a log and `ReadsBack` for one record, which holds of those alone
-- whose raw JSON has no white space, since encoding/json leaves it out. What the disk and the clock
-- do to a call of the session store is its argument `Conditions`.
--
-- Not modelled: goroutines, channels and timers, which enter as the event that a round receives and
-- what it reads after it; paths, directories and temporary files; `ListSessions`; the decoding and
-- scaling of images; what runs a primitive; tools, provider adapters, the MetaCog router, and the
-- command line, which are other components or input and output.
pub mod Prelude
pub mod Llm
pub mod Primitive
pub mod Operation
pub mod Session
pub mod Json
pub mod Inbox
pub mod SessionStore
pub mod Fixtures
pub mod ContextBuilder
pub mod Coordinator
pub mod Restart
