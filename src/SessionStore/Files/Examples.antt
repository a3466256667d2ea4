-- ===== src/SessionStore/Files/Examples.antt =====
-- The log and the files of a session at concrete records.
use heuristic.Prelude.{
  ◌≡◌, refl, ◌⊎◌, true, false, some, List, [], ◌∷◌, ◌++◌, arith, nat_eq, string_eq, pair_eq, take,
  contains,
}
use heuristic.Prelude.Bytes.{Bytes}
use heuristic.Prelude.Exec.{ok}
use heuristic.Fixtures.{plain}
use heuristic.Session.{Turn, regular}
use heuristic.SessionStore.{ItemKind, of_turn}
use heuristic.SessionStore.State.{append_turn_item, new_stored_state}
use heuristic.SessionStore.Head.{append_turn}
use heuristic.SessionStore.Replay.{of_item, replay_record, replay}
use heuristic.SessionStore.Examples.{
  turn_record, empty_session, one_turn, forked, fork_stored_state-one_turn,
}
use heuristic.SessionStore.Codec.{
  encode_decoded, encode_record, encode_item, encode_items, encode_made, record_of,
  encode_initial_log, validate_data, validate_session_id,
}
use heuristic.SessionStore.Codec.Reader.{
  decode_log, decode_lines, split_lines, replay_scan, scan_lines, scan_line, scan_record,
  scan_session, is_fork, is_status,
}
use heuristic.SessionStore.Codec.Crash.{decode_log-append, decode_log-torn}
use heuristic.SessionStore.Codec.Restorable.{encode_initial_log-fork_stored_state}
use heuristic.SessionStore.Codec.Examples.{
  log_codec, log_codec-IsLogCodec, log_codec-ReadsBack, log_codec-All,
}
use heuristic.SessionStore.Files.{
  Conditions, partly, appended, published, unsynced, append_file, Store, new,
}
use heuristic.SessionStore.Files.Disk.{ReadsAs, append_file_atomic}
use heuristic.SessionStore.Files.Requests.{
  a_turn, IsSteady, StoreRequest, adds, creates, forks, method_of, carry_out, serve_all,
  carry_out-Outcome, serve_all-IsCoherent,
}
use heuristic.SessionStore.Files.Saved.{Outcome}
use heuristic.SessionStore.Files.Calls.{create, fork}
use heuristic.SessionStore.Files.Published.{Publishes, IsForkOf, create-Publishes, fork-Publishes}
use heuristic.SessionStore.Files.Coherent.{IsCoherent}

abbrev fresh_log : Bytes
fresh_log = 1 ∷ 1 ∷ 97 ∷ 97 ∷ 98 ∷ 97 ∷ 98 ∷ 10 ∷ []

abbrev turn_line : Bytes
turn_line = 2 ∷ 1 ∷ 2 ∷ 97 ∷ 98 ∷ 97 ∷ 97 ∷ 97 ∷ 97 ∷ 97 ∷ 97 ∷ 97 ∷ 98 ∷ 10 ∷ []

decode_log-fresh_log : decode_log plain log_codec (fresh_log ++ 2 ∷ 1 ∷ []) ≡ ok (empty_session, 8)
unfolding decode_log validate_session_id decode_lines split_lines replay_scan scan_lines scan_line
    scan_record scan_session replay
decode_log-fresh_log = refl

encode_decoded-turn_line : encode_decoded plain log_codec (turn_record "t" "") ≡ some turn_line
unfolding encode_decoded contains encode_record encode_item validate_data
encode_decoded-turn_line = refl

replay_record-turn : replay_record plain (turn_record "t" "") empty_session ≡ (ok tt, one_turn)
unfolding replay_record append_turn_item append_turn contains
replay_record-turn = refl

decode_log-append_example :
    decode_log plain log_codec (take 8 (fresh_log ++ 2 ∷ 1 ∷ []) ++ turn_line) ≡ ok (one_turn, 22)
unfolding is_fork is_status
decode_log-append_example =
    decode_log-append plain log_codec (fresh_log ++ 2 ∷ 1 ∷ []) turn_line 8 empty_session one_turn
      (turn_record "t" "") log_codec-IsLogCodec (log_codec-ReadsBack (turn_record "t" ""))
      decode_log-fresh_log (refl, (λ e. absurd (omega arith)), refl, λ e. refl)
      encode_decoded-turn_line replay_record-turn

decode_log-torn_example :
    decode_log plain log_codec (take 8 (fresh_log ++ 2 ∷ 1 ∷ []) ++ take 5 turn_line)
    ≡ ok (empty_session, 8)
decode_log-torn_example =
    decode_log-torn plain log_codec (fresh_log ++ 2 ∷ 1 ∷ []) turn_line 8 5 empty_session
      (turn_record "t" "") decode_log-fresh_log encode_decoded-turn_line (omega arith)

append_file_atomic_example :
    ReadsAs plain log_codec
      (append_file (partly 5) 8 turn_line (fresh_log ++ 2 ∷ 1 ∷ []))
      empty_session
    ⊎ ReadsAs plain log_codec
        (append_file (partly 5) 8 turn_line (fresh_log ++ 2 ∷ 1 ∷ []))
        one_turn
unfolding is_fork is_status
append_file_atomic_example =
    append_file_atomic plain log_codec log_codec-IsLogCodec (fresh_log ++ 2 ∷ 1 ∷ []) turn_line 8
      empty_session one_turn (turn_record "t" "") (log_codec-ReadsBack (turn_record "t" ""))
      decode_log-fresh_log (refl, (λ e. absurd (omega arith)), refl, λ e. refl)
      encode_decoded-turn_line replay_record-turn (partly 5)

abbrev forked_log : Bytes
forked_log =
    1 ∷ 3 ∷ 97 ∷ 97 ∷ 98 ∷ 97 ∷ 97 ∷ 98 ∷ 10 ∷ turn_line
    ++ 2 ∷ 2 ∷ 2 ∷ 97 ∷ 97 ∷ 98 ∷ 97 ∷ 97 ∷ 98 ∷ 10 ∷ []

encode_initial_log-forked :
    encode_initial_log plain log_codec forked.snapshot.session forked.items ≡ some forked_log
unfolding encode_initial_log encode_decoded contains encode_record encode_item validate_data
    validate_session_id encode_items encode_made record_of replay_record append_turn_item
    append_turn
encode_initial_log-forked = refl

encode_initial_log-fork_stored_state_example :
    decode_log plain log_codec forked_log ≡ ok (forked, 33)
encode_initial_log-fork_stored_state_example =
    encode_initial_log-fork_stored_state plain log_codec one_turn "f" "t" 2 forked forked_log
      log_codec-IsLogCodec (λ e. absurd (omega arith)) fork_stored_state-one_turn
      (log_codec-All forked.items) encode_initial_log-forked

abbrev pub calm : Conditions
calm = record {
  cancelled = false;
  readable = true;
  now = 7;
  appending = appended;
  publishing = published;
}

-- The disk fails to sync.
abbrev stormy : Conditions
stormy = record calm { appending = unsynced }

abbrev the_turn : Turn
the_turn = record { id = "t"; previous_turn_id = ""; type = regular }

the_turn-IsSteady : IsSteady plain log_codec 7 (a_turn the_turn)
the_turn-IsSteady = λ n. log_codec-ReadsBack (
    of_item (record {
      item = record {
        sequence = n;
        recorded_at = 7;
        kind = ItemKind.turn;
        content = of_turn the_turn;
      };
      operations = [];
    }))

abbrev requests : List (StoreRequest × Conditions)
requests =
    (creates "s", calm) ∷ (adds "s" (a_turn the_turn), stormy) ∷ (forks "f" "s" "t", calm) ∷ []

serve_all-IsCoherent_example :
    IsCoherent plain log_codec (serve_all plain log_codec requests (new []))
serve_all-IsCoherent_example =
    serve_all-IsCoherent plain log_codec log_codec-IsLogCodec [] requests (
      (λ e. absurd (omega arith)),
      tt,
      (
        (λ e. absurd (omega arith)),
        the_turn-IsSteady,
        ((λ e. absurd (omega arith)), (λ t h. log_codec-All t.items), tt),
      ),
    )

abbrev a_store : Store
a_store = new (("s", fresh_log) ∷ [])

a_store-IsCoherent : IsCoherent plain log_codec a_store
unfolding serve_all
a_store-IsCoherent =
    serve_all-IsCoherent plain log_codec log_codec-IsLogCodec (("s", fresh_log) ∷ []) [] tt

carry_out-Outcome_example :
    Outcome plain log_codec
      (method_of plain 7 (a_turn the_turn))
      "s"
      a_store.files
      (carry_out plain log_codec stormy "s" (a_turn the_turn) a_store)
carry_out-Outcome_example =
    carry_out-Outcome plain log_codec log_codec-IsLogCodec stormy "s" (a_turn the_turn) a_store
      (λ e. absurd (omega arith)) the_turn-IsSteady a_store-IsCoherent

abbrev two_lines : Store
two_lines = new (("s", fresh_log ++ turn_line) ∷ [])

two_lines-IsCoherent : IsCoherent plain log_codec two_lines
unfolding serve_all
two_lines-IsCoherent =
    serve_all-IsCoherent plain log_codec log_codec-IsLogCodec (("s", fresh_log ++ turn_line) ∷ [])
      [] tt

fork-Publishes_example :
    Publishes plain log_codec
      (IsForkOf plain log_codec 7 "f" "s" "t" two_lines.files)
      "f"
      two_lines.files
      (fork plain log_codec calm "f" "s" "t" two_lines)
fork-Publishes_example =
    fork-Publishes plain log_codec log_codec-IsLogCodec calm "f" "s" "t" two_lines
      (λ e. absurd (omega arith)) (λ t h. log_codec-All t.items) two_lines-IsCoherent

create-Publishes_example :
    Publishes plain log_codec
      (λ t. t ≡ new_stored_state "f" 7)
      "f"
      two_lines.files
      (create plain log_codec calm "f" two_lines)
create-Publishes_example =
    create-Publishes plain log_codec log_codec-IsLogCodec calm "f" two_lines
      (λ e. absurd (omega arith)) two_lines-IsCoherent
