-- ===== src/Trace.antt =====
-- events.py: the append-only Event log of a Run. The file is kept as its lines and what stands behind
-- the last newline, a half-written record after a hard kill. `json.dumps` escapes every line break, so
-- a newline is all that ends a line. JSON and `int` are the library's.
use cli_agentic_workflow.Prelude.{
  ◌==◌, raised, [], Result, has, ◌++◌, ok, Option, if◌then◌else◌, String, pos, negsuc, none, zero,
  true, ◌∷◌, suc, some, List, ℤ, false, Bool,
}
use cli_agentic_workflow.Value.{Value, Fields, field_at}
use cli_agentic_workflow.Agent.Text.{strip, ◌<>◌}
pub mod Increasing

pub record Json : Type 0 where
  -- `json.loads`, with none for a JSONDecodeError, and `json.dumps` of a record.
  pub loads : String → Option Value
  pub dumps : Fields → String
  -- `int`; a TypeError or a ValueError is none. (It raises an OverflowError on an infinity, which
  -- no record of the program holds for its number.)
  pub int_of : Value → Option ℤ

pub record EventFile : Type 0 where
  pub lines : List String
  pub tail : String

-- EVENT_TYPES
abbrev pub event_types : List String
event_types =
    "run_started" ∷ "run_finished" ∷ "run_resumed" ∷ "run_errored" ∷ "node_started"
    ∷ "node_finished" ∷ "node_skipped" ∷ "node_retrying" ∷ "gate_awaiting" ∷ "gate_approved"
    ∷ "gate_rejected" ∷ []

-- `path.read_text(encoding="utf-8").splitlines()`
abbrev pub file_lines : EventFile → List String
file_lines f = if f.tail == "" then f.lines else f.lines ++ f.tail ∷ []

-- `int(json.loads(line)["seq"])`, or none where the line is passed over.
unfoldable pub seq_of : Json → String → Option ℤ
seq_of json line = if strip line == "" then none else elim (json.loads line) [
  | some (Value.dict d) ↦ elim (field_at "seq" d) [ none ↦ none | some v ↦ json.int_of v ]
  | _ ↦ none
]

unfoldable pub scan : Json → ℤ → List String → ℤ
scan json last [] = last
scan json last (line ∷ rest) = elim (seq_of json line) [
  | none ↦ scan json last rest
  | some seq ↦ scan json seq rest
]

-- With none for a file that is not there.
unfoldable pub last_seq : Json → Option EventFile → ℤ
last_seq json none = pos 0
last_seq json (some f) = scan json (pos 0) (file_lines f)

pub record EventLog : Type 0 where
  pub file : EventFile
  pub run_id : String
  pub seq : ℤ

abbrev pub no_file : EventFile
no_file = record { lines = []; tail = "" }

-- `path.touch()`
abbrev pub touched : Option EventFile → EventFile
touched none = no_file
touched (some f) = f

unfoldable pub open_log : Json → Option EventFile → String → EventLog
open_log json path run_id = record {
  file = touched path;
  run_id = run_id;
  seq = last_seq json path;
}

-- z + 1
abbrev pub succ_ℤ : ℤ → ℤ
succ_ℤ (pos n) = pos (suc n)
succ_ℤ (negsuc zero) = pos 0
succ_ℤ (negsuc (suc n)) = negsuc n

abbrev pub record_fields : ℤ → String → String → String → Fields → Fields
record_fields seq ts run_id event_type data_ = Fields.field "seq" (Value.int seq) (
    Fields.field "ts" (Value.str ts) (
      Fields.field "run_id" (Value.str run_id) (
        Fields.field "type" (Value.str event_type)
          (Fields.field "data" (Value.dict data_) Fields.end))))

-- The ValueError of an unknown type.
pub data UnknownEventType : Type 0 where
  unknown_event_type : String → UnknownEventType

-- `event_type in EVENT_TYPES`
unfoldable pub is_event_type : String → Bool
is_event_type event_type = has event_type event_types

-- Mode "a": the record comes behind what stands after the last newline.
abbrev pub add_record : Json → String → String → Fields → EventLog → EventLog
add_record json now event_type data_ log =
    let line = json.dumps (record_fields (succ_ℤ log.seq) now log.run_id event_type data_) in
    record log {
      seq = succ_ℤ log.seq;
      file = record { lines = log.file.lines ++ (log.file.tail <> line) ∷ []; tail = "" };
    }

unfoldable pub append :
    Json → String → String → Fields → EventLog → Result UnknownEventType EventLog
append json now event_type data_ log = elim (is_event_type event_type) [
  | false ↦ raised (UnknownEventType.unknown_event_type event_type)
  | true ↦ ok (add_record json now event_type data_ log)
]
