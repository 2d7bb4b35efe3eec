-- ===== src/Examples/Logs.antt =====
-- events.py: a log that is resumed after its file ended in a newline, and after a hard kill. The JSON
-- here writes a number as a text of as many letters.
use Prim.Native.Char.{Char, code}
use text.Mathlib.TextLemmas.{cons-append}
use Prim.Native.String.{String}
use cli_agentic_workflow.Prelude.{
  ℤ, some, ◌≡◌, refl, ℕ, [], none, zero, eqb, suc, pos, Option, if◌then◌else◌, ap, negsuc, List, ok,
  sym, ◌==◌, ◌++◌, false, subst, ◌∷◌, ◌≢◌, inl, ==_cases, arith, inr,
}
use cli_agentic_workflow.Trace.{
  Json, EventFile, file_lines, seq_of, last_seq, EventLog, open_log, succ_ℤ, is_event_type,
}
use cli_agentic_workflow.Value.{Value, Fields, field_at}
use cli_agentic_workflow.Trace.Increasing.{
  IsJson, Appended, append_all, seqs, counted, IsIncreasing, append_all-IsIncreasing,
  append_all-torn,
}
use cli_agentic_workflow.Model.Text.{is_space}
use cli_agentic_workflow.Agent.Text.{lstrip, rstrip, strip, ◌<>◌}

abbrev letters : ℕ → String
letters zero = String.[]
letters (suc n) = String.◌∷◌ "i" (letters n)

abbrev count_letters : String → ℕ
count_letters String.[] = 0
count_letters (String.◌∷◌ c s) = suc (count_letters s)

abbrev encode : ℤ → String
encode (pos n) = String.◌∷◌ "p" (letters n)
encode (negsuc n) = String.◌∷◌ "n" (letters n)

abbrev decode : String → Option ℤ
decode String.[] = none
decode (String.◌∷◌ c s) =
    if eqb (code c) 112
    then some (pos (count_letters s))
    else if eqb (code c) 110
    then some (negsuc (count_letters s))
    else none

abbrev json : Json
json = record {
  loads = λ s. elim (decode s) [
    | none ↦ none
    | some z ↦ some (Value.dict (Fields.field "seq" (Value.int z) Fields.end))
  ];
  dumps = λ d. elim (field_at "seq" d) [ some (Value.int z) ↦ encode z | _ ↦ "p" ];
  int_of = λ v. elim v [ Value.int z ↦ some z | _ ↦ none ];
}

count-letters : (n : ℕ) → count_letters (letters n) ≡ n
count-letters zero = refl
count-letters (suc n) = ap suc (count-letters n)

suc-ne-zero : (n : ℕ) → suc n ≢ 0
suc-ne-zero n e = omega arith

nonempty : (c : Char) (s : String) → (String.◌∷◌ c s == "") ≡ false
nonempty c s = elim (==_cases (String.◌∷◌ c s) "") [
  | inl h ↦ absurd (suc-ne-zero (count_letters s) (ap count_letters h.1))
  | inr h ↦ h.0
]

encoded_nonblank : (z : ℤ) → (strip (encode z) == "") ≡ false
unfolding strip rstrip lstrip is_space
encoded_nonblank (pos n) = nonempty "p" (rstrip (letters n))
encoded_nonblank (negsuc n) = nonempty "n" (rstrip (letters n))

decode-encode : (z : ℤ) → decode (encode z) ≡ some z
decode-encode (pos n) = ap (λ k. some (pos k)) (count-letters n)
decode-encode (negsuc n) = ap (λ k. some (negsuc k)) (count-letters n)

parsed :
    (z : ℤ)
    → json.loads (encode z) ≡ some (Value.dict (Fields.field "seq" (Value.int z) Fields.end))
parsed z = rw (decode-encode z, json) refl

json-IsJson : IsJson json
unfolding field_at
json-IsJson = (
  λ seq ts run_id event_type data_.
      (encoded_nonblank seq, (Fields.field "seq" (Value.int seq) Fields.end, parsed seq, refl)),
  λ z. refl,
)

abbrev resumed : List Appended
resumed = ("t", "run_resumed", Fields.end) ∷ ("t", "node_started", Fields.end) ∷ []

abbrev stopped : EventFile
stopped = record { lines = "pi" ∷ "pii" ∷ []; tail = "" }

abbrev killed : EventFile
killed = record { lines = "pi" ∷ "pii" ∷ []; tail = "{" }

numbers_of_stopped : seqs json stopped.lines ≡ pos 1 ∷ pos 2 ∷ []
unfolding seq_of strip rstrip lstrip is_space field_at
numbers_of_stopped = refl

append_all-IsIncreasing_example :
    (log : EventLog) × (append_all json resumed (open_log json (some stopped) "r") ≡ ok log)
    × (seqs json (file_lines log.file)
        ≡ seqs json stopped.lines ++ counted (last_seq json (some stopped)) resumed)
    × IsIncreasing (pos 0) (seqs json (file_lines log.file))
unfolding is_event_type
append_all-IsIncreasing_example =
    append_all-IsIncreasing json json-IsJson resumed (some stopped) "r" refl refl
      (subst (IsIncreasing (pos 0)) (sym numbers_of_stopped) (refl, (refl, tt)))

unparsed : (s : String) → json.loads ("{" <> s) ≡ none
unparsed s = ap (λ t. json.loads t) (cons-append "{" "" s)

seq_of-unparsed : (j : Json) (line : String) → j.loads line ≡ none → seq_of j line ≡ none
unfolding seq_of
seq_of-unparsed j line h = ground arith

torn : (d : Fields) → seq_of json ("{" <> json.dumps d) ≡ none
torn d = seq_of-unparsed json ("{" <> json.dumps d) (unparsed (json.dumps d))

append_all-torn_example :
    (log : EventLog) × (append_all json resumed (open_log json (some killed) "r") ≡ ok log)
    × (seqs json (file_lines log.file)
        ≡ seqs json killed.lines
          ++ counted
              (succ_ℤ (last_seq json (some killed)))
              (("t", "node_started", Fields.end) ∷ []))
unfolding is_event_type
append_all-torn_example =
    append_all-torn json json-IsJson ("t", "run_resumed", Fields.end)
      (("t", "node_started", Fields.end) ∷ []) killed "r" refl torn
