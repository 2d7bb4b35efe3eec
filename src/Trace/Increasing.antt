-- ===== src/Trace/Increasing.antt =====
-- events.py: the numbers of the Events in the file, as a resume continues them.
use text.Mathlib.TextLemmas.{nil-append}
use cli_agentic_workflow.Prelude.{
  ◌≡◌, zero, sym, String, ◌>>=◌, ◌++◌, pos, [], ok, Bool, ltb, negsuc, arith, inl, Result, ◌==◌,
  some, refl, true, none, List, every, suc, ◌∷◌, false, ℤ, Option-cases, inr, append_nil, ◌∙◌,
  append_assoc, Option, ap, subst,
}
use cli_agentic_workflow.Trace.{
  Json, file_lines, seq_of, scan, EventLog, succ_ℤ, record_fields, UnknownEventType, append,
  is_event_type, add_record, EventFile, last_seq, touched, open_log,
}
use cli_agentic_workflow.Value.{Value, Fields, field_at}
use cli_agentic_workflow.Agent.Text.{strip, ◌<>◌}

-- What a caller appends: the time, the type and the data.
abbrev pub Appended : Type 0
Appended = String × String × Fields

unfoldable pub append_all : Json → List Appended → EventLog → Result UnknownEventType EventLog
append_all json [] log = ok log
append_all json (e ∷ es) log = append json e.0 e.1 e.2 log >>= λ next. append_all json es next

-- The library reads a record back with its number, and writes no blank line.
abbrev pub IsJson : Json → Type 0
IsJson json =
    ((seq : ℤ) (ts run_id event_type : String) (data_ : Fields)
      → let line = json.dumps (record_fields seq ts run_id event_type data_) in
        ((strip line == "") ≡ false)
        × ((d : Fields) × (json.loads line ≡ some (Value.dict d))
            × (field_at "seq" d ≡ some (Value.int seq))))
    × ((z : ℤ) → json.int_of (Value.int z) ≡ some z)

abbrev pub has_known_type : Appended → Bool
has_known_type e = is_event_type e.1

-- The numbers that the lines hold.
abbrev pub seqs : Json → List String → List ℤ
seqs json [] = []
seqs json (line ∷ rest) = elim (seq_of json line) [
  | none ↦ seqs json rest
  | some seq ↦ seq ∷ seqs json rest
]

-- As many numbers as there are Events, from the next one on.
abbrev pub counted : ℤ → List Appended → List ℤ
counted z [] = []
counted z (e ∷ es) = succ_ℤ z ∷ counted (succ_ℤ z) es

abbrev pub ltb_ℤ : ℤ → ℤ → Bool
ltb_ℤ (pos m) (pos n) = ltb m n
ltb_ℤ (pos m) (negsuc n) = false
ltb_ℤ (negsuc m) (pos n) = true
ltb_ℤ (negsuc m) (negsuc n) = ltb n m

-- Each number is greater than the one before it, the first than `z`.
abbrev pub IsIncreasing : ℤ → List ℤ → Type 0
IsIncreasing z [] = Unit
IsIncreasing z (x ∷ xs) = (ltb_ℤ z x ≡ true) × IsIncreasing x xs

abbrev pub last_number : ℤ → List ℤ → ℤ
last_number z [] = z
last_number z (x ∷ xs) = last_number x xs

ltb_ℤ-succ_ℤ : (z : ℤ) → ltb_ℤ z (succ_ℤ z) ≡ true
ltb_ℤ-succ_ℤ (pos n) = ground arith
ltb_ℤ-succ_ℤ (negsuc zero) = refl
ltb_ℤ-succ_ℤ (negsuc (suc n)) = ground arith

counted-IsIncreasing : (z : ℤ) (es : List Appended) → IsIncreasing z (counted z es)
counted-IsIncreasing z [] = tt
counted-IsIncreasing z (e ∷ es) = (ltb_ℤ-succ_ℤ z, counted-IsIncreasing (succ_ℤ z) es)

continued-IsIncreasing :
    (z : ℤ) (xs : List ℤ) (es : List Appended)
    → IsIncreasing z xs
    → IsIncreasing z (xs ++ counted (last_number z xs) es)
continued-IsIncreasing z [] es h = counted-IsIncreasing z es
continued-IsIncreasing z (x ∷ xs) es h = (h.0, continued-IsIncreasing x xs es h.1)

seqs-concat :
    (json : Json) (xs : List String) (line : String)
    → seqs json (xs ++ line ∷ []) ≡ seqs json xs ++ seqs json (line ∷ [])
seqs-concat json [] line = refl
seqs-concat json (x ∷ xs) line = ground (arith, seqs-concat json xs line)

scan-last_number :
    (json : Json) (z : ℤ) (xs : List String) → scan json z xs ≡ last_number z (seqs json xs)
unfolding scan
scan-last_number json z [] = refl
scan-last_number json z (x ∷ xs) = elim (Option-cases (seq_of json x)) [
  | inl e ↦ ground (arith, scan-last_number json z xs)
  | inr (y, e) ↦ ground (arith, scan-last_number json y xs)
]

seq_of-dumps :
    (json : Json)
    → IsJson json
    → (seq : ℤ) (ts run_id event_type : String) (data_ : Fields)
    → seq_of json (json.dumps (record_fields seq ts run_id event_type data_)) ≡ some seq
unfolding seq_of
seq_of-dumps json h seq ts run_id event_type data_ =
    let (blank, read_back) = h.0 seq ts run_id event_type data_ in
    let (d, parsed, found) = read_back in ground (arith, h.1 seq)

known_head :
    (e : Appended) (es : List Appended)
    → every has_known_type (e ∷ es) ≡ true
    → is_event_type e.1 ≡ true
known_head e es known = ground arith

known_tail :
    (e : Appended) (es : List Appended)
    → every has_known_type (e ∷ es) ≡ true
    → every has_known_type es ≡ true
known_tail e es known = ground arith

append-known :
    (json : Json) (e : Appended) (log : EventLog)
    → is_event_type e.1 ≡ true
    → append json e.0 e.1 e.2 log ≡ ok (add_record json e.0 e.1 e.2 log)
unfolding append
append-known json e log known = rw (known, append) refl

added-seqs :
    (json : Json) (h : IsJson json) (e : Appended) (log : EventLog)
    → log.file.tail ≡ ""
    → seqs json (add_record json e.0 e.1 e.2 log).file.lines
      ≡ seqs json log.file.lines ++ succ_ℤ log.seq ∷ []
added-seqs json h e log clean =
    let line = json.dumps (record_fields (succ_ℤ log.seq) e.0 log.run_id e.1 e.2) in
    ap (λ t. seqs json (log.file.lines ++ (t <> line) ∷ [])) clean
    ∙ ap (λ t. seqs json (log.file.lines ++ t ∷ [])) (nil-append line)
    ∙ seqs-concat json log.file.lines line
    ∙ rw (seq_of-dumps json h (succ_ℤ log.seq) e.0 log.run_id e.1 e.2, seqs) refl

-- On a file that ends in a newline every Event is written on a line of its own, with the next number.
append_all-seqs :
    (json : Json) (h : IsJson json) (es : List Appended) (log : EventLog)
    → every has_known_type es ≡ true
    → log.file.tail ≡ ""
    → (end_log : EventLog) × (append_all json es log ≡ ok end_log)
      × (seqs json (file_lines end_log.file) ≡ seqs json log.file.lines ++ counted log.seq es)
unfolding append_all
append_all-seqs json h [] log known clean =
    (log, refl, rw clean (sym (append_nil (seqs json log.file.lines))))
append_all-seqs json h (e ∷ es) log known clean =
    let next = add_record json e.0 e.1 e.2 log in
    let (end_log, returned, numbers) =
      append_all-seqs json h es next (known_tail e es known) refl in
    (
      end_log,
      rw (append-known json e log (known_head e es known)) returned,
      numbers
          ∙ ap (λ xs. xs ++ counted next.seq es) (added-seqs json h e log clean)
          ∙ append_assoc (seqs json log.file.lines) (next.seq ∷ []) (counted next.seq es),
    )

lines_of-clean : (f : EventFile) → f.tail ≡ "" → file_lines f ≡ f.lines
lines_of-clean f clean = rw clean refl

last_seq-last_number :
    (json : Json) (path : Option EventFile)
    → (touched path).tail ≡ ""
    → last_seq json path ≡ last_number (pos 0) (seqs json (touched path).lines)
unfolding last_seq
last_seq-last_number json none clean = refl
last_seq-last_number json (some f) clean =
    ap (scan json (pos 0)) (lines_of-clean f clean) ∙ scan-last_number json (pos 0) f.lines

torn-seqs :
    (json : Json) (e : Appended) (log : EventLog)
    → ((d : Fields) → seq_of json (log.file.tail <> json.dumps d) ≡ none)
    → seqs json (add_record json e.0 e.1 e.2 log).file.lines ≡ seqs json log.file.lines
torn-seqs json e log torn =
    let d = record_fields (succ_ℤ log.seq) e.0 log.run_id e.1 e.2 in
    seqs-concat json log.file.lines (log.file.tail <> json.dumps d)
    ∙ rw (torn d, seqs) (append_nil (seqs json log.file.lines))

-- A resume continues the numbers: on a file that ends in a newline and whose numbers increase, the
-- Events appended get the numbers behind the last, in order, and all of them increase; given that
-- json reads back what it writes, and that the types are known.
pub append_all-IsIncreasing :
    (json : Json) (h : IsJson json) (es : List Appended) (path : Option EventFile) (run_id : String)
    → every has_known_type es ≡ true
    → (touched path).tail ≡ ""
    → IsIncreasing (pos 0) (seqs json (touched path).lines)
    → (log : EventLog) × (append_all json es (open_log json path run_id) ≡ ok log)
      × (seqs json (file_lines log.file)
          ≡ seqs json (touched path).lines ++ counted (last_seq json path) es)
      × IsIncreasing (pos 0) (seqs json (file_lines log.file))
unfolding open_log last_seq
append_all-IsIncreasing json h es path run_id known clean increasing =
    let (log, returned, numbers) =
      append_all-seqs json h es (open_log json path run_id) known clean in
    (
      log,
      returned,
      numbers,
      subst (IsIncreasing (pos 0)) (sym numbers) (
          subst (λ z. IsIncreasing (pos 0) (seqs json (touched path).lines ++ counted z es))
            (sym (last_seq-last_number json path clean))
            (continued-IsIncreasing (pos 0) (seqs json (touched path).lines) es increasing)),
    )

-- A half-written last line that does not parse, whatever record is written behind it, swallows the first
-- Event that a resume appends: the others get the numbers behind its own.
pub append_all-torn :
    (json : Json) (h : IsJson json) (e : Appended) (es : List Appended) (f : EventFile)
    (run_id : String)
    → every has_known_type (e ∷ es) ≡ true
    → ((d : Fields) → seq_of json (f.tail <> json.dumps d) ≡ none)
    → (log : EventLog) × (append_all json (e ∷ es) (open_log json (some f) run_id) ≡ ok log)
      × (seqs json (file_lines log.file)
          ≡ seqs json f.lines ++ counted (succ_ℤ (last_seq json (some f))) es)
unfolding open_log append_all
append_all-torn json h e es f run_id known torn =
    let log = open_log json (some f) run_id in
    let next = add_record json e.0 e.1 e.2 log in
    let (end_log, returned, numbers) =
      append_all-seqs json h es next (known_tail e es known) refl in
    (
      end_log,
      rw (append-known json e log (known_head e es known)) returned,
      numbers ∙ ap (λ xs. xs ++ counted next.seq es) (torn-seqs json e log torn),
    )
