-- ===== src/Attestations/Loading.antt =====
-- runner/attestationstore.go: reading the audit file at the start of a session.
use ghyll.Base.{
  ℕ, ◌+◌, String, Bool, false, ◌||◌, not, Option, none, some, List, [], ◌∷◌, ◌++◌, Result, ok, err,
  ◌==◌, string_key, if◌then◌else◌, trim_space, has_prefix, split_lines,
}
use ghyll.Attestations.{Rules, AttestationRecord, AttestationError}
use ghyll.Attestations.Store.{AttestationStore, record_replay}
use ghyll.Attestations.Wire.{JsonlRecord, PayloadReader, jsonl_record_to_att_rec}

-- `encoding/json` on a line: what `json.Marshal` writes of a record, and what `json.Unmarshal` reads.
pub record Json : Type 0 where
  pub marshal : JsonlRecord → String
  pub unmarshal : String → Option JsonlRecord
  pub read_payload : PayloadReader

-- Why a load stops.
pub data LoadError : Type 0 where
  audit_missing : LoadError
  cannot_open : String → LoadError
  malformed_line : LoadError
  refused_line : AttestationError → LoadError
  read_failed : String → LoadError

-- What a load returns, and the store after it.
pub record Loaded : Type 0 where
  pub loaded : ℕ
  pub truncated : Bool
  pub records : List AttestationRecord
  pub failed : Option LoadError
  pub store : AttestationStore

abbrev pub nothing_loaded : AttestationStore → Option LoadError → Loaded
nothing_loaded s failed = record {
  loaded = 0;
  truncated = false;
  records = [];
  failed = failed;
  store = s;
}

-- A file that was opened: its text, and the error, if any, that the reader meets in place of the
-- end of the file.
pub record Opened : Type 0 where
  pub text : String
  pub ending : Option String

-- What `os.Open` answers.
pub data Opening : Type 0 where
  missing : Opening
  unreadable : String → Opening
  opened : Opened → Opening

-- A load that met an error stops there.
abbrev pub unless_failed : Option LoadError → Loaded → Loaded → Loaded
unless_failed none l next = next
unless_failed (some e) l next = l

-- Lines that hold no record.
unfoldable pub is_skipped : String → Bool
unfolding has_prefix
is_skipped line = line == "" || has_prefix line "#"

unfoldable pub take_line :
    Loaded → AttestationRecord → Result AttestationError AttestationStore → Loaded
take_line l r (ok s) = record l { loaded = l.loaded + 1; records = l.records ++ r ∷ []; store = s }
take_line l r (err e) = record l { failed = some (refused_line e) }

module _ (rules : Rules) (json : Json) where
  unfoldable pub load_parsed : Loaded → Option JsonlRecord → Loaded
  unfolding take_line
  load_parsed l none = record l { failed = some malformed_line }
  load_parsed l (some w) =
      let r = jsonl_record_to_att_rec json.read_payload w in
      take_line l r (record_replay rules l.store r)

  -- A line without the white space around it.
  unfoldable pub load_trimmed : Loaded → String → Loaded
  unfolding is_skipped load_parsed
  load_trimmed l line = if is_skipped line then l else load_parsed l (json.unmarshal line)

  unfoldable pub load_line : Loaded → String → Loaded
  unfolding load_trimmed trim_space
  load_line l line = load_trimmed l (trim_space line)

  -- The lines that end with a line break, up to the first that cannot be taken.
  unfoldable pub load_lines : Loaded → List String → Loaded
  unfolding load_line
  load_lines l [] = l
  load_lines l (line ∷ lines) =
      let l' = load_line l line in unless_failed l'.failed l' (load_lines l' lines)

  -- What follows the last line break.
  unfoldable pub load_rest : Loaded → String → Option String → Loaded
  unfolding load_line
  load_rest l rest none = record l { truncated = not (rest == "") }
  load_rest l rest (some e) =
      let l' = if rest == "" then l else load_line l rest in
      unless_failed l'.failed l' (record l' { failed = some (read_failed e) })

  -- `loadOneTreeFile`, after the file was opened.
  unfoldable pub load_one_tree_file : AttestationStore → Opened → Loaded
  unfolding load_lines load_rest split_lines
  load_one_tree_file s file =
      let start = nothing_loaded s none in
      let (lines, rest) = split_lines file.text in
      let l = load_lines start lines in unless_failed l.failed l (load_rest l rest file.ending)

  -- `LoadFromJSONL`; it reads the lines as `loadOneTreeFile` does, and keeps no list of the records.
  unfoldable pub load_from_jsonl : AttestationStore → Opening → Bool → Loaded
  unfolding load_one_tree_file
  load_from_jsonl s missing engine_has_rows =
      nothing_loaded s (if engine_has_rows then some audit_missing else none)
  load_from_jsonl s (unreadable e) engine_has_rows = nothing_loaded s (some (cannot_open e))
  load_from_jsonl s (opened file) engine_has_rows = load_one_tree_file s file
