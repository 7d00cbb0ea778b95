-- ===== src/Attestations/Truncation.antt =====
-- runner/attestation_jsonl.go: cutting a partial last line off the audit file, which is a list of
-- bytes here.
pub mod Laws
use ghyll.Base.{
  ℕ, zero, suc, ◌+◌, ◌-◌, ◌*◌, String, Bool, true, false, Option, none, some, List, [], ◌∷◌, nat_eq,
  length, drop, if◌then◌else◌,
}

abbrev pub take : ℕ → List ℕ → List ℕ
take zero bs = []
take (suc n) [] = []
take (suc n) (b ∷ bs) = b ∷ take n bs

-- The place of the last line break, for which the program looks from the end.
unfoldable pub last_break : List ℕ → Option ℕ
last_break [] = none
last_break (b ∷ bs) = elim (last_break bs) [
  | some i ↦ some (suc i)
  | none ↦ if nat_eq b b'\n' then some 0 else none
]

-- What the calls on the file answer: the error of each, if any; of a read, by its place.
pub record FileFaults : Type 0 where
  pub stat : Option String
  pub read_at : ℕ → Option String
  pub truncate : Option String
  pub seek : Option String
  pub sync : Option String

pub data Search : Type 0 where
  found : ℕ → Search
  nowhere out_of_fuel : Search
  unreadable : String → Search

-- The bytes from one place to another.
abbrev pub slice : ℕ → ℕ → List ℕ → List ℕ
slice from end file = take (end - from) (drop from file)

-- The 64 KiB that are read at once.
abbrev pub chunk_bytes : ℕ
chunk_bytes = 64 * 1024

module _ (chunk : ℕ) (faults : FileFaults) (file : List ℕ) where
  -- A chunk was read: the last line break in it, or the rest of the search.
  unfoldable pub judge_chunk : ℕ → Option ℕ → Search → Search
  judge_chunk from (some i) rest = found (from + i + 1)
  judge_chunk from none rest = if nat_eq from 0 then nowhere else rest

  -- The loop, backwards over chunks.
  unfoldable pub search_back : ℕ → ℕ → Search
  unfolding judge_chunk last_break
  search_back zero end = out_of_fuel
  search_back (suc fuel) end =
      let from = end - chunk in
      elim (faults.read_at from) [
        | some e ↦ unreadable e
        | none ↦
            let rest = search_back fuel from in
            judge_chunk from (last_break (slice from end file)) rest
      ]

-- `f.Truncate(cut)`, `f.Seek(cut, 0)` and `f.Sync()`: the error, and the file after it.
unfoldable pub cut_file : FileFaults → List ℕ → ℕ → Option String × List ℕ
cut_file faults file cut = elim faults.truncate [
  | some e ↦ (some e, file)
  | none ↦ elim faults.seek [
    | some e ↦ (some e, take cut file)
    | none ↦ (faults.sync, take cut file)
  ]
]

unfoldable pub apply_search : FileFaults → List ℕ → Search → Option String × List ℕ
unfolding cut_file
apply_search faults file (found cut) =
    if nat_eq cut (length file) then (none, file) else cut_file faults file cut
apply_search faults file nowhere = cut_file faults file 0
apply_search faults file (unreadable e) = (some e, file)
apply_search faults file out_of_fuel = (none, file)

-- `TruncateTrailingPartial`, on a writer whose output is a file unless `is_file` says otherwise.
unfoldable pub truncate_trailing_partial :
    ℕ → Bool → Bool → FileFaults → List ℕ → Option String × List ℕ
unfolding search_back apply_search
truncate_trailing_partial chunk closed is_file faults file =
    if closed
    then (some "attestation-jsonl: writer closed", file)
    else if is_file
    then elim faults.stat [
      | some e ↦ (some e, file)
      | none ↦
          if nat_eq (length file) 0
          then (none, file)
          else apply_search faults file (search_back chunk faults file (length file) (length file))
    ]
    else (none, file)
