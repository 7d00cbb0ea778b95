-- ===== src/Attestations/Recovery.antt =====
-- A session that reads the audit file after a crash has the verdicts of the session before.
use Prim.Native.String.{◌++◌ as ◌+++◌}
use Prim.Native.String.compare
use ghyll.Base.{
  ℕ, suc, ◌+◌, String, Bool, ◌≡◌, refl, sym, ap, subst, ◌∙◌, true, false, not, inl, inr, Option,
  none, some, List, [], ◌∷◌, ◌++◌, arith, ok, err, Result, ◌>>=◌, ◌==◌, string_key, All, length,
  map, if◌then◌else◌, has_prefix, trim_space, has_break, split_lines, split_lines-rest,
  split_lines-append,
}
use ghyll.Attestations.{Rules, AttestationRecord, AttestationError}
use ghyll.Attestations.Store.{
  AttestationStore, PrimaryWriter, new_attestation_store, set_primary_writer, record_replay,
  record_attestation, Recorded,
}
use ghyll.Attestations.History.{
  StoreCall, recording, replaying, observing, rewiring, capping, store_step, store_run, step_trail,
  run_trail,
}
use ghyll.Attestations.Outcomes.{
  Outcome, known, refused, unwritten, stored, written, audited, record_attestation-Outcome,
}
use ghyll.Attestations.Trail.{IsAudited, SameContents, replay_all, run_trail-Rebuilds}
use ghyll.Attestations.Wire.{
  JsonlRecord, jsonl_record_to_att_rec-new_jsonl_record, new_jsonl_record, jsonl_record_to_att_rec,
  payload_of,
}
use ghyll.Attestations.Loading.{
  Json, Loaded, opened, is_skipped, nothing_loaded, unless_failed, take_line, load_parsed,
  load_trimmed, load_line, load_lines, load_rest, load_one_tree_file, load_from_jsonl,
}

-- What is relied on of `encoding/json` for a record: what was written is read back, and stands in
-- one line that begins with a brace and has no white space around it.
pub record IsLineFormat (json : Json) (w : JsonlRecord) : Type 0 where
  pub round : json.unmarshal (json.marshal w) ≡ some w
  pub one_line : has_break (json.marshal w) ≡ false
  pub braced : has_prefix (json.marshal w) "{" ≡ true
  pub tight : trim_space (json.marshal w) ≡ json.marshal w

-- `writeLine`: what one call adds to the file.
abbrev pub write_line : String → String → String
write_line line file = line +++ ("\n" +++ file)

-- The file after records were written to it.
abbrev pub trail_text : Json → List AttestationRecord → String → String
trail_text json [] rest = rest
trail_text json (r ∷ rs) rest =
    write_line (json.marshal (new_jsonl_record r)) (trail_text json rs rest)

-- A text that begins with a brace is neither empty nor a comment.
braced-kept : (s : String) → has_prefix s "{" ≡ true → is_skipped s ≡ false
unfolding is_skipped has_prefix
braced-kept String.[] h = ground (arith, h)
braced-kept (String.◌∷◌ c s) h = ground (arith, h, compare.cons-nil c s)

>>=-ok :
    (m : Result AttestationError AttestationStore)
    (f : AttestationStore → Result AttestationError AttestationStore) {u : AttestationStore}
    → (m >>= f) ≡ ok u
    → (v : AttestationStore) × (m ≡ ok v) × (f v ≡ ok u)
>>=-ok (ok v) f h = (v, refl, h)
>>=-ok (err e) f h = cc

ok-injective :
    {s t : AttestationStore}
    → ◌≡◌ {A = Result AttestationError AttestationStore} (ok s) (ok t)
    → s ≡ t
ok-injective h = cc

add-zero : (n : ℕ) → n ≡ n + 0
add-zero n = omega arith

zero-add : (n : ℕ) → 0 + n ≡ n
zero-add n = omega arith

more : (n k : ℕ) → (n + 1) + k ≡ n + suc k
more n k = omega arith

snoc :
    (xs : List AttestationRecord) (r : AttestationRecord) (rs : List AttestationRecord)
    → (xs ++ r ∷ []) ++ rs ≡ xs ++ r ∷ rs
snoc [] r rs = refl
snoc (x ∷ xs) r rs = ap (λ l. x ∷ l) (snoc xs r rs)

append-nil : (xs : List AttestationRecord) → xs ≡ xs ++ []
append-nil [] = refl
append-nil (x ∷ xs) = ap (λ l. x ∷ l) (append-nil xs)

All-append :
    (P : AttestationRecord → Type 0) (xs ys : List AttestationRecord)
    → All P xs
    → All P ys
    → All P (xs ++ ys)
All-append P [] ys p q = q
All-append P (x ∷ xs) ys (h, p) q = (h, All-append P xs ys p q)

module _ (rules : Rules) (json : Json) where
  line_of : AttestationRecord → String
  line_of r = json.marshal (new_jsonl_record r)

  -- The record is written in a line, and is the same after it was read.
  record Survives (r : AttestationRecord) : Type 0 where
    same : jsonl_record_to_att_rec json.read_payload (new_jsonl_record r) ≡ r
    line : IsLineFormat json (new_jsonl_record r)

  split-trail :
      (rs : List AttestationRecord) (rest : String)
      → All Survives rs
      → has_break rest ≡ false
      → split_lines (trail_text json rs rest) ≡ (map line_of rs, rest)
  unfolding line_of
  split-trail [] rest s h = split_lines-rest rest h
  split-trail (r ∷ rs) rest (s, ss) h =
      split_lines-append (line_of r) (trail_text json rs rest) s.line.one_line
      ∙ ap (λ (p : List String × String). (line_of r ∷ p.0, p.1)) (split-trail rs rest ss h)

  load_line-line_of :
      (l : Loaded) (r : AttestationRecord) (u : AttestationStore)
      → Survives r
      → record_replay rules l.store r ≡ ok u
      → load_line rules json l (line_of r)
        ≡ record l { loaded = l.loaded + 1; records = l.records ++ r ∷ []; store = u }
  unfolding load_line load_trimmed load_parsed line_of take_line
  load_line-line_of l r u e h =
      let w = new_jsonl_record r in
      ap (load_trimmed rules json l) e.line.tight
      ∙ ap (λ b. if b then l else load_parsed rules json l (json.unmarshal (json.marshal w)))
          (braced-kept (json.marshal w) e.line.braced)
      ∙ ap (load_parsed rules json l) e.line.round
      ∙ ap (λ x. take_line l x (record_replay rules l.store x)) e.same
      ∙ ap (take_line l r) h

  load_lines-trail :
      (l : Loaded) (rs : List AttestationRecord) (u : AttestationStore)
      → All Survives rs
      → l.failed ≡ none
      → replay_all rules l.store rs ≡ ok u
      → load_lines rules json l (map line_of rs)
        ≡ record l { loaded = l.loaded + length rs; records = l.records ++ rs; store = u }
  unfolding load_lines replay_all
  load_lines-trail l [] u s f h = λ i. record l {
    loaded = add-zero l.loaded i;
    records = append-nil l.records i;
    store = ok-injective h i;
  }
  load_lines-trail l (r ∷ rs) u (s, ss) f h =
      let (v, one, rest) = >>=-ok (record_replay rules l.store r) (λ y. replay_all rules y rs) h in
      let l' : Loaded = record l {
        loaded = l.loaded + 1;
        records = l.records ++ r ∷ [];
        store = v;
      } in
      let lines = map line_of rs in
      ap (λ y. unless_failed y.failed y (load_lines rules json y lines))
        (load_line-line_of l r v s one)
      ∙ ap (λ o. unless_failed o l' (load_lines rules json l' lines)) f
      ∙ load_lines-trail l' rs u ss f rest
      ∙ λ i. record l {
        loaded = more l.loaded (length rs) i;
        records = snoc l.records r rs i;
        store = u;
      }

  -- A file with the lines of some records and then a partial line is loaded as far as its lines go,
  -- and the store is what replaying the records makes of it.
  load_one_tree_file-trail :
      (t u : AttestationStore) (rs : List AttestationRecord) (rest : String)
      → has_break rest ≡ false
      → All Survives rs
      → replay_all rules t rs ≡ ok u
      → load_one_tree_file rules json t (record { text = trail_text json rs rest; ending = none })
        ≡ record {
          loaded = length rs;
          truncated = not (rest == "");
          records = rs;
          failed = none;
          store = u;
        }
  unfolding load_one_tree_file load_rest
  load_one_tree_file-trail t u rs rest b s h =
      let start = nothing_loaded t none in
      let load = λ (p : List String × String).
        let l = load_lines rules json start p.0 in
        unless_failed l.failed l (load_rest rules json l p.1 none) in
      ap load (split-trail rs rest s b)
      ∙ ap (λ l. unless_failed l.failed l (load_rest rules json l rest none))
          (load_lines-trail start rs u s refl h)
      ∙ λ i. record {
        loaded = zero-add (length rs) i;
        truncated = not (rest == "");
        records = rs;
        failed = none;
        store = u;
      }

  -- What the calls record: the typed payload is the one that its text stands for, and
  -- the record has a line.
  abbrev pub IsWritable : StoreCall → Type 0
  IsWritable (recording r) =
      (payload_of json.read_payload r.unit_payload_json ≡ r.unit_payload)
      × IsLineFormat json (new_jsonl_record r)
  IsWritable _ = Unit

  audited-Survives :
      (w : Option PrimaryWriter) (r : AttestationRecord) → Survives r → All Survives (audited w r)
  audited-Survives none r v = tt
  audited-Survives (some w) r v = (v, tt)

  Outcome-Survives :
      (s : AttestationStore) (r : AttestationRecord) (x : Recorded)
      → Survives r
      → Outcome s r x
      → All Survives (written x.effects)
  Outcome-Survives s r x v (known held at same e) =
      subst (λ y. All Survives (written y.effects)) (sym e) tt
  Outcome-Survives s r x v (unwritten w m e a h) =
      subst (λ y. All Survives (written y.effects)) (sym h) tt
  Outcome-Survives s r x v (refused f e) = subst (λ y. All Survives (written y.effects)) (sym e) tt
  Outcome-Survives s r x v (stored free done e w) =
      subst (All Survives) (sym w) (audited-Survives s.primary_writer r v)

  step_trail-Survives :
      (s : AttestationStore) (c : StoreCall) → IsWritable c → All Survives (step_trail rules s c)
  unfolding step_trail
  step_trail-Survives s (recording r) (p, q) = elim (record_attestation-Outcome rules s r) [
    | inl (v, out) ↦
        Outcome-Survives s r (record_attestation rules s r)
          (record {
            same =
                jsonl_record_to_att_rec-new_jsonl_record rules json.read_payload
                  s.residue_note_max_bytes r v.plain v.tier2 p;
            line = q;
          })
          out
    | inr (f, h) ↦ subst (λ y. All Survives (written y.effects)) (sym h) tt
  ]
  step_trail-Survives s (replaying r) p = tt
  step_trail-Survives s observing p = tt
  step_trail-Survives s (rewiring w) p = tt
  step_trail-Survives s (capping n) p = tt

  run_trail-Survives :
      (s : AttestationStore) (cs : List StoreCall)
      → All IsWritable cs
      → All Survives (run_trail rules s cs)
  unfolding run_trail
  run_trail-Survives s [] p = tt
  run_trail-Survives s (c ∷ cs) (p, ps) =
      All-append Survives (step_trail rules s c) (run_trail rules (store_step rules s c) cs)
        (step_trail-Survives s c p) (run_trail-Survives (store_step rules s c) cs ps)

  -- A session records verdicts in an empty store with an audit writer, replays nothing and keeps
  -- the audit on; for each record that a writer takes, and for nothing else, a line is in the audit
  -- file; and the session is cut off within a line. If the partial line has no line break, each
  -- typed payload is the one that its text stands for, and each record has a JSON line that is read
  -- back, then the next session's load of the file meets no error, counts the records that were
  -- taken, reports truncation exactly if there is a partial line, and leaves a store with the
  -- records and the version of the session before.
  pub load_from_jsonl-recovers :
      (w : PrimaryWriter) (cs : List StoreCall) (rest : String) (engine_has_rows : Bool)
      → All IsAudited cs
      → All IsWritable cs
      → has_break rest ≡ false
      → (u : AttestationStore) × (load_from_jsonl rules json new_attestation_store
            (opened (record {
              text =
                  trail_text json
                    (run_trail rules (set_primary_writer new_attestation_store (some w)) cs)
                    rest;
              ending = none;
            }))
            engine_has_rows
          ≡ record {
            loaded =
                length (run_trail rules (set_primary_writer new_attestation_store (some w)) cs);
            truncated = not (rest == "");
            records = run_trail rules (set_primary_writer new_attestation_store (some w)) cs;
            failed = none;
            store = u;
          })
        × SameContents u (store_run rules (set_primary_writer new_attestation_store (some w)) cs)
  unfolding load_from_jsonl
  load_from_jsonl-recovers w cs rest engine_has_rows a p b =
      let s = set_primary_writer new_attestation_store (some w) in
      let (u, ran, same) = run_trail-Rebuilds rules w cs a in
      (
        u,
        load_one_tree_file-trail new_attestation_store u (run_trail rules s cs) rest b
            (run_trail-Survives s cs p) ran,
        same,
      )
