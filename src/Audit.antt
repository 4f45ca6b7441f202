-- ===== src/Audit.antt =====
-- packages/audit/src: the hash-chained JSONL log of one connection (log.ts, types.ts,
-- canonical.ts). The file is its text, a list of code units over an alphabet; `none` where it does not exist.
-- `hashJcs` (canonical JSON and SHA-256), `JSON.stringify` and `JSON.parse` are parameters.
pub mod Lines
pub mod Chain
pub mod Appends
pub mod Tamper
mod Tests
use arp.Common.{
  ℕ, ◌≡◌, ◌+◌, String, Bool, true, false, Option, none, some, List, [], ◌∷◌, ◌++◌, eqb, Eq, ◌==◌,
  if◌then◌else◌, or_else, last?, length,
}
use arp.Spec.{Obligation}
use arp.Audit.Lines.{Alphabet, NoNewline, lines, is_blank}

pub data Decision : Type 0 where
  allow deny : Decision

-- `AuditEntryInput`; `none` is an absent field.
pub record EntryInput : Type 0 where
  pub msg_id : String
  pub decision : Decision
  pub policies_fired : List String
  pub obligations : Option (List Obligation)
  pub spend_delta_cents : Option ℕ
  pub reason : Option String
  pub timestamp : Option String

-- `Omit<AuditEntry, 'self_hash'>`, over the type of hashes
pub record Base (H : Type 0) : Type 0 where
  pub seq : ℕ
  pub timestamp : String
  pub msg_id : String
  pub decision : Decision
  pub policies_fired : List String
  pub obligations : List Obligation
  pub spend_delta_cents : ℕ
  pub reason : Option String
  pub prev_hash : H

pub record AuditEntry (H : Type 0) : Type 0 where
  pub base : Base H
  pub open base use *
  pub self_hash : H

-- What the log takes from libraries. `parse` is `none` where `JSON.parse` throws, or gives `null`, on
-- whose fields the code throws.
pub record Codec (S H : Type 0) : Type 0 where
  pub alphabet : Alphabet S
  pub genesis : H
  pub hash_jcs : Base H → H
  pub stringify : AuditEntry H → List S
  pub parse : List S → Option (AuditEntry H)

-- JSON text of an entry is one non-blank line and parses back; blank text does not parse.
pub record IsCodec {S H : Type 0} (c : Codec S H) : Type 0 where
  pub parse-stringify : (e : AuditEntry H) → c.parse (c.stringify e) ≡ some e
  pub one_line : (e : AuditEntry H) → NoNewline c.alphabet (c.stringify e)
  pub not_blank : (e : AuditEntry H) → is_blank c.alphabet (c.stringify e) ≡ false
  pub parse-blank : (s : List S) → is_blank c.alphabet s ≡ true → c.parse s ≡ none

pub record TailState (H : Type 0) : Type 0 where
  pub seq : ℕ
  pub prev_hash : H

pub data Break : Type 0 where
  parse_error seq_mismatch prev_hash_mismatch self_hash_mismatch : Break

pub record VerifyResult : Type 0 where
  pub valid : Bool
  pub entries_seen : ℕ
  pub first_break_at : Option ℕ
  pub error : Option Break

-- An open log: the file's text and the tail state held in memory.
pub record AuditLog (S H : Type 0) : Type 0 where
  pub file : Option (List S)
  pub state : TailState H

abbrev pub file_lines : {S : Type 0} → Alphabet S → Option (List S) → List (List S)
file_lines a none = []
file_lines a (some text) = lines a text

abbrev broken : ℕ → Break → VerifyResult
broken i why = record { valid = false; entries_seen = i; first_break_at = some i; error = some why }

module _ {S H : Type 0} ⦃e : Eq H⦄ (c : Codec S H) where
  -- the object that is hashed: every field but `self_hash`
  unfoldable pub entry_for_hash : Base H → Base H
  entry_for_hash b = record {
    seq = b.seq;
    timestamp = b.timestamp;
    msg_id = b.msg_id;
    decision = b.decision;
    policies_fired = b.policies_fired;
    obligations = b.obligations;
    spend_delta_cents = b.spend_delta_cents;
    reason = b.reason;
    prev_hash = b.prev_hash;
  }

  abbrev fresh : TailState H
  fresh = record { seq = 0; prev_hash = c.genesis }

  -- `none` where the last line does not parse, and opening throws
  unfoldable pub load_tail_state : Option (List S) → Option (TailState H)
  load_tail_state none = some fresh
  load_tail_state (some contents) =
      if is_blank c.alphabet contents
      then some fresh
      else elim (last? (lines c.alphabet contents)) [
        | none ↦ some fresh
        | some last ↦ elim (c.parse last) [
          | none ↦ none
          | some parsed ↦ some (record { seq = parsed.seq + 1; prev_hash = parsed.self_hash })
        ]
      ]

  unfoldable pub open_audit_log : Option (List S) → Option (AuditLog S H)
  open_audit_log file = elim (load_tail_state file) [
    | none ↦ none
    | some state ↦ some (record { file = file; state = state })
  ]

  -- `append`; `now` is the clock's reading. Returns the entry and the log after it.
  unfoldable pub append : String → EntryInput → AuditLog S H → AuditEntry H × AuditLog S H
  unfolding entry_for_hash
  append now input log =
      let base : Base H = record {
        seq = log.state.seq;
        timestamp = or_else input.timestamp now;
        msg_id = input.msg_id;
        decision = input.decision;
        policies_fired = input.policies_fired;
        obligations = or_else input.obligations [];
        spend_delta_cents = or_else input.spend_delta_cents 0;
        reason = input.reason;
        prev_hash = log.state.prev_hash;
      } in
      let self_hash = c.hash_jcs (entry_for_hash base) in
      let entry : AuditEntry H = record { base = base; self_hash = self_hash } in
      (
        entry,
        record {
          file = some (or_else log.file [] ++ (c.stringify entry ++ c.alphabet.newline ∷ []));
          state = record { seq = log.state.seq + 1; prev_hash = self_hash };
        },
      )

  -- the checks of one line, in the order of the loop
  unfoldable pub check_entry : ℕ → H → AuditEntry H → Option Break
  unfolding entry_for_hash
  check_entry i expected_prev entry =
      if eqb entry.seq i
      then if entry.prev_hash == expected_prev
        then if c.hash_jcs (entry_for_hash entry.base) == entry.self_hash
          then none
          else some self_hash_mismatch
        else some prev_hash_mismatch
      else some seq_mismatch

  -- the loop of `verifyFile`, from line `i`
  -- On a line `null` the code throws, where this answers a parse error.
  unfoldable pub verify_from : ℕ → H → List (List S) → VerifyResult
  verify_from i expected_prev [] = record {
    valid = true;
    entries_seen = i;
    first_break_at = none;
    error = none;
  }
  verify_from i expected_prev (raw ∷ rest) = elim (c.parse raw) [
    | none ↦ broken i parse_error
    | some entry ↦ elim (check_entry i expected_prev entry) [
      | none ↦ verify_from (i + 1) entry.self_hash rest
      | some why ↦ broken i why
    ]
  ]

  unfoldable pub verify_file : Option (List S) → VerifyResult
  unfolding verify_from
  verify_file file = verify_from 0 c.genesis (file_lines c.alphabet file)

  -- several appends, each with the clock's reading at its time
  unfoldable pub append_all : List (String × EntryInput) → AuditLog S H → AuditLog S H
  unfolding append
  append_all [] log = log
  append_all ((now, input) ∷ rest) log = append_all rest (append now input log).1
