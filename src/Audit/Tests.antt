-- ===== src/Audit/Tests.antt =====
-- A codec whose texts are lists of whole entries and whose hash is the entry itself, runs of the
-- log over it, and the theorems at these runs.
use native.Mathlib.Decide.{ℕ_discrete}
use arp.Common.{
  ℕ, suc, ap, ◌≡◌, ◌↔◌, ◌<◌, refl, String, inl, Bool, true, false, Option, none, some, List, [],
  ◌∷◌, map, Eq, String-discrete, eq_of_Discrete, take,
}
use arp.Spec.{Obligation, Json}
use arp.Audit.{
  Decision, allow, deny, EntryInput, Base, AuditEntry, Codec, IsCodec, AuditLog, VerifyResult,
  seq_mismatch, verify_from, verify_file, check_entry, file_lines, load_tail_state, open_audit_log,
  append, append_all,
}
use arp.Audit.Lines.{Alphabet, is_blank, lines}
use arp.Audit.Chain.{IsValidLog, check_entry-eq-none_iff, verify_file_iff, verify_file_first_break}
use arp.Audit.Appends.{passed, verify-append_all}
use arp.Audit.Tamper.{IsCollisionFree, tail_determines_log}

data Digest : Type 0 where
  start : Digest
  digest :
      ℕ
      → String
      → String
      → Decision
      → List String
      → List Obligation
      → ℕ
      → Option String
      → Digest
      → Digest

Decision-discrete : Discrete Decision
Decision-discrete = hlevel

Json-discrete : Discrete Json
Json-discrete = hlevel (ℕ_discrete, String-discrete)

Digest-discrete : Discrete Digest
Digest-discrete = hlevel (ℕ_discrete, String-discrete)

instance digest_eq : Eq Digest
digest_eq = eq_of_Discrete Digest-discrete

data Symbol : Type 0 where
  line_end : Symbol
  space : Symbol
  entry : AuditEntry Digest → Symbol

abbrev ends_line : Symbol → Bool
ends_line line_end = true
ends_line _ = false

abbrev blank_symbol : Symbol → Bool
blank_symbol (entry x) = false
blank_symbol _ = true

abbrev symbols : Alphabet Symbol
symbols = record {
  newline = line_end;
  is_newline = ends_line;
  is_space = blank_symbol;
  is_newline_lem = refl;
}

abbrev hash_fields : Base Digest → Digest
hash_fields b =
    digest b.seq b.timestamp b.msg_id b.decision b.policies_fired b.obligations b.spend_delta_cents
      b.reason b.prev_hash

abbrev parse_line : List Symbol → Option (AuditEntry Digest)
parse_line (entry x ∷ []) = some x
parse_line _ = none

abbrev codec : Codec Symbol Digest
codec = record {
  alphabet = symbols;
  genesis = start;
  hash_jcs = hash_fields;
  stringify = λ x. entry x ∷ [];
  parse = parse_line;
}

blank_fails : (s : List Symbol) → is_blank symbols s ≡ true → parse_line s ≡ none
unfolding is_blank
blank_fails [] h = refl
blank_fails (entry x ∷ s) h = cc
blank_fails (line_end ∷ s) h = refl
blank_fails (space ∷ s) h = refl

codec-IsCodec : IsCodec codec
unfolding is_blank
codec-IsCodec = record {
  parse-stringify = λ x. refl;
  one_line = λ x. refl;
  not_blank = λ x. refl;
  parse-blank = blank_fails;
}

collision_free : IsCollisionFree codec
collision_free a b h = cc

abbrev request : EntryInput
request = record {
  msg_id = "m1";
  decision = allow;
  policies_fired = "p0" ∷ [];
  obligations = none;
  spend_delta_cents = some 5;
  reason = none;
  timestamp = none;
}

abbrev refusal : EntryInput
refusal = record request { msg_id = "m2"; decision = deny; reason = some "policy_denied" }

abbrev started : AuditLog Symbol Digest
started = record { file = none; state = record { seq = 0; prev_hash = start } }

abbrev inputs : List (String × EntryInput)
inputs = ("t1", request) ∷ ("t2", refusal) ∷ []

opens : open_audit_log codec none ≡ some started
unfolding open_audit_log load_tail_state
opens = refl

empty_verifies : verify_file codec none ≡ passed 0
unfolding verify_file
empty_verifies = refl

verify-append_all_example :
    (verify_file codec (append_all codec inputs started).file ≡ passed 2)
    × (open_audit_log codec (append_all codec inputs started).file
        ≡ some (append_all codec inputs started))
unfolding verify_file
verify-append_all_example =
    verify-append_all codec codec-IsCodec none started inputs (inl refl) refl opens

verify_file_iff_example :
    ((verify_file codec (append_all codec inputs started).file).valid ≡ true)
    ↔ IsValidLog codec (file_lines symbols (append_all codec inputs started).file)
verify_file_iff_example = verify_file_iff codec (append_all codec inputs started).file

-- the second entry was dropped and its successor renumbered wrongly
abbrev first : AuditEntry Digest
first = (append codec "t1" request started).0

abbrev skipped : AuditEntry Digest
skipped = record first { base = record (first.base) { seq = 4 } }

abbrev skipped_file : Option (List Symbol)
skipped_file = some (entry first ∷ line_end ∷ entry skipped ∷ line_end ∷ [])

first_passes : check_entry codec 0 start first ≡ none
unfolding append
first_passes = (check_entry-eq-none_iff codec 0 start first).1 (refl, refl, refl)

skipped_breaks : check_entry codec 1 first.self_hash skipped ≡ some seq_mismatch
unfolding append check_entry
skipped_breaks = refl

skipped_fails : (verify_file codec skipped_file).valid ≡ false
unfolding verify_file lines
skipped_fails = rw (first_passes, skipped_breaks, verify_from)

verify_file_first_break_example :
    (k : ℕ) × (k < 2)
    × ((verify_file codec skipped_file).entries_seen ≡ k)
    × ((verify_file codec skipped_file).first_break_at ≡ some k)
    × IsValidLog codec (take k (file_lines symbols skipped_file))
    × ¬ (IsValidLog codec (take (suc k) (file_lines symbols skipped_file)))
unfolding lines
verify_file_first_break_example = verify_file_first_break codec skipped_file skipped_fails

tail_determines_log_example :
    map parse_line (file_lines symbols (append_all codec inputs started).file)
    ≡ map parse_line (file_lines symbols (append_all codec inputs started).file)
tail_determines_log_example =
    let file = (append_all codec inputs started).file in
    let valid = ap (λ (r : VerifyResult). r.valid) verify-append_all_example.0 in
    tail_determines_log codec codec-IsCodec collision_free file file valid valid refl
