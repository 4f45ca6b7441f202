-- ===== src/CloudRuntime/PostgresAudit.antt =====
-- packages/cloud-runtime/src/audit.ts: the audit rows of one agent's connection, with several writers
-- at once. A writer reads the latest row, then inserts the next one; where another has taken its number,
-- the unique key refuses the row and it reads again, eight times at most.
use arp.Common.{
  ℕ, ◌+◌, String, Bool, true, false, Option, none, some, List, [], ◌∷◌, ◌++◌, map, take, any,
  nat_eq, Eq, if◌then◌else◌, or_else, ltb, leb, eqb,
}
use arp.Common.JsMap.{JsMap, get, set, delete, has}
use arp.Audit.{EntryInput, Base, AuditEntry, Codec, VerifyResult, check_entry}
use arp.CloudDb.Order.{order_by}

pub data Writer (H : Type 0) : Type 0 where
  -- about to read, after so many refused insertions
  ready : EntryInput → ℕ → Writer H
  -- about to insert an entry, whose timestamp is the clock's reading unless the input has one
  drafted : EntryInput → ℕ → String → AuditEntry H → Writer H

-- The rows in the order of insertion, and the appends under way, by their number.
pub record State (H : Type 0) : Type 0 where
  pub rows : List (AuditEntry H)
  pub writers : JsMap ℕ (Writer H)

pub data Step : Type 0 where
  begins : ℕ → EntryInput → Step
  reads : ℕ → String → Step
  inserts : ℕ → Step

-- the row with the greatest number
unfoldable pub latest : {H : Type 0} → List (AuditEntry H) → Option (AuditEntry H)
latest [] = none
latest (e ∷ es) = elim (latest es) [
  | none ↦ some e
  | some m ↦ if ltb m.seq e.seq then some e else some m
]

abbrev pub has_seq : {H : Type 0} → ℕ → AuditEntry H → Bool
has_seq n e = eqb e.seq n

abbrev pub smaller_first : {H : Type 0} → AuditEntry H → AuditEntry H → Bool
smaller_first a b = leb a.seq b.seq

abbrev pub greater_first : {H : Type 0} → AuditEntry H → AuditEntry H → Bool
greater_first a b = leb b.seq a.seq

-- a row as `rowToEntry` gives it
abbrev pub read_back : {H : Type 0} → (String → String) → AuditEntry H → AuditEntry H
read_back iso e = record e { base = record e.base { timestamp = iso e.timestamp } }

module _ {S H : Type 0} (c : Codec S H) where
  -- an entry with its hash
  unfoldable pub seal : ℕ → H → String → EntryInput → AuditEntry H
  seal seq prev now input =
      let base : Base H = record {
        seq = seq;
        timestamp = or_else input.timestamp now;
        msg_id = input.msg_id;
        decision = input.decision;
        policies_fired = input.policies_fired;
        obligations = or_else input.obligations [];
        spend_delta_cents = or_else input.spend_delta_cents 0;
        reason = input.reason;
        prev_hash = prev;
      } in
      record { base = base; self_hash = c.hash_jcs base }

  -- the entry that follows the latest row
  unfoldable pub draft : String → EntryInput → List (AuditEntry H) → AuditEntry H
  unfolding latest seal
  draft now input rows = elim (latest rows) [
    | none ↦ seal 0 c.genesis now input
    | some m ↦ seal (m.seq + 1) m.self_hash now input
  ]

  -- the writer after an insertion that the key refused; the eighth time it throws
  abbrev pub retried : ℕ → EntryInput → ℕ → JsMap ℕ (Writer H) → JsMap ℕ (Writer H)
  retried w input n ws = if eqb n 7 then delete w ws else set w (ready input (n + 1)) ws

  abbrev pub insertion : ℕ → Option (Writer H) → State H → State H
  insertion w none s = s
  insertion w (some (ready input n)) s = s
  insertion w (some (drafted input n now e)) s =
      if any (has_seq e.seq) s.rows
      then record s { writers = retried w input n s.writers }
      else record { rows = s.rows ++ e ∷ []; writers = delete w s.writers }

  abbrev pub reading : ℕ → String → Option (Writer H) → State H → State H
  reading w now none s = s
  reading w now (some (drafted input n at e)) s = s
  reading w now (some (ready input n)) s = record s {
    writers = set w (drafted input n now (draft now input s.rows)) s.writers;
  }

  unfoldable pub step : Step → State H → State H
  unfolding draft
  step (begins w input) s =
      if has w s.writers then s else record s { writers = set w (ready input 0) s.writers }
  step (reads w now) s = reading w now (get w s.writers) s
  step (inserts w) s = insertion w (get w s.writers) s

  unfoldable pub run : List Step → State H → State H
  unfolding step
  run [] s = s
  run (t ∷ ts) s = run ts (step t s)

  module _ ⦃e : Eq H⦄ where
    -- the loop of `verify`, over the rows in the order of their numbers
    unfoldable pub verify_rows : ℕ → H → List (AuditEntry H) → VerifyResult
    verify_rows i expected [] = record {
      valid = true;
      entries_seen = i;
      first_break_at = none;
      error = none;
    }
    verify_rows i expected (x ∷ xs) = elim (check_entry c i expected x) [
      | none ↦ verify_rows (i + 1) x.self_hash xs
      | some why ↦ record {
        valid = false;
        entries_seen = i;
        first_break_at = some i;
        error = some why;
      }
    ]

    -- `listAudit` with its limit gives the rows with the greatest numbers, the greatest first; `iso`
    -- is the text of a timestamp after its way through the column, `new Date(t).toISOString()`.
    unfoldable pub verify : (String → String) → List (AuditEntry H) → VerifyResult
    unfolding verify_rows
    verify iso rows =
        verify_rows 0 c.genesis
          (order_by smaller_first (map (read_back iso) (take 100000 (order_by greater_first rows))))
