-- ===== src/CloudRuntime/Refines.antt =====
-- The audit rows of packages/cloud-runtime/src/audit.ts under concurrent writers are those of one
-- writer: what the rows hold is the log of an abstract append that reads and writes at once.
use mathlib.Core.Path.{subst}
use arp.Common.{
  ℕ, ◌+◌, ◌≤◌, ◌≡◌, refl, sym, ◌∙◌, ap, inl, inr, String, Option, none, some, List, [], ◌∷◌, ◌++◌,
  any, or_else, nat_eq, Eq, ◌==◌, Bool-cases, length, length-append, All, All-append, arith, eqb,
}
use arp.Common.JsMap.{JsMap, get, set, delete, has, get-set, get-delete}
use arp.Audit.{EntryInput, AuditEntry, Codec}
use arp.Audit.Chain.{IsChain}
use arp.CloudRuntime.Atomic.{
  tip, atomic, atomic_all, atomic_all-concat, tip-append, atomic_all-IsChain, latest-IsChain,
  next_of_chain,
}
use arp.CloudRuntime.Listed.{Reads}
use arp.CloudRuntime.Verified.{valid_after, verify-IsChain}
use arp.CloudRuntime.PostgresAudit.{
  Writer, ready, drafted, State, Step, begins, reads, inserts, has_seq, seal, draft, step, run,
  insertion, reading, verify,
}

-- no rows and no appends under way
abbrev pub idle : {H : Type 0} → State H
idle = record { rows = []; writers = [] }

module _ {S H : Type 0} ⦃eq : Eq H⦄ (c : Codec S H) (Q : String → Type 0)
    (P : EntryInput → Type 0) where
  -- A draft is the entry that an atomic append would have written after some first rows.
  abbrev IsDraft : List (AuditEntry H) → AuditEntry H → Type 0
  IsDraft rows e =
      (k : ℕ) × (now : String) × (input : EntryInput) × Q now
      × P input
      × (k ≤ length rows)
      × (e ≡ seal c k (tip c c.genesis k rows) now input)

  abbrev IsWriter : List (AuditEntry H) → Option (Writer H) → Type 0
  IsWriter rows none = Unit
  IsWriter rows (some (ready input n)) = P input
  IsWriter rows (some (drafted input n now e)) = P input × IsDraft rows e

  -- the rows are those of an abstract log, and every draft is one of its entries or would be the next
  pub record IsRun (s : State H) : Type 0 where
    pub inputs : List (String × EntryInput)
    pub inputs_begun : All (λ x. Q x.0 × P x.1) inputs
    pub rows_atomic : s.rows ≡ atomic_all c inputs []
    pub drafts : (w : ℕ) → IsWriter s.rows (get w s.writers)

  run-IsChain : (s : State H) → IsRun s → IsChain c 0 c.genesis s.rows
  run-IsChain s r =
      subst (IsChain c 0 c.genesis) (sym r.rows_atomic) (atomic_all-IsChain c r.inputs [] tt)

  draft-IsDraft :
      (rows : List (AuditEntry H)) (now : String) (input : EntryInput)
      → Q now
      → P input
      → IsChain c 0 c.genesis rows
      → IsDraft rows (draft c now input rows)
  unfolding draft
  draft-IsDraft rows now input clock begun chain = elim (latest-IsChain c 0 c.genesis rows chain) [
    | inl (empty, none_) ↦ (0, now, input, clock, begun, omega arith, rw (none_, draft) refl)
    | inr (m, at, last, hash) ↦ (
      m.seq + 1,
      now,
      input,
      clock,
      begun,
      omega (arith, last),
      rw (at, draft, hash)
          (ap (λ k. seal c (m.seq + 1) (tip c c.genesis k rows) now input) (omega (arith, last))),
    )
  ]

  IsWriter-grow :
      (rows : List (AuditEntry H)) (e : AuditEntry H) (o : Option (Writer H))
      → IsWriter rows o
      → IsWriter (rows ++ e ∷ []) o
  IsWriter-grow rows e none h = tt
  IsWriter-grow rows e (some (ready input n)) h = h
  IsWriter-grow rows e (some (drafted input n at d))
        (begun, (k, now, input_, clock_, begun_, low, same)) =
      (
        begun,
        (
          k,
          now,
          input_,
          clock_,
          begun_,
          omega (arith, low, length-append rows (e ∷ [])),
          same ∙ ap (λ t. seal c k t now input_) (sym (tip-append c c.genesis k rows (e ∷ []) low)),
        ),
      )

  set-IsWriter :
      (rows : List (AuditEntry H)) (w : ℕ) (x : Writer H) (ws : JsMap ℕ (Writer H))
      → ((j : ℕ) → IsWriter rows (get j ws))
      → IsWriter rows (some x)
      → (j : ℕ) → IsWriter rows (get j (set w x ws))
  set-IsWriter rows w x ws others this j =
      subst (IsWriter rows) (sym (get-set w j x ws))
        (elim (Bool-cases (w == j)) [ inl same ↦ rw same this | inr other ↦ rw other (others j) ])

  delete-IsWriter :
      (rows : List (AuditEntry H)) (w : ℕ) (ws : JsMap ℕ (Writer H))
      → ((j : ℕ) → IsWriter rows (get j ws))
      → (j : ℕ) → IsWriter rows (get j (delete w ws))
  delete-IsWriter rows w ws others j =
      subst (IsWriter rows) (sym (get-delete w j ws))
        (elim (Bool-cases (w == j)) [ inl same ↦ rw same tt | inr other ↦ rw other (others j) ])

  -- an insertion that the key admits is an atomic append
  inserted_atomic :
      (inputs : List (String × EntryInput)) (rows : List (AuditEntry H)) (e : AuditEntry H) (k : ℕ)
      (now : String) (input : EntryInput)
      → rows ≡ atomic_all c inputs []
      → k ≡ length rows
      → e ≡ seal c k (tip c c.genesis k rows) now input
      → rows ++ e ∷ [] ≡ atomic_all c (inputs ++ (now, input) ∷ []) []
  unfolding atomic
  inserted_atomic inputs rows e k now input held last same =
      ap (λ x. rows ++ x ∷ []) (same ∙ ap (λ n. seal c n (tip c c.genesis n rows) now input) last)
      ∙ ap (atomic c (now, input)) held
      ∙ sym (atomic_all-concat c inputs (now, input) [])

  insertion-IsRun :
      (s : State H) (w : ℕ) (o : Option (Writer H))
      → IsRun s
      → IsWriter s.rows o
      → IsRun (insertion c w o s)
  unfolding seal
  insertion-IsRun s w none r mine = r
  insertion-IsRun s w (some (ready input n)) r mine = r
  insertion-IsRun s w (some (drafted input n at e)) r
        (begun, (k, now, input_, clock_, begun_, low, same)) =
      elim (Bool-cases (any (has_seq e.seq) s.rows)) [
        | inl taken ↦ rw taken (elim (Bool-cases (eqb n 7)) [
          | inl last ↦ rw last (record {
            inputs = r.inputs;
            inputs_begun = r.inputs_begun;
            rows_atomic = r.rows_atomic;
            drafts = delete-IsWriter s.rows w s.writers r.drafts;
          })
          | inr again ↦ rw again (record {
            inputs = r.inputs;
            inputs_begun = r.inputs_begun;
            rows_atomic = r.rows_atomic;
            drafts = set-IsWriter s.rows w (ready input (n + 1)) s.writers r.drafts begun;
          })
        ])
        | inr free ↦
            let number : e.seq ≡ k = ap (λ (x : AuditEntry H). x.seq) same in
            let last : k ≡ length s.rows =
              number_ k
                (next_of_chain c 0 e.seq c.genesis s.rows (run-IsChain s r) free (omega arith)
                  (omega (arith, number, low)))
                number in
            rw free (record {
              inputs = r.inputs ++ (now, input_) ∷ [];
              inputs_begun =
                  All-append (λ (x : String × EntryInput). Q x.0 × P x.1) r.inputs
                    ((now, input_) ∷ []) r.inputs_begun ((clock_, begun_), tt);
              rows_atomic = inserted_atomic r.inputs s.rows e k now input_ r.rows_atomic last same;
              drafts = λ j.
                  IsWriter-grow s.rows e (get j (delete w s.writers))
                    (delete-IsWriter s.rows w s.writers r.drafts j);
            })
      ]
    where
      number_ : (k : ℕ) → e.seq ≡ 0 + length s.rows → e.seq ≡ k → k ≡ length s.rows
      number_ k a b = omega (arith, a, b)

  reading-IsRun :
      (s : State H) (w : ℕ) (now : String) (o : Option (Writer H))
      → Q now
      → IsRun s
      → IsWriter s.rows o
      → IsRun (reading c w now o s)
  reading-IsRun s w now none clock r mine = r
  reading-IsRun s w now (some (drafted input n at e)) clock r mine = r
  reading-IsRun s w now (some (ready input n)) clock r begun = record {
    inputs = r.inputs;
    inputs_begun = r.inputs_begun;
    rows_atomic = r.rows_atomic;
    drafts =
        set-IsWriter s.rows w (drafted input n now (draft c now input s.rows)) s.writers r.drafts
          (begun, draft-IsDraft s.rows now input clock begun (run-IsChain s r));
  }

  -- P holds of every input whose append begins, and Q of every reading of the clock
  abbrev pub BeginsWith : List Step → Type 0
  BeginsWith [] = Unit
  BeginsWith (begins w input ∷ ts) = P input × BeginsWith ts
  BeginsWith (reads w now ∷ ts) = Q now × BeginsWith ts
  BeginsWith (inserts w ∷ ts) = BeginsWith ts

  step-IsRun : (t : Step) (s : State H) → BeginsWith (t ∷ []) → IsRun s → IsRun (step c t s)
  unfolding step
  step-IsRun (begins w input) s (begun, none_) r = elim (Bool-cases (has w s.writers)) [
    | inl busy ↦ rw busy r
    | inr free ↦ rw free (record {
      inputs = r.inputs;
      inputs_begun = r.inputs_begun;
      rows_atomic = r.rows_atomic;
      drafts = set-IsWriter s.rows w (ready input 0) s.writers r.drafts begun;
    })
  ]
  step-IsRun (reads w now) s (clock, none_) r =
      reading-IsRun s w now (get w s.writers) clock r (r.drafts w)
  step-IsRun (inserts w) s begun r = insertion-IsRun s w (get w s.writers) r (r.drafts w)

  run-IsRun : (ts : List Step) (s : State H) → BeginsWith ts → IsRun s → IsRun (run c ts s)
  unfolding run
  run-IsRun [] s begun r = r
  run-IsRun (begins w input ∷ ts) s (begun, more) r =
      run-IsRun ts (step c (begins w input) s) more (step-IsRun (begins w input) s (begun, tt) r)
  run-IsRun (reads w now ∷ ts) s (clock, more) r =
      run-IsRun ts (step c (reads w now) s) more (step-IsRun (reads w now) s (clock, tt) r)
  run-IsRun (inserts w ∷ ts) s more r =
      run-IsRun ts (step c (inserts w) s) more (step-IsRun (inserts w) s tt r)

  idle-IsRun : IsRun idle
  unfolding get atomic_all
  idle-IsRun = record { inputs = []; inputs_begun = tt; rows_atomic = refl; drafts = λ w. tt }

  -- timestamps that Q and P admit are read back as they were written
  abbrev pub ReadsBack : (String → String) → Type 0
  ReadsBack iso =
      (now : String) (input : EntryInput)
      → Q now
      → P input
      → iso (or_else input.timestamp now) ≡ or_else input.timestamp now

  atomic_all-Reads :
      (iso : String → String) (inputs : List (String × EntryInput)) (es : List (AuditEntry H))
      → ReadsBack iso
      → All (λ x. Q x.0 × P x.1) inputs
      → All (Reads iso) es
      → All (Reads iso) (atomic_all c inputs es)
  unfolding atomic_all atomic seal
  atomic_all-Reads iso [] es back all held = held
  atomic_all-Reads iso ((now, input) ∷ inputs) es back ((clock, begun), all) held =
      atomic_all-Reads iso inputs (atomic c (now, input) es) back all
        (All-append (Reads iso) es _ held (back now input clock begun, tt))

  -- However the appends of several writers interleave, the rows are what an abstract log holds after
  -- atomic appends of some of the inputs, one after another: the entries have consecutive numbers,
  -- each is linked to the one before, and no other input is written. If timestamps come back from
  -- their column as they were written and there are at most 100000 rows, the limit of what `verify`
  -- reads, `verify` accepts them.
  pub run_refines :
      (iso : String → String) (ts : List Step)
      → BeginsWith ts
      → ReadsBack iso
      → length (run c ts idle).rows ≤ 100000
      → (inputs : List (String × EntryInput)) × All (λ x. Q x.0 × P x.1) inputs
        × ((run c ts idle).rows ≡ atomic_all c inputs [])
        × (verify c iso (run c ts idle).rows ≡ valid_after (length (run c ts idle).rows))
  run_refines iso ts begun back few =
      let r = run-IsRun ts idle begun idle-IsRun in
      (
        r.inputs,
        r.inputs_begun,
        r.rows_atomic,
        verify-IsChain c iso (run c ts idle).rows (run-IsChain (run c ts idle) r)
            (subst (All (Reads iso)) (sym r.rows_atomic)
              (atomic_all-Reads iso r.inputs [] back r.inputs_begun tt))
            few,
      )
