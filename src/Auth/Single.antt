-- ===== src/Auth/Single.antt =====
-- A challenge of packages/runtime/src/auth-store.ts is consumed at most once.
use mathlib.Core.Bool.{false≢true}
use arp.Common.{
  ℕ, ◌≡◌, ◌≢◌, refl, Bool, true, false, String, Option, none, some, Bool-cases, Option-cases, inl,
  inr, List, [], ◌∷◌, arith, string_eq, ◌==◌, ◌&&◌, ltb,
}
use arp.Auth.{
  WebauthnPurpose, register, auth, Challenge, Challenges, Table, table, with_table, store, sweep,
  usable, persist_challenge, consume_challenge,
}

-- a row, if there is one, that was consumed
abbrev pub IsSpent : Option Challenge → Type 0
IsSpent none = Unit
IsSpent (some c) = c.consumed_at ≢ none

abbrev pub Spent : String → WebauthnPurpose → Challenges → Type 0
Spent challenge purpose cs = IsSpent ((table purpose cs) challenge)

-- the calls on challenges, with the clock's reading
pub data Call : Type 0 where
  persist : ℕ → Bool → String → WebauthnPurpose → Call
  consume : ℕ → String → WebauthnPurpose → Call

abbrev same_purpose : WebauthnPurpose → WebauthnPurpose → Bool
same_purpose register register = true
same_purpose auth auth = true
same_purpose _ _ = false

-- whether a call stores the challenge anew
abbrev pub renews : String → WebauthnPurpose → Call → Bool
renews challenge purpose (persist now swept c p) = (c == challenge) && same_purpose p purpose
renews challenge purpose (consume now c p) = false

unfoldable pub perform : Call → Challenges → Challenges
perform (persist now swept c p) cs = persist_challenge now swept c p cs
perform (consume now c p) cs = (consume_challenge now c p cs).0

unfoldable pub perform_all : List Call → Challenges → Challenges
perform_all [] cs = cs
perform_all (c ∷ rest) cs = perform_all rest (perform c cs)

sweep-IsSpent : (cutoff : ℕ) (k : String) (t : Table) → IsSpent (t k) → IsSpent (sweep cutoff t k)
unfolding sweep
sweep-IsSpent cutoff k t h = elim (Option-cases (t k)) [
  | inl absent ↦ rw (absent, sweep) tt
  | inr (c, found) ↦ elim (Bool-cases (ltb c.expires_at cutoff)) [
    | inl old ↦ rw (found, old, sweep) tt
    | inr kept ↦ rw (found, kept, sweep) (rw found at h)
  ]
]

store-IsSpent :
    (k j : String) (c : Challenge) (t : Table)
    → (j == k) ≡ false
    → IsSpent (t k)
    → IsSpent (store j c t k)
store-IsSpent k j c t other h = rw other h

Spent-with_table_same :
    (k : String) (p : WebauthnPurpose) (t : Table) (cs : Challenges)
    → IsSpent (t k)
    → Spent k p (with_table p t cs)
Spent-with_table_same k register t cs h = h
Spent-with_table_same k auth t cs h = h

Spent-with_table_other :
    (k : String) (p q : WebauthnPurpose) (t : Table) (cs : Challenges)
    → same_purpose q p ≡ false
    → Spent k p cs
    → Spent k p (with_table q t cs)
Spent-with_table_other k register register t cs n h = cc
Spent-with_table_other k register auth t cs n h = h
Spent-with_table_other k auth register t cs n h = h
Spent-with_table_other k auth auth t cs n h = cc

same_purpose_eq : (p q : WebauthnPurpose) → same_purpose p q ≡ true → p ≡ q
same_purpose_eq register register h = refl
same_purpose_eq register auth h = cc
same_purpose_eq auth register h = cc
same_purpose_eq auth auth h = refl

-- storing a challenge of another text or purpose
stored_keeps :
    (k j : String) (p q : WebauthnPurpose) (c : Challenge) (cs : Challenges)
    → ((j == k) && same_purpose q p) ≡ false
    → Spent k p cs
    → Spent k p (with_table q (store j c (table q cs)) cs)
stored_keeps k j p q c cs n h = elim (Bool-cases (same_purpose q p)) [
  | inr apart ↦ Spent-with_table_other k p q _ cs apart h
  | inl same ↦
      let here = same_purpose_eq q p same in
      rw here (Spent-with_table_same k p _ cs (store-IsSpent k j c (table p cs) (ground arith) h))
]

sweep_keeps :
    (cutoff : ℕ) (k : String) (p : WebauthnPurpose) (cs : Challenges)
    → Spent k p cs
    → Spent k p (record {
      registering = sweep cutoff cs.registering;
      signing_in = sweep cutoff cs.signing_in;
    })
sweep_keeps cutoff k register cs h = sweep-IsSpent cutoff k cs.registering h
sweep_keeps cutoff k auth cs h = sweep-IsSpent cutoff k cs.signing_in h

some≢none : {A : Type 0} {a : A} → some a ≢ none
some≢none h = cc

-- a consumed challenge is spent
consumed-Spent :
    (now : ℕ) (k c : String) (p q : WebauthnPurpose) (row : Challenge) (cs : Challenges)
    → (c == k) ≡ true
    → same_purpose q p ≡ true
    → Spent k p (with_table q (store c (record row { consumed_at = some now }) (table q cs)) cs)
consumed-Spent now k c p q row cs same_text same_use =
    rw (same_purpose_eq q p same_use) (Spent-with_table_same k p _ cs (rw same_text some≢none))

perform-Spent :
    (k : String) (p : WebauthnPurpose) (call : Call) (cs : Challenges)
    → renews k p call ≡ false
    → Spent k p cs
    → Spent k p (perform call cs)
unfolding perform persist_challenge consume_challenge
perform-Spent k p (persist now true c q) cs n h =
    sweep_keeps _ k p _ (stored_keeps k c p q _ cs n h)
perform-Spent k p (persist now false c q) cs n h = stored_keeps k c p q _ cs n h
perform-Spent k p (consume now c q) cs n h = elim (Option-cases (table q cs c)) [
  | inl absent ↦ rw (absent, perform, consume_challenge) h
  | inr (row, found) ↦ elim (Bool-cases (usable now row)) [
    | inr unusable ↦ rw (found, unusable, perform, consume_challenge) h
    | inl good ↦ rw (found, good, perform, consume_challenge) (marked row found)
  ]
]
  where
    marked :
        (row : Challenge)
        → table q cs c ≡ some row
        → Spent k p (with_table q (store c (record row { consumed_at = some now }) (table q cs)) cs)
    marked row found = elim (Bool-cases ((c == k) && same_purpose q p)) [
      | inr apart ↦ stored_keeps k c p q _ cs apart h
      | inl same ↦ consumed-Spent now k c p q row cs (ground arith) (ground arith)
    ]

-- a list of calls that store the challenge never again
abbrev pub NeverRenewed : String → WebauthnPurpose → List Call → Type 0
NeverRenewed k p [] = Unit
NeverRenewed k p (c ∷ calls) = (renews k p c ≡ false) × NeverRenewed k p calls

perform_all-Spent :
    (k : String) (p : WebauthnPurpose) (calls : List Call) (cs : Challenges)
    → NeverRenewed k p calls
    → Spent k p cs
    → Spent k p (perform_all calls cs)
unfolding perform_all
perform_all-Spent k p [] cs n h = h
perform_all-Spent k p (c ∷ calls) cs (n, ns) h =
    perform_all-Spent k p calls (perform c cs) ns (perform-Spent k p c cs n h)

Spent-refused :
    (now : ℕ) (k : String) (p : WebauthnPurpose) (cs : Challenges)
    → Spent k p cs
    → (consume_challenge now k p cs).1 ≡ false
unfolding consume_challenge
Spent-refused now k p cs h = elim (Option-cases (table p cs k)) [
  | inl absent ↦ rw (absent, consume_challenge)
  | inr (row, found) ↦ elim (Bool-cases (usable now row)) [
    | inr unusable ↦ rw (found, unusable, consume_challenge)
    | inl good ↦ absurd (used row good (rw found at h))
  ]
]
  where
    used : (row : Challenge) → usable now row ≡ true → row.consumed_at ≢ none → ⊥
    used row good spent = elim (Option-cases row.consumed_at) [
      | inl open_ ↦ spent open_
      | inr (t, taken) ↦ absurd (false≢true (rw taken at good))
    ]

left-Spent :
    (now : ℕ) (k : String) (p : WebauthnPurpose) (cs : Challenges)
    → (consume_challenge now k p cs).1 ≡ true
    → Spent k p (consume_challenge now k p cs).0
unfolding consume_challenge
left-Spent now k p cs taken = elim (Option-cases (table p cs k)) [
  | inl absent ↦ absurd (false≢true (rw (absent, consume_challenge) at taken))
  | inr (row, found) ↦ elim (Bool-cases (usable now row)) [
    | inr unusable ↦ absurd (false≢true (rw (found, unusable, consume_challenge) at taken))
    | inl good ↦
        rw (found, good, consume_challenge)
          (consumed-Spent now k k p p row cs ((string_eq.agrees_iff k k).1 refl)
            (same_purpose_refl p))
  ]
]
  where
    same_purpose_refl : (p : WebauthnPurpose) → same_purpose p p ≡ true
    same_purpose_refl register = refl
    same_purpose_refl auth = refl

-- A challenge that was consumed once is refused from then on, at any time and whatever else is
-- persisted, swept or consumed, until it is itself persisted again for the same purpose.
pub consume_challenge_once :
    (now later : ℕ) (k : String) (p : WebauthnPurpose) (calls : List Call) (cs : Challenges)
    → (consume_challenge now k p cs).1 ≡ true
    → NeverRenewed k p calls
    → (consume_challenge later k p (perform_all calls (consume_challenge now k p cs).0)).1 ≡ false
consume_challenge_once now later k p calls cs taken never =
    Spent-refused later k p _ (perform_all-Spent k p calls _ never (left-Spent now k p cs taken))
