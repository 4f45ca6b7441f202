-- ===== src/CloudRuntime/RaceTests.antt =====
-- Two writers that race for the number of the first audit row, and the theorem at them.
use arp.Common.{
  ℕ, ◌≡◌, refl, String, Bool, true, false, Option, none, some, List, [], ◌∷◌, All, Eq, nat_eq,
  length, or_else, string_eq, ◌==◌, if◌then◌else◌, arith,
}
use arp.Audit.{EntryInput, Codec, allow}
use arp.CloudRuntime.PostgresAudit.{Step, begins, reads, inserts, run, verify}
use arp.CloudRuntime.Atomic.{atomic_all}
use arp.CloudRuntime.Verified.{valid_after}
use arp.CloudRuntime.Refines.{idle, run_refines}

-- hashes are numbers, and the hash of an entry counts on from the one before; texts are not used
abbrev codec : Codec ℕ ℕ
codec = record {
  alphabet = record {
    newline = 10;
    is_newline = λ n. true;
    is_space = λ n. false;
    is_newline_lem = refl;
  };
  genesis = 0;
  hash_jcs = λ b. ℕ.suc b.prev_hash;
  stringify = λ e. [];
  parse = λ t. none;
}

abbrev input : String → EntryInput
input id = record {
  msg_id = id;
  decision = allow;
  policies_fired = [];
  obligations = none;
  spend_delta_cents = none;
  reason = none;
  timestamp = none;
}

-- both read the empty table; the second insertion is refused, reads again and gets number 1
abbrev race : List Step
race =
    begins 1 (input "a")
    ∷ begins 2 (input "b")
    ∷ reads 1 "t1"
    ∷ reads 2 "t2"
    ∷ inserts 1
    ∷ inserts 2
    ∷ reads 2 "t3"
    ∷ inserts 2
    ∷ []

two_rows : length (run codec race idle).rows ≡ 2
unfolding run arp.Common.JsMap.get arp.Common.JsMap.set arp.Common.JsMap.delete
two_rows = refl

-- the timestamp is the clock's, whose texts the column gives back
abbrev Unstamped : EntryInput → Type 0
Unstamped i = i.timestamp ≡ none

abbrev iso : String → String
iso t = if t == "t0" then "t1" else t

abbrev IsIso : String → Type 0
IsIso t = iso t ≡ t

iso_kept :
    (now : String) (i : EntryInput)
    → IsIso now
    → Unstamped i
    → iso (or_else i.timestamp now) ≡ or_else i.timestamp now
iso_kept now i clock unstamped = rw unstamped clock

run_refines_example :
    (inputs : List (String × EntryInput)) × All
      (λ (x : String × EntryInput). IsIso x.0 × Unstamped x.1)
      inputs
    × ((run codec race idle).rows ≡ atomic_all codec inputs [])
    × (verify codec iso (run codec race idle).rows
        ≡ valid_after (length (run codec race idle).rows))
run_refines_example =
    run_refines codec IsIso Unstamped iso race (refl, (refl, (refl, (refl, (refl, tt))))) iso_kept
      (rw two_rows (omega arith))
