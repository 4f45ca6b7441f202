-- ===== src/Pairing/Tests.antt =====
-- A signature scheme in which a signature is the key, a proposal countersigned under it, and the
-- theorems at them.
use arp.Common.{
  List, ℕ, ◌≡◌, ◌↔◌, refl, String, true, false, Option, none, some, inl, [], ◌∷◌, string_eq, ◌==◌,
  ==_refl,
}
use arp.Common.JsMap.{JsMap, get, set}
use arp.Spec.{Json, ConnectionToken, FieldTests, token_ok}
use arp.Pairing.{
  Crypto, DidDocument, KeyPair, SignatureEntry, PairingProposal, ok, map_values, value_of,
  payload_from_proposal, project_token, countersign_proposal, sign_bytes, verifies_with,
  verify_connection_token,
}
use arp.Bundle.{
  ScopeTemplate, expand_implications, expand, seeds, pending, index_catalog, children,
  detect_conflicts, note_parent,
}
use arp.Bundle.Params.{resolve_params, walk}
use arp.Bundle.Compile.{Compiled, policy, compile_bundle}
use arp.Pairing.Recompile.{matches_compilation, Recompiled, matches_compilation_lem}
use arp.Pairing.Verify.{SignedBy, IsVerified, verify_connection_token_iff}
use arp.Pairing.Countersign.{IsCrypto, verify-countersign_proposal}

abbrev crypto : Crypto String String String String
crypto = record {
  canonical_bytes = λ p. p.connection_id;
  is_seed = λ k. true;
  sign = λ y k. k;
  verify = λ s y k. s == k;
  encode = λ s. s;
  decode = λ s. some s;
  key_of = λ m. some m;
}

abbrev crypto_laws : IsCrypto crypto
crypto_laws = record {
  public_key = λ k. k;
  verify-sign = λ y k. ==_refl k;
  decode-encode = λ s. refl;
}

abbrev issuer_entry : SignatureEntry
issuer_entry = record { value = "alice_key"; kid = "#key-1"; alg = "EdDSA" }

abbrev proposal : PairingProposal
proposal = record {
  connection_id = "conn_0001";
  issuer = "did:web:alice";
  subject = "did:web:alice.agent";
  audience = "did:web:bob.agent";
  purpose = "notes";
  scope_selections = ("read", none) ∷ [];
  cedar_policies = "permit" ∷ [];
  obligations = [];
  scope_catalog_version = "v1";
  expires_at = "2030-01-01T00:00:00Z";
  replaces = none;
  sigs = ("did:web:alice", issuer_entry) ∷ [];
}

abbrev tests : FieldTests
tests = record { is_connection_id = λ s. true; is_did = λ s. true; is_datetime = λ s. true }

abbrev document : String → String → Option String → DidDocument
document id key principal = record {
  id = id;
  verification_method = record { id = "#key-1"; public_key_multibase = key } ∷ [];
  principal = principal;
}

abbrev resolve : String → Option DidDocument
resolve did = elim (did == "did:web:alice") [
  | true ↦ some (document did "alice_key" none)
  | false ↦ elim (did == "did:web:bob") [
    | true ↦ some (document did "bob_key" none)
    | false ↦ some (document did "agent_key" (some "did:web:bob"))
  ]
]

abbrev bob_key : KeyPair String
bob_key = record { private_key = "bob_key"; kid = "#key-1" }

abbrev parse_date : String → Option ℕ
parse_date s = some 9000

abbrev bob_entry : SignatureEntry
bob_entry = record { value = "bob_key"; kid = "#key-1"; alg = "EdDSA" }

abbrev both : JsMap String SignatureEntry
both = ("did:web:alice", issuer_entry) ∷ ("did:web:bob", bob_entry) ∷ []

abbrev token : ConnectionToken
token = project_token proposal both

abbrev signed : PairingProposal
signed = record proposal { sigs = both }

countersigns :
    countersign_proposal crypto tests (λ p. true) proposal bob_key "did:web:bob"
    ≡ some (token, signed)
unfolding countersign_proposal sign_bytes set token_ok project_token
countersigns = refl

issuer_signed :
    SignedBy crypto resolve
      (map_values value_of proposal.sigs)
      (crypto.canonical_bytes (payload_from_proposal proposal))
      proposal.issuer
unfolding get verifies_with
issuer_signed = record {
  value = "alice_key";
  doc = document "did:web:alice" "alice_key" none;
  sig = "alice_key";
  given = refl;
  resolved = refl;
  decoded = refl;
  verified = refl;
}

verify-countersign_proposal_example :
    verify_connection_token crypto resolve parse_date 5000 false token ≡ ok
verify-countersign_proposal_example =
    verify-countersign_proposal crypto crypto_laws resolve parse_date 5000 tests (λ p. true)
      proposal bob_key "did:web:bob" token signed
      (document "did:web:bob.agent" "agent_key" (some "did:web:bob"))
      (document "did:web:bob" "bob_key" none) countersigns refl refl refl refl refl (inl refl)
      issuer_signed

verify_connection_token_iff_example :
    (verify_connection_token crypto resolve parse_date 5000 false token ≡ ok)
    ↔ IsVerified crypto resolve parse_date 5000 false token
verify_connection_token_iff_example =
    verify_connection_token_iff crypto resolve parse_date 5000 false token

abbrev scopes : List (ScopeTemplate String)
scopes =
    record {
      id = "read";
      implies = [];
      conflicts_with = [];
      obligations_forced = [];
      body = "permit";
    }
    ∷ []

abbrev permit : ScopeTemplate String → String → JsMap String Json → Compiled String
permit s audience params = policy s.body

recompiled :
    countersign_proposal crypto tests
      (matches_compilation permit scopes)
      proposal
      bob_key
      "did:web:bob"
    ≡ some (token, signed)
unfolding countersign_proposal sign_bytes set token_ok project_token matches_compilation
    compile_bundle expand_implications expand seeds pending index_catalog get children
    detect_conflicts resolve_params walk note_parent
recompiled = refl

matches_compilation_lem_example : Recompiled permit scopes proposal token
matches_compilation_lem_example =
    matches_compilation_lem permit crypto tests scopes proposal bob_key "did:web:bob" token signed
      recompiled
