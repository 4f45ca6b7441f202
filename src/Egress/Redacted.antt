-- ===== src/Egress/Redacted.antt =====
-- What a redaction in packages/sdk/src/obligations.ts removes stays removed.
use arp.Common.{
  ◌≡◌, refl, ◌∙◌, ap, String, Bool, true, false, ◌||◌, List, [], ◌∷◌, ◌++◌, includes, All,
  string_eq, ◌==◌, arith, inl, inr, Bool-cases,
}
use arp.Text.{split}
use arp.Spec.{Json, Obligation}
use arp.Message.{find_member}
use arp.Egress.{Services, delete_path, redact_fields, string_array, apply_one, apply_obligations}
use arp.Egress.Paths.{has_path}
use arp.Egress.Absent.{delete_path_removes, delete_path_keeps, redact_fields_except_keeps}

redact_fields_keeps :
    (fields p : List String) (j : Json)
    → has_path p j ≡ false
    → has_path p (redact_fields fields j) ≡ false
unfolding redact_fields
redact_fields_keeps [] p j h = h
redact_fields_keeps (f ∷ fs) p j h =
    redact_fields_keeps fs p (delete_path (split b'.' f) j) (delete_path_keeps (split b'.' f) p j h)

redact_fields_removes :
    (fields : List String) (f : String) (j : Json)
    → includes fields f ≡ true
    → has_path (split b'.' f) (redact_fields fields j) ≡ false
unfolding redact_fields
redact_fields_removes [] f j named = cc
redact_fields_removes (g ∷ fs) f j named = elim (Bool-cases (g == f)) [
  | inl same ↦
      redact_fields_keeps fs (split b'.' f) (delete_path (split b'.' g) j)
        (rw ((string_eq.agrees_iff g f).0 same) (delete_path_removes (split b'.' f) j))
  | inr other ↦ redact_fields_removes fs f (delete_path (split b'.' g) j) (rw other at named)
]

-- the types that put something into the payload, or texts in place of it
abbrev pub adds : String → Bool
adds type =
    type == "redact_regex"
    || type == "summarize_only"
    || type == "aggregate_only"
    || type == "insert_watermark"
    || type == "no_downstream_share"

module _ (s : Services) where
  apply_one_keeps :
      (o : Obligation) (p : List String) (j : Json)
      → adds o.type ≡ false
      → has_path p j ≡ false
      → has_path p (apply_one s o j) ≡ false
  unfolding apply_one
  apply_one_keeps o p j plain h = ground (
    arith,
    redact_fields_keeps (string_array (find_member "fields" o.params)) p j h,
    redact_fields_except_keeps (string_array (find_member "fields" o.params)) p j h,
  )

  apply_obligations_keeps :
      (os : List Obligation) (p : List String) (j : Json)
      → All (λ o. adds o.type ≡ false) os
      → has_path p j ≡ false
      → has_path p (apply_obligations s os j) ≡ false
  unfolding apply_obligations
  apply_obligations_keeps [] p j plain h = h
  apply_obligations_keeps (o ∷ os) p j (first, plain) h =
      apply_obligations_keeps os p (apply_one s o j) plain (apply_one_keeps o p j first h)

  apply_obligations-append :
      (os ps : List Obligation) (j : Json)
      → apply_obligations s (os ++ ps) j ≡ apply_obligations s ps (apply_obligations s os j)
  unfolding apply_obligations
  apply_obligations-append [] ps j = refl
  apply_obligations-append (o ∷ os) ps j = apply_obligations-append os ps (apply_one s o j)

  -- A field that an obligation redact_fields names is not in the payload that leaves, at a path of
  -- objects, each the value of a field or an item of an array that is the value of a field: whatever
  -- obligations come before it, and after it those that redact fields, are enforced elsewhere or are
  -- unknown, no value stands at such a path. (The code enters no other array: neither a payload that
  -- is itself one nor an array inside an array.)
  pub redacted_field_absent :
      (before after : List Obligation) (o : Obligation) (field : String) (payload : Json)
      → o.type ≡ "redact_fields"
      → includes (string_array (find_member "fields" o.params)) field ≡ true
      → All (λ o. adds o.type ≡ false) after
      → has_path (split b'.' field) (apply_obligations s (before ++ o ∷ after) payload) ≡ false
  unfolding apply_obligations apply_one
  redacted_field_absent before after o field payload is_redaction named plain =
      ap (has_path (split b'.' field)) (apply_obligations-append before (o ∷ after) payload)
      ∙ apply_obligations_keeps after (split b'.' field)
          (apply_one s o (apply_obligations s before payload)) plain
          (rw is_redaction (
            redact_fields_removes (string_array (find_member "fields" o.params)) field
              (apply_obligations s before payload) named))
