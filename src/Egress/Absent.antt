-- ===== src/Egress/Absent.antt =====
-- Paths in a payload (packages/sdk/src/obligations.ts): what deleting one path leaves of another.
use arp.Common.{
  ◌≡◌, refl, ◌∙◌, ap, String, Bool, false, Option, none, some, is_some, List, [], ◌∷◌, includes,
  string_eq, ==_refl, ◌==◌, arith, inl, inr, Bool-cases,
}
use arp.Spec.{Json, null, num, str, arr, obj, Items, nil, cons, Members, end}
use arp.Message.{find_member}
use arp.Egress.Paths.{
  any_item, within, found, on_object, has_at, has_path, find-delete, map_option, find-update,
  find-keep,
}
use arp.Egress.{
  delete_member, update_member, map_items, through, in_object, delete_at, delete_path, keep_members,
  redact_fields_except,
}

-- what f does not bring about, where the test fails before
abbrev Keeps : (Members → Bool) → (Members → Members) → Type 0
Keeps test f = (ms : Members) → test ms ≡ false → test (f ms) ≡ false

-- what f removes
abbrev Removes : (Members → Bool) → (Members → Members) → Type 0
Removes test f = (ms : Members) → test (f ms) ≡ false

items_keep :
    (test : Members → Bool) (f : Members → Members) (js : Items)
    → Keeps test f
    → any_item (on_object test) js ≡ false
    → any_item (on_object test) (map_items (in_object f) js) ≡ false
unfolding any_item map_items
items_keep test f nil k h = refl
items_keep test f (cons (obj ms) js) k h = ground (arith, k ms, items_keep test f js k)
items_keep test f (cons null js) k h = items_keep test f js k h
items_keep test f (cons (Json.bool b) js) k h = items_keep test f js k h
items_keep test f (cons (num n) js) k h = items_keep test f js k h
items_keep test f (cons (str t) js) k h = items_keep test f js k h
items_keep test f (cons (arr is) js) k h = items_keep test f js k h

items_remove :
    (test : Members → Bool) (f : Members → Members) (js : Items)
    → Removes test f
    → any_item (on_object test) (map_items (in_object f) js) ≡ false
unfolding any_item map_items
items_remove test f nil r = refl
items_remove test f (cons (obj ms) js) r = ground (arith, r ms, items_remove test f js r)
items_remove test f (cons null js) r = items_remove test f js r
items_remove test f (cons (Json.bool b) js) r = items_remove test f js r
items_remove test f (cons (num n) js) r = items_remove test f js r
items_remove test f (cons (str t) js) r = items_remove test f js r
items_remove test f (cons (arr is) js) r = items_remove test f js r

found_keep :
    (test : Members → Bool) (f : Members → Members) (o : Option Json)
    → Keeps test f
    → found (within (on_object test)) o ≡ false
    → found (within (on_object test)) (map_option (through (in_object f)) o) ≡ false
found_keep test f none k h = refl
found_keep test f (some (arr js)) k h = items_keep test f js k h
found_keep test f (some (obj ms)) k h = k ms h
found_keep test f (some null) k h = refl
found_keep test f (some (Json.bool b)) k h = refl
found_keep test f (some (num n)) k h = refl
found_keep test f (some (str t)) k h = refl

found_remove :
    (test : Members → Bool) (f : Members → Members) (o : Option Json)
    → Removes test f
    → found (within (on_object test)) (map_option (through (in_object f)) o) ≡ false
found_remove test f none r = refl
found_remove test f (some (arr js)) r = items_remove test f js r
found_remove test f (some (obj ms)) r = r ms
found_remove test f (some null) r = refl
found_remove test f (some (Json.bool b)) r = refl
found_remove test f (some (num n)) r = refl
found_remove test f (some (str t)) r = refl

find-update_same :
    (k : String) (f : Json → Json) (ms : Members)
    → find_member k (update_member k f ms) ≡ map_option f (find_member k ms)
find-update_same k f ms = find-update k k f ms ∙ rw (==_refl k) refl

-- a path that is deleted leads nowhere
delete_at-Removes : (p : List String) → Removes (has_at p) (delete_at p)
unfolding has_at delete_at
delete_at-Removes [] ms = refl
delete_at-Removes (h ∷ []) ms =
    ap is_some (find-delete h h ms) ∙ ground (arith, string_eq.agrees_iff h h)
delete_at-Removes (h ∷ g ∷ rest) ms =
    ap (found (within (on_object (has_at (g ∷ rest)))))
      (find-update_same h (through (in_object (delete_at (g ∷ rest)))) ms)
    ∙ found_remove (has_at (g ∷ rest)) (delete_at (g ∷ rest)) (find_member h ms)
        (delete_at-Removes (g ∷ rest))

is_some-map_option : (f : Json → Json) (o : Option Json) → is_some (map_option f o) ≡ is_some o
is_some-map_option f none = refl
is_some-map_option f (some v) = refl

-- a test on the member of one key, after the members were deleted or updated at another
module _ (test : Option Json → Bool) (empty : test none ≡ false) where
  found-delete :
      (k h : String) (ms : Members)
      → test (find_member k ms) ≡ false
      → test (find_member k (delete_member h ms)) ≡ false
  found-delete k h ms absent = elim (Bool-cases (h == k)) [
    | inl same ↦ ap test (find-delete k h ms) ∙ rw same empty
    | inr other ↦ ap test (find-delete k h ms) ∙ rw other absent
  ]

  found-update :
      (k h : String) (f : Json → Json) (ms : Members)
      → ((o : Option Json) → test o ≡ false → test (map_option f o) ≡ false)
      → test (find_member k ms) ≡ false
      → test (find_member k (update_member h f ms)) ≡ false
  found-update k h f ms keeps absent = elim (Bool-cases (h == k)) [
    | inl same ↦ ap test (find-update k h f ms) ∙ rw same (keeps (find_member k ms) absent)
    | inr other ↦ ap test (find-update k h f ms) ∙ rw other absent
  ]

  found-keep :
      (k : String) (fields : List String) (ms : Members)
      → test (find_member k ms) ≡ false
      → test (find_member k (keep_members fields ms)) ≡ false
  found-keep k fields ms absent = elim (Bool-cases (includes fields k)) [
    | inl kept ↦ ap test (find-keep k fields ms) ∙ rw kept absent
    | inr gone ↦ ap test (find-keep k fields ms) ∙ rw gone empty
  ]

-- a path that leads nowhere does so after another is deleted
delete_at-Keeps : (q p : List String) → Keeps (has_at p) (delete_at q)
unfolding has_at delete_at
delete_at-Keeps [] p ms absent = absent
delete_at-Keeps (h ∷ q) [] ms absent = refl
delete_at-Keeps (h ∷ []) (k ∷ []) ms absent = found-delete is_some refl k h ms absent
delete_at-Keeps (h ∷ []) (k ∷ c ∷ rest) ms absent =
    found-delete (found (within (on_object (has_at (c ∷ rest))))) refl k h ms absent
delete_at-Keeps (h ∷ g ∷ q) (k ∷ []) ms absent =
    found-update is_some refl k h (through (in_object (delete_at (g ∷ q)))) ms
      (λ o a. is_some-map_option (through (in_object (delete_at (g ∷ q)))) o ∙ a) absent
delete_at-Keeps (h ∷ g ∷ q) (k ∷ c ∷ rest) ms absent =
    found-update (found (within (on_object (has_at (c ∷ rest))))) refl k h
      (through (in_object (delete_at (g ∷ q)))) ms
      (λ o.
        found_keep (has_at (c ∷ rest)) (delete_at (g ∷ q)) o (delete_at-Keeps (g ∷ q) (c ∷ rest)))
      absent

keep_members-Keeps : (p fields : List String) → Keeps (has_at p) (keep_members fields)
unfolding has_at
keep_members-Keeps [] fields ms absent = refl
keep_members-Keeps (k ∷ []) fields ms absent = found-keep is_some refl k fields ms absent
keep_members-Keeps (k ∷ c ∷ rest) fields ms absent =
    found-keep (found (within (on_object (has_at (c ∷ rest))))) refl k fields ms absent

pub delete_path_removes : (p : List String) (j : Json) → has_path p (delete_path p j) ≡ false
delete_path_removes p (obj ms) = delete_at-Removes p ms
delete_path_removes p null = refl
delete_path_removes p (Json.bool b) = refl
delete_path_removes p (num n) = refl
delete_path_removes p (str t) = refl
delete_path_removes p (arr js) = refl

pub delete_path_keeps :
    (q p : List String) (j : Json) → has_path p j ≡ false → has_path p (delete_path q j) ≡ false
delete_path_keeps q p (obj ms) h = delete_at-Keeps q p ms h
delete_path_keeps q p null h = refl
delete_path_keeps q p (Json.bool b) h = refl
delete_path_keeps q p (num n) h = refl
delete_path_keeps q p (str t) h = refl
delete_path_keeps q p (arr js) h = refl

empty_object : (p : List String) → has_at p end ≡ false
unfolding has_at
empty_object [] = refl
empty_object (k ∷ []) = refl
empty_object (k ∷ c ∷ rest) = refl

pub redact_fields_except_keeps :
    (fields p : List String) (j : Json)
    → has_path p j ≡ false
    → has_path p (redact_fields_except fields j) ≡ false
unfolding redact_fields_except
redact_fields_except_keeps [] p (obj ms) h = empty_object p
redact_fields_except_keeps (f ∷ fs) p (obj ms) h = keep_members-Keeps p (f ∷ fs) ms h
redact_fields_except_keeps [] p null h = refl
redact_fields_except_keeps (f ∷ fs) p null h = refl
redact_fields_except_keeps [] p (Json.bool b) h = refl
redact_fields_except_keeps (f ∷ fs) p (Json.bool b) h = refl
redact_fields_except_keeps [] p (num n) h = refl
redact_fields_except_keeps (f ∷ fs) p (num n) h = refl
redact_fields_except_keeps [] p (str t) h = refl
redact_fields_except_keeps (f ∷ fs) p (str t) h = refl
redact_fields_except_keeps [] p (arr js) h = refl
redact_fields_except_keeps (f ∷ fs) p (arr js) h = refl
