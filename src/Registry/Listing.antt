-- ===== src/Registry/Listing.antt =====
-- `listConnections` of packages/registry/src/registry.ts: which rows it shows, and in which order.
use arp.Common.{
  ℕ, ◌+◌, ◌≤◌, ◌≡◌, refl, ◌∙◌, Bool, ◌&&◌, ◌||◌, inl, inr, Bool-cases, List, [], ◌∷◌, arith,
  string_eq, if◌then◌else◌, leb, keep, any,
}
use arp.Registry.{
  ConnectionRecord, Registry, ConnectionFilter, matches_peer, matches_status, unexpired,
  insert_newest, newest_first, list_connections, listed_rows, unreadable, unreadable_token, done,
  failed,
}

-- how many rows of a list satisfy a test
abbrev pub count : (ConnectionRecord → Bool) → List ConnectionRecord → ℕ
count p [] = 0
count p (r ∷ rows) = (if p r then 1 else 0) + count p rows

count-keep :
    (p q : ConnectionRecord → Bool) (rows : List ConnectionRecord)
    → count p (keep q rows) ≡ count (λ r. p r && q r) rows
count-keep p q [] = refl
count-keep p q (r ∷ rows) = ground (arith, count-keep p q rows)

count-insert_newest :
    (p : ConnectionRecord → Bool) (r : ConnectionRecord) (rows : List ConnectionRecord)
    → count p (insert_newest r rows) ≡ (if p r then 1 else 0) + count p rows
unfolding insert_newest
count-insert_newest p r [] = refl
count-insert_newest p r (s ∷ rows) = ground (arith, count-insert_newest p r rows)

count-newest_first :
    (p : ConnectionRecord → Bool) (rows : List ConnectionRecord)
    → count p (newest_first rows) ≡ count p rows
unfolding newest_first
count-newest_first p [] = refl
count-newest_first p (r ∷ rows) =
    omega (arith, count-insert_newest p r (newest_first rows), count-newest_first p rows)

-- every row of a list is at most as new as a time
abbrev pub UpTo : ℕ → List ConnectionRecord → Type 0
UpTo t [] = Unit
UpTo t (r ∷ rows) = (r.created_at ≤ t) × UpTo t rows

-- each row is followed only by rows that are not newer
abbrev pub NewestFirst : List ConnectionRecord → Type 0
NewestFirst [] = Unit
NewestFirst (r ∷ rows) = UpTo r.created_at rows × NewestFirst rows

UpTo-mono : (t u : ℕ) (rows : List ConnectionRecord) → t ≤ u → UpTo t rows → UpTo u rows
UpTo-mono t u [] le h = tt
UpTo-mono t u (r ∷ rows) le (m, h) = (omega (arith, le, m), UpTo-mono t u rows le h)

UpTo-insert :
    (t : ℕ) (r : ConnectionRecord) (rows : List ConnectionRecord)
    → r.created_at ≤ t
    → UpTo t rows
    → UpTo t (insert_newest r rows)
unfolding insert_newest
UpTo-insert t r [] le h = (le, tt)
UpTo-insert t r (s ∷ rows) le (m, h) = elim (Bool-cases (leb s.created_at r.created_at)) [
  | inl before ↦ rw before (le, (m, h))
  | inr after ↦ rw after (m, UpTo-insert t r rows le h)
]

NewestFirst-insert :
    (r : ConnectionRecord) (rows : List ConnectionRecord)
    → NewestFirst rows
    → NewestFirst (insert_newest r rows)
unfolding insert_newest
NewestFirst-insert r [] h = (tt, tt)
NewestFirst-insert r (s ∷ rows) (u, h) = elim (Bool-cases (leb s.created_at r.created_at)) [
  | inl before ↦
      let le : s.created_at ≤ r.created_at = ground arith in
      rw before ((le, UpTo-mono s.created_at r.created_at rows le u), (u, h))
  | inr after ↦
      rw after (UpTo-insert s.created_at r rows (ground arith) u, NewestFirst-insert r rows h)
]

newest_first-NewestFirst : (rows : List ConnectionRecord) → NewestFirst (newest_first rows)
unfolding newest_first
newest_first-NewestFirst [] = tt
newest_first-NewestFirst (r ∷ rows) =
    NewestFirst-insert r (newest_first rows) (newest_first-NewestFirst rows)

UpTo-keep :
    (t : ℕ) (p : ConnectionRecord → Bool) (rows : List ConnectionRecord)
    → UpTo t rows
    → UpTo t (keep p rows)
UpTo-keep t p [] h = tt
UpTo-keep t p (r ∷ rows) (m, h) = elim (Bool-cases (p r)) [
  | inl kept ↦ rw kept (m, UpTo-keep t p rows h)
  | inr left ↦ rw left (UpTo-keep t p rows h)
]

NewestFirst-keep :
    (p : ConnectionRecord → Bool) (rows : List ConnectionRecord)
    → NewestFirst rows
    → NewestFirst (keep p rows)
NewestFirst-keep p [] h = tt
NewestFirst-keep p (r ∷ rows) (u, h) = elim (Bool-cases (p r)) [
  | inl kept ↦ rw kept (UpTo-keep r.created_at p rows u, NewestFirst-keep p rows h)
  | inr left ↦ rw left (NewestFirst-keep p rows h)
]

-- whether the list of a filter shows a row
abbrev pub shown : ℕ → ConnectionFilter → ConnectionRecord → Bool
shown now filter r =
    matches_peer filter.peer_did r
    && matches_status filter.status r
    && (filter.include_expired || unexpired now r)

-- the rows of a list, before they are parsed
listed_rows_lem :
    (now : ℕ) (filter : ConnectionFilter) (g : Registry)
    → ((p : ConnectionRecord → Bool)
        → count p (listed_rows now filter g) ≡ count (λ r. p r && shown now filter r) g.connections)
      × NewestFirst (listed_rows now filter g)
unfolding listed_rows
listed_rows_lem now filter g = elim (Bool-cases filter.include_expired) [
  | inl all ↦
      rw (all, listed_rows)
        (
          λ p.
              count-newest_first p (keep asked g.connections)
              ∙ count-keep p asked g.connections
              ∙ count_ext (λ r. p r && asked r) _ g.connections (λ r. ground (arith, all)),
          newest_first-NewestFirst (keep asked g.connections),
        )
  | inr some_only ↦
      rw (some_only, listed_rows)
        (
          λ p.
              count-keep p (unexpired now) (newest_first (keep asked g.connections))
              ∙ count-newest_first _ (keep asked g.connections)
              ∙ count-keep _ asked g.connections
              ∙ count_ext (λ r. (p r && unexpired now r) && asked r) _ g.connections
                  (λ r. ground (arith, some_only)),
          NewestFirst-keep (unexpired now) _ (newest_first-NewestFirst (keep asked g.connections)),
        )
]
  where
    asked : ConnectionRecord → Bool
    asked r = matches_peer filter.peer_did r && matches_status filter.status r

    count_ext :
        (p q : ConnectionRecord → Bool) (rows : List ConnectionRecord)
        → ((r : ConnectionRecord) → p r ≡ q r)
        → count p rows ≡ count q rows
    count_ext p q [] same = refl
    count_ext p q (r ∷ rows) same = ground (arith, same r, count_ext p q rows same)

-- A list of connections shows each stored row that its filter asks for as often as it is stored
-- (expired rows only on demand), no other row, and the newest first; if the token of one of these
-- rows does not parse, the call throws.
pub list_connections_lem :
    (now : ℕ) (filter : ConnectionFilter) (g : Registry)
    → (rows : List ConnectionRecord) × ((p : ConnectionRecord → Bool)
        → count p rows ≡ count (λ r. p r && shown now filter r) g.connections)
      × NewestFirst rows
      × (list_connections now filter g
          ≡ (if any unreadable rows then failed unreadable_token else done rows))
unfolding list_connections
list_connections_lem now filter g =
    let (counts, newest) = listed_rows_lem now filter g in
    (listed_rows now filter g, counts, newest, refl)
