-- ===== src/CloudRuntime/Oldest.antt =====
-- The order in which packages/cloud-db/src/tenant-db.ts claims the queued messages of an agent.
use arp.Common.{
  ℕ, ◌≤◌, ◌≡◌, refl, inl, inr, Bool, Bool-cases, List, [], ◌∷◌, arith, keep, length, leb,
}
use arp.CloudDb.Rows.{MessageRow}
use arp.CloudDb.Order.{order_by, insert_ordered}
use arp.CloudDb.Messages.{older_first}

-- every row of a list is at least as new as a time
abbrev pub Since : ℕ → List MessageRow → Type 0
Since t [] = Unit
Since t (r ∷ rows) = (t ≤ r.created_at) × Since t rows

-- each row is followed only by rows that are not older
abbrev pub OldestFirst : List MessageRow → Type 0
OldestFirst [] = Unit
OldestFirst (r ∷ rows) = Since r.created_at rows × OldestFirst rows

Since-mono : (t u : ℕ) (rows : List MessageRow) → u ≤ t → Since t rows → Since u rows
Since-mono t u [] le h = tt
Since-mono t u (r ∷ rows) le (m, h) = (omega (arith, le, m), Since-mono t u rows le h)

Since-insert :
    (t : ℕ) (r : MessageRow) (rows : List MessageRow)
    → t ≤ r.created_at
    → Since t rows
    → Since t (insert_ordered older_first r rows)
unfolding insert_ordered
Since-insert t r [] le h = (le, tt)
Since-insert t r (s ∷ rows) le (m, h) = elim (Bool-cases (leb r.created_at s.created_at)) [
  | inl before ↦ rw before (le, (m, h))
  | inr after ↦ rw after (m, Since-insert t r rows le h)
]

insert-OldestFirst :
    (r : MessageRow) (rows : List MessageRow)
    → OldestFirst rows
    → OldestFirst (insert_ordered older_first r rows)
unfolding insert_ordered
insert-OldestFirst r [] h = (tt, tt)
insert-OldestFirst r (s ∷ rows) (since, h) = elim (Bool-cases (leb r.created_at s.created_at)) [
  | inl before ↦
      let le : r.created_at ≤ s.created_at = ground arith in
      rw before ((le, Since-mono s.created_at r.created_at rows le since), (since, h))
  | inr after ↦
      let le : s.created_at ≤ r.created_at = ground arith in
      rw after (Since-insert s.created_at r rows le since, insert-OldestFirst r rows h)
]

pub order_by-OldestFirst : (rows : List MessageRow) → OldestFirst (order_by older_first rows)
unfolding order_by
order_by-OldestFirst [] = tt
order_by-OldestFirst (r ∷ rows) =
    insert-OldestFirst r (order_by older_first rows) (order_by-OldestFirst rows)

module _ (p : MessageRow → Bool) where
  length-keep-insert :
      (r : MessageRow) (rs : List MessageRow)
      → length (keep p (insert_ordered older_first r rs)) ≡ length (keep p (r ∷ rs))
  unfolding insert_ordered
  length-keep-insert r [] = refl
  length-keep-insert r (s ∷ rs) = ground (arith, length-keep-insert r rs)

  pub length-keep-order_by :
      (rs : List MessageRow) → length (keep p (order_by older_first rs)) ≡ length (keep p rs)
  unfolding order_by
  length-keep-order_by [] = refl
  length-keep-order_by (r ∷ rs) =
      ground (arith, length-keep-insert r (order_by older_first rs), length-keep-order_by rs)

-- two lists of the same rows, each as often: every test is passed by as many of them
abbrev pub SameRows : List MessageRow → List MessageRow → Type 0
SameRows rs ss = (p : MessageRow → Bool) → length (keep p rs) ≡ length (keep p ss)
