-- ===== src/Lru/Bound.antt =====
-- The size of the cache of packages/resolver/src/lru.ts.
use arp.Common.{
  ℕ, ◌+◌, ◌≤◌, ◌<◌, ◌≡◌, true, none, Bool-cases, Option-cases, inl, inr, List, [], ◌∷◌, arith, Eq,
  leb, length, length-append, IsDistinct, IsDistinct-concat,
}
use arp.Common.JsMap.{
  keys, keys-append, get, set, delete, has, get-delete, set_absent, IsDistinct-keys-delete,
  length-delete, has-eq-includes,
}
use arp.Lru.{
  Entries, lru_get, lru_set, lru_delete, make_room, drop_oldest, Call, read, write, remove, clear,
  perform, perform_all,
}

module _ {K V : Type 0} ⦃e : Eq K⦄ where
  pub record IsCache (max : ℕ) (m : Entries K V) : Type 0 where
    pub distinct : IsDistinct (keys m)
    pub bounded : length m ≤ max

  get_deleted : (k : K) (m : Entries K V) → get k (delete k m) ≡ none
  get_deleted k m = ground (arith, get-delete k k m, e.agrees_iff k k)

  length-delete_le : (k : K) (m : Entries K V) → length (delete k m) ≤ length m
  unfolding delete
  length-delete_le k [] = omega arith
  length-delete_le k ((j, x) ∷ m) = ground (arith, length-delete_le k m)

  -- inserting a key that is absent, where there is room for it
  insert-IsCache :
      (max : ℕ) (k : K) (x : V × ℕ) (m : Entries K V)
      → IsDistinct (keys m)
      → get k m ≡ none
      → length m < max
      → IsCache max (set k x m)
  insert-IsCache max k x m d absent room = rw (set_absent k x m absent) (record {
    distinct =
        rw (keys-append m ((k, x) ∷ []))
          (IsDistinct-concat (keys m) k d (ground (arith, has-eq-includes k m)));
    bounded = omega (arith, length-append m ((k, x) ∷ []), room);
  })

  delete-IsCache : (max : ℕ) (k : K) (m : Entries K V) → IsCache max m → IsCache max (delete k m)
  delete-IsCache max k m v = record {
    distinct = IsDistinct-keys-delete k m v.distinct;
    bounded = omega (arith, length-delete_le k m, v.bounded);
  }

  delete_room :
      (k : K) (m : Entries K V)
      → IsDistinct (keys m)
      → has k m ≡ true
      → length (delete k m) < length m
  delete_room k m d h = omega (arith, length-delete k m d h)

  get-IsCache :
      (max now : ℕ) (k : K) (m : Entries K V) → IsCache max m → IsCache max (lru_get now k m).0
  unfolding lru_get
  get-IsCache max now k m v = elim (Option-cases (get k m)) [
    | inl absent ↦ rw (absent, lru_get) v
    | inr ((x, expires), found) ↦ elim (Bool-cases (leb expires now)) [
      | inl late ↦ rw (found, late, lru_get) (delete-IsCache max k m v)
      | inr fresh ↦
          rw (found, fresh, lru_get)
            (insert-IsCache max k (x, expires) (delete k m) (IsDistinct-keys-delete k m v.distinct)
              (get_deleted k m) (omega (arith, delete_room k m v.distinct (rw found), v.bounded)))
    ]
  ]

  drop_room :
      (max : ℕ) (m : Entries K V)
      → IsDistinct (keys m)
      → 0 < max
      → length m ≤ max
      → length (drop_oldest m) < max
  drop_room max [] d pos le = pos
  drop_room max ((k, x) ∷ m) d pos le =
      omega (arith, le, length-delete k ((k, x) ∷ m) d (first_present k x m))
    where
      first_present : (k : K) (x : V × ℕ) (m : Entries K V) → has k ((k, x) ∷ m) ≡ true
      first_present k x m = ground (arith, has-eq-includes k ((k, x) ∷ m), e.agrees_iff k k)

  drop-IsDistinct : (m : Entries K V) → IsDistinct (keys m) → IsDistinct (keys (drop_oldest m))
  drop-IsDistinct [] d = tt
  drop-IsDistinct ((k, x) ∷ m) d = IsDistinct-keys-delete k ((k, x) ∷ m) d

  get-drop_oldest : (k : K) (m : Entries K V) → get k m ≡ none → get k (drop_oldest m) ≡ none
  get-drop_oldest k [] h = h
  get-drop_oldest k ((j, x) ∷ m) h = ground (arith, get-delete j k ((j, x) ∷ m))

  set-IsCache :
      (max ttl now : ℕ) (k : K) (v : V) (m : Entries K V)
      → 0 < max
      → IsCache max m
      → IsCache max (lru_set max ttl now k v m)
  unfolding lru_set make_room
  set-IsCache max ttl now k v m pos c = elim (Bool-cases (has k m)) [
    | inl present ↦
        rw (present, lru_set, make_room)
          (insert-IsCache max k (v, now + ttl) (delete k m) (IsDistinct-keys-delete k m c.distinct)
            (get_deleted k m) (omega (arith, delete_room k m c.distinct present, c.bounded)))
    | inr absent ↦
        let missing : get k m ≡ none = ground (arith, Option-cases (get k m)) in
        elim (Bool-cases (leb max (length m))) [
          | inl full ↦
              rw (absent, full, lru_set, make_room)
                (insert-IsCache max k (v, now + ttl) (drop_oldest m) (drop-IsDistinct m c.distinct)
                  (get-drop_oldest k m missing) (drop_room max m c.distinct pos c.bounded))
          | inr room ↦
              rw (absent, room, lru_set, make_room)
                (insert-IsCache max k (v, now + ttl) m c.distinct missing (ground arith))
        ]
  ]

  -- A cache of a positive bound never holds more entries than it, nor two of one key, after any
  -- sequence of reads, writes, removals and clearings.
  pub perform_all-IsCache :
      (max ttl : ℕ) (cs : List (Call K V)) (m : Entries K V)
      → 0 < max
      → IsCache max m
      → IsCache max (perform_all max ttl cs m)
  unfolding perform_all perform lru_delete
  perform_all-IsCache max ttl [] m pos c = c
  perform_all-IsCache max ttl (read now k ∷ cs) m pos c =
      perform_all-IsCache max ttl cs (lru_get now k m).0 pos (get-IsCache max now k m c)
  perform_all-IsCache max ttl (write now k v ∷ cs) m pos c =
      perform_all-IsCache max ttl cs (lru_set max ttl now k v m) pos
        (set-IsCache max ttl now k v m pos c)
  perform_all-IsCache max ttl (remove k ∷ cs) m pos c =
      perform_all-IsCache max ttl cs (delete k m) pos (delete-IsCache max k m c)
  perform_all-IsCache max ttl (clear ∷ cs) m pos c =
      perform_all-IsCache max ttl cs [] pos (record { distinct = tt; bounded = omega arith })
