-- ===== src/Lru/Recency.antt =====
-- What the cache of packages/resolver/src/lru.ts remembers, and what it gives up.
use arp.Common.{
  ℕ, ◌+◌, ◌≤◌, ◌<◌, ◌≡◌, ◌⊎◌, ◌∙◌, ap, true, false, Option, none, some, Bool-cases, Option-cases,
  inl, inr, [], ◌∷◌, arith, Eq, ◌==◌, leb, length, last?, last?-concat,
}
use arp.Common.JsMap.{keys, keys-append, get, delete, has, get-set, get-delete, set_absent}
use arp.Lru.{Entries, lru_get, lru_set, make_room}

module _ {K V : Type 0} ⦃e : Eq K⦄ where
  -- the key that was used least recently
  abbrev pub oldest : Entries K V → Option K
  oldest [] = none
  oldest ((k, x) ∷ m) = some k

  -- what a write leaves under another key
  abbrev pub Others : ℕ → K → Entries K V → Entries K V → Type 0
  Others max k m m' =
      (j : K)
      → (k == j) ≡ false
      → (get j m' ≡ get j m)
        ⊎ ((has k m ≡ false) × (max ≤ length m) × (oldest m ≡ some j) × (get j m' ≡ none))

  make_room-Others : (max : ℕ) (k : K) (m : Entries K V) → Others max k m (make_room max k m)
  unfolding make_room
  make_room-Others max k m j other = elim (Bool-cases (has k m)) [
    | inl present ↦ inl (rw (present, make_room) (ground (arith, get-delete k j m)))
    | inr absent ↦ elim (Bool-cases (leb max (length m))) [
      | inl full ↦ dropped m absent full
      | inr room ↦ inl (rw (absent, room, make_room))
    ]
  ]
    where
      dropped :
          (m : Entries K V)
          → has k m ≡ false
          → leb max (length m) ≡ true
          → (get j (make_room max k m) ≡ get j m)
            ⊎ ((has k m ≡ false)
                × (max ≤ length m)
                × (oldest m ≡ some j)
                × (get j (make_room max k m) ≡ none))
      dropped [] absent full = inl (rw (absent, full, make_room))
      dropped ((i, x) ∷ m) absent full = elim (Bool-cases (i == j)) [
        | inl same ↦ inr (
          absent,
          ground arith,
          ap some ((e.agrees_iff i j).0 same),
          rw (absent, full, make_room) (ground (arith, get-delete i j ((i, x) ∷ m))),
        )
        | inr apart ↦
            inl (rw (absent, full, make_room) (ground (arith, get-delete i j ((i, x) ∷ m))))
      ]

  -- A written value is read back until its time to live has passed. A write gives up another key only
  -- if its own key is new and the cache full, and then only the key used least recently.
  pub lru_set_lem :
      (max ttl now : ℕ) (k : K) (v : V) (m : Entries K V)
      → ((t : ℕ) → t < now + ttl → (lru_get t k (lru_set max ttl now k v m)).1 ≡ some v)
        × Others max k m (lru_set max ttl now k v m)
  unfolding lru_set lru_get
  lru_set_lem max ttl now k v m = (read_back, others)
    where
      stored : get k (lru_set max ttl now k v m) ≡ some (v, now + ttl)
      stored = ground (arith, get-set k k (v, now + ttl) (make_room max k m), e.agrees_iff k k)

      read_back : (t : ℕ) → t < now + ttl → (lru_get t k (lru_set max ttl now k v m)).1 ≡ some v
      read_back t early =
          let fresh : leb (now + ttl) t ≡ false = ground (arith, early) in
          rw (stored, fresh, lru_get)

      others : Others max k m (lru_set max ttl now k v m)
      others j other =
          let skip : get j (lru_set max ttl now k v m) ≡ get j (make_room max k m) =
            ground (arith, get-set k j (v, now + ttl) (make_room max k m)) in
          elim (make_room-Others max k m j other) [
            | inl kept ↦ inl (skip ∙ kept)
            | inr (absent, full, first, gone) ↦ inr (absent, full, first, skip ∙ gone)
          ]

  -- what a read leaves and answers
  abbrev pub Read : ℕ → K → Entries K V → Type 0
  Read now k m =
      let (m', a) = lru_get now k m in
      (((get k m ≡ none) × (a ≡ none) × (m' ≡ m))
        ⊎ (((v : V) × (expires : ℕ) × (get k m ≡ some (v, expires))
              × (expires ≤ now)
              × (a ≡ none)
              × (m' ≡ delete k m))
            ⊎ ((v : V) × (expires : ℕ) × (get k m ≡ some (v, expires))
                × (now < expires)
                × (a ≡ some v)
                × (last? (keys m') ≡ some k)
                × ((j : K) → get j m' ≡ get j m))))

  -- A read of a missing key changes nothing; a read of an expired entry finds nothing and removes it;
  -- any other read answers the stored value, makes its key the one used last and forgets nothing.
  pub lru_get_lem : (now : ℕ) (k : K) (m : Entries K V) → Read now k m
  unfolding lru_get
  lru_get_lem now k m = elim (Option-cases (get k m)) [
    | inl absent ↦ inl (absent, rw (absent, lru_get), rw (absent, lru_get))
    | inr ((v, expires), found) ↦ elim (Bool-cases (leb expires now)) [
      | inl late ↦ inr (
          inl
            (v, expires, found, ground arith, rw (found, late, lru_get), rw (found, late, lru_get)))
      | inr fresh ↦
          let gone : get k (delete k m) ≡ none =
            ground (arith, get-delete k k m, e.agrees_iff k k) in
          inr (
            inr (
              v,
              expires,
              found,
              ground arith,
              rw (found, fresh, lru_get),
              rw (found, fresh, lru_get)
                  (rw (set_absent k (v, expires) (delete k m) gone) (
                    rw (keys-append (delete k m) ((k, (v, expires)) ∷ []))
                      (last?-concat (keys (delete k m)) k))),
              λ j.
                  rw (found, fresh, lru_get)
                    (ground (
                      arith,
                      get-set k j (v, expires) (delete k m),
                      get-delete k j m,
                      e.agrees_iff k j,
                    )),
            ))
    ]
  ]
