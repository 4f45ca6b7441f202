-- ===== src/Lru/Order.antt =====
-- The keys of the cache of packages/resolver/src/lru.ts stand in the order of their last use.
use mathlib.Core.Path.{subst}
use arp.Common.{
  ℕ, ◌+◌, ◌<◌, ◌≡◌, refl, not, some, none, Bool-cases, Option-cases, inl, inr, List, [], ◌∷◌, ◌++◌,
  arith, Eq, ◌==◌, keep, leb, length,
}
use arp.Common.JsMap.{keys, keys-append, get, set, delete, get-delete, set_absent}
use arp.Lru.{
  Entries, lru_get, lru_set, lru_delete, make_room, drop_oldest, Call, read, write, remove, clear,
  perform, perform_all,
}
use arp.Lru.Recency.{Others, lru_set_lem}

-- the first list is the second one with some elements left out
pub data IsSublist {K : Type 0} : List K → List K → Type 0 where
  none_of : (ys : List K) → IsSublist [] ys
  both : {xs ys : List K} (x : K) → IsSublist xs ys → IsSublist (x ∷ xs) (x ∷ ys)
  skip : {xs ys : List K} (y : K) → IsSublist xs ys → IsSublist xs (y ∷ ys)

sublist-last :
    {K : Type 0} (xs ys : List K) (k : K)
    → IsSublist xs ys
    → IsSublist (xs ++ k ∷ []) (ys ++ k ∷ [])
sublist-last [] [] k s = both k (none_of [])
sublist-last {K = K} xs ys k (none_of zs) = last_only zs
  where
    last_only : (zs : List K) → IsSublist (k ∷ []) (zs ++ k ∷ [])
    last_only [] = both k (none_of [])
    last_only (z ∷ zs) = skip z (last_only zs)
sublist-last xs ys k (both {xs = us} {ys = vs} x s) = both x (sublist-last us vs k s)
sublist-last xs ys k (skip {xs = us} {ys = vs} y s) = skip y (sublist-last us vs k s)

sublist-more : {K : Type 0} (xs ys zs : List K) → IsSublist xs ys → IsSublist xs (ys ++ zs)
sublist-more xs ys zs (none_of us) = none_of (us ++ zs)
sublist-more xs ys zs (both {xs = us} {ys = vs} x s) = both x (sublist-more us vs zs s)
sublist-more xs ys zs (skip {xs = us} {ys = vs} y s) = skip y (sublist-more us vs zs s)

module _ {K : Type 0} ⦃e : Eq K⦄ where
  abbrev pub without : K → List K → List K
  without k ks = keep (λ j. not (j == k)) ks

  sublist-without :
      (k : K) (xs ys : List K) → IsSublist xs ys → IsSublist (without k xs) (without k ys)
  sublist-without k xs ys (none_of us) = none_of (without k us)
  sublist-without k xs ys (both {xs = us} {ys = vs} x s) = elim (Bool-cases (x == k)) [
    | inl same ↦ rw same (sublist-without k us vs s)
    | inr other ↦ rw other (both x (sublist-without k us vs s))
  ]
  sublist-without k xs ys (skip {xs = us} {ys = vs} y s) = elim (Bool-cases (y == k)) [
    | inl same ↦ rw same (sublist-without k us vs s)
    | inr other ↦ rw other (skip y (sublist-without k us vs s))
  ]

  less-sublist : (k : K) (xs ys : List K) → IsSublist xs ys → IsSublist (without k xs) ys
  less-sublist k xs ys (none_of us) = none_of us
  less-sublist k xs ys (both {xs = us} {ys = vs} x s) = elim (Bool-cases (x == k)) [
    | inl same ↦ rw same (skip x (less-sublist k us vs s))
    | inr other ↦ rw other (both x (less-sublist k us vs s))
  ]
  less-sublist k xs ys (skip {xs = us} {ys = vs} y s) = skip y (less-sublist k us vs s)

module _ {K V : Type 0} ⦃e : Eq K⦄ where
  -- the keys that were read or written, the one used last at the end
  abbrev pub used : List K → Call K V → List K
  used ks (read t k) = without k ks ++ k ∷ []
  used ks (write t k v) = without k ks ++ k ∷ []
  used ks (remove k) = ks
  used ks clear = ks

  pub by_recency : List K → List (Call K V) → List K
  by_recency ks [] = ks
  by_recency ks (c ∷ cs) = by_recency (used ks c) cs

  keys-delete : (k : K) (m : Entries K V) → keys (delete k m) ≡ without k (keys m)
  unfolding delete
  keys-delete k [] = refl
  keys-delete k ((j, x) ∷ m) = ground (arith, keys-delete k m)

  without-absent : (k : K) (m : Entries K V) → get k m ≡ none → without k (keys m) ≡ keys m
  unfolding get
  without-absent k [] absent = refl
  without-absent k ((j, x) ∷ m) absent = ground (arith, without-absent k m)

  -- a key that is absent is put last
  inserted :
      (k : K) (x : V × ℕ) (m : Entries K V) (ks : List K)
      → get k m ≡ none
      → IsSublist (keys m) ks
      → IsSublist (keys (set k x m)) (without k ks ++ k ∷ [])
  inserted k x m ks absent s = rw (set_absent k x m absent) (
      rw (keys-append m ((k, x) ∷ [])) (
        sublist-last (keys m) (without k ks) k (
          subst (λ l. IsSublist l (without k ks)) (without-absent k m absent)
            (sublist-without k (keys m) ks s))))

  deleted :
      (k : K) (m : Entries K V) (ks : List K)
      → IsSublist (keys m) ks
      → IsSublist (keys (delete k m)) ks
  deleted k m ks s = rw (keys-delete k m) (less-sublist k (keys m) ks s)

  absent_after : (k : K) (m : Entries K V) → get k (delete k m) ≡ none
  absent_after k m = ground (arith, get-delete k k m, e.agrees_iff k k)

  absent_still : (k j : K) (m : Entries K V) → get k m ≡ none → get k (delete j m) ≡ none
  absent_still k j m absent = ground (arith, get-delete j k m)

  make_room-sublist :
      (max : ℕ) (k : K) (m : Entries K V) (ks : List K)
      → IsSublist (keys m) ks
      → (get k (make_room max k m) ≡ none) × IsSublist (keys (make_room max k m)) ks
  unfolding make_room
  make_room-sublist max k m ks s = elim (Option-cases (get k m)) [
    | inr (x, present) ↦ rw (present, make_room) (absent_after k m, deleted k m ks s)
    | inl absent ↦ elim (Bool-cases (leb max (length m))) [
      | inl full ↦ rw (absent, full, make_room) (dropped m absent s)
      | inr room ↦ rw (absent, room, make_room) (absent, s)
    ]
  ]
    where
      dropped :
          (m : Entries K V)
          → get k m ≡ none
          → IsSublist (keys m) ks
          → (get k (drop_oldest m) ≡ none) × IsSublist (keys (drop_oldest m)) ks
      dropped [] absent s = (absent, s)
      dropped ((j, x) ∷ m) absent s =
          (absent_still k j ((j, x) ∷ m) absent, deleted j ((j, x) ∷ m) ks s)

  get-sublist :
      (now : ℕ) (k : K) (m : Entries K V) (ks : List K)
      → IsSublist (keys m) ks
      → IsSublist (keys (lru_get now k m).0) (without k ks ++ k ∷ [])
  unfolding lru_get
  get-sublist now k m ks s = elim (Option-cases (get k m)) [
    | inl absent ↦
        rw (absent, lru_get)
          (sublist-more (keys m) (without k ks) (k ∷ []) (
            subst (λ l. IsSublist l (without k ks)) (without-absent k m absent)
              (sublist-without k (keys m) ks s)))
    | inr ((v, expires), found) ↦ elim (Bool-cases (leb expires now)) [
      | inl late ↦
          rw (found, late, lru_get)
            (rw (keys-delete k m) (
              sublist-more (without k (keys m)) (without k ks) (k ∷ [])
                (sublist-without k (keys m) ks s)))
      | inr fresh ↦
          rw (found, fresh, lru_get)
            (inserted k (v, expires) (delete k m) ks (absent_after k m) (deleted k m ks s))
    ]
  ]

  perform-sublist :
      (max ttl : ℕ) (c : Call K V) (m : Entries K V) (ks : List K)
      → IsSublist (keys m) ks
      → IsSublist (keys (perform max ttl c m)) (used ks c)
  unfolding perform lru_set lru_delete
  perform-sublist max ttl (read now k) m ks s = get-sublist now k m ks s
  perform-sublist max ttl (write now k v) m ks s =
      let (absent, kept) = make_room-sublist max k m ks s in
      inserted k (v, now + ttl) (make_room max k m) ks absent kept
  perform-sublist max ttl (remove k) m ks s = deleted k m ks s
  perform-sublist max ttl clear m ks s = none_of ks

  perform_all-sublist :
      (max ttl : ℕ) (cs : List (Call K V)) (m : Entries K V) (ks : List K)
      → IsSublist (keys m) ks
      → IsSublist (keys (perform_all max ttl cs m)) (by_recency ks cs)
  unfolding perform_all by_recency
  perform_all-sublist max ttl [] m ks s = s
  perform_all-sublist max ttl (c ∷ cs) m ks s =
      perform_all-sublist max ttl cs (perform max ttl c m) (used ks c)
        (perform-sublist max ttl c m ks s)

  -- what a write into a cache leaves that calls have filled
  abbrev pub Evicts : ℕ → ℕ → ℕ → K → V → List (Call K V) → Type 0
  Evicts max ttl now k v cs =
      let m = perform_all max ttl cs [] in
      IsSublist (keys m) (by_recency [] cs)
      × Others max k m (lru_set max ttl now k v m)
      × ((t : ℕ) → t < now + ttl → (lru_get t k (lru_set max ttl now k v m)).1 ≡ some v)

  -- After any calls of an empty cache, its keys stand in the order in which these calls last read or
  -- wrote them. A write then gives up another key only if its own is new and the cache full, and
  -- only the first key of that order; its value is read back at once until its time to live is over.
  pub lru_evicts_lem :
      (max ttl now : ℕ) (k : K) (v : V) (cs : List (Call K V)) → Evicts max ttl now k v cs
  lru_evicts_lem max ttl now k v cs =
      let (back, others) = lru_set_lem max ttl now k v (perform_all max ttl cs []) in
      (perform_all-sublist max ttl cs [] [] (none_of []), others, back)
