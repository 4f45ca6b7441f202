-- ===== src/Lru.antt =====
-- packages/resolver/src/lru.ts: a cache of bounded size whose entries expire. A `Map` lists its keys
-- in the order of their insertion, so the first key is the one used least recently.
pub mod Bound
pub mod Recency
pub mod Order
mod Tests
use arp.Common.{
  ℕ, ◌+◌, Bool, true, false, Option, none, some, List, [], ◌∷◌, Eq, leb, if◌then◌else◌, length,
  is_some,
}
use arp.Common.JsMap.{JsMap, get, set, delete, has}

-- an entry: the value and the time at which it expires
abbrev pub Entries : Type 0 → Type 0 → Type 0
Entries K V = JsMap K (V × ℕ)

-- a call of the cache, with the clock's reading
pub data Call (K V : Type 0) : Type 0 where
  read : ℕ → K → Call K V
  write : ℕ → K → V → Call K V
  remove : K → Call K V
  clear : Call K V

module _ {K V : Type 0} ⦃e : Eq K⦄ where
  -- `get`: a hit moves the entry to the end, an expired entry is removed.
  unfoldable pub lru_get : ℕ → K → Entries K V → Entries K V × Option V
  lru_get now k m = elim (get k m) [
    | none ↦ (m, none)
    | some (v, expires) ↦
        if leb expires now then (delete k m, none) else (set k (v, expires) (delete k m), some v)
  ]

  abbrev pub drop_oldest : Entries K V → Entries K V
  drop_oldest [] = []
  drop_oldest ((k, x) ∷ m) = delete k ((k, x) ∷ m)

  -- what `set` removes before it inserts
  unfoldable pub make_room : ℕ → K → Entries K V → Entries K V
  make_room max k m =
      if has k m then delete k m else if leb max (length m) then drop_oldest m else m

  unfoldable pub lru_set : ℕ → ℕ → ℕ → K → V → Entries K V → Entries K V
  lru_set max ttl now k v m = set k (v, now + ttl) (make_room max k m)

  unfoldable pub lru_delete : K → Entries K V → Entries K V
  lru_delete k m = delete k m

  unfoldable pub perform : ℕ → ℕ → Call K V → Entries K V → Entries K V
  perform max ttl (read now k) m = (lru_get now k m).0
  perform max ttl (write now k v) m = lru_set max ttl now k v m
  perform max ttl (remove k) m = lru_delete k m
  perform max ttl clear m = []

  unfoldable pub perform_all : ℕ → ℕ → List (Call K V) → Entries K V → Entries K V
  perform_all max ttl [] m = m
  perform_all max ttl (c ∷ cs) m = perform_all max ttl cs (perform max ttl c m)
