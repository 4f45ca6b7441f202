-- ===== src/Lru/Tests.antt =====
-- A cache of two entries, and the theorems at it.
use arp.Common.{ℕ, ◌≡◌, refl, arith, String, List, [], ◌∷◌, string_eq}
use arp.Common.JsMap.{set, get, delete}
use arp.Lru.{Entries, Call, read, write, lru_get, lru_set, perform_all, perform, make_room}
use arp.Lru.Bound.{IsCache, perform_all-IsCache}
use arp.Lru.Order.{Evicts, lru_evicts_lem}

abbrev calls : List (Call String ℕ)
calls = write 0 "a" 1 ∷ write 1 "b" 2 ∷ read 2 "a" ∷ write 3 "c" 3 ∷ []

abbrev filled : Entries String ℕ
filled = ("a", (1, 10)) ∷ ("c", (3, 13)) ∷ []

-- the read saves "a", so that the last write gives up "b"
keeps_recent : perform_all 2 10 calls [] ≡ filled
unfolding perform_all perform lru_set set make_room get lru_get delete
keeps_recent = refl

perform_all-IsCache_example : IsCache 2 (perform_all 2 10 calls [])
perform_all-IsCache_example =
    perform_all-IsCache 2 10 calls [] (omega arith)
      (record { distinct = tt; bounded = omega arith })

lru_evicts_lem_example : Evicts 2 10 4 "d" 4 calls
lru_evicts_lem_example = lru_evicts_lem 2 10 4 "d" 4 calls
