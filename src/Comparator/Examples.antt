-- ===== src/Comparator/Examples.antt =====
-- src/comparator/comparator.rs on concrete keys.
use Prim.Native.Nat.{Ordering}
use pulsearc_db.Base.{Bytes, [], ◌∷◌, length, ◌≡◌, ◌≢◌, ◌≤◌, refl}
use pulsearc_db.Comparator.{compare_bytes, bytewise_separator, shared_length}
use pulsearc_db.Comparator.Shorten.{bytewise_separator-between}

-- `abcd` and `abzz`, between which `abd` is enough.
abbrev start : Bytes
start = 97 ∷ 98 ∷ 99 ∷ 100 ∷ []

abbrev limit : Bytes
limit = 97 ∷ 98 ∷ 122 ∷ 122 ∷ []

separator : bytewise_separator start limit ≡ 97 ∷ 98 ∷ 100 ∷ []
unfolding bytewise_separator shared_length
separator = refl

start_below : compare_bytes start limit ≡ Ordering.lt
unfolding compare_bytes
start_below = refl

limit_below : compare_bytes limit (98 ∷ []) ≡ Ordering.lt
unfolding compare_bytes
limit_below = refl

bytewise_separator-between_example :
    (compare_bytes start (bytewise_separator start limit) ≢ Ordering.gt)
    × (compare_bytes (bytewise_separator start limit) limit ≡ Ordering.lt)
    × (length (bytewise_separator start limit) ≤ length start)
bytewise_separator-between_example = bytewise_separator-between start limit start_below
