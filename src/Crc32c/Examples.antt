-- ===== src/Crc32c/Examples.antt =====
-- src/crc32c/crc32c.rs on the input of its tests.
use pulsearc_db.Base.{[], ◌∷◌, ◌≡◌, refl}
use pulsearc_db.Coding.{from_le_bytes}
use pulsearc_db.Crc32c.{
  ones, fours, sixteens, table0, table1, table2, table3, table_rounds, step4, make_table_next,
  extend_software,
}

-- The standard check value, of the digits 1 to 9.
check_value : extend_software 0 (49 ∷ 50 ∷ 51 ∷ 52 ∷ 53 ∷ 54 ∷ 55 ∷ 56 ∷ 57 ∷ []) ≡ 0xe3069283
unfolding extend_software ones fours sixteens table0 table1 table2 table3 table_rounds step4
    make_table_next from_le_bytes
check_value = refl
