-- ===== src/Hash.antt =====
-- src/hash/hash.rs: the 32-bit hash of the filters and of the cache's shards.
use pulsearc_db.Base.{ℕ, ◌+◌, ◌*◌, ◌/◌, ◌%◌, ◌^◌, bit_xor, Bytes, [], ◌∷◌, length}
use pulsearc_db.Coding.{from_le_bytes}

abbrev pub multiplier : ℕ
multiplier = 0xc6a4a793

-- A word of the input is mixed in with a shift of 16, the last bytes with a shift of 24.
unfoldable pub mix : ℕ → ℕ → ℕ → ℕ
mix shift h word = let m = (h + word) % 2 ^ 32 * multiplier % 2 ^ 32 in bit_xor m (m / 2 ^ shift)

-- `chunks_exact(4)` and the remainder, whose bytes are added from the last to the first.
unfoldable pub hash_loop : Bytes → ℕ → ℕ
hash_loop [] h = h
hash_loop (a ∷ []) h = mix 24 h a
hash_loop (a ∷ b ∷ []) h = mix 24 ((h + b * 2 ^ 8) % 2 ^ 32) a
hash_loop (a ∷ b ∷ c ∷ []) h = mix 24 (((h + c * 2 ^ 16) % 2 ^ 32 + b * 2 ^ 8) % 2 ^ 32) a
hash_loop (a ∷ b ∷ c ∷ d ∷ rest) h = hash_loop rest (mix 16 h (from_le_bytes (a ∷ b ∷ c ∷ d ∷ [])))

unfoldable pub hash : Bytes → ℕ → ℕ
hash input seed = hash_loop input (bit_xor seed (length input % 2 ^ 32 * multiplier % 2 ^ 32))
