-- ===== src/HashMap/Murmur.antt =====
-- ds/hash_map.h: `MurmurHasher`, over the bytes of the plain text.
use Prim.Native.Nat.{bit_or, bit_xor}
use panix.Prelude.{ℕ, ◌+◌, ◌*◌, ◌/◌, ◌%◌, ◌^◌, List, [], ◌∷◌, length}

abbrev u32_mod : ℕ
u32_mod = 2 ^ 32

-- `(k << n) | (k >> (32 - n))` on a `uint32_t`
unfoldable pub rotate : ℕ → ℕ → ℕ → ℕ
rotate k n m = bit_or ((k * 2 ^ n) % u32_mod) (k / 2 ^ m)

unfoldable pub scramble : ℕ → ℕ
unfolding rotate
scramble k = (rotate ((k * 0xcc9e2d51) % u32_mod) 15 17 * 0x1b873593) % u32_mod

-- The round for one word of four bytes.
unfoldable pub mix : ℕ → ℕ → ℕ
unfolding scramble
mix h k = (rotate (bit_xor h (scramble k)) 13 19 * 5 + 0xe6546b64) % u32_mod

-- The last bytes, the highest first: `k <<= 8; k |= key[i - 1]`.
unfoldable pub tail_word : List ℕ → ℕ
tail_word [] = 0
tail_word (b ∷ bs) = bit_or ((tail_word bs * 2 ^ 8) % u32_mod) b

unfoldable pub finish : ℕ → ℕ → ℕ
finish h len =
    let h₀ = bit_xor h (len % u32_mod) in
    let h₁ = bit_xor h₀ (h₀ / 2 ^ 16) in
    let h₂ = (h₁ * 0x85ebca6b) % u32_mod in
    let h₃ = bit_xor h₂ (h₂ / 2 ^ 13) in
    let h₄ = (h₃ * 0xc2b2ae35) % u32_mod in bit_xor h₄ (h₄ / 2 ^ 16)

-- `memcpy(&k, key, 4)` reads a word with its lowest byte first.
unfoldable pub blocks : List ℕ → ℕ → ℕ
unfolding mix tail_word
blocks (a ∷ b ∷ c ∷ d ∷ bs) h = blocks bs (mix h (a + 2 ^ 8 * (b + 2 ^ 8 * (c + 2 ^ 8 * d))))
blocks bs h = bit_xor h (scramble (tail_word bs))

unfoldable pub murmur3_32 : List ℕ → ℕ → ℕ
unfolding blocks finish
murmur3_32 bytes seed = finish (blocks bytes seed) (length bytes)
