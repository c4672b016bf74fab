-- ===== src/Game/Checksum/Fletcher.antt =====
-- Fletcher32 of src/sf4e/sf4e__Game__Battle__System.cxx against the sums taken modulo 65535 at each byte.
use sf4_rollback_gui.Prelude.{
  ℕ, zero, suc, ◌+◌, ◌*◌, ◌%◌, ◌≤◌, ◌<◌, ◌≡◌, refl, ap, ◌∙◌, [], ◌∷◌, Str, length, take-all, All,
  arith, ◌⊎◌, inl, inr,
}
use sf4_rollback_gui.Game.Checksum.{
  Sums, u32_mod, accumulate, reduce, drop, block_size, blocks, fletcher32,
}

-- The checksum as it is defined: a sum of the bytes and a sum of those sums, modulo 65535.
unfoldable pub reference : Str → Sums → Sums
reference [] s = s
reference (b ∷ bs) (sum1, sum2) =
    let sum1' = (sum1 + b) % 65535 in reference bs (sum1', (sum2 + sum1') % 65535)

-- The sums without a modulus.
plain : Str → Sums → Sums
plain [] s = s
plain (b ∷ bs) (sum1, sum2) = plain bs (sum1 + b, sum2 + (sum1 + b))

-- What `n` bytes can add to the second sum at most.
growth : ℕ → ℕ → ℕ
growth zero sum1 = 0
growth (suc n) sum1 = (sum1 + 255) + growth n (sum1 + 255)

growth_closed : (n sum1 : ℕ) → 2 * growth n sum1 ≡ 2 * n * sum1 + 255 * n * (n + 1)
unfolding growth
growth_closed zero sum1 = omega arith
growth_closed (suc n) sum1 = omega (arith, growth_closed n (sum1 + 255))

growth_mono : (n m sum1 sum1' : ℕ) → n ≤ m → sum1 ≤ sum1' → growth n sum1 ≤ growth m sum1'
unfolding growth
growth_mono zero m sum1 sum1' h k = omega arith
growth_mono (suc n) zero sum1 sum1' h k = absurd (omega (arith, h))
growth_mono (suc n) (suc m) sum1 sum1' h k =
    omega
      (arith, growth_mono n m (sum1 + 255) (sum1' + 255) (omega (arith, h)) (omega (arith, k)), k)

abbrev pub IsByte : ℕ → Type 0
IsByte b = b < 256

accumulate-plain :
    (bs : Str) (sum1 sum2 : ℕ)
    → All IsByte bs
    → sum1 < u32_mod
    → sum2 + growth (length bs) sum1 < u32_mod
    → accumulate bs (sum1, sum2) ≡ plain bs (sum1, sum2)
unfolding accumulate plain growth
accumulate-plain [] sum1 sum2 q h k = refl
accumulate-plain (b ∷ bs) sum1 sum2 q h k =
    let mono =
      growth_mono (length bs) (length bs) (sum1 + b) (sum1 + 255) (omega arith)
        (omega (arith, q.0)) in
    let first : (sum1 + b) % u32_mod ≡ sum1 + b = omega (arith, k, q.0) in
    let second : (sum2 + (sum1 + b)) % u32_mod ≡ sum2 + (sum1 + b) = omega (arith, k, q.0) in
    rw (first, second)
      (accumulate-plain bs (sum1 + b) (sum2 + (sum1 + b)) q.1 (omega (arith, k, q.0))
        (omega (arith, k, q.0, mono)))

reduce-plain :
    (bs : Str) (sum1 sum2 : ℕ)
    → reduce (plain bs (sum1, sum2)) ≡ reference bs (sum1 % 65535, sum2 % 65535)
unfolding reduce plain reference
reduce-plain [] sum1 sum2 = refl
reduce-plain (b ∷ bs) sum1 sum2 =
    let first : (sum1 % 65535 + b) % 65535 ≡ (sum1 + b) % 65535 = omega arith in
    let second : (sum2 % 65535 + (sum1 + b) % 65535) % 65535 ≡ (sum2 + (sum1 + b)) % 65535 =
      omega arith in
    rw (first, second) (reduce-plain bs (sum1 + b) (sum2 + (sum1 + b)))

drop-all : (n : ℕ) (s : Str) → length s ≤ n → drop n s ≡ []
drop-all zero [] h = refl
drop-all zero (c ∷ s) h = absurd (omega (arith, h))
drop-all (suc n) [] h = refl
drop-all (suc n) (c ∷ s) h = drop-all n s (omega (arith, h))

blocks-nil : (fuel : ℕ) (s : Sums) → blocks fuel [] s ≡ s
unfolding blocks
blocks-nil zero s = refl
blocks-nil (suc fuel) s = refl

one_block :
    (b : ℕ) (bs : Str) (s : Sums)
    → length (b ∷ bs) ≤ block_size
    → fletcher32 (b ∷ bs) s ≡ reduce (accumulate (b ∷ bs) s)
unfolding fletcher32 blocks
one_block b bs s h =
    ap (λ t. blocks (length bs) (drop block_size (b ∷ bs)) (reduce (accumulate t s)))
      (take-all block_size (b ∷ bs) h)
    ∙ ap (λ d. blocks (length bs) d (reduce (accumulate (b ∷ bs) s)))
        (drop-all block_size (b ∷ bs) h)
    ∙ blocks-nil (length bs) (reduce (accumulate (b ∷ bs) s))

-- Sums below 65535 and so few bytes that no sum of them can pass 32 bits.
abbrev pub Fits : Str → ℕ → ℕ → Type 0
Fits bytes sum1 sum2 = (length bytes ≤ 5552) ⊎ ((length bytes ≤ 5802) × (sum1 ≡ 0) × (sum2 ≡ 0))

small_enough :
    (bytes : Str) (sum1 sum2 : ℕ)
    → sum1 < 65535
    → sum2 < 65535
    → Fits bytes sum1 sum2
    → sum2 + growth (length bytes) sum1 < u32_mod
small_enough bytes sum1 sum2 h k (inl short) = omega (
  arith,
  growth_mono (length bytes) 5552 sum1 65534 short (omega (arith, h)),
  growth_closed 5552 65534,
  k,
)
small_enough bytes sum1 sum2 h k (inr (short, z1, z2)) = omega (
  arith,
  growth_mono (length bytes) 5802 sum1 0 short (omega (arith, z1)),
  growth_closed 5802 0,
  z2,
)

-- On at most 5552 bytes, and on the first block of 5802 bytes when both sums are 0 before it, the sums of
-- 32 bits that are reduced once at the end of the block are those that are taken modulo 65535 at each
-- byte.
pub fletcher32-reference :
    (bytes : Str) (sum1 sum2 : ℕ)
    → All IsByte bytes
    → sum1 < 65535
    → sum2 < 65535
    → Fits bytes sum1 sum2
    → fletcher32 bytes (sum1, sum2) ≡ reference bytes (sum1, sum2)
unfolding fletcher32 blocks reference
fletcher32-reference [] sum1 sum2 q h k f = refl
fletcher32-reference (b ∷ bs) sum1 sum2 q h k f =
    let first : sum1 % 65535 ≡ sum1 = omega (arith, h) in
    let second : sum2 % 65535 ≡ sum2 = omega (arith, k) in
    one_block b bs (sum1, sum2) (room f)
    ∙ ap reduce (
        accumulate-plain (b ∷ bs) sum1 sum2 q (omega (arith, h))
          (small_enough (b ∷ bs) sum1 sum2 h k f))
    ∙ reduce-plain (b ∷ bs) sum1 sum2
    ∙ rw (first, second) refl
  where
    room : Fits (b ∷ bs) sum1 sum2 → length (b ∷ bs) ≤ block_size
    room (inl short) = omega (arith, short)
    room (inr (short, z1, z2)) = short
