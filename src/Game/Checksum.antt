-- ===== src/Game/Checksum.antt =====
-- Fletcher32, ChecksumMementoKey and ChecksumSaveState of src/sf4e/sf4e__Game__Battle__System.cxx, on
-- the bytes of what they read. The sums are unsigned ints of 32 bits.
pub mod Fletcher
use sf4_rollback_gui.Prelude.{
  ℕ, zero, suc, ◌+◌, ◌*◌, ◌/◌, ◌%◌, ◌^◌, Bool, true, false, ◌||◌, List, [], ◌∷◌, ◌++◌, Option, none,
  some, ℤ, pos, negsuc, Str, length, take, ltb, ◌==◌, if◌then◌else◌,
}

abbrev pub Sums : Type 0
Sums = ℕ × ℕ

abbrev pub u32_mod : ℕ
u32_mod = 2 ^ 32

-- The loop over the bytes of a block.
unfoldable pub accumulate : Str → Sums → Sums
accumulate [] s = s
accumulate (b ∷ bs) (sum1, sum2) =
    let sum1' = (sum1 + b) % u32_mod in accumulate bs (sum1', (sum2 + sum1') % u32_mod)

unfoldable pub reduce : Sums → Sums
reduce (sum1, sum2) = (sum1 % 65535, sum2 % 65535)

abbrev pub drop : ℕ → Str → Str
drop zero s = s
drop (suc n) [] = []
drop (suc n) (c ∷ s) = drop n s

abbrev pub block_size : ℕ
block_size = 5802

-- The loop over the blocks, with fuel for its rounds.
unfoldable pub blocks : ℕ → Str → Sums → Sums
blocks zero bytes s = s
blocks (suc fuel) [] s = s
blocks (suc fuel) (b ∷ bs) s =
    blocks fuel (drop block_size (b ∷ bs)) (reduce (accumulate (take block_size (b ∷ bs)) s))

-- A round reads at least one byte.
unfoldable pub fletcher32 : Str → Sums → Sums
fletcher32 bytes s = blocks (length bytes) bytes s

-- `(sum2 << 16) | sum1`, where both are below 2 ^ 16.
unfoldable pub pack : Sums → ℕ
pack (sum1, sum2) = (sum2 * 65536 + sum1) % u32_mod

-- The fields of GameMementoKey that the checksum reads; `mementos` is the allocated memory.
pub record MementoKey : Type 0 where
  pub mementos : Option Str
  pub num_mementos : ℤ
  pub size_allocated : ℤ
  pub next_memento_index : ℤ

abbrev pub positive : ℤ → Option ℕ
positive (pos zero) = none
positive (pos (suc n)) = some (suc n)
positive (negsuc n) = none

-- The used slots: `nextMementoIndex` between 0 and `numMementos`.
unfoldable pub used_slots : ℕ → ℤ → ℕ
used_slots n (pos used) = if ltb n used then n else used
used_slots n (negsuc used) = 0

unfoldable pub checksum_slots : Str → ℕ → ℕ → ℤ → ℕ
checksum_slots bytes num size used =
    pack (fletcher32 (take (size / num * used_slots num used) bytes) (0, 0))

unfoldable pub checksum_memento_key : MementoKey → ℕ
checksum_memento_key k = elim k.mementos [
  | none ↦ 0
  | some bytes ↦ elim (positive k.num_mementos) [
    | none ↦ 0
    | some num ↦ elim (positive k.size_allocated) [
      | none ↦ 0
      | some size ↦ checksum_slots bytes num size k.next_memento_index
    ]
  ]
]

-- The four bytes of an unsigned int in memory.
unfoldable pub word_bytes : ℕ → Str
word_bytes w = (w % 256) ∷ (w / 256 % 256) ∷ (w / 65536 % 256) ∷ (w / 16777216 % 256) ∷ []

-- What a save state is hashed by: its keys, and the three groups of its global data.
pub record SavedState : Type 0 where
  pub keys : List MementoKey
  pub flow_ids : Str
  pub flow_callables : Str
  pub game_manager : Str

-- One hash for each component, in order.
unfoldable pub key_parts : List MementoKey → List ℕ
key_parts [] = []
key_parts (k ∷ ks) = checksum_memento_key k ∷ key_parts ks

unfoldable pub part_of : Str → ℕ
part_of bytes = pack (fletcher32 bytes (0, 0))

unfoldable pub state_parts : SavedState → List ℕ
state_parts s =
    key_parts s.keys ++ part_of s.flow_ids ∷ part_of s.flow_callables ∷ part_of s.game_manager ∷ []

unfoldable pub hash_parts : List ℕ → Sums → Sums
hash_parts [] s = s
hash_parts (p ∷ ps) s = hash_parts ps (fletcher32 (word_bytes p) s)

-- ChecksumSaveState, with `outParts`.
unfoldable pub checksum_save_state : SavedState → ℕ × List ℕ
checksum_save_state s = (pack (hash_parts (state_parts s) (0, 0)), state_parts s)
