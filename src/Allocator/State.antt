-- ===== src/Allocator/State.antt =====
-- src/storage/minfs/allocator/{allocator.h, allocator_common.cc, allocator.cc,
-- allocator_reservation.{h,cc}, metadata.h, storage_common.cc}. A pending change is shared between
-- the allocator's vector and the reservation that owns it: here it lives in the vector, under an
-- address, and the reservation holds the address.
use fuchsia_minfs.Prelude.{
  ℕ, zero, suc, ◌+◌, ◌-◌, ◌*◌, Bool, true, false, not, ◌&&◌, ◌==◌, ltb, if◌then◌else◌, none, some,
  List, [], ◌∷◌, ◌++◌, length, sub32, sub64,
}
use fuchsia_minfs.Allocator.Bitmap.{Bitmaps}

-- What a call leaves: a value, a failed ZX_ASSERT, or a loop that the fuel did not see end.
pub data Run {ℓ} (A : Type ℓ) : Type ℓ where
  done : A → Run A
  aborted : Run A
  unfinished : Run A

infixl 5 ◌>>=◌
abbrev pub ◌>>=◌ {ℓ κ} : {A : Type ℓ} {B : Type κ} → Run A → (A → Run B) → Run B
done a >>= f = f a
aborted >>= f = aborted
unfinished >>= f = unfinished

-- ZX_ASSERT.
abbrev pub assert : {A : Type 0} → Bool → A → Run A
assert true a = done a
assert false a = aborted

pub data Kind : Type 0 where
  allocation deallocation : Kind

abbrev pub is_allocation : Kind → Bool
is_allocation allocation = true
is_allocation deallocation = false

abbrev pub same : Bool → Bool → Bool
same true b = b
same false b = not b

module _ ⦃b : Bitmaps⦄ where
  open b use {Raw, Rle, num_bits, get_bit, next_clear}

  pub record Change : Type 0 where
    pub address : ℕ
    pub kind : Kind
    pub bits : Rle
    pub committed : Bool

  pub record Allocator : Type 0 where
    pub reserved : ℕ
    pub first_free : ℕ
    -- Through the storage's metadata, two fields of the superblock.
    pub pool_used : ℕ
    pub pool_total : ℕ
    pub map_bits : Raw
    pub pending_changes : List Change
    -- The address that the next `new` returns.
    pub fresh : ℕ

  -- The change reserves nothing in its present state: `committed_ == (kind_ == kAllocation)`.
  abbrev pub is_idle : Change → Bool
  is_idle c = same c.committed (is_allocation c.kind)

  unfoldable pub get_reserved_count : Change → ℕ
  get_reserved_count c = if is_idle c then 0 else num_bits c.bits

  unfoldable pub get_next_unreserved : Change → ℕ → ℕ
  get_next_unreserved c start = if is_idle c then start else next_clear c.bits start

  abbrev pub sum_by : (Change → ℕ) → List Change → ℕ
  sum_by f [] = 0
  sum_by f (c ∷ cs) = f c + sum_by f cs

  -- The loop of GetAvailableLocked.
  abbrev pub sum_reserved : List Change → ℕ
  sum_reserved cs = sum_by get_reserved_count cs

  abbrev pub pool_available : Allocator → ℕ
  pool_available a = sub32 a.pool_total a.pool_used

  -- GetAvailableLocked.
  unfoldable pub get_available : Allocator → ℕ
  get_available a = sub64 (pool_available a) (a.reserved + sum_reserved a.pending_changes)

  -- The loop of FindNextUnreserved. The head of `queue` is `*iter`: to step the iterator, around the
  -- end of the vector, is to move the head to the back.
  unfoldable pub find_next_loop : ℕ → ℕ → ℕ → ℕ → ℕ → List Change → Run ℕ
  find_next_loop zero limit count unchanged start queue = unfinished
  find_next_loop (suc fuel) limit count unchanged start [] = done start
  find_next_loop (suc fuel) limit count unchanged start (c ∷ queue) = elim (ltb unchanged count) [
    | false ↦ done start
    | true ↦ elim (get_next_unreserved c start == start) [
      | true ↦ find_next_loop fuel limit count (unchanged + 1) start (queue ++ c ∷ [])
      | false ↦ elim (ltb (get_next_unreserved c start) limit) [
        | true ↦ find_next_loop fuel limit count 1 (get_next_unreserved c start) (queue ++ c ∷ [])
        | false ↦ aborted
      ]
    ]
  ]

  -- Enough rounds: each change of `start` brings it nearer to the size.
  abbrev pub find_next_fuel : ℕ → ℕ → ℕ → ℕ
  find_next_fuel limit count start = (limit - start) * (count + 1) + count + 1

  unfoldable pub find_next_unreserved : Allocator → ℕ → Run ℕ
  find_next_unreserved a start =
      let count = length a.pending_changes in
      find_next_loop (find_next_fuel (b.size a.map_bits) count start) (b.size a.map_bits) count 0
        start a.pending_changes

  -- The second half of a round of FindLocked: the next element that is clear in the map.
  abbrev pub search_map : Allocator → ℕ → Run ℕ
  search_map a start = elim (b.find_clear a.map_bits start) [ none ↦ aborted | some i ↦ done i ]

  -- The loop of FindLocked. `index` is the size of the map before the first search.
  unfoldable pub find_loop : ℕ → Allocator → ℕ → ℕ → Run ℕ
  find_loop zero a start index = unfinished
  find_loop (suc fuel) a start index = find_next_unreserved a start >>= λ next.
      elim (not (index == b.size a.map_bits) && (next == index)) [
        | true ↦ done index
        | false ↦ search_map a next >>= λ found. find_loop fuel a found found
      ]

  unfoldable pub find_locked : Allocator → Run ℕ
  find_locked a = find_loop (b.size a.map_bits + 2) a a.first_free (b.size a.map_bits)
