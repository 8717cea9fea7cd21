-- ===== src/Store/ReadRange.antt =====
-- src/store/ChunkStore.cpp, `readRange`: the part that runs when the store has read the object.
pub mod Tests
use scrollviewer.Base.{
  ℕ, ◌+◌, ◌-◌, ◌≤◌, ◌<◌, ◌≡◌, Bool, true, false, ◌||◌, Option, none, some, List, length, take, drop,
  ltb, leb, if◌then◌else◌, add64, u64_mod, arith, refl,
}
use scrollviewer.Data.Pipeline.{Kind, StoreResult}

-- `subspan(offset, count)`; outside the span it is undefined behaviour, `none` here.
unfoldable pub subspan : ℕ → ℕ → List ℕ → Option (List ℕ)
subspan offset count bs =
    if ltb (length bs) offset || ltb (length bs - offset) count
    then none
    else some (take count (drop offset bs))

unfoldable pub slice_result : Option (List ℕ) → Option StoreResult
slice_result none = none
slice_result (some bs) = some (StoreResult.bytes bs)

-- What the callback is called with.
unfoldable pub read_range : ℕ → ℕ → StoreResult → Option StoreResult
read_range offset count (StoreResult.error k) = some (StoreResult.error k)
read_range offset count (StoreResult.bytes bs) =
    if ltb (length bs) (add64 offset count)
    then some (StoreResult.error Kind.io)
    else slice_result (subspan offset count bs)

-- What a range read of an object means.
abbrev pub range_of : ℕ → ℕ → StoreResult → StoreResult
range_of offset count (StoreResult.error k) = StoreResult.error k
range_of offset count (StoreResult.bytes bs) =
    if leb (offset + count) (length bs)
    then StoreResult.bytes (take count (drop offset bs))
    else StoreResult.error Kind.io

-- A range read passes an error on, gives the bytes of a range that the object contains, and fails on any
-- other range, if the end of the range is below 2^64.
pub read_range-range_of :
    (offset count : ℕ) (r : StoreResult)
    → offset + count < u64_mod
    → read_range offset count r ≡ some (range_of offset count r)
unfolding read_range subspan slice_result
read_range-range_of offset count (StoreResult.error k) h = refl
read_range-range_of offset count (StoreResult.bytes bs) h = ground arith

-- If the end of a range wraps to a place inside the object, the check lets it pass, and the slice lies
-- outside the object.
pub read_range_wraps :
    (offset count : ℕ) (bs : List ℕ)
    → offset < u64_mod
    → count < u64_mod
    → u64_mod ≤ offset + count
    → offset + count ≤ length bs + u64_mod
    → length bs < u64_mod
    → read_range offset count (StoreResult.bytes bs) ≡ none
unfolding read_range subspan slice_result
read_range_wraps offset count bs h k over inside size = ground arith
