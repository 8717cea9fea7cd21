-- ===== src/Data/RamCache.antt =====
-- src/data/RamCache.h: the cache of decoded bricks. A brick's bytes are numbers below 256.
pub mod Reads
use scrollviewer.Base.{ℕ, Bool, Option, List, length}
use scrollviewer.Core.LruCache
use scrollviewer.Core.LruCache.{LruCache}
use scrollviewer.Data.BrickKey.{BrickKey, key_dec}

pub record Brick : Type 0 where
  pub key : BrickKey
  pub voxels : List ℕ
  pub is_fill_value : Bool
  pub min_val : ℕ
  pub max_val : ℕ

abbrev pub RamCache : Type 0
RamCache = LruCache BrickKey Brick

unfoldable pub get : RamCache → BrickKey → RamCache × Option Brick
get c key = LruCache.get key_dec c key

unfoldable pub contains : RamCache → BrickKey → Bool
contains c key = LruCache.contains key_dec c key

-- The size that counts is that of the voxels, and the brick comes with one pin.
unfoldable pub insert_pinned : RamCache → Brick → RamCache × Option Brick
insert_pinned c b = LruCache.insert key_dec c b.key b (length b.voxels) 1

unfoldable pub pin : RamCache → BrickKey → RamCache
pin c key = LruCache.pin key_dec c key

unfoldable pub unpin : RamCache → BrickKey → RamCache
unpin c key = LruCache.unpin key_dec c key
