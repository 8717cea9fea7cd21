-- ===== src/Data/RamCache/Reads.antt =====
-- src/data/RamCache.h: a get leaves a coherent cache that answers like before.
use scrollviewer.Base.{◌≡◌, sym, ap, ◌∙◌}
use scrollviewer.Core.LruCache.Coherent
use scrollviewer.Core.LruCache.Coherent.{Coherent}
use scrollviewer.Core.LruCache.Reads.{get-entry_of, value_of}
use scrollviewer.Data.BrickKey.{BrickKey, key_dec}
use scrollviewer.Data.RamCache.{RamCache, get}

pub get-Coherent :
    (ram : RamCache) (k : BrickKey) → Coherent key_dec ram → Coherent key_dec (get ram k).0
unfolding get
get-Coherent ram k c = Coherent.get-Coherent key_dec ram k c

pub get_again :
    (ram : RamCache) (k j : BrickKey)
    → Coherent key_dec ram
    → (get (get ram k).0 j).1 ≡ (get ram j).1
unfolding get
get_again ram k j c =
    (get-entry_of key_dec (get ram k).0 j (Coherent.get-Coherent key_dec ram k c)).0
    ∙ ap value_of ((get-entry_of key_dec ram k c).3 j)
    ∙ sym (get-entry_of key_dec ram j c).0
