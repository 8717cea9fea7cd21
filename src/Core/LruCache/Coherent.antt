-- ===== src/Core/LruCache/Coherent.antt =====
-- src/core/LruCache.h: the list, the map and the byte count agree, and the calls that do not insert keep that.
use scrollviewer.Base.{
  ℕ, ◌+◌, ◌%◌, ◌<◌, ◌≡◌, refl, sym, ◌∙◌, none, some, List, [], ◌∷◌, arith, total, length, u64_mod,
  sub64, ltb, Bool-cases, Option-cases, inl, inr,
}
use scrollviewer.Base.Assoc
use scrollviewer.Core.LruCache.{
  Entry, LruCache, init, find, get, drop_existing, pin, unpin, find_node, remove_node, set_pins,
}
use scrollviewer.Core.LruCache.Nodes.{
  bytes_of, node_of, Below, entry_of, Unique, entry_of-key, entry_of-find_node, find_node-entry_of,
  entry_of-remove_node, remove_node-Unique, find_node-remove_node_self, entry_of-set_pins,
  set_pins-Unique, total-remove_node, total-set_pins, remove_node-Below, set_pins-Below,
}
use scrollviewer.Core.LruCache.Evict.{}

length-set_pins :
    {K V : Type 0} (n p : ℕ) (es : List (Entry K V)) → length (set_pins n p es) ≡ length es
unfolding set_pins
length-set_pins n p [] = refl
length-set_pins n p (e ∷ es) = ground (arith, length-set_pins n p es)

found-Below :
    {K V : Type 0} (n : ℕ) (es : List (Entry K V)) (e : Entry K V)
    → Below n es
    → find_node e.node es ≡ some e
    → e.node < n
unfolding find_node
found-Below n [] e b h = absurd (cc)
found-Below n (x ∷ es) e b h = ground (arith, found-Below n es e b.1)

length-remove_node :
    {K V : Type 0} (es : List (Entry K V)) (e : Entry K V)
    → find_node e.node es ≡ some e
    → length (remove_node e.node es) + 1 ≡ length es
unfolding find_node remove_node
length-remove_node [] e h = absurd (cc)
length-remove_node (x ∷ es) e h = ground (arith, length-remove_node es e)

module _ {K V : Type 0} (dec : Discrete K) where
  pub record Coherent (c : LruCache K V) : Type 0 where
    pub unique : Unique dec c.lru
    pub below : Below c.next_node c.lru
    pub distinct : Assoc.Distinct dec c.map
    pub agree : (k : K) → Assoc.lookup dec k c.map ≡ node_of (entry_of dec k c.lru)
    pub counted : Assoc.size dec c.map ≡ length c.lru
    pub accounted : c.bytes_used ≡ total bytes_of c.lru % u64_mod

  pub init-Coherent : (budget : ℕ) → Coherent (init budget)
  unfolding init Assoc.lookup entry_of
  init-Coherent budget = record {
    unique = tt;
    below = tt;
    distinct = tt;
    agree = λ k. refl;
    counted = refl;
    accounted = refl;
  }

  -- A search through the map finds what a search of the list would.
  pub find-entry_of : (c : LruCache K V) (k : K) → Coherent c → find dec c k ≡ entry_of dec k c.lru
  unfolding find
  find-entry_of c k v = elim (Option-cases (entry_of dec k c.lru)) [
    | inl e ↦ ground (arith, v.agree k)
    | inr (x, e) ↦ ground (arith, v.agree k, find_node-entry_of dec k c.lru x v.unique e)
  ]

  pub find-find_node :
      (c : LruCache K V) (k : K) {e : Entry K V}
      → Coherent c
      → find dec c k ≡ some e
      → find_node e.node c.lru ≡ some e
  find-find_node c k {e} v h =
      find_node-entry_of dec k c.lru e v.unique (sym (find-entry_of c k v) ∙ h)

  pub find-key :
      (c : LruCache K V) (k : K) {e : Entry K V} → Coherent c → find dec c k ≡ some e → e.key ≡ k
  find-key c k v h = entry_of-key dec k c.lru (sym (find-entry_of c k v) ∙ h)

  -- What a call does to the entry `x` that it finds.
  module _ (c : LruCache K V) (x : Entry K V) (v : Coherent c)
      (here : find_node x.node c.lru ≡ some x) where
    front-Coherent : Coherent (record c { lru = x ∷ remove_node x.node c.lru })
    unfolding entry_of
    front-Coherent = record {
      unique = (
        ground (arith, entry_of-remove_node dec x.key c.lru x v.unique here),
        find_node-remove_node_self dec x.node c.lru v.unique,
        remove_node-Unique dec c.lru x v.unique here,
      );
      below =
          (found-Below c.next_node c.lru x v.below here, remove_node-Below x.node _ c.lru v.below);
      distinct = v.distinct;
      agree = λ k. ground (
        arith,
        v.agree k,
        entry_of-remove_node dec k c.lru x v.unique here,
        entry_of-find_node dec c.lru x v.unique here,
      );
      counted = ground (arith, v.counted, length-remove_node c.lru x here);
      accounted = ground (arith, v.accounted, total-remove_node bytes_of c.lru x here);
    }

    drop-Coherent : Coherent (record c {
      lru = remove_node x.node c.lru;
      map = Assoc.erase dec x.key c.map;
      bytes_used = sub64 c.bytes_used x.bytes;
    })
    drop-Coherent = record {
      unique = remove_node-Unique dec c.lru x v.unique here;
      below = remove_node-Below x.node _ c.lru v.below;
      distinct = Assoc.erase-Distinct dec x.key c.map v.distinct;
      agree = λ k. ground (
        arith,
        v.agree k,
        Assoc.lookup-erase dec x.key k c.map v.distinct,
        entry_of-remove_node dec k c.lru x v.unique here,
      );
      counted = ground (
        arith,
        v.counted,
        length-remove_node c.lru x here,
        Assoc.size-erase dec x.key x.node c.map,
        v.agree x.key,
        entry_of-find_node dec c.lru x v.unique here,
      );
      accounted = ground (arith, v.accounted, total-remove_node bytes_of c.lru x here);
    }

    set_pins-Coherent : (p : ℕ) → Coherent (record c { lru = set_pins x.node p c.lru })
    set_pins-Coherent p = record {
      unique = set_pins-Unique dec c.lru x p v.unique here;
      below = set_pins-Below x.node p _ c.lru v.below;
      distinct = v.distinct;
      agree = λ k. ground (
        arith,
        v.agree k,
        entry_of-set_pins dec k c.lru x p v.unique here,
        entry_of-find_node dec c.lru x v.unique here,
      );
      counted = ground (arith, v.counted, length-set_pins x.node p c.lru);
      accounted = ground (arith, v.accounted, total-set_pins x.node p c.lru);
    }

  pub get-Coherent : (c : LruCache K V) (k : K) → Coherent c → Coherent (get dec c k).0
  unfolding get
  get-Coherent c k v = elim (Option-cases (find dec c k)) [
    | inl e ↦ rw (e, get) v
    | inr (x, e) ↦ rw (e, get) (front-Coherent c x v (find-find_node c k v e))
  ]

  pub drop_existing-Coherent :
      (c : LruCache K V) (k : K) → Coherent c → Coherent (drop_existing dec c k)
  unfolding drop_existing
  drop_existing-Coherent c k v = elim (Option-cases (find dec c k)) [
    | inl e ↦ rw (e, drop_existing) v
    | inr (x, e) ↦
        rw (e, drop_existing, ← find-key c k v e) (drop-Coherent c x v (find-find_node c k v e))
  ]

  pub pin-Coherent : (c : LruCache K V) (k : K) → Coherent c → Coherent (pin dec c k)
  unfolding pin
  pin-Coherent c k v = elim (Option-cases (find dec c k)) [
    | inl e ↦ rw (e, pin) v
    | inr (x, e) ↦ rw (e, pin) (set_pins-Coherent c x v (find-find_node c k v e) _)
  ]

  pub unpin-Coherent : (c : LruCache K V) (k : K) → Coherent c → Coherent (unpin dec c k)
  unfolding unpin
  unpin-Coherent c k v = elim (Option-cases (find dec c k)) [
    | inl e ↦ rw (e, unpin) v
    | inr (x, e) ↦ elim (Bool-cases (ltb 0 x.pin_count)) [
      | inl pinned ↦ rw (e, unpin, pinned) (set_pins-Coherent c x v (find-find_node c k v e) _)
      | inr free ↦ rw (e, unpin, free) v
    ]
  ]

  -- After `drop_existing` no entry has the key.
  pub entry_of-drop_existing :
      (c : LruCache K V) (k : K) → Coherent c → entry_of dec k (drop_existing dec c k).lru ≡ none
  unfolding drop_existing
  entry_of-drop_existing c k v = elim (Option-cases (find dec c k)) [
    | inl e ↦ rw (e, drop_existing) (ground (arith, find-entry_of c k v))
    | inr (x, e) ↦
        rw (e, drop_existing)
          (ground (
            arith,
            entry_of-remove_node dec k c.lru x v.unique (find-find_node c k v e),
            find-key c k {e = x} v e,
          ))
  ]
