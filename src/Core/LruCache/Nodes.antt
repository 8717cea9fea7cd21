-- ===== src/Core/LruCache/Nodes.antt =====
-- src/core/LruCache.h: the list of entries, searched by key and by node.
use scrollviewer.Base.{ℕ, ◌+◌, ◌<◌, ◌≡◌, refl, Option, none, some, List, [], ◌∷◌, ite, arith, total}
use scrollviewer.Core.LruCache.{Entry, find_node, remove_node, set_pins}

abbrev pub bytes_of : {K V : Type 0} → Entry K V → ℕ
bytes_of e = e.bytes

abbrev pub node_of : {K V : Type 0} → Option (Entry K V) → Option ℕ
node_of none = none
node_of (some e) = some e.node

abbrev pub pins_of : {K V : Type 0} → Option (Entry K V) → Option ℕ
pins_of none = none
pins_of (some e) = some e.pin_count

-- Every node is older than the next one to be made.
abbrev pub Below : {K V : Type 0} → ℕ → List (Entry K V) → Type 0
Below n [] = Unit {0}
Below n (e ∷ es) = (e.node < n) × Below n es

module _ {K V : Type 0} (dec : Discrete K) where
  -- The entry with a key, found by a search of the list.
  unfoldable pub entry_of : K → List (Entry K V) → Option (Entry K V)
  entry_of k [] = none
  entry_of k (e ∷ es) = ite (dec e.key k) (some e) (entry_of k es)

  -- No key and no node occurs twice.
  abbrev pub Unique : List (Entry K V) → Type 0
  Unique [] = Unit {0}
  Unique (e ∷ es) = (entry_of e.key es ≡ none) × (find_node e.node es ≡ none) × Unique es

  pub entry_of-key :
      (k : K) (es : List (Entry K V)) {e : Entry K V} → entry_of k es ≡ some e → e.key ≡ k
  unfolding entry_of
  entry_of-key k [] h = absurd (cc)
  entry_of-key k (x ∷ es) {e} h = ground (arith, entry_of-key k es {e = e})

  pub find_node-entry_of :
      (k : K) (es : List (Entry K V)) (e : Entry K V)
      → Unique es
      → entry_of k es ≡ some e
      → find_node e.node es ≡ some e
  unfolding entry_of find_node
  find_node-entry_of k [] e u h = absurd (cc)
  find_node-entry_of k (x ∷ es) e u h = ground (arith, find_node-entry_of k es e u.2)

  pub entry_of-find_node :
      (es : List (Entry K V)) (e : Entry K V)
      → Unique es
      → find_node e.node es ≡ some e
      → entry_of e.key es ≡ some e
  unfolding entry_of find_node
  entry_of-find_node [] e u h = absurd (cc)
  entry_of-find_node (x ∷ es) e u h = ground (arith, entry_of-find_node es e u.2)

  pub find_node-remove_node :
      (i n : ℕ) (es : List (Entry K V))
      → find_node i es ≡ none
      → find_node i (remove_node n es) ≡ none
  unfolding find_node remove_node
  find_node-remove_node i n [] h = refl
  find_node-remove_node i n (x ∷ es) h = ground (arith, find_node-remove_node i n es)

  pub find_node-remove_node_self :
      (n : ℕ) (es : List (Entry K V)) → Unique es → find_node n (remove_node n es) ≡ none
  unfolding find_node remove_node
  find_node-remove_node_self n [] u = refl
  find_node-remove_node_self n (x ∷ es) u = ground (arith, find_node-remove_node_self n es u.2)

  pub entry_of-remove_node :
      (j : K) (es : List (Entry K V)) (e : Entry K V)
      → Unique es
      → find_node e.node es ≡ some e
      → entry_of j (remove_node e.node es) ≡ ite (dec e.key j) none (entry_of j es)
  unfolding entry_of find_node remove_node
  entry_of-remove_node j [] e u h = absurd (cc)
  entry_of-remove_node j (x ∷ es) e u h =
      ground (arith, entry_of-remove_node j es e u.2, entry_of-find_node es e u.2)

  pub remove_node-Unique :
      (es : List (Entry K V)) (e : Entry K V)
      → Unique es
      → find_node e.node es ≡ some e
      → Unique (remove_node e.node es)
  unfolding entry_of find_node remove_node
  remove_node-Unique [] e u h = tt
  remove_node-Unique (x ∷ es) e u h = ground (
    arith,
    remove_node-Unique es e u.2,
    entry_of-remove_node x.key es e u.2,
    find_node-remove_node x.node e.node es,
  )

  pub entry_of-set_pins :
      (j : K) (es : List (Entry K V)) (e : Entry K V) (p : ℕ)
      → Unique es
      → find_node e.node es ≡ some e
      → entry_of j (set_pins e.node p es)
        ≡ ite (dec e.key j) (some (record e { pin_count = p })) (entry_of j es)
  unfolding entry_of find_node set_pins
  entry_of-set_pins j [] e p u h = absurd (cc)
  entry_of-set_pins j (x ∷ es) e p u h =
      ground (arith, entry_of-set_pins j es e p u.2, entry_of-find_node es e u.2)

  pub find_node-set_pins :
      (i n p : ℕ) (es : List (Entry K V))
      → find_node i es ≡ none
      → find_node i (set_pins n p es) ≡ none
  unfolding find_node set_pins
  find_node-set_pins i n p [] h = refl
  find_node-set_pins i n p (x ∷ es) h = ground (arith, find_node-set_pins i n p es)

  pub set_pins-Unique :
      (es : List (Entry K V)) (e : Entry K V) (p : ℕ)
      → Unique es
      → find_node e.node es ≡ some e
      → Unique (set_pins e.node p es)
  unfolding entry_of find_node set_pins
  set_pins-Unique [] e p u h = tt
  set_pins-Unique (x ∷ es) e p u h = ground (
    arith,
    set_pins-Unique es e p u.2,
    entry_of-set_pins x.key es e p u.2,
    find_node-set_pins x.node e.node p es,
    entry_of-find_node es e u.2,
  )

module _ {K V : Type 0} where
  pub total-remove_node :
      (f : Entry K V → ℕ) (es : List (Entry K V)) (e : Entry K V)
      → find_node e.node es ≡ some e
      → total f (remove_node e.node es) + f e ≡ total f es
  unfolding find_node remove_node
  total-remove_node f [] e h = absurd (cc)
  total-remove_node f (x ∷ es) e h = ground (arith, total-remove_node f es e)

  pub total-set_pins :
      (n p : ℕ) (es : List (Entry K V)) → total bytes_of (set_pins n p es) ≡ total bytes_of es
  unfolding set_pins
  total-set_pins n p [] = refl
  total-set_pins n p (x ∷ es) = ground (arith, total-set_pins n p es)

  pub remove_node-Below :
      (n m : ℕ) (es : List (Entry K V)) → Below m es → Below m (remove_node n es)
  unfolding remove_node
  remove_node-Below n m [] b = tt
  remove_node-Below n m (x ∷ es) b = ground (arith, remove_node-Below n m es b.1)

  pub set_pins-Below : (n p m : ℕ) (es : List (Entry K V)) → Below m es → Below m (set_pins n p es)
  unfolding set_pins
  set_pins-Below n p m [] b = tt
  set_pins-Below n p m (x ∷ es) b = ground (arith, set_pins-Below n p m es b.1)

  pub Below-mono : (m : ℕ) (es : List (Entry K V)) → Below m es → Below (m + 1) es
  Below-mono m [] b = tt
  Below-mono m (x ∷ es) b = (omega arith, Below-mono m es b.1)

  pub find_node-Below : (m : ℕ) (es : List (Entry K V)) → Below m es → find_node m es ≡ none
  unfolding find_node
  find_node-Below m [] b = refl
  find_node-Below m (x ∷ es) b = ground (arith, find_node-Below m es b.1)
