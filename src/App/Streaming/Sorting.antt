-- ===== src/App/Streaming/Sorting.antt =====
-- src/app/ViewerWindow.cpp, `pumpStreaming`: which of the missing bricks are requested, and which wait for
-- their upload.
use scrollviewer.Base.{
  ℕ, ◌≡◌, ◌≤◌, ◌⊎◌, inl, inr, refl, sym, ap, ◌∙◌, true, false, Option, none, some, List, [], ◌∷◌,
  ◌++◌, All, append_assoc, length, length-append, max, ltb, ◌==◌, ==_iff, if◌then◌else◌, arith,
  Bool-cases,
}
use mathlib.Core.List.{append-nil}
use scrollviewer.Core.LruCache.{Entry}
use scrollviewer.Core.LruCache.Coherent.{Coherent, get-Coherent}
use scrollviewer.Core.LruCache.Nodes.{entry_of}
use scrollviewer.Core.LruCache.Reads.{get-entry_of, value_of, is_some}
use scrollviewer.Data.BrickKey.{BrickKey, key_dec, packed}
use scrollviewer.Data.RamCache
use scrollviewer.Data.RamCache.{Brick, RamCache}
use scrollviewer.Data.RamCache.Reads
use scrollviewer.Data.RamCache.Reads.{get_again}
use scrollviewer.Data.Pipeline.{BrickRequest}
use scrollviewer.App.Streaming.Among.{IsAmong, IsAmong-append, IsAmong_last}
use scrollviewer.App.Streaming.{Split, split_hit, split_one, split_all, has_key, max_upload_queue}

-- The requests whose bricks the cache does not hold.
unfoldable pub not_held : {P : Type 0} → RamCache → List (BrickRequest P) → List (BrickRequest P)
not_held ram [] = []
not_held ram (r ∷ rs) = if RamCache.contains ram r.key then not_held ram rs else r ∷ not_held ram rs

get-contains :
    (ram : RamCache) (k j : BrickKey)
    → Coherent key_dec ram
    → RamCache.contains (RamCache.get ram k).0 j ≡ RamCache.contains ram j
unfolding RamCache.get RamCache.contains
get-contains ram k j c =
    (get-entry_of key_dec (RamCache.get ram k).0 j (get-Coherent key_dec ram k c)).1
    ∙ ap is_some ((get-entry_of key_dec ram k c).3 j)
    ∙ sym (get-entry_of key_dec ram j c).1

is_some-value_of :
    {K V : Type 0} (o : Option (Entry K V)) (a : Option V)
    → a ≡ value_of o
    → ((a ≡ none) × (is_some o ≡ false)) ⊎ ((v : V) × (a ≡ some v) × (is_some o ≡ true))
is_some-value_of none a h = inl (h, refl)
is_some-value_of (some e) a h = inr (e.value, h, refl)

-- A get misses exactly when the cache does not hold the key.
get_cases :
    (ram : RamCache) (k : BrickKey)
    → Coherent key_dec ram
    → (((RamCache.get ram k).1 ≡ none) × (RamCache.contains ram k ≡ false))
      ⊎ ((b : Brick) × ((RamCache.get ram k).1 ≡ some b) × (RamCache.contains ram k ≡ true))
unfolding RamCache.get RamCache.contains
get_cases ram k c =
    let facts = get-entry_of key_dec ram k c in
    elim (is_some-value_of (entry_of key_dec k ram.lru) _ facts.0) [
      | inl (miss, out) ↦ inl (miss, facts.1 ∙ out)
      | inr (b, hit, yes_in) ↦ inr (b, hit, facts.1 ∙ yes_in)
    ]

not_held_eq :
    {P : Type 0} (a b : RamCache) (rs : List (BrickRequest P))
    → ((k : BrickKey) → RamCache.contains a k ≡ RamCache.contains b k)
    → not_held a rs ≡ not_held b rs
unfolding not_held
not_held_eq a b [] h = refl
not_held_eq a b (r ∷ rs) h = rw (not_held, h r.key, not_held_eq a b rs h) refl

-- A queue has the brick that the cache holds under a key with this number.
abbrev pub IsFed : RamCache → ℕ → List Brick → Type 0
IsFed ram k queue =
    (j : BrickKey) × (b : Brick) × (packed j ≡ k)
    × ((RamCache.get ram j).1 ≡ some b)
    × IsAmong b queue

-- The key of a request is in the set, or the queue is full.
abbrev IsKept : {P : Type 0} → Split P → BrickRequest P → Type 0
IsKept s r =
    (has_key (packed r.key) s.queued_keys ≡ true) ⊎ (max_upload_queue ≤ length s.upload_queue)

module _ {P : Type 0} where
  pub record Sorted (rs : List (BrickRequest P)) (s r : Split P) : Type 0 where
    pub coherent : Coherent key_dec r.ram
    pub same : (k : BrickKey) → RamCache.contains r.ram k ≡ RamCache.contains s.ram k
    pub wanted : r.wanted ≡ s.wanted ++ not_held s.ram rs
    pub grows : length s.upload_queue ≤ length r.upload_queue
    pub few : length r.upload_queue ≤ max max_upload_queue (length s.upload_queue)
    pub kept : (k : ℕ) → has_key k s.queued_keys ≡ true → has_key k r.queued_keys ≡ true
    pub same_get : (k : BrickKey) → (RamCache.get r.ram k).1 ≡ (RamCache.get s.ram k).1
    pub stays : (b : Brick) → IsAmong b s.upload_queue → IsAmong b r.upload_queue
    pub fed :
        (k : ℕ)
        → has_key k r.queued_keys ≡ true
        → (has_key k s.queued_keys ≡ true) ⊎ IsFed s.ram k r.upload_queue
    pub found : All (λ q. (RamCache.contains s.ram q.key ≡ false) ⊎ IsKept r q) rs

  record Hit (q : BrickRequest P) (b : Brick) (s r : Split P) : Type 0 where
    ram : r.ram ≡ s.ram
    wanted : r.wanted ≡ s.wanted
    grows : length s.upload_queue ≤ length r.upload_queue
    few : length r.upload_queue ≤ max max_upload_queue (length s.upload_queue)
    kept : (k : ℕ) → has_key k s.queued_keys ≡ true → has_key k r.queued_keys ≡ true
    stays : (c : Brick) → IsAmong c s.upload_queue → IsAmong c r.upload_queue
    fed :
        (k : ℕ)
        → has_key k r.queued_keys ≡ true
        → (has_key k s.queued_keys ≡ true) ⊎ ((packed q.key ≡ k) × IsAmong b r.upload_queue)
    found : IsKept r q

  fed_fresh :
      (q : BrickRequest P) (b : Brick) (s : Split P) (k : ℕ)
      → has_key k (packed q.key ∷ s.queued_keys) ≡ true
      → (has_key k s.queued_keys ≡ true)
        ⊎ ((packed q.key ≡ k) × IsAmong b (s.upload_queue ++ (b ∷ [])))
  unfolding has_key
  fed_fresh q b s k h = elim (Bool-cases (packed q.key == k)) [
    | inl e ↦ inr ((==_iff (packed q.key) k).0 e, IsAmong_last b s.upload_queue)
    | inr e ↦ inl (ground (arith, h, e))
  ]

  split_hit-Hit : (q : BrickRequest P) (b : Brick) (s : Split P) → Hit q b s (split_hit q b s)
  unfolding split_hit has_key
  split_hit-Hit q b s = elim (Bool-cases (ltb (length s.upload_queue) max_upload_queue)) [
    | inr full ↦
        rw (split_hit, full)
          (record {
            ram = refl;
            wanted = refl;
            grows = omega arith;
            few = omega arith;
            kept = λ k h. h;
            stays = λ c h. h;
            fed = λ k h. inl h;
            found = inr (ground arith);
          })
    | inl room ↦ elim (Bool-cases (has_key (packed q.key) s.queued_keys)) [
      | inl known ↦
          rw (split_hit, room, known)
            (record {
              ram = refl;
              wanted = refl;
              grows = omega arith;
              few = omega arith;
              kept = λ k h. h;
              stays = λ c h. h;
              fed = λ k h. inl h;
              found = inl known;
            })
      | inr fresh ↦
          rw (split_hit, room, fresh)
            (record {
              ram = refl;
              wanted = refl;
              grows = omega (arith, length-append s.upload_queue (b ∷ []));
              few = ground (arith, length-append s.upload_queue (b ∷ []));
              kept = λ k h. ground arith;
              stays = λ c h. IsAmong-append c s.upload_queue (b ∷ []) h;
              fed = fed_fresh q b s;
              found = inl (ground arith);
            })
    ]
  ]

  IsKept-grows :
      (q : BrickRequest P) (s r : Split P)
      → ((k : ℕ) → has_key k s.queued_keys ≡ true → has_key k r.queued_keys ≡ true)
      → length s.upload_queue ≤ length r.upload_queue
      → IsKept s q
      → IsKept r q
  IsKept-grows q s r kept grows (inl h) = inl (kept (packed q.key) h)
  IsKept-grows q s r kept grows (inr h) = inr (omega arith)

  not_held_out :
      (ram : RamCache) (q : BrickRequest P)
      → RamCache.contains ram q.key ≡ false
      → not_held ram (q ∷ []) ≡ q ∷ []
  unfolding not_held
  not_held_out ram q e = rw (not_held, e) refl

  not_held_in :
      (ram : RamCache) (q : BrickRequest P)
      → RamCache.contains ram q.key ≡ true
      → not_held ram (q ∷ []) ≡ []
  unfolding not_held
  not_held_in ram q e = rw (not_held, e) refl

  -- What one round does, of either kind.
  split_one-Sorted :
      (q : BrickRequest P) (s : Split P)
      → Coherent key_dec s.ram
      → Sorted (q ∷ []) s (split_one q s)
  unfolding split_one not_held
  split_one-Sorted q s c =
      let next : Split P = record s { ram = (RamCache.get s.ram q.key).0 } in
      let keeps : (k : BrickKey) → RamCache.contains next.ram k ≡ RamCache.contains s.ram k =
        λ k. get-contains s.ram q.key k c in
      let again : (k : BrickKey) → (RamCache.get next.ram k).1 ≡ (RamCache.get s.ram k).1 =
        λ k. get_again s.ram q.key k c in
      elim (get_cases s.ram q.key c) [
        | inl (miss, out) ↦
            rw (split_one, miss)
              (record {
                coherent = Reads.get-Coherent s.ram q.key c;
                same = keeps;
                wanted = ap (λ w. s.wanted ++ w) (sym (not_held_out s.ram q out));
                grows = omega arith;
                few = omega arith;
                kept = λ k h. h;
                same_get = again;
                stays = λ b h. h;
                fed = λ k h. inl h;
                found = (inl out, tt);
              })
        | inr (b, hit, held) ↦
            let r = split_hit-Hit q b next in
            rw (split_one, hit)
              (record {
                coherent = rw (r.ram) (Reads.get-Coherent s.ram q.key c);
                same = λ k. rw (r.ram) (keeps k);
                wanted =
                    r.wanted
                    ∙ sym (append-nil s.wanted)
                    ∙ ap (λ w. s.wanted ++ w) (sym (not_held_in s.ram q held));
                grows = r.grows;
                few = r.few;
                kept = r.kept;
                same_get = λ k. rw (r.ram) (again k);
                stays = r.stays;
                fed = λ k h. elim (r.fed k h) [
                  | inl old ↦ inl old
                  | inr (e, among) ↦ inr (q.key, b, e, hit, among)
                ];
                found = (inr r.found, tt);
              })
      ]

  not_held-cons :
      (ram : RamCache) (q : BrickRequest P) (rs : List (BrickRequest P))
      → not_held ram (q ∷ rs) ≡ not_held ram (q ∷ []) ++ not_held ram rs
  unfolding not_held
  not_held-cons ram q rs = elim (Bool-cases (RamCache.contains ram q.key)) [
    | inl e ↦ rw (not_held, e) refl
    | inr e ↦ rw (not_held, e) refl
  ]

  found_later :
      (rs : List (BrickRequest P)) (a b : RamCache) (r : Split P)
      → ((k : BrickKey) → RamCache.contains a k ≡ RamCache.contains b k)
      → All (λ q. (RamCache.contains a q.key ≡ false) ⊎ IsKept r q) rs
      → All (λ q. (RamCache.contains b q.key ≡ false) ⊎ IsKept r q) rs
  found_later [] a b r same h = tt
  found_later (q ∷ rs) a b r same (h, hs) = (
    elim h [ inl out ↦ inl (sym (same q.key) ∙ out) | inr k ↦ inr k ],
    found_later rs a b r same hs,
  )

  pub split_all-Sorted :
      (rs : List (BrickRequest P)) (s : Split P)
      → Coherent key_dec s.ram
      → Sorted rs s (split_all rs s)
  unfolding split_all not_held
  split_all-Sorted [] s c = record {
    coherent = c;
    same = λ k. refl;
    wanted = sym (append-nil s.wanted);
    grows = omega arith;
    few = omega arith;
    kept = λ k h. h;
    same_get = λ k. refl;
    stays = λ b h. h;
    fed = λ k h. inl h;
    found = tt;
  }
  split_all-Sorted (q ∷ rs) s c =
      let one = split_one-Sorted q s c in
      let t = split_one q s in
      let rest = split_all-Sorted rs t one.coherent in
      record {
        coherent = rest.coherent;
        same = λ k. rest.same k ∙ one.same k;
        wanted =
            rest.wanted
            ∙ ap (λ w. w ++ not_held t.ram rs) one.wanted
            ∙ append_assoc s.wanted (not_held s.ram (q ∷ [])) (not_held t.ram rs)
            ∙ ap (λ w. s.wanted ++ (not_held s.ram (q ∷ []) ++ w))
                (not_held_eq t.ram s.ram rs one.same)
            ∙ ap (λ w. s.wanted ++ w) (sym (not_held-cons s.ram q rs));
        grows = omega (arith, one.grows, rest.grows);
        few = omega (arith, one.few, rest.few);
        kept = λ k h. rest.kept k (one.kept k h);
        same_get = λ k. rest.same_get k ∙ one.same_get k;
        stays = λ b h. rest.stays b (one.stays b h);
        fed = λ k h. elim (rest.fed k h) [
          | inl mid ↦ elim (one.fed k mid) [
            | inl old ↦ inl old
            | inr (j, b, e, g, among) ↦ inr (j, b, e, g, rest.stays b among)
          ]
          | inr (j, b, e, g, among) ↦ inr (j, b, e, sym (one.same_get j) ∙ g, among)
        ];
        found = (
          elim (one.found.0) [
            | inl out ↦ inl out
            | inr k ↦ inr (IsKept-grows q t (split_all rs t) rest.kept rest.grows k)
          ],
          found_later rs t.ram s.ram (split_all rs t) one.same rest.found,
        );
      }
