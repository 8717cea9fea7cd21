-- ===== src/App/Streaming/Routed.antt =====
-- src/app/ViewerWindow.cpp, `preRenderUpload`: each decoded brick is unpinned once, and handed over.
use scrollviewer.Base.{
  ℕ, ◌-◌, ◌≡◌, ◌≤◌, ◌⊎◌, inl, inr, refl, ap, ◌∙◌, Bool, true, false, Option, none, some, List, [],
  ◌∷◌, ◌++◌, ==_iff, ite, All, total, length, length-append, ◌==◌, leb, if◌then◌else◌, arith,
  Bool-cases,
}
use scrollviewer.Core.LruCache.{Entry}
use scrollviewer.Core.LruCache.Coherent.{Coherent, unpin-Coherent}
use scrollviewer.Core.LruCache.Nodes.{entry_of}
use scrollviewer.Core.LruCache.Reads.{pin-entry_of, with_pins}
use scrollviewer.Data.BrickKey.{BrickKey, key_dec, packed}
use scrollviewer.Data.RamCache
use scrollviewer.Data.RamCache.{Brick, RamCache}
use scrollviewer.Data.Volume.{Volume}
use scrollviewer.Data.Pipeline.{FloatOrder, drain_ready, unpin}
use scrollviewer.Render.Uploader.{enqueue, kick_workers, max_pending}
use scrollviewer.App.Streaming.Among.{IsAmong, IsAmong-append, IsAmong_last}
use scrollviewer.App.Streaming.{has_key, erase_key}
use scrollviewer.App.Streaming.Upload.{Route, mark, hand_over, route_one, route_all, route_ready}

abbrev pins_in : Option (Entry BrickKey Brick) → ℕ
pins_in none = 0
pins_in (some e) = e.pin_count

-- The pins of a key in the RAM cache.
unfoldable pub pins_of : RamCache → BrickKey → ℕ
pins_of ram j = pins_in (entry_of key_dec j ram.lru)

abbrev pub one_at : BrickKey → BrickKey → ℕ
one_at j k = ite (key_dec k j) 1 0

-- How many of the bricks have the key.
abbrev pub times : BrickKey → List Brick → ℕ
times j = total (λ b. one_at j b.key)

pins_in-with_pins :
    (o : Option (Entry BrickKey Brick)) → pins_in (with_pins (λ p. p - 1) o) ≡ pins_in o - 1
pins_in-with_pins none = omega arith
pins_in-with_pins (some e) = refl

unpin-pins_of :
    (ram : RamCache) (k j : BrickKey)
    → Coherent key_dec ram
    → pins_of (RamCache.unpin ram k) j ≡ pins_of ram j - one_at j k
unfolding pins_of RamCache.unpin
unpin-pins_of ram k j c =
    ap pins_in (pin-entry_of key_dec ram k j c).1
    ∙ elim (key_dec k j)
        as (λ d.
          pins_in (
            ite d (with_pins (λ p. p - 1) (entry_of key_dec j ram.lru))
              (entry_of key_dec j ram.lru))
          ≡ pins_in (entry_of key_dec j ram.lru) - ite d 1 0) [
            | yes e ↦ pins_in-with_pins (entry_of key_dec j ram.lru)
            | no ne ↦ omega arith
          ]

ram_unpin-Coherent :
    (ram : RamCache) (k : BrickKey) → Coherent key_dec ram → Coherent key_dec (RamCache.unpin ram k)
unfolding RamCache.unpin
ram_unpin-Coherent ram k c = unpin-Coherent key_dec ram k c

erase_key_fresh : (k : ℕ) (ks : List ℕ) → has_key k ks ≡ false → erase_key k ks ≡ ks
unfolding has_key erase_key
erase_key_fresh k [] h = refl
erase_key_fresh k (j ∷ js) h = elim (Bool-cases (j == k)) [
  | inl e ↦ absurd (ground arith)
  | inr e ↦ rw (erase_key, e) (ap (λ t. j ∷ t) (erase_key_fresh k js (ground arith)))
]

erase_key_head : (k : ℕ) (ks : List ℕ) → erase_key k (k ∷ ks) ≡ erase_key k ks
unfolding erase_key
erase_key_head k ks = ground arith

fed_fresh :
    (pinned : Bool) (b : Brick) (ks : List ℕ) (pending : List (Brick × Bool)) (k : ℕ)
    → has_key k (packed b.key ∷ ks) ≡ true
    → (has_key k ks ≡ true)
      ⊎ ((packed b.key ≡ k) × IsAmong (b, pinned) (pending ++ ((b, pinned) ∷ [])))
unfolding has_key
fed_fresh pinned b ks pending k h = elim (Bool-cases (packed b.key == k)) [
  | inl e ↦ inr ((==_iff (packed b.key) k).0 e, IsAmong_last (b, pinned) pending)
  | inr e ↦ inl (ground (arith, h, e))
]

module _ {P : Type 0} where
  -- The brick's key is in the set of those handed over, or the uploader's queue is full.
  abbrev IsHanded : Route P → Brick → Type 0
  IsHanded r b =
      (has_key (packed b.key) r.queued_keys ≡ true)
      ⊎ (max_pending ≤ length r.stack.uploader.pending)

  record Handed (pinned : Bool) (b : Brick) (r r' : Route P) : Type 0 where
    ram : r'.ram ≡ r.ram
    kept : (k : ℕ) → has_key k r.queued_keys ≡ true → has_key k r'.queued_keys ≡ true
    grows : length r.stack.uploader.pending ≤ length r'.stack.uploader.pending
    stays :
        (c : Brick × Bool)
        → IsAmong c r.stack.uploader.pending
        → IsAmong c r'.stack.uploader.pending
    fed :
        (k : ℕ)
        → has_key k r'.queued_keys ≡ true
        → (has_key k r.queued_keys ≡ true)
          ⊎ ((packed b.key ≡ k) × IsAmong (b, pinned) r'.stack.uploader.pending)
    handed : IsHanded r' b

  hand_over-Handed :
      (pinned : Bool) (b : Brick) (r : Route P) → Handed pinned b r (hand_over pinned b r)
  unfolding hand_over enqueue kick_workers has_key
  hand_over-Handed pinned b r = elim (Bool-cases (has_key (packed b.key) r.queued_keys)) [
    | inl known ↦
        rw (hand_over, known)
          (record {
            ram = refl;
            kept = λ k h. h;
            grows = omega arith;
            stays = λ c h. h;
            fed = λ k h. inl h;
            handed = inl known;
          })
    | inr fresh ↦ elim (Bool-cases (leb max_pending (length r.stack.uploader.pending))) [
      | inl full ↦
          let same =
            erase_key_head (packed b.key) r.queued_keys
            ∙ erase_key_fresh (packed b.key) r.queued_keys fresh in
          rw (hand_over, fresh, enqueue, full, same)
            (record {
              ram = refl;
              kept = λ k h. h;
              grows = omega arith;
              stays = λ c h. h;
              fed = λ k h. inl h;
              handed = inr (ground arith);
            })
      | inr room ↦
          rw (hand_over, fresh, enqueue, room)
            (record {
              ram = refl;
              kept = λ k h. ground arith;
              grows = omega (arith, length-append r.stack.uploader.pending ((b, pinned) ∷ []));
              stays = λ c h. IsAmong-append c r.stack.uploader.pending ((b, pinned) ∷ []) h;
              fed = fed_fresh pinned b r.queued_keys r.stack.uploader.pending;
              handed = inl (ground arith);
            })
    ]
  ]

module _ {P : Type 0} ⦃f : FloatOrder P⦄ (vol : Volume) (pinned : BrickKey → Bool) where
  -- One of the bricks has a key with this number and is in the uploader's queue, with its pin.
  abbrev pub IsFed : List Brick → ℕ → Route P → Type 0
  IsFed bs k r =
      (b : Brick) × (packed b.key ≡ k)
      × IsAmong b bs
      × IsAmong (b, pinned b.key) r.stack.uploader.pending

  -- What the loop does to the bricks, in order.
  record Sent (bs : List Brick) (r r' : Route P) : Type 0 where
    coherent : Coherent key_dec r'.ram
    pins : (j : BrickKey) → pins_of r'.ram j ≡ pins_of r.ram j - times j bs
    kept : (k : ℕ) → has_key k r.queued_keys ≡ true → has_key k r'.queued_keys ≡ true
    grows : length r.stack.uploader.pending ≤ length r'.stack.uploader.pending
    stays :
        (c : Brick × Bool)
        → IsAmong c r.stack.uploader.pending
        → IsAmong c r'.stack.uploader.pending
    fed :
        (k : ℕ) → has_key k r'.queued_keys ≡ true → (has_key k r.queued_keys ≡ true) ⊎ IsFed bs k r'
    handed : All (λ b. (b.is_fill_value ≡ true) ⊎ IsHanded r' b) bs

  -- A brick is handed over: its key is in the set, and if it was not there before, a brick with this packed key
  -- has come into the uploader's queue; or this queue is full.
  abbrev pub IsTaken : List Brick → Route P → Route P → Brick → Type 0
  IsTaken bs r r' b =
      ((has_key (packed b.key) r'.queued_keys ≡ true)
        × ((has_key (packed b.key) r.queued_keys ≡ true) ⊎ IsFed bs (packed b.key) r'))
      ⊎ (max_pending ≤ length r'.stack.uploader.pending)

  pub record Routed (bs : List Brick) (r r' : Route P) : Type 0 where
    pub coherent : Coherent key_dec r'.ram
    pub pins : (j : BrickKey) → pins_of r'.ram j ≡ pins_of r.ram j - times j bs
    pub kept : (k : ℕ) → has_key k r.queued_keys ≡ true → has_key k r'.queued_keys ≡ true
    pub stays :
        (c : Brick × Bool)
        → IsAmong c r.stack.uploader.pending
        → IsAmong c r'.stack.uploader.pending
    pub handed : All (λ b. (b.is_fill_value ≡ true) ⊎ IsTaken bs r r' b) bs

  All-IsTaken :
      (bs cs : List Brick) (r r' : Route P)
      → ((k : ℕ)
          → has_key k r'.queued_keys ≡ true
          → (has_key k r.queued_keys ≡ true) ⊎ IsFed bs k r')
      → All (λ b. (b.is_fill_value ≡ true) ⊎ IsHanded r' b) cs
      → All (λ b. (b.is_fill_value ≡ true) ⊎ IsTaken bs r r' b) cs
  All-IsTaken bs [] r r' fed h = tt
  All-IsTaken bs (c ∷ cs) r r' fed (h, hs) = (
    elim h [
      | inl fill ↦ inl fill
      | inr (inl k) ↦ inr (inl (k, fed (packed c.key) k))
      | inr (inr full) ↦ inr (inr full)
    ],
    All-IsTaken bs cs r r' fed hs,
  )

  IsHanded-grows :
      (b : Brick) (r r' : Route P)
      → ((k : ℕ) → has_key k r.queued_keys ≡ true → has_key k r'.queued_keys ≡ true)
      → length r.stack.uploader.pending ≤ length r'.stack.uploader.pending
      → IsHanded r b
      → IsHanded r' b
  IsHanded-grows b r r' kept grows (inl h) = inl (kept (packed b.key) h)
  IsHanded-grows b r r' kept grows (inr h) = inr (omega arith)

  -- The end of a round, after either branch.
  abbrev release : Brick → Route P → Route P
  release b r = record r {
    stack = record r.stack { pipe = unpin vol b.key r.stack.pipe };
    ram = RamCache.unpin r.ram b.key;
  }

  release-Sent :
      (b : Brick) (r : Route P) (fill : Bool)
      → Coherent key_dec r.ram
      → b.is_fill_value ≡ fill
      → Sent (b ∷ []) r (
          release b (
            if fill then record r { stack = mark b.key r.stack } else hand_over (pinned b.key) b r))
  release-Sent b r true c e = record {
    coherent = ram_unpin-Coherent r.ram b.key c;
    pins = λ j. unpin-pins_of r.ram b.key j c ∙ omega arith;
    kept = λ k h. h;
    grows = omega arith;
    stays = λ c h. h;
    fed = λ k h. inl h;
    handed = (inl e, tt);
  }
  release-Sent b r false c e =
      let h = hand_over-Handed (pinned b.key) b r in
      record {
        coherent = rw (h.ram) (ram_unpin-Coherent r.ram b.key c);
        pins = λ j. rw (h.ram) (unpin-pins_of r.ram b.key j c ∙ omega arith);
        kept = h.kept;
        grows = h.grows;
        stays = h.stays;
        fed = λ k g. elim (h.fed k g) [
          | inl old ↦ inl old
          | inr (same, among) ↦ inr (b, same, inl refl, among)
        ];
        handed = (inr h.handed, tt);
      }

  route_one-Sent :
      (b : Brick) (r : Route P)
      → Coherent key_dec r.ram
      → Sent (b ∷ []) r (route_one vol pinned b r)
  unfolding route_one
  route_one-Sent b r c = release-Sent b r b.is_fill_value c refl

  route_all-Sent :
      (bs : List Brick) (r : Route P)
      → Coherent key_dec r.ram
      → Sent bs r (route_all vol pinned bs r)
  unfolding route_all
  route_all-Sent [] r c = record {
    coherent = c;
    pins = λ j. omega arith;
    kept = λ k h. h;
    grows = omega arith;
    stays = λ c h. h;
    fed = λ k h. inl h;
    handed = tt;
  }
  route_all-Sent (b ∷ bs) r c =
      let one = route_one-Sent b r c in
      let next = route_one vol pinned b r in
      let rest = route_all-Sent bs next one.coherent in
      record {
        coherent = rest.coherent;
        pins = λ j. omega (arith, rest.pins j, one.pins j);
        kept = λ k h. rest.kept k (one.kept k h);
        grows = omega (arith, one.grows, rest.grows);
        stays = λ c h. rest.stays c (one.stays c h);
        fed = λ k h. elim (rest.fed k h) [
          | inl mid ↦ elim (one.fed k mid) [
            | inl old ↦ inl old
            | inr (d, e, inl here, among) ↦ inr (d, e, inl here, rest.stays (d, pinned d.key) among)
            | inr (d, e, inr nowhere, among) ↦ absurd nowhere
          ]
          | inr (d, e, later, among) ↦ inr (d, e, inr later, among)
        ];
        handed = (
          elim one.handed.0 [
            | inl fill ↦ inl fill
            | inr h ↦
                inr (IsHanded-grows b next (route_all vol pinned bs next) rest.kept rest.grows h)
          ],
          rest.handed,
        );
      }

  -- On a coherent RAM cache, the loop over the decoded bricks takes one pin from a key for each
  -- brick with it, what waits in the uploader's queue still waits, and of each brick that is not one
  -- fill value the key is among those handed over afterwards: it was so before, or one of the bricks
  -- with this packed key has come into the uploader's queue, with its pin; unless this queue is full.
  pub route_ready-Routed :
      (r : Route P)
      → Coherent key_dec r.ram
      → Routed r.stack.pipe.ready r (route_ready vol pinned r)
  unfolding route_ready drain_ready
  route_ready-Routed r c =
      let s = route_all-Sent r.stack.pipe.ready _ c in
      record {
        coherent = s.coherent;
        pins = s.pins;
        kept = s.kept;
        stays = s.stays;
        handed =
            All-IsTaken r.stack.pipe.ready r.stack.pipe.ready r (route_ready vol pinned r) s.fed
              s.handed;
      }
