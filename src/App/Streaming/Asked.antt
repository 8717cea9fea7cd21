-- ===== src/App/Streaming/Asked.antt =====
-- src/app/ViewerWindow.cpp, `pumpStreaming`: what a tick asks of the pipeline.
use scrollviewer.Base.{
  ◌+◌, ◌≡◌, ◌≤◌, ◌<◌, ◌⊎◌, inl, inr, sym, ap, subst, ◌∙◌, true, false, some, List, [], ◌∷◌, All,
  length, u64_mod, max, if◌then◌else◌, Bool-cases,
}
use scrollviewer.Base.Assoc
use scrollviewer.Core.LruCache.Coherent.{Coherent}
use scrollviewer.Data.BrickKey.{key_dec, packed}
use scrollviewer.Data.RamCache
use scrollviewer.Data.RamCache.{Brick, RamCache}
use scrollviewer.Data.Volume.{Volume}
use scrollviewer.Data.Pipeline.{FloatOrder, BrickRequest, find}
use scrollviewer.Data.Pipeline.Wanted.{epoch_of, submit-IsWanted}
use scrollviewer.App.Streaming.{
  Viewer, Tick, Split, split_all, missing_of, pump_main, max_upload_queue, has_key,
}
use scrollviewer.App.Streaming.Sorting.{not_held, IsFed, split_all-Sorted}
use scrollviewer.App.Streaming.Among.{IsAmong}

All-not_held :
    {P : Type 0} (Q : BrickRequest P → Type 0) (ram : RamCache) (rs : List (BrickRequest P))
    → All Q (not_held ram rs)
    → All (λ q. (RamCache.contains ram q.key ≡ true) ⊎ Q q) rs
unfolding not_held
All-not_held Q ram [] h = tt
All-not_held Q ram (r ∷ rs) h = elim (Bool-cases (RamCache.contains ram r.key)) [
  | inl e ↦ (
    inl e,
    All-not_held Q ram rs
        (subst (All Q) (ap (λ b. if b then not_held ram rs else r ∷ not_held ram rs) e) h),
  )
  | inr e ↦
      let both : All Q (r ∷ not_held ram rs) =
        subst (All Q) (ap (λ b. if b then not_held ram rs else r ∷ not_held ram rs) e) h in
      (inr both.0, All-not_held Q ram rs both.1)
]

All-zip :
    {A : Type 0} (P Q R : A → Type 0) (xs : List A)
    → ((x : A) → P x → Q x → R x)
    → All P xs
    → All Q xs
    → All R xs
All-zip P Q R [] h ps qs = tt
All-zip P Q R (x ∷ xs) h ps qs = (h x ps.0 qs.0, All-zip P Q R xs h ps.1 qs.1)

true-false : true ≡ false → ⊥
true-false h = cc

module _ {P : Type 0} ⦃f : FloatOrder P⦄ (vol ov_vol : Volume)
    (nearest : List (BrickRequest P) → List (BrickRequest P)) (t : Tick P) (v : Viewer P) where
  abbrev pub after : Viewer P
  after = (pump_main vol ov_vol nearest t v).0

  -- The key of a brick is in the set of those handed over, and if it was not there before, then the brick that the
  -- RAM cache holds under it waits in the queue; or the queue is full.
  abbrev pub IsQueued : BrickRequest P → Type 0
  IsQueued q =
      ((has_key (packed q.key) after.queued_keys ≡ true)
        × ((has_key (packed q.key) v.queued_keys ≡ true)
            ⊎ IsFed v.ram (packed q.key) after.upload_queue))
      ⊎ (max_upload_queue ≤ length after.upload_queue)

  -- A missing brick is fetched, as wanted by the new epoch, or waits for its upload.
  abbrev pub IsAnswered : BrickRequest P → Type 0
  IsAnswered q =
      (epoch_of (find q.key after.main.pipe) ≡ some (v.main.pipe.current_epoch + 1))
      ⊎ (RamCache.contains v.ram q.key ≡ true) × IsQueued q

  abbrev IsNew : BrickRequest P → Type 0
  IsNew q = epoch_of (find q.key after.main.pipe) ≡ some (v.main.pipe.current_epoch + 1)

  abbrev IsIn : BrickRequest P → Type 0
  IsIn q = (RamCache.contains v.ram q.key ≡ true) ⊎ IsNew q

  abbrev IsSorted : BrickRequest P → Type 0
  IsSorted q =
      (RamCache.contains v.ram q.key ≡ false)
      ⊎ ((has_key (packed q.key) after.queued_keys ≡ true)
          ⊎ (max_upload_queue ≤ length after.upload_queue))

  pub record IsAsked : Type 0 where
    pub asked :
        (pump_main vol ov_vol nearest t v).1 ≡ not_held v.ram (missing_of vol ov_vol nearest t v)
    pub answered : All IsAnswered (missing_of vol ov_vol nearest t v)
    pub waiting : (b : Brick) → IsAmong b v.upload_queue → IsAmong b after.upload_queue
    pub few : length after.upload_queue ≤ max max_upload_queue (length v.upload_queue)

  -- On a coherent RAM cache, with no key tracked twice and the epoch counter below its last
  -- values: of all bricks that the plan and the rays miss, `pumpStreaming` requests those that the
  -- RAM cache does not hold, in their order. Each missing brick is then tracked as wanted by the
  -- new epoch, or it is in the RAM cache and its key is among those handed over: it was so before,
  -- or the brick that the RAM cache holds under this packed key is in the upload queue; unless 256
  -- bricks wait. The bricks that waited still wait, and a queue of at most 256 stays so.
  pub pump_main-IsAsked :
      Coherent key_dec v.ram
      → Assoc.Distinct key_dec v.main.pipe.tracked
      → v.main.pipe.current_epoch + 2 < u64_mod
      → IsAsked
  unfolding pump_main
  pump_main-IsAsked c d small =
      let rs = missing_of vol ov_vol nearest t v in
      let before : Split P = record {
        ram = v.ram;
        upload_queue = v.upload_queue;
        queued_keys = v.queued_keys;
        wanted = [];
      } in
      let s = split_all-Sorted rs before c in
      let epochs = submit-IsWanted vol (split_all rs before).wanted v.main.pipe d small in
      record {
        asked = s.wanted;
        answered =
            All-zip IsSorted IsIn IsAnswered rs
              (λ q a b. elim a [
                | inl out ↦ elim b [
                  | inl held ↦ absurd (true-false (sym held ∙ out))
                  | inr e ↦ inl e
                ]
                | inr (inl k) ↦ elim b [
                  | inl held ↦ inr (held, inl (k, s.fed (packed q.key) k))
                  | inr e ↦ inl e
                ]
                | inr (inr full) ↦ elim b [ inl held ↦ inr (held, inr full) | inr e ↦ inl e ]
              ])
              s.found (All-not_held IsNew v.ram rs (subst (All IsNew) s.wanted epochs));
        waiting = s.stays;
        few = s.few;
      }
