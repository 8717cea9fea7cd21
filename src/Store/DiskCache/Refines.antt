-- ===== src/Store/DiskCache/Refines.antt =====
-- src/store/DiskCacheStore.cpp: reads through the cache, compared with reads of the inner store.
use Prim.Native.String.{String}
use scrollviewer.Base.{
  ℕ, ◌≡◌, sym, ap, ◌∙◌, ◌⊎◌, inl, inr, false, Option, none, some, List, [], if◌then◌else◌, arith,
  Option-cases, Bool-cases,
}
use scrollviewer.Data.Pipeline.{Kind, StoreResult}
use scrollviewer.Store.Files.{FilePath, entry, miss, coded, Files, AreLawful}
use scrollviewer.Store.DiskCache.{
  Transcoder, read_whole_file, look_up_plain, look_up_coded, look_up,
}
use scrollviewer.Store.DiskCache.Coherent.{
  Wrote, Wrote-cases, remove_cases, read_whole_file_content,
}

-- A transcoder may lose something: `Close b c` tells that b may stand for c.
pub record IsFaithful (t : Transcoder) (Close : List ℕ → List ℕ → Type 0) : Type 0 where
  pub close_refl : (b : List ℕ) → Close b b
  pub close_encode : (b e c : List ℕ) → t.encode b ≡ some e → t.decode e ≡ some c → Close c b

module _ {F : Type 0} (fs : Files F) (laws : AreLawful fs) (t : Transcoder)
    (Close : List ℕ → List ℕ → Type 0) (remote : String → StoreResult) where
  -- The bytes may stand for the object under the key.
  abbrev pub Serves : String → List ℕ → Type 0
  Serves k b = (c : List ℕ) × (remote k ≡ StoreResult.bytes c) × Close b c

  -- Each file of the cache agrees with the inner store.
  pub record Coherent (f : F) : Type 0 where
    pub entries : (k : String) (b : List ℕ) → laws.content f (entry k) ≡ some b → Serves k b
    pub misses :
        (k : String) (b : List ℕ)
        → laws.content f (miss k) ≡ some b
        → remote k ≡ StoreResult.error Kind.not_found
    pub codes :
        (k : String) (e b : List ℕ)
        → laws.content f (coded k) ≡ some e
        → t.decode e ≡ some b
        → Serves k b

  -- An answer may stand for the inner store's.
  abbrev pub Answers : String → StoreResult → Type 0
  Answers k (StoreResult.bytes b) = Serves k b
  Answers k (StoreResult.error e) = remote k ≡ StoreResult.error e

  -- Removing a file keeps the cache coherent.
  pub remove-Coherent : (p : FilePath) (f : F) → Coherent f → Coherent (fs.remove p f).0
  remove-Coherent p f v = record {
    entries = λ k b h. v.entries k b (remove_cases fs laws p (entry k) f b h);
    misses = λ k b h. v.misses k b (remove_cases fs laws p (miss k) f b h);
    codes = λ k e b h d. v.codes k e b (remove_cases fs laws p (coded k) f e h) d;
  }

  pub entry-Coherent :
      (k : String) (bytes : List ℕ) (f g : F)
      → Coherent f
      → Wrote fs laws (entry k) bytes f g
      → Serves k bytes
      → Coherent g
  entry-Coherent k bytes f g v w served = record {
    entries = λ j b h. elim (Wrote-cases fs laws (entry k) (entry j) bytes b f g w (λ e. cc) h) [
      | inl (same, new) ↦ let e : j ≡ k = cc in rw (e, new) served
      | inr old ↦ v.entries j b old
    ];
    misses = λ j b h. elim (Wrote-cases fs laws (entry k) (miss j) bytes b f g w (λ e. cc) h) [
      | inl (same, new) ↦ absurd (cc)
      | inr old ↦ v.misses j b old
    ];
    codes = λ j e b h d. elim (Wrote-cases fs laws (entry k) (coded j) bytes e f g w (λ e. cc) h) [
      | inl (same, new) ↦ absurd (cc)
      | inr old ↦ v.codes j e b old d
    ];
  }

  pub miss-Coherent :
      (k : String) (f g : F)
      → Coherent f
      → Wrote fs laws (miss k) [] f g
      → remote k ≡ StoreResult.error Kind.not_found
      → Coherent g
  miss-Coherent k f g v w gone = record {
    entries = λ j b h. elim (Wrote-cases fs laws (miss k) (entry j) [] b f g w (λ e. cc) h) [
      | inl (same, new) ↦ absurd (cc)
      | inr old ↦ v.entries j b old
    ];
    misses = λ j b h. elim (Wrote-cases fs laws (miss k) (miss j) [] b f g w (λ e. cc) h) [
      | inl (same, new) ↦ let e : j ≡ k = cc in rw e gone
      | inr old ↦ v.misses j b old
    ];
    codes = λ j e b h d. elim (Wrote-cases fs laws (miss k) (coded j) [] e f g w (λ e. cc) h) [
      | inl (same, new) ↦ absurd (cc)
      | inr old ↦ v.codes j e b old d
    ];
  }

  pub coded-Coherent :
      (k : String) (enc : List ℕ) (f g : F)
      → Coherent f
      → Wrote fs laws (coded k) enc f g
      → ((b : List ℕ) → t.decode enc ≡ some b → Serves k b)
      → Coherent g
  coded-Coherent k enc f g v w served = record {
    entries = λ j b h. elim (Wrote-cases fs laws (coded k) (entry j) enc b f g w (λ e. cc) h) [
      | inl (same, new) ↦ absurd (cc)
      | inr old ↦ v.entries j b old
    ];
    misses = λ j b h. elim (Wrote-cases fs laws (coded k) (miss j) enc b f g w (λ e. cc) h) [
      | inl (same, new) ↦ absurd (cc)
      | inr old ↦ v.misses j b old
    ];
    codes = λ j e b h d. elim (Wrote-cases fs laws (coded k) (coded j) enc e f g w (λ e. cc) h) [
      | inl (same, new) ↦ let q : j ≡ k = cc in rw q (served b (ap t.decode (sym new) ∙ d))
      | inr old ↦ v.codes j e b old d
    ];
  }

  -- What a look-up may answer; with no answer the read goes on to the inner store.
  abbrev pub MayAnswer : String → Option StoreResult → Type 0
  MayAnswer k none = Unit {0}
  MayAnswer k (some r) = Answers k r

  look_up_miss :
      (k : String) (g : F)
      → Coherent g
      → MayAnswer k (if fs.exists g (miss k) then some (StoreResult.error Kind.not_found) else none)
  look_up_miss k g v = elim (Bool-cases (fs.exists g (miss k))) [
    | inr e ↦ rw e tt
    | inl e ↦ elim (Option-cases (laws.content g (miss k))) [
      | inl none_there ↦ absurd (laws.exists_content g (miss k) e none_there)
      | inr (b, there) ↦ rw e (v.misses k b there)
    ]
  ]

  look_up_plain-Answers :
      (k : String) (f : F)
      → Coherent f
      → Coherent (look_up_plain fs k f).0 × MayAnswer k (look_up_plain fs k f).1
  unfolding look_up_plain
  look_up_plain-Answers k f v = elim (Option-cases (read_whole_file fs (entry k) f)) [
    | inr (b, e) ↦
        rw (e, look_up_plain) (v, v.entries k b (read_whole_file_content fs laws (entry k) f b e))
    | inl e ↦
        let w = remove-Coherent (entry k) f v in
        rw (e, look_up_plain) (w, look_up_miss k (fs.remove (entry k) f).0 w)
  ]

  look_up_coded-Answers :
      (k : String) (f : F)
      → Coherent f
      → Coherent (look_up_coded fs t k f).0 × MayAnswer k (look_up_coded fs t k f).1
  unfolding look_up_coded
  look_up_coded-Answers k f v = elim (Option-cases (read_whole_file fs (coded k) f)) [
    | inl e ↦ rw (e, look_up_coded) (look_up_plain-Answers k f v)
    | inr (stored, e) ↦ elim (Option-cases (t.decode stored)) [
      | inr (b, d) ↦
          rw (e, look_up_coded, d)
            (v, v.codes k stored b (read_whole_file_content fs laws (coded k) f stored e) d)
      | inl d ↦
          rw (e, look_up_coded, d)
            (look_up_plain-Answers k (fs.remove (coded k) f).0 (remove-Coherent (coded k) f v))
    ]
  ]

  -- The transcoder of the model, or none.
  abbrev pub Installed : Option Transcoder → Type 0
  Installed tp = (tp ≡ none) ⊎ (tp ≡ some t)

  pub look_up-Answers :
      (tp : Option Transcoder) (k : String) (f : F)
      → Installed tp
      → Coherent f
      → Coherent (look_up fs tp k false f).0 × MayAnswer k (look_up fs tp k false f).1
  unfolding look_up
  look_up-Answers none k f i v = look_up_plain-Answers k f v
  look_up-Answers (some u) k f i v =
      let same : u ≡ t = ground arith in rw same (look_up_coded-Answers k f v)
