-- ===== src/Store/DiskCache/Coherent.antt =====
-- src/store/DiskCacheStore.cpp: what the operations do to the content of the cache.
use Prim.Native.String.{String}
use text.Mathlib.Text.{◌==◌ as str_eq}
use text.Mathlib.TextEquality.{eq_iff}
use scrollviewer.Base.{
  ℕ, ◌≡◌, ◌≢◌, refl, sym, ◌∙◌, ◌⊎◌, inl, inr, Bool, true, false, some, List, length, arith,
  Option-cases, Bool-cases, ==_iff, ◌==◌,
}
use scrollviewer.Store.Files.{FilePath, entry, miss, coded, temp, Files, AreLawful, DoAllClose}
use scrollviewer.Store.DiskCache.{replace_target, write_file_atomic, read_opened, read_whole_file}

string_dec : Discrete String
string_dec j k = elim (Bool-cases (str_eq j k)) [
  | inl e ↦ yes ((eq_iff j k).0 e)
  | inr e ↦ no (λ h. ground (arith, eq_iff j k))
]

pub path_dec : Discrete FilePath
path_dec = hlevel string_dec

temp_ne : (p : FilePath) → p ≢ temp p
temp_ne (entry k) = λ h. cc
temp_ne (miss k) = λ h. cc
temp_ne (coded k) = λ h. cc
temp_ne (temp p) = λ h. temp_ne p (ground arith)

module _ {F : Type 0} (fs : Files F) (laws : AreLawful fs) where
  -- The target has the bytes, or what it had before; other files are as they were.
  pub record Wrote (target : FilePath) (bytes : List ℕ) (f g : F) : Type 0 where
    pub at_target :
        (laws.content g target ≡ some bytes) ⊎ (laws.content g target ≡ laws.content f target)
    pub elsewhere :
        (q : FilePath) → q ≢ target → q ≢ temp target → laws.content g q ≡ laws.content f q

  module _ (target : FilePath) (bytes : List ℕ) (f f4 : F)
      (kept : (q : FilePath) → q ≢ temp target → laws.content f4 q ≡ laws.content f q) where
    remove_temp-Wrote :
        (g : F)
        → ((q : FilePath) → q ≢ temp target → laws.content g q ≡ laws.content f q)
        → Wrote target bytes f (fs.remove (temp target) g).0
    remove_temp-Wrote g same = record {
      at_target =
          inr
            (laws.remove_ne g (temp target) target (temp_ne target) ∙ same target (temp_ne target));
      elsewhere = λ q h k. laws.remove_ne g (temp target) q k ∙ same q k;
    }

    rename-Wrote :
        laws.content f4 (temp target) ≡ some bytes
        → (fs.rename (temp target) target f4).1 ≡ true
        → Wrote target bytes f (fs.rename (temp target) target f4).0
    rename-Wrote full moved = record {
      at_target = inl (laws.rename_self f4 (temp target) target moved ∙ full);
      elsewhere = λ q h k. laws.rename_ne f4 (temp target) target q k h ∙ kept q k;
    }

    replace_target-Wrote :
        (whole : Bool)
        → (whole ≡ true → laws.content f4 (temp target) ≡ some bytes)
        → Wrote target bytes f (replace_target fs target whole f4).0
    unfolding replace_target
    replace_target-Wrote false full = remove_temp-Wrote f4 kept
    replace_target-Wrote true full = elim (Bool-cases (fs.rename (temp target) target f4).1) [
      | inl moved ↦ rw (moved) (rename-Wrote (full refl) moved)
      | inr failed ↦ rw (failed) (
          remove_temp-Wrote (fs.rename (temp target) target f4).0
            (λ q k. laws.rename_failed f4 (temp target) target q failed ∙ kept q k))
    ]

  pub write_file_atomic-Wrote :
      (closes : DoAllClose fs) (target : FilePath) (bytes : List ℕ) (f : F)
      → Wrote target bytes f (write_file_atomic fs target bytes f).0
  unfolding write_file_atomic
  write_file_atomic-Wrote closes target bytes f =
      let f1 : F = fs.create_parents target f in
      elim (Option-cases (fs.open_write (temp target) f1)) [
        | inl e ↦
            rw (e, write_file_atomic)
              (record {
                at_target = inr (laws.create_parents_content f target target);
                elsewhere = λ q h k. laws.create_parents_content f target q;
              })
        | inr (f2, e) ↦
            let n : ℕ = (fs.fwrite (temp target) bytes f2).1 in
            rw (e, write_file_atomic)
              (replace_target-Wrote target bytes f
                (fs.close (temp target) (fs.fwrite (temp target) bytes f2).0).0
                (λ q k.
                  laws.written_ne f2 (temp target) q bytes k
                  ∙ laws.open_write_ne f1 f2 (temp target) q e k
                  ∙ laws.create_parents_content f target q)
                (n == length bytes)
                (λ h.
                  let whole : n ≡ length bytes = (==_iff n (length bytes)).0 h in
                  laws.written_whole f1 f2 (temp target) bytes e whole
                    (closes f2 (temp target) bytes whole)))
      ]

  -- What `readWholeFile` reads is the content of the file.
  pub read_whole_file_content :
      (p : FilePath) (f : F) (bs : List ℕ)
      → read_whole_file fs p f ≡ some bs
      → laws.content f p ≡ some bs
  unfolding read_whole_file read_opened
  read_whole_file_content p f bs h = elim (Option-cases (fs.size f p)) [
    | inl e ↦ absurd (ground arith)
    | inr (n, e) ↦ ground (arith, laws.read_whole f p n, ==_iff (length (fs.fread f p n)) n)
  ]

  -- After a write, a file has what was written there or what it had.
  pub Wrote-cases :
      (target q : FilePath) (bytes b : List ℕ) (f g : F)
      → Wrote target bytes f g
      → q ≢ temp target
      → laws.content g q ≡ some b
      → ((q ≡ target) × (b ≡ bytes)) ⊎ (laws.content f q ≡ some b)
  Wrote-cases target q bytes b f g w other h = elim (path_dec q target) [
    | no away ↦ inr (sym (w.elsewhere q away other) ∙ h)
    | yes same ↦ elim w.at_target [
      | inl new ↦ inl (same, ground (arith, new, h, same))
      | inr old ↦ inr (ground (arith, old, h, same))
    ]
  ]

  -- What is there after a removal was there before.
  pub remove_cases :
      (p q : FilePath) (f : F) (b : List ℕ)
      → laws.content (fs.remove p f).0 q ≡ some b
      → laws.content f q ≡ some b
  remove_cases p q f b h = elim (path_dec q p) [
    | no away ↦ sym (laws.remove_ne f p q away) ∙ h
    | yes same ↦ elim (laws.remove_self f p) [
      | inl gone ↦ ground (arith, gone, h, same)
      | inr stays ↦ ground (arith, stays, h, same)
    ]
  ]
