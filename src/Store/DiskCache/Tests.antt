-- ===== src/Store/DiskCache/Tests.antt =====
-- A file system in memory, and runs of the disk cache on it.
use Prim.Native.String.{String}
use scrollviewer.Base.{
  ℕ, ◌≡◌, ◌≢◌, ◌≤◌, ◌<◌, refl, sym, ap, ◌∙◌, ◌⊎◌, inl, inr, Bool, true, false, not, Option, none,
  some, List, [], ◌∷◌, ◌++◌, length, arith,
}
use mathlib.Core.Option.{some_inj}
use scrollviewer.Data.Pipeline.{StoreResult}
use scrollviewer.Store.Files.{miss, FilePath, entry, Files, AreLawful}
use scrollviewer.Store.DiskCache.{
  Transcoder, FileInfo, run_eviction, sort_by_mtime, insert_by_mtime,
}
use scrollviewer.Store.DiskCache.Coherent.{path_dec}
use scrollviewer.Store.DiskCache.Refines.{IsFaithful}
use scrollviewer.Store.DiskCache.Session.{
  Session, reads, calls_back, encodes, invalidates, run, IsRight,
}
use scrollviewer.Store.DiskCache.Session.Right.{run-IsRight}
use scrollviewer.Store.DiskCache.Eviction.{
  sizes, AreOrdered, AreNeeded, remove_all, run_eviction_cases,
}

abbrev Disk : Type 0
Disk = FilePath → Option (List ℕ)

abbrev put : FilePath → Option (List ℕ) → Disk → Disk
put p v f q = elim (path_dec q p) [ yes _ ↦ v | no _ ↦ f q ]

put_self : (p : FilePath) (v : Option (List ℕ)) (f : Disk) → put p v f p ≡ v
put_self p v f = elim (path_dec p p) as (λ d. elim d [ yes _ ↦ v | no _ ↦ f p ] ≡ v) [
  | yes _ ↦ refl
  | no h ↦ absurd (h refl)
]

put_ne : (p q : FilePath) (v : Option (List ℕ)) (f : Disk) → q ≢ p → put p v f q ≡ f q
put_ne p q v f h = elim (path_dec q p) as (λ d. elim d [ yes _ ↦ v | no _ ↦ f q ] ≡ f q) [
  | yes e ↦ absurd (h e)
  | no _ ↦ refl
]

abbrev is_there : Option (List ℕ) → Bool
is_there none = false
is_there (some _) = true

abbrev bytes_of : Option (List ℕ) → List ℕ
bytes_of none = []
bytes_of (some bs) = bs

abbrev move : FilePath → FilePath → Option (List ℕ) → Disk → Disk × Bool
move p q none f = (f, false)
move p q (some bs) f = (put q (some bs) (put p none f), true)

abbrev memory : Files Disk
memory = record {
  size = λ f p. elim (f p) [ none ↦ none | some bs ↦ some (length bs) ];
  missing = λ f p. not (is_there (f p));
  open_read = λ f p. is_there (f p);
  fread = λ f p n. bytes_of (f p);
  exists = λ f p. is_there (f p);
  create_parents = λ p f. f;
  open_write = λ p f. some (put p (some []) f);
  fwrite = λ p bs f. (put p (some bs) f, length bs);
  close = λ p f. (f, true);
  remove = λ p f. (put p none f, is_there (f p));
  rename = λ p q f. move p q (f p) f;
}

read_there : (o : Option (List ℕ)) → is_there o ≡ true → o ≡ some (bytes_of o)
read_there none h = absurd (ground arith)
read_there (some bs) h = refl

move_ne :
    (o : Option (List ℕ)) (p q r : FilePath) (f : Disk) → r ≢ p → r ≢ q → (move p q o f).0 r ≡ f r
move_ne none p q r f h k = refl
move_ne (some bs) p q r f h k = put_ne q r (some bs) (put p none f) k ∙ put_ne p r none f h

move_self :
    (o : Option (List ℕ)) (p q : FilePath) (f : Disk)
    → (move p q o f).1 ≡ true
    → (move p q o f).0 q ≡ o
move_self none p q f h = absurd (ground arith)
move_self (some bs) p q f h = put_self q (some bs) (put p none f)

move_failed :
    (o : Option (List ℕ)) (p q r : FilePath) (f : Disk)
    → (move p q o f).1 ≡ false
    → (move p q o f).0 r ≡ f r
move_failed none p q r f h = refl
move_failed (some bs) p q r f h = absurd (ground arith)

memory_lawful : AreLawful memory
memory_lawful = record {
  content = λ f p. f p;
  read_whole = λ f p n s o r. read_there (f p) o;
  exists_content = λ f p e gone. ground (arith, e, gone);
  create_parents_content = λ p f q. refl;
  open_write_ne = λ f g p q o h. sym (ap (λ d. d q) (some_inj.0 o)) ∙ (put_ne p q (some []) f h);
  open_write_empty = λ f g p o. sym (ap (λ d. d p) (some_inj.0 o)) ∙ (put_self p (some []) f);
  written_ne = λ f p q bs h. put_ne p q (some bs) f h;
  written_whole = λ f g p bs o h c. put_self p (some bs) g;
  remove_ne = λ f p q h. put_ne p q none f h;
  remove_self = λ f p. inl (put_self p none f);
  rename_ne = λ f p q r h k. move_ne (f p) p q r f h k;
  rename_self = λ f p q h. move_self (f p) p q f h;
  rename_failed = λ f p q r h. move_failed (f p) p q r f h;
}

-- A transcoder that writes one more byte.
abbrev drop_tag : List ℕ → Option (List ℕ)
drop_tag [] = none
drop_tag (_ ∷ bs) = some bs

abbrev tagger : Transcoder
tagger = record { encode = λ bs. some (7 ∷ bs); decode = drop_tag }

abbrev Same : List ℕ → List ℕ → Type 0
Same b c = b ≡ c

tagger_faithful : IsFaithful tagger Same
tagger_faithful = record {
  close_refl = λ b. refl;
  close_encode = λ b e c enc dec.
      sym (some_inj.0 (ap (λ o. elim o [ none ↦ none | some x ↦ drop_tag x ]) enc ∙ dec));
}

abbrev one_object : String → StoreResult
one_object k = StoreResult.bytes (1 ∷ 2 ∷ [])

abbrev empty_session : Session Disk
empty_session = record { files = λ p. none; jobs = []; answers = [] }

none-some : (b : List ℕ) → Path (Option (List ℕ)) none (some b) → ⊥
none-some b h = ground arith

empty_session-IsRight :
    IsRight memory memory_lawful tagger Same tagger_faithful one_object empty_session
unfolding memory_lawful
empty_session-IsRight = record {
  files_coherent = record {
    entries = λ k b h. absurd (none-some b h);
    misses = λ k b h. absurd (none-some b h);
    codes = λ k e b h d. absurd (none-some e h);
  };
  jobs_owed = tt;
  answers_right = tt;
}

run-IsRight_example : IsRight memory memory_lawful tagger Same tagger_faithful one_object (
    run memory
      (some tagger)
      (reads "0/0" false
        ∷ calls_back "0/0" (StoreResult.bytes (1 ∷ 2 ∷ []))
        ∷ encodes
        ∷ reads "0/0" false
        ∷ invalidates "0/0"
        ∷ [])
      empty_session)
run-IsRight_example =
    run-IsRight memory memory_lawful tagger Same tagger_faithful one_object (λ f p bs h. refl)
      (some tagger)
      (reads "0/0" false
        ∷ calls_back "0/0" (StoreResult.bytes (1 ∷ 2 ∷ []))
        ∷ encodes
        ∷ reads "0/0" false
        ∷ invalidates "0/0"
        ∷ [])
      empty_session (inr refl) (tt, (inl refl, (tt, (tt, (tt, tt))))) empty_session-IsRight

abbrev two_files : List FileInfo
two_files =
    (record { path = entry "a"; mtime = 9; size = 60 })
    ∷ (record { path = miss "b"; mtime = 4; size = 70 })
    ∷ []

abbrev full_disk : Disk
full_disk p = some []

run_eviction_example :
    ((130 ≤ 100) × (run_eviction memory 100 two_files full_disk ≡ (full_disk, 0)))
    ⊎ ((100 < 130)
        × (removed : List FileInfo) × (stays : List FileInfo) × (sort_by_mtime two_files
            ≡ removed ++ stays)
        × AreOrdered (removed ++ stays)
        × (run_eviction memory 100 two_files full_disk
            ≡ (remove_all memory removed full_disk, sizes removed))
        × AreNeeded 130 90 0 removed
        × (sizes stays ≤ 90))
unfolding sizes sort_by_mtime insert_by_mtime
run_eviction_example =
    run_eviction_cases memory 100 two_files full_disk (omega arith) (omega arith)
      (refl, (ap is_there (put_ne (miss "b") (entry "a") none full_disk (λ h. cc)), tt))
