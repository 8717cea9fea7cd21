-- ===== src/Store/Files.antt =====
-- The file system that src/store uses: `std::filesystem` and `cstdio`, on a state F. Paths are those of the
-- cache: the entry of a key, the key with one of the suffixes, and a path with ".tmp".
use Prim.Native.String.{String}
use scrollviewer.Base.{ℕ, ◌≡◌, ◌≢◌, ◌⊎◌, Bool, true, false, Option, none, some, List, [], length}

-- No key ends in a suffix of the cache, so these paths are different files.
pub data FilePath : Type 0 where
  entry : String → FilePath
  miss : String → FilePath
  coded : String → FilePath
  temp : FilePath → FilePath

-- `size` is `file_size`, none for an error; `exists` is false for an error. `open_write` is `fopen "wb"`,
-- `fwrite` gives the number of bytes that it took, and `close` is the `fclose` after it, which tells whether
-- the buffer was flushed. `remove` and `rename` tell whether they did it.
pub record Files (F : Type 0) : Type 0 where
  pub size : F → FilePath → Option ℕ
  pub missing : F → FilePath → Bool
  pub open_read : F → FilePath → Bool
  pub fread : F → FilePath → ℕ → List ℕ
  pub exists : F → FilePath → Bool
  pub create_parents : FilePath → F → F
  pub open_write : FilePath → F → Option F
  pub fwrite : FilePath → List ℕ → F → F × ℕ
  pub close : FilePath → F → F × Bool
  pub remove : FilePath → F → F × Bool
  pub rename : FilePath → FilePath → F → F × Bool

-- What the code relies on, in terms of the content of each file: a read of all of a file gives its content;
-- an operation leaves the other files alone; what was written whole is the content after a close that
-- reports success; a file that is removed is gone or as it was; a rename that succeeds moves the content, and one that fails
-- changes nothing.
pub record AreLawful {F : Type 0} (fs : Files F) : Type 0 where
  pub content : F → FilePath → Option (List ℕ)
  pub read_whole :
      (f : F) (p : FilePath) (n : ℕ)
      → fs.size f p ≡ some n
      → fs.open_read f p ≡ true
      → length (fs.fread f p n) ≡ n
      → content f p ≡ some (fs.fread f p n)
  pub exists_content : (f : F) (p : FilePath) → fs.exists f p ≡ true → content f p ≢ none
  pub create_parents_content :
      (f : F) (p q : FilePath) → content (fs.create_parents p f) q ≡ content f q
  pub open_write_ne :
      (f g : F) (p q : FilePath) → fs.open_write p f ≡ some g → q ≢ p → content g q ≡ content f q
  pub open_write_empty :
      (f g : F) (p : FilePath) → fs.open_write p f ≡ some g → content g p ≡ some []
  pub written_ne :
      (f : F) (p q : FilePath) (bs : List ℕ)
      → q ≢ p
      → content (fs.close p (fs.fwrite p bs f).0).0 q ≡ content f q
  pub written_whole :
      (f g : F) (p : FilePath) (bs : List ℕ)
      → fs.open_write p f ≡ some g
      → (fs.fwrite p bs g).1 ≡ length bs
      → (fs.close p (fs.fwrite p bs g).0).1 ≡ true
      → content (fs.close p (fs.fwrite p bs g).0).0 p ≡ some bs
  pub remove_ne : (f : F) (p q : FilePath) → q ≢ p → content (fs.remove p f).0 q ≡ content f q
  pub remove_self :
      (f : F) (p : FilePath)
      → (content (fs.remove p f).0 p ≡ none) ⊎ (content (fs.remove p f).0 p ≡ content f p)
  pub rename_ne :
      (f : F) (p q r : FilePath) → r ≢ p → r ≢ q → content (fs.rename p q f).0 r ≡ content f r
  pub rename_self :
      (f : F) (p q : FilePath)
      → (fs.rename p q f).1 ≡ true
      → content (fs.rename p q f).0 q ≡ content f p
  pub rename_failed :
      (f : F) (p q r : FilePath)
      → (fs.rename p q f).1 ≡ false
      → content (fs.rename p q f).0 r ≡ content f r

-- No close fails after `fwrite` has taken all bytes. This is not a property of `fclose`, which may fail when it
-- flushes; it is the assumption that code makes which does not look at the result.
abbrev pub DoAllClose : {F : Type 0} → Files F → Type 0
DoAllClose {F} fs =
    (f : F) (p : FilePath) (bs : List ℕ)
    → (fs.fwrite p bs f).1 ≡ length bs
    → (fs.close p (fs.fwrite p bs f).0).1 ≡ true
