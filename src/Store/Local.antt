-- ===== src/Store/Local.antt =====
-- src/store/LocalStore.cpp: the job that `read` posts.
use scrollviewer.Base.{
  ℕ, ◌≡◌, inl, inr, Bool, false, not, ◌||◌, none, some, List, length, ◌==◌, ==_iff, if◌then◌else◌,
  arith, Option-cases,
}
use scrollviewer.Data.Pipeline.{Kind, StoreResult}
use scrollviewer.Store.Files.{FilePath, Files, AreLawful}

module _ {F : Type 0} (fs : Files F) where
  unfoldable pub read_sized : FilePath → ℕ → F → StoreResult
  read_sized p n f =
      if not (fs.open_read f p)
      then StoreResult.error Kind.io
      else (if not (length (fs.fread f p n) == n)
          then StoreResult.error Kind.io
          else StoreResult.bytes (fs.fread f p n))

  -- `missing` tells that the error of `file_size` is `no_such_file_or_directory`.
  unfoldable pub read : FilePath → Bool → Bool → F → StoreResult
  read p stopped pool_stopped f =
      if stopped || pool_stopped then StoreResult.error Kind.cancelled else (elim (fs.size f p) [
        | none ↦ StoreResult.error (if fs.missing f p then Kind.not_found else Kind.io)
        | some n ↦ read_sized p n f
      ])

  -- A read that gives bytes gives the whole content of the file.
  pub read_content :
      (laws : AreLawful fs) (p : FilePath) (f : F) (bs : List ℕ)
      → read p false false f ≡ StoreResult.bytes bs
      → laws.content f p ≡ some bs
  unfolding read read_sized
  read_content laws p f bs h = elim (Option-cases (fs.size f p)) [
    | inl e ↦ absurd (ground arith)
    | inr (n, e) ↦ ground (arith, laws.read_whole f p n, ==_iff (length (fs.fread f p n)) n)
  ]
