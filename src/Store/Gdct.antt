-- ===== src/Store/Gdct.antt =====
-- src/store/GdctTranscoder.cpp: the wrapper of the gpudct library, which is a parameter.
use scrollviewer.Base.{
  ℕ, ◌*◌, ◌%◌, ◌≡◌, not, Option, none, some, List, length, ◌==◌, if◌then◌else◌, arith, u64_mod,
  Option-cases, inl, inr,
}
use scrollviewer.Store.DiskCache.{Transcoder}
use scrollviewer.Store.DiskCache.Refines.{IsFaithful}

pub record VolumeInfo : Type 0 where
  pub voxels : ℕ
  pub dtype_size : ℕ

-- The calls of gpudct, with the options of the transcoder; `none` is a status other than ok. `decode_into`
-- is given the size of the output.
pub record Gpudct : Type 0 where
  pub brick_dim : ℕ
  pub encode : List ℕ → Option (List ℕ)
  pub inspect : List ℕ → Option VolumeInfo
  pub decode_into : List ℕ → ℕ → VolumeInfo → Option (List ℕ)

-- What gpudct promises of an archive that it made: what comes out is close to what went in.
abbrev pub IsClose : Gpudct → (List ℕ → List ℕ → Type 0) → Type 0
IsClose g Close =
    (raw out back : List ℕ) (n : ℕ) (info : VolumeInfo)
    → g.encode raw ≡ some out
    → g.inspect out ≡ some info
    → g.decode_into out n info ≡ some back
    → Close back raw

module _ (g : Gpudct) where
  abbrev pub brick_bytes : ℕ
  brick_bytes = g.brick_dim * g.brick_dim * g.brick_dim % u64_mod

  unfoldable pub encode : List ℕ → Option (List ℕ)
  encode raw = if not (length raw == brick_bytes) then none else g.encode raw

  unfoldable pub decode_sized : List ℕ → VolumeInfo → Option (List ℕ)
  decode_sized stored info =
      if not (info.voxels * info.dtype_size % u64_mod == brick_bytes)
      then none
      else g.decode_into stored brick_bytes info

  unfoldable pub decode : List ℕ → Option (List ℕ)
  decode stored = elim (g.inspect stored) [ none ↦ none | some info ↦ decode_sized stored info ]

  abbrev pub gdct_transcoder : Transcoder
  gdct_transcoder = record { encode = encode; decode = decode }

  decode-decode_into :
      (stored back : List ℕ)
      → decode stored ≡ some back
      → (info : VolumeInfo) × (g.inspect stored ≡ some info)
        × (g.decode_into stored brick_bytes info ≡ some back)
  unfolding decode decode_sized
  decode-decode_into stored back h = elim (Option-cases (g.inspect stored)) [
    | inl e ↦ absurd (ground arith)
    | inr (info, e) ↦ (info, e, ground (arith, e))
  ]

  -- If gpudct's round trip is close, the disk cache may use the transcoder.
  pub gdct_transcoder-IsFaithful :
      (Close : List ℕ → List ℕ → Type 0)
      → ((b : List ℕ) → Close b b)
      → IsClose g Close
      → IsFaithful gdct_transcoder Close
  unfolding encode
  gdct_transcoder-IsFaithful Close same close = record {
    close_refl = same;
    close_encode = λ b e c enc dec.
        let (info, seen, decoded) = decode-decode_into e c dec in
        close b e c brick_bytes info (ground arith) seen decoded;
  }
