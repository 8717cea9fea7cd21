-- ===== src/Data/Manifest/Bytes.antt =====
-- src/data/VolumeManifest.cpp, `readPod`: it reads back what `writePod` wrote.
use scrollviewer.Base.{
  ℕ, zero, suc, ◌/◌, ◌^◌, ◌<◌, ◌≡◌, refl, ap, some, List, [], ◌∷◌, ◌++◌, arith, length, take, drop,
  length-append,
}
use scrollviewer.Data.Manifest.{word_of, word_bytes, read_pod}

pub length-word_bytes : (w n : ℕ) → length (word_bytes w n) ≡ w
unfolding word_bytes
length-word_bytes zero n = refl
length-word_bytes (suc w) n = ap suc (length-word_bytes w (n / 256))

pub word_of-word_bytes : (w n : ℕ) → n < 256 ^ w → word_of (word_bytes w n) ≡ n
unfolding word_of word_bytes
word_of-word_bytes zero n h = ground arith
word_of-word_bytes (suc w) n h = omega (arith, word_of-word_bytes w (n / 256) (omega arith))

pub take-append : {A : Type 0} (xs ys : List A) → take (length xs) (xs ++ ys) ≡ xs
take-append [] ys = refl
take-append (x ∷ xs) ys = ap (◌∷◌ x) (take-append xs ys)

pub drop-append : {A : Type 0} (xs ys : List A) → drop (length xs) (xs ++ ys) ≡ ys
drop-append [] ys = refl
drop-append (x ∷ xs) ys = drop-append xs ys

pub read_pod-word_bytes :
    (w n : ℕ) (rest : List ℕ) → n < 256 ^ w → read_pod w (word_bytes w n ++ rest) ≡ some (n, rest)
unfolding read_pod
read_pod-word_bytes w n rest h = ground (
  arith,
  length-word_bytes w n,
  length-append (word_bytes w n) rest,
  word_of-word_bytes w n h,
  take-append (word_bytes w n) rest,
  drop-append (word_bytes w n) rest,
)
