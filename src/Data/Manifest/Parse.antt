-- ===== src/Data/Manifest/Parse.antt =====
-- src/data/VolumeManifest.cpp, `parse`: it reads back what src/tools/svmanifest_main.cpp writes, and
-- what it accepts is well-formed.
use scrollviewer.Base.{
  ℕ, zero, suc, ◌*◌, ◌^◌, ◌<◌, ◌≡◌, refl, ap, ◌∙◌, append_assoc, some, List, [], ◌∷◌, ◌++◌, arith,
  length, take, drop, ltb, length-append, length-take, All, u64_mod, Option-cases, Bool-cases, inl,
  inr,
}
use scrollviewer.Data.Manifest.{
  Result, ok, error, Level, VolumeManifest, read_pod, read_grid, data_size, add_level, parse_levels,
  with_levels, parse_body, parse_header, parse, word_bytes, write_level, write_levels,
  write_manifest, magic,
}
use scrollviewer.Data.Manifest.Bytes.{read_pod-word_bytes, take-append, drop-append}

-- A level that the file format has room for, with two bytes for each brick.
pub record IsWritable (l : Level) : Type 0 where
  pub z_fits : l.grid.z < 2 ^ 32
  pub y_fits : l.grid.y < 2 ^ 32
  pub x_fits : l.grid.x < 2 ^ 32
  pub filled : length l.data_bytes ≡ l.grid.z * l.grid.y * l.grid.x * 2
  pub size_fits : length l.data_bytes < u64_mod

read_grid-write_level :
    (l : Level) (rest : List ℕ)
    → IsWritable l
    → read_grid (write_level l ++ rest) ≡ some (l.grid, l.data_bytes ++ rest)
unfolding read_grid write_level
read_grid-write_level l rest w =
    let x = word_bytes 4 l.grid.x in
    let y = word_bytes 4 l.grid.y in
    rw
      (
        read_grid,
        append_assoc (word_bytes 4 l.grid.z) (y ++ (x ++ l.data_bytes)) rest,
        append_assoc y (x ++ l.data_bytes) rest,
        append_assoc x l.data_bytes rest,
        read_pod-word_bytes 4 l.grid.z (y ++ (x ++ (l.data_bytes ++ rest))) w.z_fits,
        read_pod-word_bytes 4 l.grid.y (x ++ (l.data_bytes ++ rest)) w.y_fits,
        read_pod-word_bytes 4 l.grid.x (l.data_bytes ++ rest) w.x_fits,
      )
      refl

data_size-IsWritable : (l : Level) → IsWritable l → data_size l.grid ≡ length l.data_bytes
unfolding data_size
data_size-IsWritable l w = omega (arith, w.filled, w.size_fits)

parse_levels-write_levels :
    (ls : List Level) (i : ℕ)
    → All IsWritable ls
    → parse_levels (length ls) i (write_levels ls) ≡ ok ls
unfolding parse_levels write_levels add_level
parse_levels-write_levels [] i ws = refl
parse_levels-write_levels (l ∷ ls) i ws =
    rw
      (
        parse_levels,
        read_grid-write_level l (write_levels ls) ws.0,
        data_size-IsWritable l ws.0,
        take-append l.data_bytes (write_levels ls),
        drop-append l.data_bytes (write_levels ls),
        parse_levels-write_levels ls (suc i) ws.1,
      )
      (ground (arith, length-append l.data_bytes (write_levels ls)))

parse-magic : (rest : List ℕ) → parse (magic ++ rest) ≡ parse_header rest
unfolding parse
parse-magic rest = ground arith

parse_header-words :
    (version fill count : ℕ) (body : List ℕ)
    → version < 2 ^ 32
    → fill < 256
    → count < 256
    → parse_header (
        word_bytes 4 version
        ++ (word_bytes 1 fill ++ (word_bytes 1 count ++ (word_bytes 2 0 ++ body))))
      ≡ parse_body version fill count body
unfolding parse_header
parse_header-words version fill count body h small few =
    rw
      (
        parse_header,
        read_pod-word_bytes 4 version
            (word_bytes 1 fill ++ (word_bytes 1 count ++ (word_bytes 2 0 ++ body))) h,
        read_pod-word_bytes 1 fill (word_bytes 1 count ++ (word_bytes 2 0 ++ body)) (omega arith),
        read_pod-word_bytes 1 count (word_bytes 2 0 ++ body) (omega arith),
        read_pod-word_bytes 2 0 body (omega arith),
      )
      refl

-- The reader gives back the levels and the fill value that were written, if they fit the fields of
-- the format.
pub parse-write_manifest :
    (fill : ℕ) (ls : List Level)
    → fill < 256
    → length ls < 256
    → All IsWritable ls
    → parse (write_manifest fill ls) ≡ ok (record { levels = ls; fill = fill })
unfolding write_manifest parse_body with_levels
parse-write_manifest fill ls small few ws =
    parse-magic _
    ∙ parse_header-words 1 fill (length ls) (write_levels ls) (omega arith) small few
    ∙ ap (with_levels fill) (parse_levels-write_levels ls 0 ws)

-- Of each accepted level, the bytes are as many as the product of its dimensions says, modulo 2^64.
abbrev pub IsFilled : Level → Type 0
IsFilled l = length l.data_bytes ≡ data_size l.grid

add_level-IsFilled :
    (l : Level) (r : Result (List Level)) (ls : List Level)
    → IsFilled l
    → ((ks : List Level) → r ≡ ok ks → All IsFilled ks)
    → add_level l r ≡ ok ls
    → All IsFilled ls
unfolding add_level
add_level-IsFilled l (ok ks) ls f rest h = ground (arith, rest ks refl)
add_level-IsFilled l (error e) ls f rest h = absurd (cc)

parse_levels-IsFilled :
    (k i : ℕ) (input : List ℕ) (ls : List Level) → parse_levels k i input ≡ ok ls → All IsFilled ls
unfolding parse_levels
parse_levels-IsFilled zero i input ls h = ground arith
parse_levels-IsFilled (suc k) i input ls h = elim (Option-cases (read_grid input)) [
  | inl e ↦ absurd (ground arith)
  | inr ((g, rest), e) ↦ elim (Bool-cases (ltb (length rest) (data_size g))) [
    | inl short ↦ absurd (ground arith)
    | inr enough ↦
        let l : Level = record { grid = g; data_bytes = take (data_size g) rest } in
        add_level-IsFilled l (parse_levels k (suc i) (drop (data_size g) rest)) ls
          (ground (arith, length-take (data_size g) rest))
          (λ ks h'. parse_levels-IsFilled k (suc i) (drop (data_size g) rest) ks h') (ground arith)
  ]
]

parse_body-levels :
    (version fill count : ℕ) (input : List ℕ) (m : VolumeManifest)
    → parse_body version fill count input ≡ ok m
    → (parse_levels count 0 input ≡ ok m.levels) × (version ≡ 1) × (m.fill ≡ fill)
unfolding parse_body with_levels
parse_body-levels version fill count input m h = ground arith

parse_header-IsFilled :
    (input : List ℕ) (m : VolumeManifest) → parse_header input ≡ ok m → All IsFilled m.levels
unfolding parse_header
parse_header-IsFilled input m h = elim (Option-cases (read_pod 4 input)) [
  | inl e ↦ absurd (ground arith)
  | inr ((version, input1), e1) ↦ elim (Option-cases (read_pod 1 input1)) [
    | inl e ↦ absurd (ground arith)
    | inr ((fill, input2), e2) ↦ elim (Option-cases (read_pod 1 input2)) [
      | inl e ↦ absurd (ground arith)
      | inr ((count, input3), e3) ↦ elim (Option-cases (read_pod 2 input3)) [
        | inl e ↦ absurd (ground arith)
        | inr ((reserved, input4), e4) ↦
            parse_levels-IsFilled count 0 input4 m.levels
              (parse_body-levels version fill count input4 m (ground arith)).0
      ]
    ]
  ]
]

-- In every manifest that the reader accepts, each level holds as many bytes as its dimensions ask for:
-- twice their product, modulo 2^64.
pub parse-IsFilled :
    (input : List ℕ) (m : VolumeManifest) → parse input ≡ ok m → All IsFilled m.levels
unfolding parse
parse-IsFilled input m h = parse_header-IsFilled (drop 4 input) m (ground arith)
