-- ===== src/Render/Assembler/Tests.antt =====
-- src/render/BrickAssembler.cpp: chunks of 2^3 voxels, and a brick without neighbours.
use scrollviewer.Base.{inr, ℕ_discrete, ◌%◌, ℕ, ◌+◌, ◌≡◌, refl, false, some, List, [], ◌∷◌, arith}
use scrollviewer.Base.Assoc
use scrollviewer.Core.LruCache
use scrollviewer.Core.LruCache.{
  init, find, push_entry, drop_existing, evict_locked, evict_walk, evict_step, front_value,
  find_node,
}
use scrollviewer.Core.LruCache.Invariant.{Op, insert_op, run, step, run-Coherent}
use scrollviewer.Data.BrickKey.{BrickKey, key_dec, coord_dec}
use scrollviewer.Data.RamCache.{Brick, RamCache, get}
use scrollviewer.Data.Volume.{Dtype}
use scrollviewer.Zarr.ArrayMeta.{Axes, ArrayMeta, CompressorId, chunk_grid_dims, grid_dim}
use scrollviewer.Render.Assembler.{
  BrickAssembler, offsets, chunk_dim, voxel_from, prefetch, sample, assemble, no_voxels, voxel_at,
}
use scrollviewer.Render.Assembler.Rows.{IsPlain, sample_planes, assemble-samples}
use scrollviewer.Render.Assembler.Seams.{sample-voxel_from}

abbrev axes : ℕ → Axes
axes n = record { z = n; y = n; x = n }

abbrev meta : ArrayMeta ℕ
meta = record {
  shape = axes 4;
  chunks = axes 2;
  dtype = Dtype.u8;
  dimension_separator = "/";
  fill_value = 0;
  compressor = CompressorId.no_compressor;
  zarr_format = 2;
}

abbrev assembler : BrickAssembler ℕ
assembler = record { levels = λ _. meta; to_byte = λ v. v; volume_id = 1 }

abbrev brick : Brick
brick = record {
  key = record { volume_id = 1; coord = record { level = 0; z = 1; y = 0; x = 1 } };
  voxels = 1 ∷ 2 ∷ 3 ∷ 4 ∷ 5 ∷ 6 ∷ 7 ∷ 8 ∷ [];
  is_fill_value = false;
  min_val = 1;
  max_val = 8;
}

brick-IsPlain : IsPlain assembler brick
unfolding chunk_dim no_voxels
brick-IsPlain = record { cubic_y = refl; cubic_x = refl; not_fill = refl; not_empty = refl }

abbrev no_bricks : RamCache
no_bricks = init 100

assemble-samples_example :
    (assemble assembler brick no_bricks).1
    ≡ sample_planes assembler brick
        (prefetch assembler brick offsets no_bricks).1
        0
        (chunk_dim assembler + 2)
assemble-samples_example = assemble-samples assembler brick no_bricks brick-IsPlain refl

-- The brick above it, which the cache holds.
abbrev above : Brick
above = record {
  key = record { volume_id = 1; coord = record { level = 0; z = 0; y = 0; x = 1 } };
  voxels = 11 ∷ 12 ∷ 13 ∷ 14 ∷ 15 ∷ 16 ∷ 17 ∷ 18 ∷ [];
  is_fill_value = false;
  min_val = 11;
  max_val = 18;
}

abbrev inserts : List (Op BrickKey Brick)
inserts = insert_op above.key above 8 1 ∷ []

abbrev one_brick : RamCache
one_brick = run key_dec (init 100) inserts

above_held : (get one_brick above.key).1 ≡ some above
unfolding get run step LruCache.get LruCache.insert find push_entry drop_existing evict_locked
    evict_walk evict_step Assoc.lookup Assoc.insert Assoc.erase front_value find_node init key_dec
    coord_dec ℕ_discrete
above_held = refl

sample-voxel_from_example :
    sample assembler brick (prefetch assembler brick offsets one_brick).1 0 1 1
    ≡ voxel_from assembler above (1 % 2) (0 % 2) (2 % 2)
unfolding chunk_dim chunk_grid_dims grid_dim
sample-voxel_from_example =
    sample-voxel_from assembler brick above one_brick 0 1 1 1 0 2 (run-Coherent key_dec 100 inserts)
      (omega arith) (omega arith) (omega arith) (omega arith) refl refl refl
      (omega arith, omega arith, omega arith) (inr (λ h. absurd (omega (arith, h.0)), above_held))

above_sampled : voxel_from assembler above (1 % 2) (0 % 2) (2 % 2) ≡ some 15
unfolding voxel_from voxel_at no_voxels
above_sampled = refl
