-- ===== src/Verify/Header/Blocks.antt =====
-- contrib/checks.py, V3, beside contrib/tablefile.py, `BlockReader`, which V4 reads with.
use helpmate_tablebase.Base.{
  length, ℕ, ◌≤◌, ◌<◌, ◌≡◌, refl, ap, ◌∙◌, ◌⊎◌, Option, some, string_eq, pair_eq, nat_eq, option_eq,
  list_eq, bool_eq,
}
use helpmate_tablebase.Storage.{Bytes}
use helpmate_tablebase.TableFile.{
  no_such_block, got, raises, block_len, Verdict, fine, skips_marker, skips_raw, bad_format,
  bad_blocks, BlockReader, logical_size, check_blocks, decode, open_table,
}
use helpmate_tablebase.TableFile.Blocks.{
  got_inj, and_then-inv, IsBounded, check_blocks-decode, check_blocks-open,
}
use helpmate_tablebase.Verify.{pass}
use helpmate_tablebase.Verify.Header.{integrity_status, check_block_integrity}

status-pass : (v : Verdict) → integrity_status v ≡ pass → v ≡ fine
status-pass fine e = refl
status-pass (skips_marker v) e = absurd (cc)
status-pass (skips_raw v c) e = absurd (cc)
status-pass (bad_format x) e = absurd (cc)
status-pass (bad_blocks cs) e = absurd (cc)

pass-fine :
    (decompress : Bytes → Option ℕ → Option Bytes) (file : Bytes)
    → check_block_integrity decompress file ≡ got pass
    → (checked : ℕ) × (check_blocks decompress file ≡ got (fine, checked))
unfolding check_block_integrity
pass-fine decompress file p =
    let ((v, checked), here, last) = and_then-inv (check_blocks decompress file) _ pass p in
    let good = status-pass v (got_inj last) in (checked, here ∙ ap (λ x. got (x, checked)) good)

-- A table that passes V3 is opened by the reader of V4. Every block of its index is then decoded, to
-- the length that the header implies, and at every other block the reader raises an IndexError;
-- provided that a frame decoded within a bound is decoded alike within a larger one.
pub check_block_integrity-pass :
    (decompress : Bytes → Option ℕ → Option Bytes) (file : Bytes) (b : ℕ)
    → IsBounded decompress
    → check_block_integrity decompress file ≡ got pass
    → (r : BlockReader) × (open_table file ≡ got r)
      × (((b < r.index.blocks)
            × ((out : Bytes) × (decode decompress r b ≡ got out)
                × (block_len r.header.block_size (logical_size r) b ≡ some (length out))))
          ⊎ ((r.index.blocks ≤ b) × (decode decompress r b ≡ raises no_such_block)))
check_block_integrity-pass decompress file b bounded p =
    let (checked, ok) = pass-fine decompress file p in
    let (r, o) = check_blocks-open decompress file checked ok in
    (r, o, check_blocks-decode decompress file r b checked bounded o ok)
