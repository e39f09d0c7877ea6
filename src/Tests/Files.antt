-- ===== src/Tests/Files.antt =====
-- Small table files, and instances of the theorems on table files and their header checks.
use helpmate_tablebase.Base.{
  length, Dict, ℕ, zero, suc, ◌/◌, ◌%◌, ◌≤◌, ◌<◌, String, ◌≡◌, refl, ◌⊎◌, true, Option, none, some,
  [], ◌∷◌, ◌++◌, arith, string_eq, pair_eq, nat_eq, option_eq, list_eq, bool_eq,
}
use helpmate_tablebase.Storage.{Bytes}
use helpmate_tablebase.Materials.{canonical}
use helpmate_tablebase.Materials.Measures.{pawns, plane_size}
use helpmate_tablebase.TableFile.{
  header_len, magic, Header, no_such_block, value_error, got, raises, part, read_header, BlockIndex,
  read_between, block_len, BlockReader, logical_size, judged, measured, decode, read, reader_sha256,
  open_table,
}
use helpmate_tablebase.TableFile.Blocks.{IsBounded}
use helpmate_tablebase.TableFile.Slices.{DecodesTo, IsCacheOf, read-part}
use helpmate_tablebase.Verify.{pass, fail}
use helpmate_tablebase.Verify.Header.{
  sidecar_differs, newer_generator, check_block_integrity, load_sidecar, check_header,
}
use helpmate_tablebase.Verify.Header.Sound.{IsHeaderOf, IsServed, IsOwnSidecar, check_header-pass}
use helpmate_tablebase.Verify.Header.Blocks.{check_block_integrity-pass}
use helpmate_tablebase.TableFile.Planes.{reader_sha256_content}

-- n zero bytes
abbrev zeros : ℕ → Bytes
zeros zero = []
zeros (suc n) = 0 ∷ zeros n

-- A number below 2 ^ 16, in eight bytes.
abbrev eight : ℕ → Bytes
eight n = n % 256 ∷ n / 256 ∷ zeros 6

-- The header of a compressed table of KQvk, with its plane size, block size and length of metadata.
abbrev header_bytes : ℕ → ℕ → ℕ → Bytes
header_bytes plane block_bytes json =
    magic
    ++ (3 ∷ 0 ∷ 0 ∷ 0 ∷ 2 ∷ 1 ∷ b'K' ∷ b'Q' ∷ b'v' ∷ b'k' ∷ zeros 22)
    ++ eight plane
    ++ (9 ∷ 0 ∷ block_bytes ∷ 0 ∷ 0 ∷ 0 ∷ 1 ∷ zeros 9)
    ++ (json ∷ 0 ∷ 0 ∷ 0 ∷ [])

-- Four bytes of payload in two blocks, stored as they are.
abbrev small_table : Bytes
small_table =
    header_bytes 1 3 0 ++ eight 2 ++ eight 0 ++ eight 3 ++ eight 4 ++ (11 ∷ 12 ∷ 13 ∷ 14 ∷ [])

-- The same with an index of no block.
abbrev short_table : Bytes
short_table = header_bytes 1 3 0 ++ eight 0 ++ eight 0

abbrev stored : Bytes → Option ℕ → Option Bytes
stored src bound = some src

stored-IsBounded : IsBounded stored
stored-IsBounded src n k out h le = h

small_passes : check_block_integrity stored small_table ≡ got pass
unfolding check_block_integrity judged read_between block_len
small_passes = refl

-- No block of the payload is in the index, and V3 passes.
short_passes : check_block_integrity stored short_table ≡ got pass
unfolding check_block_integrity judged read_between block_len
short_passes = refl

-- The second offset is below the first.
abbrev falling_table : Bytes
falling_table =
    header_bytes 1 3 0 ++ eight 2 ++ eight 4 ++ eight 0 ++ eight 4 ++ (11 ∷ 12 ∷ 13 ∷ 14 ∷ [])

falling_raises : check_block_integrity stored falling_table ≡ raises value_error
unfolding check_block_integrity judged read_between block_len
falling_raises = refl

abbrev small_index : BlockIndex
small_index = record { blocks = 2; offsets = 0 ∷ 3 ∷ 4 ∷ []; start = 96 }

abbrev small_header : Header
small_header = record {
  version = 3;
  encoding = 2;
  symmetry = 1;
  material = b'K' ∷ b'Q' ∷ b'v' ∷ b'k' ∷ [];
  plane_size = 1;
  max_dtm = 9;
  flags = 0;
  block_size = 3;
  codec = 1;
  json_len = 0;
}

abbrev small_reader : BlockReader
small_reader = record { header = small_header; index = small_index; file = small_table }

small_opens : open_table small_table ≡ got small_reader
unfolding open_table
small_opens = refl

check_block_integrity-pass_example :
    (r : BlockReader) × (open_table small_table ≡ got r)
    × (((1 < r.index.blocks)
          × ((out : Bytes) × (decode stored r 1 ≡ got out)
              × (block_len r.header.block_size (logical_size r) 1 ≡ some (length out))))
        ⊎ ((r.index.blocks ≤ 1) × (decode stored r 1 ≡ raises no_such_block)))
check_block_integrity-pass_example =
    check_block_integrity-pass stored small_table 1 stored-IsBounded small_passes

abbrev small_payload : Bytes
small_payload = 11 ∷ 12 ∷ 13 ∷ 14 ∷ []

small_decodes : DecodesTo stored small_reader small_payload
unfolding decode measured read_between block_len
small_decodes zero h = refl
small_decodes (suc zero) h = refl
small_decodes (suc (suc b)) h = absurd (omega arith)

read-part_example :
    (cache : Dict ℕ Bytes) × (read stored small_reader [] 1 3
      ≡ some (cache, got (12 ∷ 13 ∷ 14 ∷ [])))
    × IsCacheOf stored small_reader small_payload cache
read-part_example =
    read-part stored small_reader small_payload [] 1 3 small_decodes (omega arith) (omega arith)
      (record { small = omega arith; holds_parts = λ b out i. absurd i })

-- A table with metadata of one byte, which stands for itself.
abbrev named_table : Bytes
named_table = header_bytes 29568 16 1 ++ (77 ∷ [])

abbrev parse_byte : Bytes → Option ℕ
parse_byte [] = none
parse_byte (b ∷ bs) = some b

abbrev made_by_dev : ℕ → String
made_by_dev sc = "0.20.0-dev+abc"

named_passes :
    (check_header parse_byte
      (λ sc. true)
      made_by_dev
      "KQvk"
      named_table
      (some (77 ∷ []))
      "0.21.0").0
    ≡ pass
unfolding check_header canonical plane_size pawns
named_passes = refl

newer_fails :
    check_header parse_byte (λ sc. true) made_by_dev "KQvk" named_table (some (76 ∷ [])) "0.19.9"
    ≡ (fail, sidecar_differs ∷ newer_generator ∷ [])
unfolding check_header canonical plane_size pawns
newer_fails = refl

check_header-pass_example :
    (h : Header) × (meta : ℕ) × (read_header named_table ≡ got h)
    × (parse_byte (part named_table header_len h.json_len) ≡ some meta)
    × IsHeaderOf "KQvk" h
    × IsServed h
    × IsOwnSidecar parse_byte
        (λ sc. true)
        made_by_dev
        (load_sidecar parse_byte (λ sc. true) made_by_dev (some (77 ∷ [])))
        meta
        "0.21.0"
check_header-pass_example =
    check_header-pass parse_byte (λ sc. true) made_by_dev "KQvk" named_table (some (77 ∷ []))
      "0.21.0" named_passes

-- The same payload in one block.
abbrev one_block_table : Bytes
one_block_table = header_bytes 1 4 0 ++ eight 1 ++ eight 0 ++ eight 4 ++ (11 ∷ 12 ∷ 13 ∷ 14 ∷ [])

abbrev one_block_reader : BlockReader
one_block_reader = record {
  header = record small_header { block_size = 4 };
  index = record { blocks = 1; offsets = 0 ∷ 4 ∷ []; start = 88 };
  file = one_block_table;
}

one_block_opens : open_table one_block_table ≡ got one_block_reader
unfolding open_table
one_block_opens = refl

one_block_decodes : DecodesTo stored one_block_reader small_payload
unfolding decode measured read_between block_len
one_block_decodes zero h = refl
one_block_decodes (suc b) h = absurd (omega arith)

reader_sha256_content_example :
    (hash : String) × (cache : Dict ℕ Bytes) × (cache' : Dict ℕ Bytes) × (reader_sha256 stored
        (λ bytes. "digest")
        small_reader
        1
      ≡ some (cache, got hash))
    × (reader_sha256 stored (λ bytes. "digest") one_block_reader 2 ≡ some (cache', got hash))
reader_sha256_content_example =
    reader_sha256_content stored (λ bytes. "digest") small_reader one_block_reader small_payload 1 2
      small_decodes one_block_decodes refl refl (omega arith) (omega arith) (omega arith)
      (omega arith)
