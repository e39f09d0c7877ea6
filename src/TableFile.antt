-- ===== src/TableFile.antt =====
-- contrib/tablefile.py: the header, the block index and the compressed blocks of a .hm file.
-- A file is its bytes. `decompress` stands for zstandard: the bytes of a frame and the bound on the
-- output, `none` for a negative one, give the decoded bytes, or `none` for a ZstdError. A file is
-- read at 64-bit positions; that memory suffices for the bytes asked for is assumed.
pub mod Blocks
pub mod Slices
pub mod Planes
use helpmate_tablebase.Base.{
  ltb, leb, ◌==◌, get_or_else, if◌then◌else◌, length, take, drop, Dict, lookup, insert, codes, ℕ,
  zero, suc, ◌+◌, ◌-◌, ◌*◌, ◌/◌, ◌%◌, ◌^◌, min, String, Bool, true, false, not, ◌||◌, Option, none,
  some, List, [], ◌∷◌, ◌++◌, string_eq, pair_eq, nat_eq, option_eq, list_eq, bool_eq,
}
use helpmate_tablebase.Storage.{Bytes}

abbrev pub header_len : ℕ
header_len = 64

abbrev pub max_reported : ℕ
max_reported = 20

-- b"HM8P"
abbrev pub magic : Bytes
magic = b'H' ∷ b'M' ∷ b'8' ∷ b'P' ∷ []

-- `Header`; the material as its code points
pub record Header : Type 0 where
  pub version : ℕ
  pub encoding : ℕ
  pub symmetry : ℕ
  pub material : List ℕ
  pub plane_size : ℕ
  pub max_dtm : ℕ
  pub flags : ℕ
  pub block_size : ℕ
  pub codec : ℕ
  pub json_len : ℕ

-- What is raised while a file is read: a `TableFormatError` with its cause, a ZstdError, an
-- IndexError, or what Python's files raise for a position or a count that they do not take.
pub data ReadError : Type 0 where
  wrong_magic truncated_before_index truncated_index index_past_end not_compressed : ReadError
  wrong_length : ℕ → ℕ → ReadError
  zstd_error no_such_block value_error overflow_error : ReadError

pub data Reading (A : Type 0) : Type 0 where
  got : A → Reading A
  raises : ReadError → Reading A

-- What follows a reading that raises nothing.
abbrev pub and_then : {A B : Type 0} → Reading A → (A → Reading B) → Reading B
and_then (got a) next = next a
and_then (raises e) next = raises e

-- The least number that is too large for a position or a count.
abbrev pub too_large : ℕ
too_large = 2 ^ 63

-- An unsigned number of the file, least significant byte first.
unfoldable pub number : Bytes → ℕ
number [] = 0
number (b ∷ bs) = b + 256 * number bs

-- raw[from : from + n]
abbrev pub part : Bytes → ℕ → ℕ → Bytes
part raw from n = take n (drop from raw)

-- split(b"\0", 1)[0].decode("ascii", "replace")
unfoldable pub text_before_nul : Bytes → List ℕ
text_before_nul [] = []
text_before_nul (b ∷ bs) =
    let rest = text_before_nul bs in if b == 0 then [] else (if ltb b 128 then b else 65533) ∷ rest

-- `Header.marker`
unfoldable pub marker : Header → Bool
marker h = h.flags % 2 == 1

-- `read_header`
unfoldable pub read_header : Bytes → Reading Header
unfolding number text_before_nul
read_header file =
    let raw = take header_len file in
    if ltb (length raw) header_len || not (take 4 raw == magic)
    then raises wrong_magic
    else got (record {
      version = number (part raw 4 4);
      encoding = number (part raw 8 1);
      symmetry = number (part raw 9 1);
      material = text_before_nul (part raw 10 26);
      plane_size = number (part raw 36 8);
      max_dtm = number (part raw 44 1);
      flags = number (part raw 45 1);
      block_size = number (part raw 46 4);
      codec = number (part raw 50 1);
      json_len = number (part raw 60 4);
    })

-- `n` numbers of eight bytes
unfoldable pub numbers : ℕ → Bytes → List ℕ
unfolding number
numbers zero raw = []
numbers (suc n) raw = number (take 8 raw) ∷ numbers n (drop 8 raw)

-- xs[i], for an index that may be out of range
abbrev pub get_elem? : List ℕ → ℕ → Option ℕ
get_elem? [] i = none
get_elem? (x ∷ xs) zero = some x
get_elem? (x ∷ xs) (suc i) = get_elem? xs i

-- What `_read_index` returns.
pub record BlockIndex : Type 0 where
  pub blocks : ℕ
  pub offsets : List ℕ
  pub start : ℕ

-- `_read_index`
unfoldable pub read_index : Bytes → Header → Reading BlockIndex
unfolding number numbers
read_index file h =
    let at = header_len + h.json_len in
    let raw = part file at 8 in
    let nb = number raw in
    let index = part file (at + 8) (8 * (nb + 1)) in
    let begin = at + 8 + 8 * (nb + 1) in
    if ltb (length raw) 8
    then raises truncated_before_index
    else if leb too_large (8 * (nb + 1))
    then raises overflow_error
    else if ltb (length index) (8 * (nb + 1))
    then raises truncated_index
    else if ltb (length file) (begin + get_or_else (get_elem? (numbers (nb + 1) index) nb) 0)
    then raises index_past_end
    else got (record { blocks = nb; offsets = numbers (nb + 1) index; start = begin })

-- fh.seek(start + from), and fh.read(to - from): a count of -1 reads to the end, and any other
-- negative one is a ValueError.
unfoldable pub read_between : Bytes → ℕ → ℕ → ℕ → Reading Bytes
read_between file start from to =
    if leb too_large (start + from) || ltb (to + 1) from
    then raises value_error
    else if leb (from + too_large) to
    then raises overflow_error
    else got
        (if ltb to from then drop (start + from) file else part file (start + from) (to - from))

-- min(block_size, total - b * block_size); `none` if it is negative
unfoldable pub block_len : ℕ → ℕ → ℕ → Option ℕ
block_len block_size total b =
    if ltb total (b * block_size) then none else some (min block_size (total - b * block_size))

-- A complaint of `check_blocks` about a block, and the dots after the last one.
pub data Complaint : Type 0 where
  undecodable : ℕ → Complaint
  other_length : ℕ → ℕ → Complaint
  and_more : Complaint

-- The verdict of `check_blocks`.
pub data Verdict : Type 0 where
  fine : Verdict
  skips_marker : ℕ → Verdict
  skips_raw : ℕ → ℕ → Verdict
  bad_format : ReadError → Verdict
  bad_blocks : List Complaint → Verdict

-- `BlockReader`, but for its cache
pub record BlockReader : Type 0 where
  pub header : Header
  pub index : BlockIndex
  pub file : Bytes

abbrev pub logical_size : BlockReader → ℕ
logical_size r = 4 * r.header.plane_size

-- A `TableFormatError`, which `check_blocks` takes for a verdict.
abbrev pub is_format_error : ReadError → Bool
is_format_error zstd_error = false
is_format_error no_such_block = false
is_format_error value_error = false
is_format_error overflow_error = false
is_format_error e = true

-- What `check_blocks` makes of an index that cannot be read.
abbrev pub unread_index : ReadError → Reading (Verdict × ℕ)
unread_index e = if is_format_error e then got (bad_format e, 0) else raises e

-- The verdict on the blocks.
unfoldable pub verdict_of : List Complaint → Verdict
verdict_of [] = fine
verdict_of (c ∷ cs) = bad_blocks (c ∷ cs)

-- What follows a read that has not failed, with the new cache.
abbrev pub then_with :
    {A B : Type 0}
    → Option (Dict ℕ Bytes × Reading A)
    → (Dict ℕ Bytes → A → Option (Dict ℕ Bytes × Reading B))
    → Option (Dict ℕ Bytes × Reading B)
then_with none next = none
then_with (some (cache, raises e)) next = some (cache, raises e)
then_with (some (cache, got a)) next = next cache a

-- "".join(digests), as the bytes that are hashed
unfoldable pub joined : List String → Bytes
joined [] = []
joined (d ∷ ds) = codes d ++ joined ds

-- What `check_blocks` says of a block's decoded bytes, if there are any.
unfoldable pub judged : ℕ → Option ℕ → Option Bytes → List Complaint
judged b expect none = undecodable b ∷ []
judged b expect (some out) =
    if not (some (length out) == expect) then other_length b (length out) ∷ [] else []

-- What `BlockReader.block` does with them.
unfoldable pub measured : ℕ → Option ℕ → Option Bytes → Reading Bytes
measured b expect none = raises zstd_error
measured b expect (some out) =
    if not (some (length out) == expect) then raises (wrong_length b (length out)) else got out

module _ (decompress : Bytes → Option ℕ → Option Bytes) where
  -- The complaints about one block.
  unfoldable pub check_block : Bytes → Header → BlockIndex → ℕ → Reading (List Complaint)
  unfolding judged read_between
  check_block file h ix b =
      let expect = block_len h.block_size (4 * h.plane_size) b in
      and_then
        (read_between file ix.start (get_or_else (get_elem? ix.offsets b) 0)
          (get_or_else (get_elem? ix.offsets (suc b)) 0))
        (λ src. got (judged b expect (decompress src expect)))

  -- The loop of `check_blocks`, over the blocks from `b` on.
  unfoldable pub scan_blocks :
      Bytes → Header → BlockIndex → ℕ → ℕ → List Complaint → Reading (List Complaint)
  unfolding check_block
  scan_blocks file h ix zero b bad = got bad
  scan_blocks file h ix (suc k) b bad = and_then (check_block file h ix b) (λ more.
      elim (leb max_reported (length (bad ++ more))) [
        | true ↦ got ((bad ++ more) ++ (and_more ∷ []))
        | false ↦ scan_blocks file h ix k (suc b) (bad ++ more)
      ])

  -- `check_blocks`, behind the header
  unfoldable pub check_index : Bytes → Header → Reading (Verdict × ℕ)
  unfolding scan_blocks read_index verdict_of
  check_index file h = elim (read_index file h) [
    | raises e ↦ unread_index e
    | got ix ↦
        and_then (scan_blocks file h ix ix.blocks 0 []) (λ bad. got (verdict_of bad, ix.blocks))
  ]

  -- `check_blocks`
  unfoldable pub check_blocks : Bytes → Reading (Verdict × ℕ)
  unfolding check_index read_header marker
  check_blocks file = elim (read_header file) [
    | raises e ↦ got (bad_format e, 0)
    | got h ↦
        if marker h
        then got (skips_marker h.version, 0)
        else if not (h.encoding == 2) || h.block_size == 0
        then got (skips_raw h.version h.encoding, 0)
        else check_index file h
  ]

  -- `BlockReader.block`, of a block that is not cached
  unfoldable pub decode : BlockReader → ℕ → Reading Bytes
  unfolding measured read_between
  decode r b = elim (get_elem? r.index.offsets b) [
    | none ↦ raises no_such_block
    | some from ↦ elim (get_elem? r.index.offsets (suc b)) [
      | none ↦ raises no_such_block
      | some to ↦ and_then (read_between r.file r.index.start from to) (λ src.
          measured b (block_len r.header.block_size (logical_size r) b)
            (decompress src (some r.header.block_size)))
    ]
  ]

  -- The cache with one more block: the oldest of four goes.
  unfoldable pub remember : ℕ → Bytes → Dict ℕ Bytes → Dict ℕ Bytes
  remember b out cache = insert b out (if leb 4 (length cache) then drop 1 cache else cache)

  -- `BlockReader.block`, with the new cache
  unfoldable pub block : BlockReader → Dict ℕ Bytes → ℕ → Dict ℕ Bytes × Reading Bytes
  unfolding decode remember
  block r cache b = elim (lookup b cache) [
    | some hit ↦ (cache, got hit)
    | none ↦ elim (decode r b) [
      | raises e ↦ (cache, raises e)
      | got out ↦ (remember b out cache, got out)
    ]
  ]

  -- The loop of `BlockReader.read`, with the bytes read so far; `none` means that the fuel ran out.
  unfoldable pub read_loop :
      ℕ → BlockReader → Dict ℕ Bytes → ℕ → ℕ → Bytes → Option (Dict ℕ Bytes × Reading Bytes)
  unfolding block
  read_loop zero r cache offset end parts = if ltb offset end then none else some (cache, got parts)
  read_loop (suc fuel) r cache offset end parts = elim (ltb offset end) [
    | false ↦ some (cache, got parts)
    | true ↦
        let bs = r.header.block_size in
        let b = offset / bs in
        let answer = block r cache b in
        elim answer.1 [
          | raises e ↦ some (answer.0, raises e)
          | got out ↦
              let lo = offset - b * bs in
              let hi = min (length out) (end - b * bs) in
              read_loop fuel r answer.0 (offset + hi - lo) end (parts ++ part out lo (hi - lo))
        ]
  ]

  -- `BlockReader.read`; every round but a failing one reads a byte at least.
  unfoldable pub read : BlockReader → Dict ℕ Bytes → ℕ → ℕ → Option (Dict ℕ Bytes × Reading Bytes)
  unfolding read_loop
  read r cache offset n = read_loop n r cache offset (offset + n) []

  -- The chunks of a plane from an offset on, joined to the bytes before them, as a hash is fed with
  -- them.
  unfoldable pub chunks_loop :
      ℕ → BlockReader → Dict ℕ Bytes → ℕ → ℕ → ℕ → Bytes → Option (Dict ℕ Bytes × Reading Bytes)
  unfolding read
  chunks_loop zero r cache base off chunk fed =
      if ltb off r.header.plane_size then none else some (cache, got fed)
  chunks_loop (suc fuel) r cache base off chunk fed = elim (ltb off r.header.plane_size) [
    | false ↦ some (cache, got fed)
    | true ↦
        then_with (read r cache (base + off) (min chunk (r.header.plane_size - off)))
          (λ cache' out. chunks_loop fuel r cache' base (off + chunk) chunk (fed ++ out))
  ]

  -- `BlockReader.plane_chunks`, joined
  unfoldable pub plane_chunks :
      BlockReader → Dict ℕ Bytes → ℕ → ℕ → Option (Dict ℕ Bytes × Reading Bytes)
  unfolding chunks_loop
  plane_chunks r cache plane chunk =
      chunks_loop r.header.plane_size r cache (plane * r.header.plane_size) 0 chunk []

  -- The digests of planes.
  unfoldable pub plane_digests :
      (Bytes → String)
      → BlockReader
      → Dict ℕ Bytes
      → ℕ
      → List ℕ
      → Option (Dict ℕ Bytes × Reading (List String))
  unfolding plane_chunks
  plane_digests sha256 r cache chunk [] = some (cache, got [])
  plane_digests sha256 r cache chunk (p ∷ ps) =
      then_with (plane_chunks r cache p chunk) (λ cache' fed.
        then_with (plane_digests sha256 r cache' chunk ps)
          (λ cache'' digests. some (cache'', got (sha256 fed ∷ digests))))

  -- `payload_sha256`, of an opened table
  unfoldable pub reader_sha256 :
      (Bytes → String) → BlockReader → ℕ → Option (Dict ℕ Bytes × Reading String)
  unfolding plane_digests joined
  reader_sha256 sha256 r chunk =
      then_with (plane_digests sha256 r [] chunk (0 ∷ 1 ∷ 2 ∷ 3 ∷ []))
        (λ cache digests. some (cache, got (sha256 (joined digests))))

-- `BlockReader.__init__`
unfoldable pub open_table : Bytes → Reading BlockReader
unfolding read_header read_index marker
open_table file = elim (read_header file) [
  | raises e ↦ raises e
  | got h ↦
      if marker h || not (h.encoding == 2) || h.block_size == 0
      then raises not_compressed
      else elim (read_index file h) [
        | raises e ↦ raises e
        | got ix ↦ got (record { header = h; index = ix; file = file })
      ]
]
