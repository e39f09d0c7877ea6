-- ===== src/TableFile/Blocks.antt =====
-- contrib/tablefile.py, `check_blocks` beside `BlockReader.block`.
use native.Mathlib.Decide.{ℕ_discrete, dec_lt}
use helpmate_tablebase.Base.{
  option_beq_iff, leb, ◌==◌, beq_refl, Bool-cases, Option-cases, length, drop, ℕ, zero, suc, ◌+◌,
  ◌*◌, ◌≤◌, ◌<◌, ◌≡◌, refl, sym, ap, ◌∙◌, subst, ◌⊎◌, inl, inr, Bool, false, not, ◌||◌, Option,
  none, some, List, [], ◌∷◌, ◌++◌, arith, string_eq, pair_eq, nat_eq, option_eq, list_eq, bool_eq,
}
use helpmate_tablebase.Storage.{Bytes}
use helpmate_tablebase.TableFile.{
  header_len, max_reported, Header, ReadError, no_such_block, Reading, got, raises, and_then,
  number, part, marker, read_header, numbers, get_elem?, BlockIndex, read_index, read_between,
  block_len, Complaint, and_more, fine, BlockReader, logical_size, is_format_error, unread_index,
  verdict_of, judged, measured, check_block, scan_blocks, check_index, check_blocks, decode,
  open_table,
}
use helpmate_tablebase.Verify.Hygiene.Stems.{nil_of_append}

length-numbers : (n : ℕ) (raw : Bytes) → length (numbers n raw) ≡ n
unfolding numbers
length-numbers zero raw = refl
length-numbers (suc n) raw = ap (λ k. suc k) (length-numbers n (drop 8 raw))

get_elem?-lt : (xs : List ℕ) (i : ℕ) → i < length xs → (x : ℕ) × (get_elem? xs i ≡ some x)
get_elem?-lt [] i h = absurd (omega arith)
get_elem?-lt (x ∷ xs) zero h = (x, refl)
get_elem?-lt (x ∷ xs) (suc i) h = get_elem?-lt xs i (omega arith)

get_elem?-ge : (xs : List ℕ) (i : ℕ) → length xs ≤ i → get_elem? xs i ≡ none
get_elem?-ge [] i h = refl
get_elem?-ge (x ∷ xs) zero h = absurd (omega arith)
get_elem?-ge (x ∷ xs) (suc i) h = get_elem?-ge xs i (omega arith)

length-read_index :
    (file : Bytes) (h : Header) (ix : BlockIndex)
    → read_index file h ≡ got ix
    → length ix.offsets ≡ ix.blocks + 1
unfolding read_index
length-read_index file h ix e =
    let at = header_len + h.json_len in
    let nb = number (part file at 8) in
    ground (arith, e, length-numbers (nb + 1) (part file (at + 8) (8 * (nb + 1))))

judged-nil :
    (b : ℕ) (expect : Option ℕ) (o : Option Bytes)
    → judged b expect o ≡ []
    → (out : Bytes) × (o ≡ some out) × (some (length out) ≡ expect)
unfolding judged
judged-nil b expect none e = absurd (cc)
judged-nil b expect (some out) e =
    (out, refl, ground (arith, e, option_beq_iff (some (length out)) expect))

pub Reading-cases :
    {A : Type 0} (x : Reading A) → ((a : A) × (x ≡ got a)) ⊎ ((e : ReadError) × (x ≡ raises e))
Reading-cases (got a) = inl (a, refl)
Reading-cases (raises e) = inr (e, refl)

pub got_inj : {A : Type 0} {a b : A} → got a ≡ got b → a ≡ b
got_inj h = cc

pub and_then-inv :
    {A B : Type 0} (r : Reading A) (f : A → Reading B) (b : B)
    → and_then r f ≡ got b
    → (a : A) × (r ≡ got a) × (f a ≡ got b)
and_then-inv (got a) f b e = (a, refl, e)
and_then-inv (raises x) f b e = absurd (cc)

module _ (decompress : Bytes → Option ℕ → Option Bytes) (file : Bytes) (h : Header)
    (ix : BlockIndex) where
  -- A round of the scan that ends without complaints has none, and is followed by such a scan.
  scan_blocks-suc :
      (k b : ℕ) (bad : List Complaint)
      → scan_blocks decompress file h ix (suc k) b bad ≡ got []
      → (more : List Complaint) × (check_block decompress file h ix b ≡ got more)
        × (scan_blocks decompress file h ix k (suc b) (bad ++ more) ≡ got [])
  unfolding scan_blocks
  scan_blocks-suc k b bad e =
      let (more, here, next) = and_then-inv (check_block decompress file h ix b) _ [] e in
      elim (Bool-cases (leb max_reported (length (bad ++ more)))) [
        | inl t ↦
            let full = got_inj (rw t at next) in
            absurd (cc (nil_of_append (bad ++ more) (and_more ∷ []) full).1)
        | inr t ↦ (more, here, (rw t at next))
      ]

  scan_blocks-nil_start :
      (k b : ℕ) (bad : List Complaint)
      → scan_blocks decompress file h ix k b bad ≡ got []
      → bad ≡ []
  unfolding scan_blocks
  scan_blocks-nil_start zero b bad e = got_inj e
  scan_blocks-nil_start (suc k) b bad e =
      let (more, here, next) = scan_blocks-suc k b bad e in
      (nil_of_append bad more (scan_blocks-nil_start k (suc b) (bad ++ more) next)).0

  scan_blocks-nil :
      (k b : ℕ) (bad : List Complaint)
      → scan_blocks decompress file h ix k b bad ≡ got []
      → (c : ℕ) → b ≤ c
      → c < b + k
      → check_block decompress file h ix c ≡ got []
  scan_blocks-nil zero b bad e c low high = absurd (omega arith)
  scan_blocks-nil (suc k) b bad e c low high =
      let (more, here, next) = scan_blocks-suc k b bad e in
      elim (ℕ_discrete b c) [
        | yes same ↦
            let none_here =
              (nil_of_append bad more (scan_blocks-nil_start k (suc b) (bad ++ more) next)).1 in
            subst (λ q. check_block decompress file h ix q ≡ got []) same
              (here ∙ ap (λ x. got x) none_here)
        | no other ↦ scan_blocks-nil k (suc b) (bad ++ more) next c (omega arith) (omega arith)
      ]

  check_block-nil :
      (b : ℕ) (from to : ℕ)
      → get_elem? ix.offsets b ≡ some from
      → get_elem? ix.offsets (suc b) ≡ some to
      → check_block decompress file h ix b ≡ got []
      → (src : Bytes) × (read_between file ix.start from to ≡ got src)
        × ((out : Bytes) × (decompress src (block_len h.block_size (4 * h.plane_size) b) ≡ some out)
            × (some (length out) ≡ block_len h.block_size (4 * h.plane_size) b))
  unfolding check_block
  check_block-nil b from to f t e =
      let expect = block_len h.block_size (4 * h.plane_size) b in
      let (src, found, clean) =
        and_then-inv (read_between file ix.start from to) _ [] (rw t at (rw f at e)) in
      (src, found, judged-nil b expect (decompress src expect) (got_inj clean))

-- zstandard's documented behaviour: a frame that is decoded within a bound on the output is decoded
-- to the same bytes within a larger one.
abbrev pub IsBounded : (Bytes → Option ℕ → Option Bytes) → Type 0
IsBounded decompress =
    (src : Bytes) (n k : ℕ) (out : Bytes)
    → decompress src (some n) ≡ some out
    → n ≤ k
    → decompress src (some k) ≡ some out

block_len-le : (block_size total b n : ℕ) → block_len block_size total b ≡ some n → n ≤ block_size
unfolding block_len
block_len-le block_size total b n e = ground (arith, e)

or_false : (a b c : Bool) → a || b || c ≡ false → (a ≡ false) × (b || c ≡ false)
or_false a b c h = ground (arith, h)

-- What an opened table says of its file.
open_table-inv :
    (file : Bytes) (r : BlockReader)
    → open_table file ≡ got r
    → (r.file ≡ file)
      × (read_header file ≡ got r.header)
      × (read_index file r.header ≡ got r.index)
      × (marker r.header ≡ false)
      × (not (r.header.encoding == 2) || r.header.block_size == 0 ≡ false)
unfolding open_table
open_table-inv file r e = elim (Reading-cases (read_header file)) [
  | inr (x, z) ↦ absurd (cc (rw (z, open_table) at e))
  | inl (h, z) ↦ elim (Bool-cases (marker h || not (h.encoding == 2) || h.block_size == 0)) [
    | inl t ↦ absurd (cc (rw t at (rw (z, open_table) at e)))
    | inr t ↦ elim (Reading-cases (read_index file h)) [
      | inr (x, y) ↦ absurd (cc (rw y at (rw t at (rw (z, open_table) at e))))
      | inl (ix, y) ↦
          let same : record { header = h; index = ix; file = file } ≡ r =
            got_inj (rw y at (rw t at (rw (z, open_table) at e))) in
          rw (← same) (
            refl,
            z,
            y,
            (or_false (marker h) (not (h.encoding == 2)) (h.block_size == 0) t).0,
            (or_false (marker h) (not (h.encoding == 2)) (h.block_size == 0) t).1,
          )
    ]
  ]
]

verdict_of-fine : (cs : List Complaint) → verdict_of cs ≡ fine → cs ≡ []
unfolding verdict_of
verdict_of-fine [] h = refl
verdict_of-fine (c ∷ cs) h = absurd (cc)

measured-got :
    (b : ℕ) (expect : Option ℕ) (out : Bytes)
    → some (length out) ≡ expect
    → measured b expect (some out) ≡ got out
unfolding measured
measured-got b expect out h = rw (← h) (rw (beq_refl (length out)) refl)

check_blocks-opened :
    (decompress : Bytes → Option ℕ → Option Bytes) (file : Bytes) (r : BlockReader) (count : ℕ)
    → open_table file ≡ got r
    → check_blocks decompress file ≡ got (fine, count)
    → scan_blocks decompress file r.header r.index r.index.blocks 0 [] ≡ got []
unfolding check_blocks check_index
check_blocks-opened decompress file r count o e =
    let (_, header, index, plain, compressed) = open_table-inv file r o in
    let (bad, scanned, last) =
      and_then-inv (scan_blocks decompress file r.header r.index r.index.blocks 0 []) _
        (fine, count)
        (rw (index, check_index) at
          (rw compressed at (rw plain at (rw (header, check_blocks) at e)))) in
    scanned ∙ ap (λ x. got x) (verdict_of-fine bad (ap (λ v. v.0) (got_inj last)))

-- What the checked blocks are for the reader.
pub check_blocks-decode :
    (decompress : Bytes → Option ℕ → Option Bytes) (file : Bytes) (r : BlockReader) (b checked : ℕ)
    → IsBounded decompress
    → open_table file ≡ got r
    → check_blocks decompress file ≡ got (fine, checked)
    → ((b < r.index.blocks)
        × ((out : Bytes) × (decode decompress r b ≡ got out)
            × (block_len r.header.block_size (logical_size r) b ≡ some (length out))))
      ⊎ ((r.index.blocks ≤ b) × (decode decompress r b ≡ raises no_such_block))
unfolding decode
check_blocks-decode decompress file r b checked bounded o e =
    let (same, _, index, _, _) = open_table-inv file r o in
    let count = length-read_index file r.header r.index index in
    elim (dec_lt b r.index.blocks) [
      | yes h ↦ inl (h, decoded b h count same)
      | no n ↦ inr (omega arith, beyond b (omega arith) count)
    ]
  where
    decoded :
        (c : ℕ)
        → c < r.index.blocks
        → length r.index.offsets ≡ r.index.blocks + 1
        → r.file ≡ file
        → (out : Bytes) × (decode decompress r c ≡ got out)
          × (block_len r.header.block_size (logical_size r) c ≡ some (length out))
    decoded c h count same =
        let (from, f) = get_elem?-lt r.index.offsets c (omega arith) in
        let (to, t) = get_elem?-lt r.index.offsets (suc c) (omega arith) in
        let scanned = check_blocks-opened decompress file r checked o e in
        let clean =
          scan_blocks-nil decompress file r.header r.index r.index.blocks 0 [] scanned c
            (omega arith) (omega arith) in
        let (src, found, (out, z, len)) =
          check_block-nil decompress file r.header r.index c from to f t clean in
        let small = block_len-le r.header.block_size (logical_size r) c (length out) (sym len) in
        let within = bounded src (length out) r.header.block_size out (rw (← len) at z) small in
        (
          out,
          rw (f, decode) (rw t (rw same (rw found (rw within (measured-got c _ out len))))),
          sym len,
        )

    beyond :
        (c : ℕ)
        → r.index.blocks ≤ c
        → length r.index.offsets ≡ r.index.blocks + 1
        → decode decompress r c ≡ raises no_such_block
    beyond c h count = elim (Option-cases (get_elem? r.index.offsets c)) [
      | inl z ↦ rw (z, decode) refl
      | inr (from, z) ↦
          rw (z, decode) (rw (get_elem?-ge r.index.offsets (suc c) (omega arith)) refl)
    ]

not_fine : (e : ReadError) (n : ℕ) → ¬ (unread_index e ≡ got (fine, n))
not_fine e n h = elim (Bool-cases (is_format_error e)) [
  | inl t ↦ cc (rw t at h)
  | inr t ↦ cc (rw t at h)
]

-- A file that `check_blocks` finds fine is opened by the reader.
pub check_blocks-open :
    (decompress : Bytes → Option ℕ → Option Bytes) (file : Bytes) (checked : ℕ)
    → check_blocks decompress file ≡ got (fine, checked)
    → (r : BlockReader) × (open_table file ≡ got r)
unfolding open_table check_blocks check_index
check_blocks-open decompress file checked e = elim (Reading-cases (read_header file)) [
  | inr (x, z) ↦ absurd (cc (rw (z, check_blocks) at e))
  | inl (h, z) ↦ elim (Bool-cases (marker h)) [
    | inl m ↦ absurd (cc (rw m at (rw (z, check_blocks) at e)))
    | inr m ↦ elim (Bool-cases (not (h.encoding == 2) || h.block_size == 0)) [
      | inl t ↦ absurd (cc (rw t at (rw m at (rw (z, check_blocks) at e))))
      | inr t ↦ elim (Reading-cases (read_index file h)) [
        | inr (x, y) ↦ absurd (
            not_fine x checked
              (rw (y, check_index) at (rw t at (rw m at (rw (z, check_blocks) at e)))))
        | inl (ix, y) ↦ (
          record { header = h; index = ix; file = file },
          rw (z, open_table) (rw m (rw t (rw y refl))),
        )
      ]
    ]
  ]
]
