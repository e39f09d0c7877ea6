-- ===== src/Verify/Header.antt =====
-- contrib/checks.py: check_header (V2) and check_block_integrity (V3). A JSON text is read by the
-- argument `parse`, which stands for json.loads and gives `none` for a ValueError. The messages are
-- a data type.
pub mod Sound
pub mod Blocks
use helpmate_tablebase.Base.{
  is_empty, leb, Eq, ◌==◌, get_or_else, if◌then◌else◌, all, codes, ℕ, ◌+◌, ◌-◌, ◌*◌, String, ◌⊎◌,
  inl, inr, Bool, true, false, not, ◌&&◌, ◌||◌, Option, none, some, List, [], ◌∷◌, ◌++◌, lex_less,
  string_eq, pair_eq, nat_eq, option_eq, list_eq, bool_eq,
}
use helpmate_tablebase.Storage.{Bytes}
use helpmate_tablebase.TableFile.{
  header_len, Header, ReadError, Reading, got, raises, and_then, part, marker, read_header, Verdict,
  fine, skips_marker, skips_raw, bad_format, bad_blocks, check_blocks,
}
use helpmate_tablebase.Materials.{canonical}
use helpmate_tablebase.Materials.Measures.{pawns, plane_size}
use helpmate_tablebase.Verify.{CheckStatus, pass, fail, skip}

-- One letter of a version's tag, [0-9A-Za-z.+-].
abbrev is_tag_code : ℕ → Bool
is_tag_code c =
    (leb b'0' c && leb c b'9')
    || (leb b'A' c && leb c b'Z')
    || (leb b'a' c && leb c b'z')
    || c == b'.'
    || c == b'+'
    || c == b'-'

-- The numbers of a version, with those before and the digits of the current one; on ASCII text.
unfoldable pub version_numbers : List ℕ → List ℕ → Option ℕ → Option (List ℕ)
version_numbers [] before none = none
version_numbers [] before (some n) = some (before ++ (n ∷ []))
version_numbers (c ∷ cs) before current = elim (leb b'0' c && leb c b'9') [
  | true ↦ version_numbers cs before (some (10 * get_or_else current 0 + (c - b'0')))
  | false ↦ elim current [
    | none ↦ none
    | some n ↦ elim (c == b'.') [
      | true ↦ version_numbers cs (before ++ (n ∷ [])) none
      | false ↦
          if (c == b'-' || c == b'+') && not (is_empty cs) && all is_tag_code cs
          then some (before ++ (n ∷ []))
          else none
    ]
  ]
]

-- `_version`
unfoldable pub version_of : String → Option (List ℕ)
unfolding version_numbers
version_of v = version_numbers (codes v) [] none

-- Why there is no sidecar: it is missing, no JSON, or no object.
pub data NoSidecar : Type 0 where
  no_file not_json not_object : NoSidecar

-- The complaints of `check_header`.
pub data HeaderProblem : Type 0 where
  unreadable : ReadError → HeaderProblem
  metadata_not_json : HeaderProblem
  not_canonical : Option String → HeaderProblem
  other_material other_plane_size wrong_symmetry marker_version not_served : HeaderProblem
  no_sidecar : NoSidecar → HeaderProblem
  sidecar_differs not_a_version newer_generator : HeaderProblem

-- problems.append(problem), under a test
abbrev when : Bool → HeaderProblem → List HeaderProblem
when true p = p ∷ []
when false p = []

-- The material of the header against the file's name.
unfoldable pub name_problems : String → Header → List HeaderProblem
name_problems stem h =
    when (not (canonical stem == some stem)) (not_canonical (canonical stem))
    ++ when (not (h.material == codes stem)) other_material

-- `if canon:`
unfoldable pub size_problems : Option String → Header → List HeaderProblem
size_problems none h = []
size_problems (some canon) h =
    when (not (h.plane_size == plane_size canon)) other_plane_size
    ++ when (not (h.symmetry == (if pawns canon == 0 then 1 else 0))) wrong_symmetry

-- Only markers of format 2, and tables compressed in blocks, are served.
unfoldable pub format_problems : Header → List HeaderProblem
unfolding marker
format_problems h =
    if marker h
    then when (not (h.version == 2)) marker_version
    else when (not (h.version == 3 && h.encoding == 2 && h.codec == 1 && not (h.block_size == 0)))
        not_served

-- The generator's version against the installed one.
unfoldable pub version_problems : Option (List ℕ) → Option (List ℕ) → List HeaderProblem
unfolding lex_less
version_problems none installed = not_a_version ∷ []
version_problems (some got_version) none = []
version_problems (some got_version) (some installed) =
    when (lex_less installed got_version) newer_generator

-- fail if problems else pass
unfoldable pub header_verdict : List HeaderProblem → CheckStatus × List HeaderProblem
header_verdict [] = (pass, [])
header_verdict (p ∷ ps) = (fail, p ∷ ps)

-- The status of V3 for a verdict.
abbrev pub integrity_status : Verdict → CheckStatus
integrity_status fine = pass
integrity_status (skips_marker v) = skip
integrity_status (skips_raw v encoding) = skip
integrity_status (bad_format e) = fail
integrity_status (bad_blocks cs) = fail

-- `check_block_integrity`
unfoldable pub check_block_integrity :
    (Bytes → Option ℕ → Option Bytes) → Bytes → Reading CheckStatus
unfolding check_blocks
check_block_integrity decompress file =
    and_then (check_blocks decompress file) (λ v. got (integrity_status v.0))

module _ {Json : Type 0} ⦃e : Eq Json⦄ (parse : Bytes → Option Json) (is_dict : Json → Bool)
    (generator_version : Json → String) where
  -- `_load_sidecar`, of the sidecar's bytes if it exists
  unfoldable pub load_sidecar : Option Bytes → NoSidecar ⊎ Json
  load_sidecar none = inl no_file
  load_sidecar (some bytes) = elim (parse bytes) [
    | none ↦ inl not_json
    | some sc ↦ if not (is_dict sc) then inl not_object else inr sc
  ]

  -- The part on the sidecar.
  unfoldable pub sidecar_problems : NoSidecar ⊎ Json → Json → String → List HeaderProblem
  unfolding version_problems version_of
  sidecar_problems (inl why) meta installed = no_sidecar why ∷ []
  sidecar_problems (inr sc) meta installed =
      when (not (sc == meta)) sidecar_differs
      ++ version_problems (version_of (generator_version sc)) (version_of installed)

  -- The complaints about a table whose header and metadata can be read.
  unfoldable pub header_problems :
      String → Header → Json → NoSidecar ⊎ Json → String → List HeaderProblem
  unfolding name_problems size_problems format_problems sidecar_problems
  header_problems stem h meta sidecar installed =
      name_problems stem h
      ++ (size_problems (canonical stem) h
          ++ (format_problems h ++ sidecar_problems sidecar meta installed))

  -- `check_header`, of the table's bytes under a name
  unfoldable pub check_header :
      String → Bytes → Option Bytes → String → CheckStatus × List HeaderProblem
  unfolding header_problems header_verdict load_sidecar read_header
  check_header stem file sidecar installed = elim (read_header file) [
    | raises x ↦ (fail, unreadable x ∷ [])
    | got h ↦ elim (parse (part file header_len h.json_len)) [
      | none ↦ (fail, metadata_not_json ∷ [])
      | some meta ↦ header_verdict (header_problems stem h meta (load_sidecar sidecar) installed)
    ]
  ]
