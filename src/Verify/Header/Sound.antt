-- ===== src/Verify/Header/Sound.antt =====
-- contrib/checks.py, V2 and V3: what a table that passes them is.
use helpmate_tablebase.Base.{
  Eq, ◌==◌, eq_of_beq, Bool-cases, Option-cases, if◌then◌else◌, codes, ℕ, String, ◌≡◌, refl, ap,
  subst, ◌≢◌, ◌⊎◌, inl, inr, Bool, true, false, not, ◌&&◌, Option, none, some, List, [], ◌∷◌, arith,
  lex_less, string_eq, pair_eq, nat_eq, option_eq, list_eq, bool_eq,
}
use helpmate_tablebase.TableFile.Blocks.{Reading-cases}
use helpmate_tablebase.TableFile.{header_len, Header, got, part, marker, read_header}
use helpmate_tablebase.Materials.{canonical}
use helpmate_tablebase.Materials.Measures.{pawns, plane_size}
use helpmate_tablebase.Verify.{pass}
use helpmate_tablebase.Verify.Header.{
  version_of, NoSidecar, HeaderProblem, not_canonical, other_material, other_plane_size,
  wrong_symmetry, sidecar_differs, newer_generator, when, name_problems, size_problems,
  format_problems, version_problems, header_verdict, load_sidecar, sidecar_problems,
  header_problems, check_header,
}
use helpmate_tablebase.Verify.Hygiene.Stems.{nil_of_append}
use helpmate_tablebase.Storage.{Bytes}

when-nil : (b : Bool) (p : HeaderProblem) → when b p ≡ [] → b ≡ false
when-nil true p h = absurd (cc)
when-nil false p h = refl

not_inv : (b : Bool) → not b ≡ false → b ≡ true
not_inv true h = refl
not_inv false h = absurd (cc)

header_verdict-pass : (ps : List HeaderProblem) → (header_verdict ps).0 ≡ pass → ps ≡ []
unfolding header_verdict
header_verdict-pass [] h = refl
header_verdict-pass (p ∷ ps) h = absurd (cc)

-- The header names the file's material, and has its sizes.
abbrev pub IsHeaderOf : String → Header → Type 0
IsHeaderOf stem h =
    (canonical stem ≡ some stem)
    × (h.material ≡ codes stem)
    × (h.plane_size ≡ plane_size stem)
    × (h.symmetry ≡ (if pawns stem == 0 then 1 else 0))

-- A marker of format 2, or a table of format 3 that is compressed in blocks.
abbrev pub IsServed : Header → Type 0
IsServed h =
    ((marker h ≡ true) × (h.version ≡ 2))
    ⊎ ((marker h ≡ false) × (h.version ≡ 3) × (h.encoding ≡ 2) × (h.codec ≡ 1) × (h.block_size ≢ 0))

name_problems-nil :
    (stem : String) (h : Header)
    → name_problems stem h ≡ []
    → (canonical stem ≡ some stem) × (h.material ≡ codes stem)
unfolding name_problems
name_problems-nil stem h n =
    let (a, b) =
      nil_of_append (when (not (canonical stem == some stem)) (not_canonical (canonical stem)))
        (when (not (h.material == codes stem)) other_material) n in
    (
      eq_of_beq (canonical stem) (some stem) (not_inv _ (when-nil _ _ a)),
      eq_of_beq h.material (codes stem) (not_inv _ (when-nil _ _ b)),
    )

size_problems-nil :
    (canon : String) (h : Header)
    → size_problems (some canon) h ≡ []
    → (h.plane_size ≡ plane_size canon) × (h.symmetry ≡ (if pawns canon == 0 then 1 else 0))
unfolding size_problems
size_problems-nil canon h n =
    let right : ℕ = if pawns canon == 0 then 1 else 0 in
    let (a, b) =
      nil_of_append (when (not (h.plane_size == plane_size canon)) other_plane_size)
        (when (not (h.symmetry == right)) wrong_symmetry) n in
    (
      eq_of_beq h.plane_size (plane_size canon) (not_inv _ (when-nil _ _ a)),
      eq_of_beq h.symmetry right (not_inv _ (when-nil _ _ b)),
    )

served_inv :
    (h : Header)
    → marker h ≡ false
    → h.version == 3 && h.encoding == 2 && h.codec == 1 && not (h.block_size == 0) ≡ true
    → (marker h ≡ false) × (h.version ≡ 3) × (h.encoding ≡ 2) × (h.codec ≡ 1) × (h.block_size ≢ 0)
served_inv h t e = (t, ground (arith, e), ground (arith, e), ground (arith, e), ground (arith, e))

format_problems-nil : (h : Header) → format_problems h ≡ [] → IsServed h
unfolding format_problems
format_problems-nil h n = elim (Bool-cases (marker h)) [
  | inl t ↦ inl (t, eq_of_beq h.version 2 (not_inv _ (when-nil _ _ (rw (t, format_problems) at n))))
  | inr t ↦ inr (served_inv h t (not_inv _ (when-nil _ _ (rw (t, format_problems) at n))))
]

version_problems-nil :
    (generated installed : Option (List ℕ))
    → version_problems generated installed ≡ []
    → (v : List ℕ) × (generated ≡ some v)
      × ((installed ≡ none) ⊎ ((w : List ℕ) × (installed ≡ some w) × (lex_less w v ≡ false)))
unfolding version_problems
version_problems-nil none installed n = absurd (cc)
version_problems-nil (some v) none n = (v, refl, inl refl)
version_problems-nil (some v) (some w) n =
    (v, refl, inr (w, refl, when-nil (lex_less w v) newer_generator n))

module _ {Json : Type 0} ⦃e : Eq Json⦄ (parse : Bytes → Option Json) (is_dict : Json → Bool)
    (generator_version : Json → String) where
  -- The sidecar is the table's own metadata, made by a version that is not newer than the installed
  -- one.
  abbrev pub IsOwnSidecar : NoSidecar ⊎ Json → Json → String → Type 0
  IsOwnSidecar sidecar meta installed =
      (sidecar ≡ inr meta)
      × ((v : List ℕ) × (version_of (generator_version meta) ≡ some v)
          × ((version_of installed ≡ none)
              ⊎ ((w : List ℕ) × (version_of installed ≡ some w) × (lex_less w v ≡ false))))

  sidecar_problems-nil :
      (sidecar : NoSidecar ⊎ Json) (meta : Json) (installed : String)
      → sidecar_problems parse is_dict generator_version sidecar meta installed ≡ []
      → IsOwnSidecar sidecar meta installed
  unfolding sidecar_problems
  sidecar_problems-nil (inl why) meta installed n = absurd (cc)
  sidecar_problems-nil (inr sc) meta installed n =
      let (a, b) =
        nil_of_append (when (not (sc == meta)) sidecar_differs)
          (version_problems (version_of (generator_version sc)) (version_of installed)) n in
      let same = eq_of_beq sc meta (not_inv _ (when-nil _ _ a)) in
      (
        ap inr same,
        version_problems-nil (version_of (generator_version meta)) (version_of installed) (
            subst
              (λ j. version_problems (version_of (generator_version j)) (version_of installed) ≡ [])
              same b),
      )

  header_problems-nil :
      (stem : String) (h : Header) (meta : Json) (sidecar : NoSidecar ⊎ Json) (installed : String)
      → header_problems parse is_dict generator_version stem h meta sidecar installed ≡ []
      → IsHeaderOf stem h × IsServed h × IsOwnSidecar sidecar meta installed
  unfolding header_problems
  header_problems-nil stem h meta sidecar installed n =
      let (names, more) = nil_of_append (name_problems stem h) _ n in
      let (sizes, others) = nil_of_append (size_problems (canonical stem) h) _ more in
      let (formats, rest) = nil_of_append (format_problems h) _ others in
      let (canon, material) = name_problems-nil stem h names in
      let (plane, symmetry) =
        size_problems-nil stem h (subst (λ c. size_problems c h ≡ []) canon sizes) in
      (
        (canon, material, plane, symmetry),
        format_problems-nil h formats,
        sidecar_problems-nil sidecar meta installed rest,
      )

  -- A table that passes V2 has a readable header and metadata; its name is canonical and is the
  -- header's material, plane size and symmetry byte are those of the material, its format is one
  -- that is served, and its sidecar equals the metadata and names a version that is not newer than
  -- the installed one, where that has one.
  pub check_header-pass :
      (stem : String) (file : Bytes) (sidecar : Option Bytes) (installed : String)
      → (check_header parse is_dict generator_version stem file sidecar installed).0 ≡ pass
      → (h : Header) × (meta : Json) × (read_header file ≡ got h)
        × (parse (part file header_len h.json_len) ≡ some meta)
        × IsHeaderOf stem h
        × IsServed h
        × IsOwnSidecar (load_sidecar parse is_dict generator_version sidecar) meta installed
  unfolding check_header
  check_header-pass stem file sidecar installed p = elim (Reading-cases (read_header file)) [
    | inr (x, z) ↦ absurd (cc (rw (z, check_header) at p))
    | inl (h, z) ↦ elim (Option-cases (parse (part file header_len h.json_len))) [
      | inl y ↦ absurd (cc (rw y at (rw (z, check_header) at p)))
      | inr (meta, y) ↦
          let none_left =
            header_verdict-pass
              (header_problems parse is_dict generator_version stem h meta
                (load_sidecar parse is_dict generator_version sidecar) installed)
              (rw y at (rw (z, check_header) at p)) in
          let (named, served, own) =
            header_problems-nil stem h meta (load_sidecar parse is_dict generator_version sidecar)
              installed none_left in
          (h, meta, z, y, named, served, own)
    ]
  ]
