-- ===== src/Push/Files.antt =====
-- What the files and the entries of a push put on the dataset.
use mathlib.Core.Option
use helpmate_tablebase.Base.{
  ◌==◌, string_eq, eq_of_beq, Bool-cases, if◌then◌else◌, any, contains, Dict, lookup, has, insert,
  lookup-insert, String, ◌≡◌, refl, sym, ap, ◌∙◌, subst, inl, inr, Bool, true, false, ◌&&◌, ◌||◌,
  Option, none, some, List, [], ◌∷◌, ◌++◌, arith, pair_eq, nat_eq, option_eq, list_eq, bool_eq,
}
use helpmate_tablebase.CorpusDiff.{LocalFile, ManifestEntry}
use helpmate_tablebase.Push.{
  Directory, CommitFile, table_file, Dataset, put_file, put_files, entry_of, entries_of, names_with,
  build_manifest, existing, update_entries, to_commit,
}

-- Each file of the list is that of the directory.
unfoldable pub FromDirectory : Directory → List (String × LocalFile) → Type 0
FromDirectory dir [] = Unit
FromDirectory dir ((name, f) ∷ ps) = (lookup name dir ≡ some f) × FromDirectory dir ps

pub existing-FromDirectory :
    (dir : Directory) (names : List String) → FromDirectory dir (existing dir names)
unfolding existing FromDirectory
existing-FromDirectory dir [] = tt
existing-FromDirectory dir (name ∷ names) =
    of_file (lookup name dir) refl (existing-FromDirectory dir names)
  where
    of_file :
        (o : Option LocalFile)
        → lookup name dir ≡ o
        → FromDirectory dir (existing dir names)
        → FromDirectory dir
            (elim o [ none ↦ existing dir names | some f ↦ (name, f) ∷ existing dir names ])
    of_file none e h = h
    of_file (some f) e h = (e, h)

abbrev pub has_name : String → List (String × LocalFile) → Bool
has_name name ps = any (λ p. p.0 == name) ps

pub existing-has_name :
    (dir : Directory) (names : List String) (name : String)
    → has_name name (existing dir names) ≡ (contains names name && has name dir)
unfolding existing
existing-has_name dir [] name = refl
existing-has_name dir (n ∷ names) name = ground (
  arith,
  string_eq.equal_iff name n,
  string_eq.equal_iff n name,
  existing-has_name dir names name,
)

-- What a list of files makes of an old value at a name.
abbrev pub written_over :
    {V : Type 0} → (LocalFile → V) → Directory → String → Bool → Option V → Option V
written_over value dir name true old = Option.map value (lookup name dir)
written_over value dir name false old = old

pub string_flip : (a b : String) → (a == b) ≡ (b == a)
string_flip a b = ground (arith, string_eq.equal_iff a b, string_eq.equal_iff b a)

pub written_over-cons :
    {V : Type 0} (value : LocalFile → V) (dir : Directory) (name n : String) (f : LocalFile)
    (b : Bool) (old : Option V)
    → lookup n dir ≡ some f
    → written_over value dir name b (if name == n then some (value f) else old)
      ≡ written_over value dir name (n == name || b) old
written_over-cons value dir name n f b old e = elim (Bool-cases (n == name)) [
  | inl t ↦
      let q : n ≡ name = eq_of_beq n name t in
      let h : lookup name dir ≡ some f = subst (λ x. lookup x dir ≡ some f) q e in
      rw (string_flip name n, t) (at_name b h)
  | inr t ↦ rw (string_flip name n, t) refl
]
  where
    at_name :
        (c : Bool)
        → lookup name dir ≡ some f
        → written_over value dir name c (some (value f)) ≡ Option.map value (lookup name dir)
    at_name true h = refl
    at_name false h = rw h refl

pub put_files-append :
    (xs ys : List CommitFile) (d : Dataset) → put_files (xs ++ ys) d ≡ put_files ys (put_files xs d)
unfolding put_files
put_files-append [] ys d = refl
put_files-append (x ∷ xs) ys d = put_files-append xs ys (put_file x d)

pub put_files-more :
    (ps qs : List (String × LocalFile)) (d : Dataset)
    → put_files (to_commit qs) (put_files (to_commit ps) d) ≡ put_files (to_commit (ps ++ qs)) d
unfolding put_files
put_files-more [] qs d = refl
put_files-more (p ∷ ps) qs d = put_files-more ps qs (put_file (table_file p.0 p.1.sha256) d)

pub put_files-files :
    (dir : Directory) (ps : List (String × LocalFile)) (d : Dataset) (name : String)
    → FromDirectory dir ps
    → lookup name (put_files (to_commit ps) d).files
      ≡ written_over (λ f. f.sha256) dir name (has_name name ps) (lookup name d.files)
unfolding put_files FromDirectory
put_files-files dir [] d name h = refl
put_files-files dir ((n, f) ∷ ps) d name (e, h) =
    put_files-files dir ps (put_file (table_file n f.sha256) d) name h
    ∙ (ap (written_over (λ x. x.sha256) dir name (has_name name ps))
          (lookup-insert name n f.sha256 d.files)
        ∙ written_over-cons (λ x. x.sha256) dir name n f (has_name name ps) (lookup name d.files) e)

pub put_files-listed :
    (ps : List (String × LocalFile)) (d : Dataset) → (put_files (to_commit ps) d).listed ≡ d.listed
unfolding put_files
put_files-listed [] d = refl
put_files-listed (p ∷ ps) d = put_files-listed ps (put_file (table_file p.0 p.1.sha256) d)

-- Each entry is that of the file of the directory.
unfoldable pub LocalEntries : Directory → Dict String ManifestEntry → Type 0
LocalEntries dir entries =
    (name : String) (e : ManifestEntry)
    → lookup name entries ≡ some e
    → Option.map entry_of (lookup name dir) ≡ some e

pub update_entries-lookup :
    (dir : Directory) (local_files : Dict String ManifestEntry) (ps : List (String × LocalFile))
    (old new : Dict String ManifestEntry) (name : String)
    → LocalEntries dir local_files
    → FromDirectory dir ps
    → update_entries local_files ps old ≡ some new
    → lookup name new ≡ written_over entry_of dir name (has_name name ps) (lookup name old)
unfolding update_entries FromDirectory LocalEntries
update_entries-lookup dir local_files [] old new name l h e =
    let q : old ≡ new = cc in ap (lookup name) (sym q)
update_entries-lookup dir local_files ((n, f) ∷ ps) old new name l (q, h) e =
    of_entry (lookup n local_files) refl
      (λ entry r. update_entries-lookup dir local_files ps (insert n entry old) new name l h r) e
  where
    of_entry :
        (o : Option ManifestEntry)
        → lookup n local_files ≡ o
        → ((entry : ManifestEntry)
            → update_entries local_files ps (insert n entry old) ≡ some new
            → lookup name new
              ≡ written_over entry_of dir name
                  (has_name name ps)
                  (lookup name (insert n entry old)))
        → elim o [ none ↦ none | some entry ↦ update_entries local_files ps (insert n entry old) ]
          ≡ some new
        → lookup name new
          ≡ written_over entry_of dir name (n == name || has_name name ps) (lookup name old)
    of_entry none r ih x = absurd (cc)
    of_entry (some entry) r ih x =
        let same : entry ≡ entry_of f = cc (l n entry r, q) in
        ih entry x
        ∙ (ap (written_over entry_of dir name (has_name name ps)) (lookup-insert name n entry old)
            ∙ (ap
                  (λ v.
                    written_over entry_of dir name (has_name name ps)
                      (if name == n then some v else lookup name old))
                  same
                ∙ written_over-cons entry_of dir name n f (has_name name ps) (lookup name old) q))

pub inserted_entry :
    (dir : Directory) (n name : String) (f : LocalFile) (v : ManifestEntry)
    (o : Option ManifestEntry)
    → lookup n dir ≡ some f
    → (o ≡ some v → Option.map entry_of (lookup name dir) ≡ some v)
    → (if name == n then some (entry_of f) else o) ≡ some v
    → Option.map entry_of (lookup name dir) ≡ some v
inserted_entry dir n name f v o e old r = elim (Bool-cases (name == n)) [
  | inl t ↦
      let q : lookup name dir ≡ some f =
        subst (λ x. lookup x dir ≡ some f) (sym (eq_of_beq name n t)) e in
      rw q (rw t at r)
  | inr t ↦ old (rw t at r)
]

pub entries_of-LocalEntries :
    (dir : Directory) (names : List String) (acc : Dict String ManifestEntry)
    → LocalEntries dir acc
    → LocalEntries dir (entries_of dir names acc)
unfolding entries_of
entries_of-LocalEntries dir [] acc h = h
entries_of-LocalEntries dir (n ∷ names) acc h =
    of_file (lookup n dir) refl (entries_of-LocalEntries dir names)
  where
    of_file :
        (o : Option LocalFile)
        → lookup n dir ≡ o
        → ((a : Dict String ManifestEntry)
            → LocalEntries dir a
            → LocalEntries dir (entries_of dir names a))
        → LocalEntries dir (elim o [
          | none ↦ entries_of dir names acc
          | some f ↦ entries_of dir names (insert n (entry_of f) acc)
        ])
    of_file none e ih = ih acc h
    of_file (some f) e ih = ih (insert n (entry_of f) acc) (
        unfold LocalEntries in
        λ name v r.
          inserted_entry dir n name f v (lookup name acc) e (h name v)
            (sym (lookup-insert name n (entry_of f) acc) ∙ r))

pub build_manifest-LocalEntries : (dir : Directory) → LocalEntries dir (build_manifest dir)
unfolding build_manifest
build_manifest-LocalEntries dir =
    entries_of-LocalEntries dir (names_with ".hm" dir ++ names_with ".stats.json" dir) []
      (unfold LocalEntries in λ name v r. absurd (cc))
