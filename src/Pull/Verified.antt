-- ===== src/Pull/Verified.antt =====
-- What a pull that succeeds leaves in the tables directory.
use helpmate_tablebase.Base.{
  ◌==◌, string_eq, eq_of_beq, Bool-cases, In, Dict, lookup, lookup-insert, String, ◌≡◌, refl, sym,
  ap, ◌∙◌, subst, ◌⊎◌, inl, inr, Bool, false, Option, none, some, List, [], ◌∷◌, lookup-erase,
  pair_eq, nat_eq, option_eq, list_eq, bool_eq,
}
use helpmate_tablebase.Push.{Directory, both_files}
use helpmate_tablebase.Pull.{
  Fetched, saved, nothing, broken, PullState, PullError, Pull, left_by, is_broken, download,
  discard, compare_sha, check_file, pull_file, pull_files, to_fetch, pull,
}
use helpmate_tablebase.CorpusDiff.{LocalFile, ManifestEntry, cache_hash}
use helpmate_tablebase.Effects.{◌>>=◌, pure, raise}
use helpmate_tablebase.Effects.Returns.{bind_inv}

-- The directory has the file that the entry describes.
abbrev pub IsVerified : String → ManifestEntry → Directory → Type 0
IsVerified name entry dir =
    (f : LocalFile) × (lookup name dir ≡ some f) × (entry.wanted_sha256 ≡ some f.sha256)

compared :
    (name : String) (f : LocalFile) (o : Option String) (s : PullState)
    → (compare_sha name f o s).0 ≡ inr tt
    → (o ≡ some f.sha256) × ((compare_sha name f o s).1 ≡ s)
unfolding compare_sha discard pure raise
compared name f none s e = absurd (cc)
compared name f (some sha) s e = elim (Bool-cases (f.sha256 == sha)) [
  | inl t ↦ (ap (λ x. some x) (sym (eq_of_beq f.sha256 sha t)), rw t refl)
  | inr t ↦ absurd (let h = rw t at e in cc h)
]

checked :
    (name : String) (entry : ManifestEntry) (s : PullState)
    → (check_file name entry s).0 ≡ inr tt
    → IsVerified name entry (check_file name entry s).1.dir
      × ((check_file name entry s).1.dir ≡ s.dir)
unfolding check_file discard raise
checked name entry s e = of_file (lookup name s.dir) refl e
  where
    run : Option LocalFile → (PullError ⊎ Unit {0}) × PullState
    run o = elim o [
      | none ↦ discard name s
      | some f ↦
          compare_sha name f entry.wanted_sha256 (record s { cache = cache_hash name f s.cache })
    ]

    of_file :
        (o : Option LocalFile)
        → lookup name s.dir ≡ o
        → (run o).0 ≡ inr tt
        → IsVerified name entry (run o).1.dir × ((run o).1.dir ≡ s.dir)
    of_file none q x = absurd (cc)
    of_file (some f) q x =
        let (a, b) =
          compared name f entry.wanted_sha256 (record s { cache = cache_hash name f s.cache }) x in
        let d : (run (some f)).1.dir ≡ s.dir = ap (λ (y : PullState). y.dir) b in
        ((f, ap (lookup name) d ∙ q, a), d)

other_kept :
    (fetched : Fetched) (name other : String) (dir : Directory)
    → (other == name) ≡ false
    → lookup other (left_by fetched name dir) ≡ lookup other dir
other_kept (saved f) name other dir h = lookup-insert other name f dir ∙ rw h refl
other_kept nothing name other dir h = lookup-erase other name dir ∙ rw h refl
other_kept (broken none) name other dir h = refl
other_kept (broken (some f)) name other dir h = lookup-insert other name f dir ∙ rw h refl

downloaded :
    (hub : Directory → String → Fetched) (name other : String) (s : PullState)
    → (other == name) ≡ false
    → lookup other (download hub name s).1.dir ≡ lookup other s.dir
unfolding download pure raise
downloaded hub name other s h = elim (Bool-cases (is_broken (hub s.dir name))) [
  | inl t ↦ rw t (other_kept (hub s.dir name) name other s.dir h)
  | inr t ↦ rw t (other_kept (hub s.dir name) name other s.dir h)
]

pull_file-IsVerified :
    (hub : Directory → String → Fetched) (name : String) (entry : ManifestEntry) (s : PullState)
    → (pull_file hub name entry s).0 ≡ inr tt
    → IsVerified name entry (pull_file hub name entry s).1.dir
      × ((other : String)
          → (other == name) ≡ false
          → lookup other (pull_file hub name entry s).1.dir ≡ lookup other s.dir)
unfolding pull_file
pull_file-IsVerified hub name entry s e =
    let (a, b, c) = bind_inv (download hub name) (λ z. check_file name entry) s tt e in
    let s1 = (download hub name s).1 in
    let (v, d) =
      checked name entry s1 (sym (ap (λ (x : (PullError ⊎ Unit {0}) × PullState). x.0) c) ∙ e) in
    let same = ap (λ (x : (PullError ⊎ Unit {0}) × PullState). x.1.dir) c in
    (
      subst (IsVerified name entry) (sym same) v,
      λ other h. ap (lookup other) (same ∙ d) ∙ downloaded hub name other s h,
    )

-- What the manifest has of a name is verified.
GoodFile : Dict String ManifestEntry → String → Directory → Type 0
GoodFile files name dir =
    (entry : ManifestEntry) → lookup name files ≡ some entry → IsVerified name entry dir

good_after :
    (files : Dict String ManifestEntry) (n name : String) (entry : ManifestEntry) (ns : List String)
    (before after : Directory)
    → lookup n files ≡ some entry
    → IsVerified n entry after
    → ((other : String) → (other == n) ≡ false → lookup other after ≡ lookup other before)
    → In name (n ∷ ns) ⊎ GoodFile files name before
    → In name ns ⊎ GoodFile files name after
unfolding GoodFile
good_after files n name entry ns before after l v o i = elim (Bool-cases (name == n)) [
  | inl t ↦
      let q : name ≡ n = eq_of_beq name n t in
      inr (λ e h.
        let r : entry ≡ e = cc (l, h, q) in
        subst (λ x. IsVerified x e after) (sym q) (subst (λ x. IsVerified n x after) r v))
  | inr t ↦ elim i [
    | inl (inl z) ↦ absurd (cc (t, (string_eq.equal_iff name n).1 z))
    | inl (inr z) ↦ inl z
    | inr g ↦ inr (λ e h. let (f, x, y) = g e h in (f, o name t ∙ x, y))
  ]
]

not_listed :
    (files : Dict String ManifestEntry) (n name : String) (ns : List String) (dir : Directory)
    → lookup n files ≡ none
    → In name (n ∷ ns) ⊎ GoodFile files name dir
    → In name ns ⊎ GoodFile files name dir
unfolding GoodFile
not_listed files n name ns dir l (inl (inl z)) =
    inr (λ e h. absurd (let q = ap (λ x. lookup x files) z in cc (l, h, q)))
not_listed files n name ns dir l (inl (inr i)) = inl i
not_listed files n name ns dir l (inr g) = inr g

pull_files-GoodFile :
    (hub : Directory → String → Fetched) (files : Dict String ManifestEntry) (names : List String)
    (s : PullState) (name : String)
    → (pull_files hub files names s).0 ≡ inr tt
    → In name names ⊎ GoodFile files name s.dir
    → GoodFile files name (pull_files hub files names s).1.dir
unfolding pull_files pure
pull_files-GoodFile hub files [] s name e (inl i) = absurd i
pull_files-GoodFile hub files [] s name e (inr g) = g
pull_files-GoodFile hub files (n ∷ ns) s name e i =
    of_entry (lookup n files) refl e (λ t. pull_files-GoodFile hub files ns t name)
  where
    run : Option ManifestEntry → Pull Unit
    run o = elim o [
      | none ↦ pull_files hub files ns
      | some entry ↦ pull_file hub n entry >>= λ z. pull_files hub files ns
    ]

    of_entry :
        (o : Option ManifestEntry)
        → lookup n files ≡ o
        → (run o s).0 ≡ inr tt
        → ((t : PullState)
            → (pull_files hub files ns t).0 ≡ inr tt
            → In name ns ⊎ GoodFile files name t.dir
            → GoodFile files name (pull_files hub files ns t).1.dir)
        → GoodFile files name (run o s).1.dir
    of_entry none l x ih = ih s x (not_listed files n name ns s.dir l i)
    of_entry (some entry) l x ih =
        let (a, b, c) = bind_inv (pull_file hub n entry) (λ z. pull_files hub files ns) s tt x in
        let t = (pull_file hub n entry s).1 in
        let (v, o) = pull_file-IsVerified hub n entry s b in
        subst (λ (y : (PullError ⊎ Unit {0}) × PullState). GoodFile files name y.1.dir) (sym c)
          (ih t (sym (ap (λ (y : (PullError ⊎ Unit {0}) × PullState). y.0) c) ∙ x)
            (good_after files n name entry ns s.dir t.dir l v o i))

-- When a pull returns, each file of its materials that the manifest has is in the tables directory,
-- with the hash that the manifest gives.
pub pull-IsVerified :
    (hub : Directory → String → Fetched) (files : Dict String ManifestEntry)
    (material : List String) (missing : Bool) (s : PullState) (name : String)
    (entry : ManifestEntry)
    → (pull hub (some (some files)) material missing s).0 ≡ inr tt
    → In name (both_files (to_fetch files material missing s.dir s.cache))
    → lookup name files ≡ some entry
    → IsVerified name entry (pull hub (some (some files)) material missing s).1.dir
unfolding pull GoodFile
pull-IsVerified hub files material missing s name entry e i l =
    pull_files-GoodFile hub files (both_files (to_fetch files material missing s.dir s.cache)) s
      name e (inl i) entry l
