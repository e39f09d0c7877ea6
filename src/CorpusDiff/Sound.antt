-- ===== src/CorpusDiff/Sound.antt =====
-- What the states of files and the list of current materials say of the local files.
use helpmate_tablebase.Base.{
  ◌==◌, nat_eq, string_eq, option_eq, Bool-cases, Option-cases, if◌then◌else◌, In, any, all,
  In-append, Dict, lookup, lookup-insert, String, ◌≡◌, refl, sym, ap, ◌∙◌, subst, ◌≢◌, ◌⊎◌, inl,
  inr, Bool, true, false, not, ◌&&◌, Option, none, some, List, [], ◌∷◌, map, arith, pair_eq,
  list_eq, bool_eq,
}
use helpmate_tablebase.CorpusDiff.{
  LocalFile, ManifestEntry, ShaCache, cache_hash, FileState, new_file, changed_file, current_file,
  same_size, by_sha, file_status, file_states, is_new, is_pulled, Diff, files_of, place, diff_loop,
  diff,
}
use helpmate_tablebase.Consistency.{sorted_text}
use helpmate_tablebase.Claims.{stems, to_set}

-- The cache's hash of a file with the same size and time is that of its content.
abbrev pub Faithful : Dict String LocalFile → ShaCache → Type 0
Faithful local cache =
    (name : String) (e file : LocalFile)
    → lookup name cache.entries ≡ some e
    → lookup name local ≡ some file
    → e.size ≡ file.size
    → e.mtime_ns ≡ file.mtime_ns
    → e.sha256 ≡ file.sha256

-- What a state says of the file, `verify` given.
abbrev pub Tells : Option LocalFile → ManifestEntry → Bool → FileState → Type 0
Tells file entry verify new_file = file ≡ none
Tells file entry verify changed_file =
    (f : LocalFile) × (file ≡ some f)
    × ((some f.size ≢ entry.wanted_size) ⊎ (some f.sha256 ≢ entry.wanted_sha256))
Tells file entry verify current_file =
    (f : LocalFile) × (file ≡ some f)
    × (some f.size ≡ entry.wanted_size)
    × (some f.sha256 ≡ entry.wanted_sha256)
Tells file entry verify same_size =
    (verify ≡ false) × ((f : LocalFile) × (file ≡ some f) × (some f.size ≡ entry.wanted_size))

by_sha-Tells :
    (f : LocalFile) (entry : ManifestEntry) (verify : Bool) (sha : String)
    → some f.size ≡ entry.wanted_size
    → sha ≡ f.sha256
    → Tells (some f) entry verify (by_sha sha entry)
by_sha-Tells f entry verify sha s e = elim (Bool-cases (some sha == entry.wanted_sha256)) [
  | inl t ↦
      rw t (f, refl, s, ap some (sym e) ∙ (option_eq.equal_iff (some sha) entry.wanted_sha256).0 t)
  | inr t ↦ rw t (
    f,
    refl,
    inr (λ q.
        let same = (option_eq.equal_iff (some sha) entry.wanted_sha256).1 (ap some e ∙ q) in cc),
  )
]

cache_hash-Faithful :
    (local : Dict String LocalFile) (cache : ShaCache) (name : String) (f : LocalFile)
    → Faithful local cache
    → lookup name local ≡ some f
    → Faithful local (cache_hash name f cache)
unfolding cache_hash
cache_hash-Faithful local cache name f faithful here j e g le lg s t =
    let law = lookup-insert j name f cache.entries in
    elim (Bool-cases (j == name)) [
      | inl q ↦
          let found : some f ≡ some e = sym (rw q at law) ∙ le in
          let same = (string_eq.equal_iff j name).0 q in
          let one : some f ≡ some g = sym here ∙ (ap (λ x. lookup x local) (sym same) ∙ lg) in
          let a : f ≡ e = cc in let b : f ≡ g = cc in ap (λ x. x.sha256) (sym a ∙ b)
      | inr q ↦ faithful j e g (sym (rw q at law) ∙ le) lg s t
    ]

-- A file of the right size that the cache does not cover.
abbrev unhashed : String → LocalFile → ManifestEntry → Bool → ShaCache → FileState × ShaCache
unhashed name f entry verify cache =
    if not verify then (same_size, cache) else (by_sha f.sha256 entry, cache_hash name f cache)

unhashed-Tells :
    (local : Dict String LocalFile) (name : String) (f : LocalFile) (entry : ManifestEntry)
    (verify : Bool) (cache : ShaCache)
    → lookup name local ≡ some f
    → some f.size ≡ entry.wanted_size
    → Faithful local cache
    → Tells (some f) entry verify (unhashed name f entry verify cache).0
      × Faithful local (unhashed name f entry verify cache).1
unhashed-Tells local name f entry false cache here s faithful = ((refl, (f, refl, s)), faithful)
unhashed-Tells local name f entry true cache here s faithful = (
  by_sha-Tells f entry true f.sha256 s refl,
  cache_hash-Faithful local cache name f faithful here,
)

file_status-Tells :
    (local : Dict String LocalFile) (name : String) (file : Option LocalFile)
    (entry : ManifestEntry) (verify : Bool) (cache : ShaCache)
    → lookup name local ≡ file
    → Faithful local cache
    → Tells file entry verify (file_status name file entry verify cache).0
      × Faithful local (file_status name file entry verify cache).1
unfolding file_status
file_status-Tells local name none entry verify cache here faithful = (refl, faithful)
file_status-Tells local name (some f) entry verify cache here faithful =
    elim (Bool-cases (some f.size == entry.wanted_size)) [
      | inl s ↦
          let size_of = (option_eq.equal_iff (some f.size) entry.wanted_size).0 s in
          elim (Option-cases (lookup name cache.entries)) [
            | inl l ↦
                rw (file_status, s, l)
                  (unhashed-Tells local name f entry verify cache here size_of faithful)
            | inr (e, l) ↦ elim (Bool-cases (e.size == f.size && e.mtime_ns == f.mtime_ns)) [
              | inl b ↦
                  let same =
                    faithful name e f l here
                      ((nat_eq.equal_iff e.size f.size).0 (ground (arith, b)))
                      ((nat_eq.equal_iff e.mtime_ns f.mtime_ns).0 (ground (arith, b))) in
                  rw (file_status, s, l, b)
                    (by_sha-Tells f entry verify e.sha256 size_of same, faithful)
              | inr b ↦
                  rw (file_status, s, l, b)
                    (unhashed-Tells local name f entry verify cache here size_of faithful)
            ]
          ]
      | inr s ↦ rw s (
        (
          f,
          refl,
          inl (λ q. let same = (option_eq.equal_iff (some f.size) entry.wanted_size).1 q in cc),
        ),
        faithful,
      )
    ]

-- The states of several files, each of which tells of its file.
abbrev AllTell :
    Dict String LocalFile → Bool → List (String × ManifestEntry) → List FileState → Type 0
AllTell local verify [] ss = Unit
AllTell local verify (x ∷ es) [] = ⊥
AllTell local verify ((name, entry) ∷ es) (s ∷ ss) =
    Tells (lookup name local) entry verify s × AllTell local verify es ss

file_states-AllTell :
    (local : Dict String LocalFile) (verify : Bool) (files : List (String × ManifestEntry))
    (cache : ShaCache)
    → Faithful local cache
    → AllTell local verify files (file_states local verify files cache).0
      × Faithful local (file_states local verify files cache).1
unfolding file_states
file_states-AllTell local verify [] cache faithful = (tt, faithful)
file_states-AllTell local verify ((name, entry) ∷ es) cache faithful =
    let (here, next) =
      file_status-Tells local name (lookup name local) entry verify cache refl faithful in
    let (rest, last) = file_states-AllTell local verify es _ next in ((here, rest), last)

-- A file that the directory has as the manifest names it.
abbrev pub Matches : Dict String LocalFile → String → ManifestEntry → Type 0
Matches local name entry =
    (f : LocalFile) × (lookup name local ≡ some f)
    × (some f.size ≡ entry.wanted_size)
    × (some f.sha256 ≡ entry.wanted_sha256)

unpulled-Matches :
    (local : Dict String LocalFile) (name : String) (entry : ManifestEntry) (s : FileState)
    → Tells (lookup name local) entry true s
    → is_pulled s ≡ false
    → Matches local name entry
unpulled-Matches local name entry new_file t p = absurd (cc)
unpulled-Matches local name entry changed_file t p = absurd (cc)
unpulled-Matches local name entry current_file t p = t
unpulled-Matches local name entry same_size (v, _) p = absurd (cc)

all_unpulled-Matches :
    (local : Dict String LocalFile) (files : List (String × ManifestEntry)) (ss : List FileState)
    (name : String) (entry : ManifestEntry)
    → AllTell local true files ss
    → any is_pulled ss ≡ false
    → In (name, entry) files
    → Matches local name entry
all_unpulled-Matches local [] ss name entry a p i = elim i [ ]
all_unpulled-Matches local (x ∷ es) [] name entry a p i = elim a [ ]
all_unpulled-Matches local ((n, e) ∷ es) (s ∷ ss) name entry (t, a) p (inl q) =
    let here = unpulled-Matches local n e s t (ground (arith, p)) in
    subst (λ z. Matches local z.0 z.1) (sym q) here
all_unpulled-Matches local ((n, e) ∷ es) (s ∷ ss) name entry (t, a) p (inr i) =
    all_unpulled-Matches local es ss name entry a (ground (arith, p)) i

-- Every file of a material matches.
abbrev AllMatch : Dict String LocalFile → Dict String ManifestEntry → String → Type 0
AllMatch local manifest m =
    (name : String) (entry : ManifestEntry)
    → In (name, entry) (files_of manifest m)
    → Matches local name entry

place-current :
    (m x : String) (files : List (String × ManifestEntry)) (ss : List FileState) (out : Diff)
    → In x (place m files ss out).current
    → In x out.current ⊎ ((x ≡ m) × (any is_pulled ss ≡ false))
unfolding place
place-current m x files ss out i = elim (Bool-cases (all is_new ss)) [
  | inl a ↦ inl (rw (a, place) at i)
  | inr a ↦ elim (Bool-cases (any is_pulled ss)) [
    | inl p ↦ inl (rw (a, p, place) at i)
    | inr p ↦ elim (In-append x out.current (m ∷ []) (rw (a, p, place) at i)) [
      | inl j ↦ inl j
      | inr (inl e) ↦ inr (e, p)
      | inr (inr z) ↦ elim z [ ]
    ]
  ]
]

diff_loop-AllMatch :
    (local : Dict String LocalFile) (manifest : Dict String ManifestEntry) (ms : List String)
    (cache : ShaCache) (out : Diff)
    → Faithful local cache
    → ((x : String) → In x out.current → AllMatch local manifest x)
    → ((x : String)
        → In x (diff_loop local manifest true ms cache out).0.current
        → AllMatch local manifest x)
      × Faithful local (diff_loop local manifest true ms cache out).1
unfolding diff_loop
diff_loop-AllMatch local manifest [] cache out faithful h = (h, faithful)
diff_loop-AllMatch local manifest (m ∷ ms) cache out faithful h =
    let (tell, next) = file_states-AllTell local true (files_of manifest m) cache faithful in
    diff_loop-AllMatch local manifest ms _ _ next (λ x i.
      placed x (file_states local true (files_of manifest m) cache).0
        (place-current m x (files_of manifest m) _ out i) tell)
  where
    placed :
        (x : String) (ss : List FileState)
        → In x out.current ⊎ ((x ≡ m) × (any is_pulled ss ≡ false))
        → AllTell local true (files_of manifest m) ss
        → AllMatch local manifest x
    placed x ss (inl i) tell = h x i
    placed x ss (inr (e, p)) tell =
        subst (AllMatch local manifest) (sym e)
          (λ name entry j. all_unpulled-Matches local (files_of manifest m) _ name entry tell p j)

-- If the cache has the right hash of each local file whose size and time it has, then with
-- `verify` every file of a material that `diff` lists as current is in the local directory with
-- the size and the hash that the manifest names, and the cache that it saves is right as well.
pub diff-current :
    (local : Dict String LocalFile) (manifest : Dict String ManifestEntry) (cache : ShaCache)
    → Faithful local cache
    → ((m : String)
        → In m (diff local manifest true cache).0.current
        → (name : String) (entry : ManifestEntry) → In (name, entry) (files_of manifest m)
        → Matches local name entry)
      × Faithful local (diff local manifest true cache).1
unfolding diff
diff-current local manifest cache faithful =
    let nothing : Diff = record {
      new = [];
      changed = [];
      current = [];
      size_only = [];
      local_only = [];
    } in
    let materials = sorted_text (to_set (stems ".hm" (map (λ e. e.0) manifest))) in
    diff_loop-AllMatch local manifest materials cache nothing faithful (λ x i. elim i [ ])
