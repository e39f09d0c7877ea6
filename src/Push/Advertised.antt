-- ===== src/Push/Advertised.antt =====
-- The manifest of the dataset never lists a file that is not there, at whatever point a push ends.
use helpmate_tablebase.Base.{
  flat_map, ◌==◌, string_eq, is_some, get_or_else, if◌then◌else◌, length, Dict, lookup, has, insert,
  lookup-insert, String, ◌≡◌, refl, sym, ap, ◌∙◌, subst, inr, Bool, true, false, ◌||◌, Option, none,
  some, List, [], ◌∷◌, ◌++◌, arith, pair_eq, nat_eq, option_eq, list_eq, bool_eq,
}
use helpmate_tablebase.Push.{
  Directory, CommitFile, table_file, manifest_file, Dataset, CommitAnswer, made, made_but_raised,
  refused, Remote, PushState, PushError, no_version, not_fetched, no_entry, put_file, put_files,
  after_commit, commit, build_manifest, gen_version, names_to_push, paths, update_entries,
  commit_chunk, batches, to_commit, commit_batches, write_manifest, or_raise, push,
}
use helpmate_tablebase.CorpusDiff.{LocalFile, ManifestEntry}
use helpmate_tablebase.Effects.Keeps.{Keeps, Keeps-pure, Keeps-raise, Keeps-weaken, Keeps-bind}
use helpmate_tablebase.Push.Files.{has_name, put_files-append, put_files-listed}
use helpmate_tablebase.Effects.{pure, raise}
use helpmate_tablebase.Push.Batches.{batches-flat}

-- Each name listed is a name of a file.
abbrev pub AllListed : Dict String ManifestEntry → Dict String String → Type 0
AllListed listed files = (name : String) → has name listed ≡ true → has name files ≡ true

has-insert_self :
    {V : Type 0} (name n : String) (v : V) (d : Dict String V)
    → has name (insert n v d) ≡ (name == n || has name d)
has-insert_self name n v d = rw (lookup-insert name n v d) (by_test (name == n))
  where
    by_test : (b : Bool) → is_some (if b then some v else lookup name d) ≡ (b || has name d)
    by_test true = refl
    by_test false = refl

has-put_files :
    (ps : List (String × LocalFile)) (d : Dataset) (name : String)
    → has name (put_files (to_commit ps) d).files ≡ (has_name name ps || has name d.files)
unfolding put_files
has-put_files [] d name = refl
has-put_files ((n, f) ∷ ps) d name = ground (
  arith,
  has-put_files ps (put_file (table_file n f.sha256) d) name,
  has-insert_self name n f.sha256 d.files,
  string_eq.equal_iff name n,
  string_eq.equal_iff n name,
)

-- Each entry is of a file there is, or of one in the batches to come.
Covered : Dict String ManifestEntry → List (List (String × LocalFile)) → PushState → Type 0
Covered entries bs s =
    (name : String)
    → has name entries ≡ true
    → (has_name name (flat_map (λ b. b) bs) || has name s.dataset.files) ≡ true

IsAdvertised : PushState → Type 0
IsAdvertised s = AllListed s.dataset.listed s.dataset.files

has_name-append :
    (name : String) (xs ys : List (String × LocalFile))
    → has_name name (xs ++ ys) ≡ (has_name name xs || has_name name ys)
has_name-append name [] ys = refl
has_name-append name (x ∷ xs) ys = ground (arith, has_name-append name xs ys)

module _ (remote : Remote) (entries : Dict String ManifestEntry) where
  put_batch :
      (batch : List (String × LocalFile)) (rest : List (List (String × LocalFile))) (s : PushState)
      → IsAdvertised s
      → Covered entries (batch ∷ rest) s
      → IsAdvertised (record s { dataset = put_files (to_commit batch) s.dataset })
        × Covered entries rest (record s { dataset = put_files (to_commit batch) s.dataset })
  unfolding IsAdvertised Covered
  put_batch batch rest s a c = (
    (λ name h.
        has-put_files batch s.dataset name
        ∙ ground (
          arith,
          a name (
              ap (λ (l : Dict String ManifestEntry). has name l)
                (sym (put_files-listed batch s.dataset))
              ∙ h),
        )),
    (λ name h. ground (
      arith,
      has-put_files batch s.dataset name,
      c name h,
      has_name-append name batch (flat_map (λ b. b) rest),
    )),
  )

  after_answer :
      (Q : PushState → Type 0) (a : CommitAnswer) (files : List CommitFile) (s : PushState)
      → IsAdvertised s
      → IsAdvertised (record s { dataset = put_files files s.dataset })
      → Q (record s { dataset = put_files files s.dataset })
      → IsAdvertised (after_commit a files s).1
        × ((x : Unit {0}) → (after_commit a files s).0 ≡ inr x → Q (after_commit a files s).1)
  unfolding after_commit put_files
  after_answer Q made files s g h q = (h, λ x e. q)
  after_answer Q made_but_raised files s g h q = (h, λ x e. absurd (cc))
  after_answer Q refused files s g h q = (g, λ x e. absurd (cc))

  Keeps-commit :
      (P Q : PushState → Type 0) (files : List CommitFile)
      → ((s : PushState)
          → IsAdvertised s
          → P s
          → IsAdvertised
              (record s { dataset = put_files files s.dataset; commits = files ∷ s.commits })
            × Q (record s { dataset = put_files files s.dataset; commits = files ∷ s.commits }))
      → Keeps IsAdvertised P (λ z. Q) (commit remote files)
  unfolding commit IsAdvertised
  Keeps-commit P Q files k = record {
    at = λ s g p.
        let (h, q) = k s g p in
        after_answer Q (remote.commit_files s.commits files) files
          (record s { commits = files ∷ s.commits }) g h q;
  }

  put_last :
      (version : String) (batch : List (String × LocalFile)) (s : PushState)
      → Covered entries (batch ∷ []) s
      → AllListed entries (put_files (to_commit batch) s.dataset).files
  unfolding Covered
  put_last version batch s c name h =
      has-put_files batch s.dataset name ∙ ground (arith, c name h, has_name-append name batch [])

  Keeps-commit_batches :
      (version : String) (bs : List (List (String × LocalFile)))
      → Keeps IsAdvertised
          (Covered entries bs)
          (λ z s. Unit)
          (commit_batches remote version entries bs)
  unfolding commit_batches IsAdvertised Covered put_files
  Keeps-commit_batches version [] = Keeps-pure tt (λ s p. tt)
  Keeps-commit_batches version (batch ∷ []) =
      Keeps-commit (Covered entries (batch ∷ [])) (λ s. Unit)
        (to_commit batch ++ (manifest_file version entries ∷ []))
        (λ s g c. (
          subst (λ (d : Dataset). AllListed d.listed d.files)
              (sym
                (put_files-append (to_commit batch) (manifest_file version entries ∷ []) s.dataset))
              (put_last version batch s c),
          tt,
        ))
  Keeps-commit_batches version (batch ∷ next ∷ rest) =
      Keeps-bind {Q = λ z. Covered entries (next ∷ rest)} (commit remote (to_commit batch)) _
        (Keeps-commit (Covered entries (batch ∷ next ∷ rest)) (Covered entries (next ∷ rest))
          (to_commit batch) (λ s g c. put_batch batch (next ∷ rest) s g c))
        (λ z. Keeps-commit_batches version (next ∷ rest))

update_entries-has :
    (local_files : Dict String ManifestEntry) (ps : List (String × LocalFile))
    (old new : Dict String ManifestEntry) (name : String)
    → update_entries local_files ps old ≡ some new
    → has name new ≡ true
    → (has_name name ps || has name old) ≡ true
unfolding update_entries
update_entries-has local_files [] old new name e h = let q : old ≡ new = cc in rw q h
update_entries-has local_files ((n, f) ∷ ps) old new name e h =
    of_entry (lookup n local_files) e
      (λ entry x. update_entries-has local_files ps (insert n entry old) new name x h)
  where
    of_entry :
        (o : Option ManifestEntry)
        → elim o [ none ↦ none | some entry ↦ update_entries local_files ps (insert n entry old) ]
          ≡ some new
        → ((entry : ManifestEntry)
            → update_entries local_files ps (insert n entry old) ≡ some new
            → (has_name name ps || has name (insert n entry old)) ≡ true)
        → (n == name || has_name name ps || has name old) ≡ true
    of_entry none x ih = absurd (cc)
    of_entry (some entry) x ih = ground (
      arith,
      ih entry x,
      has-insert_self name n entry old,
      string_eq.equal_iff name n,
      string_eq.equal_iff n name,
    )

Keeps-or_raise :
    {A : Type 0} {P : PushState → Type 0} (x : PushError) (o : Option A)
    → Keeps IsAdvertised P (λ a s. (o ≡ some a) × P s) (or_raise x o)
unfolding pure raise
Keeps-or_raise x none = Keeps-raise x
Keeps-or_raise x (some a) = Keeps-pure a (λ s p. (refl, p))

module _ (remote : Remote) (version_in : LocalFile → Option String) (dir : Directory)
    (material : List String) where
  -- The names that the fetched manifest lists are those of files.
  Known : PushState → Type 0
  Known s = AllListed (get_or_else (get_or_else remote.fetch_manifest none) []) s.dataset.files

  to_push : List (String × LocalFile)
  to_push = paths dir (names_to_push dir material)

  to_push-Covered :
      (manifest : Option (Dict String ManifestEntry)) (entries : Dict String ManifestEntry)
      (s : PushState)
      → update_entries (build_manifest dir) to_push (get_or_else manifest []) ≡ some entries
      → remote.fetch_manifest ≡ some manifest
      → Known s
      → Covered entries (batches (length to_push) commit_chunk to_push) s
  unfolding Covered Known
  to_push-Covered manifest entries s u m k name h =
      let kept : (has name (get_or_else manifest []) ≡ true → has name s.dataset.files ≡ true) =
        λ x. k name (ap (λ o. has name (get_or_else (get_or_else o none) [])) m ∙ x) in
      rw (batches-flat (length to_push) commit_chunk to_push (omega arith) (omega arith)) (
        either (has_name name to_push) (has name (get_or_else manifest []))
          (has name s.dataset.files)
          (update_entries-has (build_manifest dir) to_push (get_or_else manifest []) entries name u
            h)
          kept)
    where
      either : (a b c : Bool) → (a || b) ≡ true → (b ≡ true → c ≡ true) → (a || c) ≡ true
      either true b c x y = refl
      either false b c x y = y x

  kept_by_write :
      (v : String)
      → Keeps IsAdvertised
          (λ x. (gen_version version_in dir ≡ some v) × Known x)
          (λ z x. Known x)
          (write_manifest (build_manifest dir))
  unfolding write_manifest pure IsAdvertised Known
  kept_by_write v = record { at = λ s g p. (g, λ a e. p.1) }

  Keeps-push : Keeps IsAdvertised Known (λ z x. Unit) (push remote version_in dir material)
  unfolding push to_push
  Keeps-push =
      Keeps-bind {Q = λ v x. (gen_version version_in dir ≡ some v) × Known x}
        (or_raise no_version (gen_version version_in dir)) _ (Keeps-or_raise no_version _)
        (λ version.
          Keeps-bind {Q = λ z x. Known x} (write_manifest (build_manifest dir)) _
            (kept_by_write version)
            (λ z.
              Keeps-bind {Q = λ m x. (remote.fetch_manifest ≡ some m) × Known x}
                (or_raise not_fetched remote.fetch_manifest) _ (Keeps-or_raise not_fetched _)
                (λ manifest.
                  Keeps-bind
                    {Q = λ en x.
                      (update_entries (build_manifest dir) to_push (get_or_else manifest [])
                        ≡ some en)
                      × ((remote.fetch_manifest ≡ some manifest) × Known x)}
                    (or_raise no_entry
                      (update_entries (build_manifest dir) to_push (get_or_else manifest [])))
                    _ (Keeps-or_raise no_entry _)
                    (λ entries.
                      Keeps-weaken
                        (commit_batches remote version entries
                          (batches (length to_push) commit_chunk to_push))
                        (λ x h. to_push-Covered manifest entries x h.0 h.1.0 h.1.1)
                        (Keeps-commit_batches remote entries version
                          (batches (length to_push) commit_chunk to_push))))))

-- Where each name that the dataset lists, and each that the fetched manifest lists, is a file there,
-- so it is after a push, wherever the push ends and whatever the Hub answers.
pub push-AllListed :
    (remote : Remote) (version_in : LocalFile → Option String) (dir : Directory)
    (material : List String) (s : PushState)
    → AllListed s.dataset.listed s.dataset.files
    → AllListed (get_or_else (get_or_else remote.fetch_manifest none) []) s.dataset.files
    → AllListed
        (push remote version_in dir material s).1.dataset.listed
        (push remote version_in dir material s).1.dataset.files
unfolding IsAdvertised Known
push-AllListed remote version_in dir material s a f =
    ((Keeps-push remote version_in dir material).at s a f).0
