-- ===== src/Push/Batches.antt =====
-- The batches of a push put what the list of its files puts.
use mathlib.Core.List.{append-nil}
use helpmate_tablebase.Base.{
  is_empty, flat_map, length, take, drop, Dict, ℕ, zero, suc, ◌≤◌, ◌<◌, String, ◌≡◌, refl, sym, ap,
  ◌∙◌, ◌⊎◌, inr, false, List, [], ◌∷◌, ◌++◌, arith, length-drop, take-drop_all, string_eq, pair_eq,
  nat_eq, option_eq, list_eq, bool_eq,
}
use helpmate_tablebase.CorpusDiff.{LocalFile, ManifestEntry}
use helpmate_tablebase.Effects.Returns.{bind_inv}
use helpmate_tablebase.Push.{
  CommitFile, manifest_file, CommitAnswer, made, made_but_raised, refused, Remote, PushState,
  PushError, put_file, put_files, after_commit, commit, batches, to_commit, commit_batches,
}
use helpmate_tablebase.Push.Files.{put_files-append, put_files-more}

-- The batches together are the list.
pub batches-flat :
    (fuel n : ℕ) (ps : List (String × LocalFile))
    → length ps ≤ fuel
    → 0 < n
    → flat_map (λ b. b) (batches fuel n ps) ≡ ps
unfolding batches
batches-flat fuel n [] h z = refl
batches-flat zero n (p ∷ ps) h z = absurd (omega arith)
batches-flat (suc fuel) n (p ∷ ps) h z =
    of_rest (drop n (p ∷ ps)) refl (λ r b. batches-flat fuel n r b z)
  where
    of_rest :
        (rest : List (String × LocalFile))
        → drop n (p ∷ ps) ≡ rest
        → ((r : List (String × LocalFile))
            → length r ≤ fuel
            → flat_map (λ b. b) (batches fuel n r) ≡ r)
        → flat_map
            (λ b. b)
            (elim rest [ [] ↦ (p ∷ ps) ∷ [] | q ∷ qs ↦ take n (p ∷ ps) ∷ batches fuel n (q ∷ qs) ])
          ≡ p ∷ ps
    of_rest [] e ih = append-nil (p ∷ ps)
    of_rest (q ∷ qs) e ih =
        ap (λ l. take n (p ∷ ps) ++ l)
          (ih (q ∷ qs) (
            omega
              (arith, length-drop n (p ∷ ps), ap (λ (l : List (String × LocalFile)). length l) e)))
        ∙ (ap (λ l. take n (p ∷ ps) ++ l) (sym e) ∙ take-drop_all n (p ∷ ps))

pub after_commit-dataset :
    (a : CommitAnswer) (files : List CommitFile) (s : PushState)
    → (after_commit a files s).0 ≡ inr tt
    → (after_commit a files s).1.dataset ≡ put_files files s.dataset
unfolding put_files after_commit
after_commit-dataset made files s e = refl
after_commit-dataset made_but_raised files s e = absurd (cc)
after_commit-dataset refused files s e = absurd (cc)

pub commit-dataset :
    (remote : Remote) (files : List CommitFile) (s : PushState)
    → (commit remote files s).0 ≡ inr tt
    → (commit remote files s).1.dataset ≡ put_files files s.dataset
unfolding commit
commit-dataset remote files s e =
    after_commit-dataset (remote.commit_files s.commits files) files
      (record s { commits = files ∷ s.commits }) e

-- Batches that are all pushed have put their files, and then the manifest.
pub commit_batches-dataset :
    (remote : Remote) (version : String) (entries : Dict String ManifestEntry)
    (batch : List (String × LocalFile)) (rest : List (List (String × LocalFile))) (s : PushState)
    → (commit_batches remote version entries (batch ∷ rest) s).0 ≡ inr tt
    → (commit_batches remote version entries (batch ∷ rest) s).1.dataset
      ≡ put_file
          (manifest_file version entries)
          (put_files (to_commit (flat_map (λ b. b) (batch ∷ rest))) s.dataset)
unfolding commit_batches
commit_batches-dataset remote version entries batch [] s e =
    commit-dataset remote (to_commit batch ++ (manifest_file version entries ∷ [])) s e
    ∙ rw (append-nil batch)
        (put_files-append (to_commit batch) (manifest_file version entries ∷ []) s.dataset)
commit_batches-dataset remote version entries batch (next ∷ rest) s e =
    let (a, b, c) =
      bind_inv (commit remote (to_commit batch))
        (λ z. commit_batches remote version entries (next ∷ rest)) s tt e in
    let after = (commit remote (to_commit batch) s).1 in
    let ih =
      commit_batches-dataset remote version entries next rest after
        (sym (ap (λ (x : (PushError ⊎ Unit {0}) × PushState). x.0) c) ∙ e) in
    ap (λ (x : (PushError ⊎ Unit {0}) × PushState). x.1.dataset) c
    ∙ (ih
        ∙ (ap
              (λ d.
                put_file (manifest_file version entries)
                  (put_files (to_commit (flat_map (λ b. b) (next ∷ rest))) d))
              (commit-dataset remote (to_commit batch) s b)
            ∙ ap (put_file (manifest_file version entries))
                (put_files-more batch (flat_map (λ b. b) (next ∷ rest)) s.dataset)))

pub batches-cons :
    (fuel n : ℕ) (ps : List (String × LocalFile)) → is_empty (batches fuel n ps) ≡ false
unfolding batches
batches-cons fuel n [] = refl
batches-cons zero n (p ∷ ps) = refl
batches-cons (suc fuel) n (p ∷ ps) = of_rest (drop n (p ∷ ps))
  where
    of_rest :
        (rest : List (String × LocalFile))
        → is_empty
            (elim rest [ [] ↦ (p ∷ ps) ∷ [] | q ∷ qs ↦ take n (p ∷ ps) ∷ batches fuel n (q ∷ qs) ])
          ≡ false
    of_rest [] = refl
    of_rest (q ∷ qs) = refl

pub all_batches-dataset :
    (remote : Remote) (version : String) (entries : Dict String ManifestEntry)
    (bs : List (List (String × LocalFile))) (s : PushState)
    → is_empty bs ≡ false
    → (commit_batches remote version entries bs s).0 ≡ inr tt
    → (commit_batches remote version entries bs s).1.dataset
      ≡ put_file
          (manifest_file version entries)
          (put_files (to_commit (flat_map (λ b. b) bs)) s.dataset)
all_batches-dataset remote version entries [] s h e = absurd (cc)
all_batches-dataset remote version entries (b ∷ bs) s h e =
    commit_batches-dataset remote version entries b bs s e
