-- ===== src/Verify/Hygiene.antt =====
-- contrib/verify.py, `check_pr_hygiene`: the check V1 on the files of a pull request.
pub mod Stems
pub mod Sound
use Prim.Native.Char.{code}
use helpmate_tablebase.Base.{
  is_empty, flat_map, ◌==◌, is_some, if◌then◌else◌, filter, head?, contains, sorted_by, Dict, has,
  codes, String, Bool, not, ◌&&◌, ◌||◌, some, List, [], ◌∷◌, ◌++◌, map, string_eq, pair_eq, nat_eq,
  option_eq, list_eq, bool_eq,
}
use helpmate_tablebase.Claims.{PullRequest, strip_suffix, stems, to_set, Links}
use helpmate_tablebase.Consistency.{sorted_text}
use helpmate_tablebase.Materials.{canonical}
use helpmate_tablebase.Verify.{CheckStatus, pass, fail, warn}

-- `_unsafe`
unfoldable pub is_unsafe : String → Bool
is_unsafe name =
    contains (codes name) b'/' || contains (codes name) b'\\' || head? (codes name) == some b'.'

-- f.split(".")[0]
before_dot : String → String
before_dot String.[] = ""
before_dot (String.◌∷◌ c s) =
    let rest = before_dot s in if code c == b'.' then "" else String.◌∷◌ c rest

-- f.endswith(suffix)
abbrev pub ends_with : String → String → Bool
ends_with suffix f = is_some (strip_suffix suffix f)

pub data Problem : Type 0 where
  unsafe_name unexpected_file not_canonical unpaired deletes already_published : String → Problem
  no_tables : Problem

-- The problem of one file's name.
file_problem : String → List Problem
file_problem f =
    if is_unsafe f
    then unsafe_name f ∷ []
    else if not (ends_with ".hm" f || ends_with ".stats.json" f)
    then unexpected_file f ∷ []
    else []

-- The stems that stand in one of two sets only.
only_in_one : List String → List String → List String
only_in_one hms sidecars =
    filter (λ x. not (contains sidecars x)) hms ++ filter (λ x. not (contains hms x)) sidecars

-- The duplicates of published tables.
unfoldable pub duplicates : Dict String String → List String → List String
duplicates manifest files = to_set (stems ".hm" (filter (λ f. has f manifest) files))

-- `problems`, in the order in which they are added.
problems_of : PullRequest → Dict String String → List Problem
problems_of pr manifest =
    let hms = to_set (stems ".hm" pr.files) in
    let sidecars = to_set (stems ".stats.json" pr.files) in
    let dups = duplicates manifest pr.files in
    flat_map file_problem pr.files
    ++ (map not_canonical
          (filter (λ s. not (canonical s == some s)) (sorted_text (to_set (hms ++ sidecars))))
        ++ (map unpaired (sorted_text (only_in_one hms sidecars))
            ++ ((if is_empty hms then no_tables ∷ [] else [])
                ++ (map deletes pr.deleted
                    ++ map already_published (
                        filter (λ f. has f manifest && not (contains dups (before_dot f)))
                          pr.files)))))

-- The status of V1 with its problems, and the materials that are already published.
pub record Hygiene : Type 0 where
  pub status : CheckStatus
  pub problems : List Problem
  pub published : List String

-- `check_pr_hygiene`
unfoldable pub check_pr_hygiene : Links → PullRequest → Dict String String → Hygiene
unfolding problems_of file_problem only_in_one duplicates before_dot is_unsafe strip_suffix stems
    to_set sorted_by canonical
check_pr_hygiene parse_links pr manifest =
    let problems = problems_of pr manifest in
    record {
      status =
          if not (is_empty problems)
          then fail
          else if is_some (parse_links pr.description).0
          then pass
          else warn;
      problems = problems;
      published = duplicates manifest pr.files;
    }
