-- ===== src/Tests/Website.antt =====
-- Instances of the theorems on the site's status.
use helpmate_tablebase.Base.{
  String, ◌≡◌, refl, true, false, none, some, [], ◌∷◌, string_eq, pair_eq, nat_eq, option_eq,
  list_eq, bool_eq,
}
use helpmate_tablebase.Claims.{ClaimIndex, Contributor}
use helpmate_tablebase.Registry.{TableRecord, Registry, producers_of}
use helpmate_tablebase.Overview.{done}
use helpmate_tablebase.Materials.{universe}
use helpmate_tablebase.Site.{Shown, shown_entry, Person, nobody, people_of}
use helpmate_tablebase.Site.Entries.{shown_entry_anonymous}

abbrev shy : Contributor
shy = record {
  key = "shy";
  github = some "shy";
  hf = some "shy-hf";
  display = "Shy";
  anonymous = true;
  note = "";
}

abbrev open_one : Contributor
open_one = record {
  key = "ada";
  github = some "ada";
  hf = some "ada-hf";
  display = "Ada";
  anonymous = false;
  note = "";
}

abbrev table_by : String → TableRecord
table_by key = record {
  by = some key;
  from_pr = some 4;
  claim = none;
  merged = none;
  version = none;
  verification = none;
  producers = some (
      record { contributor = some key; hf_pr = some 4; date = none; generator_version = none }
      ∷ []);
  published_from = some (some 4);
}

abbrev records : Registry
records = record {
  contributors = ("shy", shy) ∷ ("ada", open_one) ∷ [];
  tables = ("KQvk", table_by "shy") ∷ ("KRvk", table_by "ada") ∷ [];
}

abbrev no_claims : ClaimIndex
no_claims = record { claims = []; first = [] }

abbrev row_of_ada : Person
row_of_ada = record {
  display = "Ada";
  hf_user = some "ada-hf";
  github_user = some "ada";
  is_hidden = false;
  tables_made = 1;
  reproduced = 0;
  six = 0;
  made = "KRvk" ∷ [];
}

people_run :
    people_of ("KQvk" ∷ "KRvk" ∷ []) records ≡ row_of_ada ∷ record nobody { tables_made = 1 } ∷ []
unfolding people_of universe
people_run = refl

shown_entry_anonymous_example :
    (e : Shown) × (shown_entry [] no_claims records "KQvk" done ≡ some e)
    × (e.contributor ≡ some "anonymous")
shown_entry_anonymous_example =
    shown_entry_anonymous [] no_claims records "KQvk" done
      ("shy", [], shy, (unfold producers_of in refl), (λ h. cc), refl, refl)
