-- ===== src/Storage/Chain/Merging.antt =====
-- storage.py, `ChainSource.catalog`: which entry the catalog shows of a table that several sources
-- have.
use mathlib.Core.List.{append-nil}
use helpmate_tablebase.Base.{
  In-map_inv, flat_map, ◌==◌, string_eq, Bool-cases, Option-cases, get_or_else, if◌then◌else◌, In,
  find, In-map, In-sorted_by, Dict, lookup, has, setdefault, lookup-insert, lookup-setdefault,
  String, ◌≡◌, sym, ap, ◌∙◌, subst, ◌↔◌, inl, inr, Option, none, some, List, [], ◌∷◌, ◌++◌, map,
  arith, lookup-In, In-insert, pair_eq, nat_eq, option_eq, list_eq, bool_eq,
}
use helpmate_tablebase.Storage.Chain.{
  SliceInfo, SidecarStats, by_material, local_catalog, remote_catalog, ChainSource, merge, merged,
  catalog,
}
use helpmate_tablebase.Storage.{Bytes, RemoteHub}

-- Each entry stands under its material, and is what a lookup finds.
abbrev IsKeyed : Dict String SliceInfo → Type 0
IsKeyed d = (k : String) (s : SliceInfo) → In (k, s) d → (k ≡ s.material) × (lookup k d ≡ some s)

setdefault-IsKeyed :
    (s : SliceInfo) (d : Dict String SliceInfo) → IsKeyed d → IsKeyed (setdefault s.material s d)
setdefault-IsKeyed s d keyed k t i = elim (Bool-cases (has s.material d)) [
  | inl h ↦ rw h (keyed k t (rw h at i))
  | inr h ↦ rw h (elim (In-insert s.material s d (k, t) (rw h at i)) [
    | inl e ↦ ground (arith, e, lookup-insert k s.material s d, string_eq.equal_iff k s.material)
    | inr j ↦
        let (same, found) = keyed k t j in
        (same, ground (arith, lookup-insert k s.material s d, string_eq.equal_iff k s.material))
  ])
]

merge-IsKeyed : (ts : List SliceInfo) (d : Dict String SliceInfo) → IsKeyed d → IsKeyed (merge d ts)
unfolding merge
merge-IsKeyed [] d keyed = keyed
merge-IsKeyed (t ∷ ts) d keyed =
    merge-IsKeyed ts (setdefault t.material t d) (setdefault-IsKeyed t d keyed)

lookup-merge :
    (k : String) (ts : List SliceInfo) (d : Dict String SliceInfo)
    → lookup k (merge d ts) ≡ (if has k d then lookup k d else find (λ t. t.material == k) ts)
unfolding merge
lookup-merge k [] d = ground arith
lookup-merge k (t ∷ ts) d = ground (
  arith,
  lookup-merge k ts (setdefault t.material t d),
  lookup-setdefault k t.material t d,
  string_eq.equal_iff k t.material,
  string_eq.equal_iff t.material k,
)

-- The merged catalog shows exactly the first entry of each material, in the order of the sources.
pub In-merged :
    (tables : List SliceInfo) (s : SliceInfo)
    → In s (merged tables) ↔ (find (λ t. t.material == s.material) tables ≡ some s)
unfolding merged
In-merged tables s = (shown, shows)
  where
    whole : Dict String SliceInfo
    whole = merge [] tables

    shown : In s (merged tables) → find (λ t. t.material == s.material) tables ≡ some s
    shown i =
        let ((k, v), j, e) =
          In-map_inv (λ (x : String × SliceInfo). x.1) s whole
            ((In-sorted_by by_material s (map (λ e. e.1) whole)).0 i) in
        let (same, found) = merge-IsKeyed tables [] (λ x t n. absurd n) k v j in
        sym (lookup-merge s.material tables [])
        ∙ ap (λ q. lookup q whole) (ap (λ (t : SliceInfo). t.material) e ∙ sym same)
        ∙ found
        ∙ ap some (sym e)

    shows : find (λ t. t.material == s.material) tables ≡ some s → In s (merged tables)
    shows h = (In-sorted_by by_material s (map (λ e. e.1) whole)).1 (
        In-map (λ (x : String × SliceInfo). x.1) (s.material, s) whole
          (lookup-In s.material s whole (lookup-merge s.material tables [] ∙ h)))

-- What the sources list, in the order of the sources.
abbrev pub listed : (Bytes → Option SidecarStats) → RemoteHub → ChainSource → List SliceInfo
listed parse_stats hub c =
    flat_map (local_catalog parse_stats) c.locals
    ++ elim c.origin [ none ↦ [] | some r ↦ get_or_else (remote_catalog hub r).1 [] ]

catalog-merged :
    (parse_stats : Bytes → Option SidecarStats) (hub : RemoteHub) (c : ChainSource)
    → (ts : List SliceInfo) → (catalog parse_stats hub c).1 ≡ some ts
    → ts ≡ merged (listed parse_stats hub c)
unfolding catalog
catalog-merged parse_stats hub c ts h = elim (Option-cases c.origin) [
  | inl o ↦
      rw (o, listed)
        (rw (append-nil (flat_map (local_catalog parse_stats) c.locals))
          (cc (rw (o, catalog) at h)))
  | inr (r, o) ↦ elim (Option-cases (remote_catalog hub r).1) [
    | inl z ↦ absurd (cc (rw z at (rw (o, catalog) at h)))
    | inr (there, z) ↦ rw (o, listed) (rw (z) (cc (rw z at (rw (o, catalog) at h))))
  ]
]

-- When the catalog is given, it shows exactly the first entry of each material that the sources
-- list, the directories in their order and the remote dataset last.
catalog_first :
    (parse_stats : Bytes → Option SidecarStats) (hub : RemoteHub) (c : ChainSource)
    → (ts : List SliceInfo) (s : SliceInfo) → (catalog parse_stats hub c).1 ≡ some ts
    → In s ts ↔ (find (λ t. t.material == s.material) (listed parse_stats hub c) ≡ some s)
catalog_first parse_stats hub c ts s h =
    subst (λ l. In s l ↔ (find (λ t. t.material == s.material) (listed parse_stats hub c) ≡ some s))
      (sym (catalog-merged parse_stats hub c ts h)) (In-merged (listed parse_stats hub c) s)
