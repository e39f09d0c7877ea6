-- ===== src/Storage/Chain/Resolving.antt =====
-- storage.py, `ChainSource.resolve` beside `ChainSource.status`.
use helpmate_tablebase.Base.{
  Option-cases, String, ◌≡◌, ◌↔◌, ◌⊎◌, inl, inr, Option, none, some, arith, string_eq, pair_eq,
  nat_eq, option_eq, list_eq, bool_eq,
}
use helpmate_tablebase.Storage.{RemoteHub, FetchState, cached, RemoteSource, fetch_state}
use helpmate_tablebase.Storage.Chain.{
  ChainSource, first_local, resolve, SourceStatus, in_local, in_cache, remote_status,
  answered_status, status,
}

abbrev pub Located : String → Option SourceStatus → Type 0
Located p s = (s ≡ some (in_local p)) ⊎ (s ≡ some (in_cache p))

answered :
    (m p : String) (hub : RemoteHub) (c : ChainSource) (r : RemoteSource) (a : FetchState)
    → (elim a [ cached ↦ some c.cache_dir | _ ↦ none ] ≡ some p)
      ↔ Located p (answered_status m hub c r a).1
unfolding answered_status remote_status
answered m p hub c r a = ground arith

-- `resolve` finds the table in a directory exactly when `status` says that the table is local or
-- cached there.
resolve-status :
    (m p : String) (hub : RemoteHub) (c : ChainSource)
    → ((resolve m hub c).1 ≡ some p)
      ↔ (((status m hub c).1 ≡ some (in_local p)) ⊎ ((status m hub c).1 ≡ some (in_cache p)))
unfolding resolve status
resolve-status m p hub c = elim (Option-cases (first_local m c.locals)) [
  | inr (hit, z) ↦ rw (z, resolve) (rw (z, status) (ground arith))
  | inl z ↦ elim (Option-cases c.origin) [
    | inl o ↦ rw (z, resolve) (rw (z, status) (rw o (ground arith)))
    | inr (r, o) ↦
        rw (z, resolve)
          (rw (z, status)
            (rw o (answered m p hub c (fetch_state m hub r).0 (fetch_state m hub r).1)))
  ]
]
