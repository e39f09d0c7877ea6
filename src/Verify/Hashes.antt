-- ===== src/Verify/Hashes.antt =====
-- contrib/verify.py, `PublishedHashes`: the payload hashes of the published tables, cached by the
-- hash that the manifest has for the file.
use helpmate_tablebase.Base.{
  ◌==◌, string_eq, option_eq, Bool-cases, Option-cases, if◌then◌else◌, Dict, lookup, insert,
  lookup-insert, String, ◌≡◌, refl, sym, ap, ◌∙◌, subst, ◌≢◌, ◌⊎◌, inl, inr, Bool, true, false, not,
  ◌&&◌, Option, none, some, arith, pair_eq, nat_eq, list_eq, bool_eq,
}

-- An entry of the cache.
pub record CachedHash : Type 0 where
  pub hm_sha256 : Option String
  pub payload_hash : String

-- Why there is no hash: MissingPublished, what `payload_sha256` raises, or the OSError of a cache
-- that cannot be written.
pub data HashFailure : Type 0 where
  no_file unreadable unsaved : HashFailure

-- `PublishedHashes`: the cache, the manifest's file hashes, and what reading the local file of a
-- material gives: `none` where there is no file, and `some none` where `payload_sha256` raises on it,
-- as for a broken table or a marker without its sidecar. `saves` tells whether the cache can be
-- written; the file that it is written to is not kept.
pub record PublishedHashes : Type 0 where
  pub cache : Dict String CachedHash
  pub manifest_sha : String → Option String
  pub read_payload : String → Option (Option String)
  pub persist : Bool
  pub saves : Dict String CachedHash → Bool

abbrev pub Hashing : Type 0
Hashing = (HashFailure ⊎ String) × PublishedHashes

-- The hash that was read, once it is in the cache.
abbrev pub saved_hash : String → PublishedHashes → Hashing
saved_hash payload hashes = (
  (if hashes.persist && not (hashes.saves hashes.cache) then inl unsaved else inr payload),
  hashes,
)

-- self.cache[material] = ...
abbrev pub with_hash : String → String → PublishedHashes → PublishedHashes
with_hash m payload hashes = record hashes {
  cache =
      insert m (record { hm_sha256 = hashes.manifest_sha m; payload_hash = payload }) hashes.cache;
}

-- Reading the file, behind a miss.
read_and_cache : String → PublishedHashes → Hashing
read_and_cache m hashes = elim (hashes.read_payload m) [
  | none ↦ (inl no_file, hashes)
  | some r ↦ elim r [
    | none ↦ (inl unreadable, hashes)
    | some payload ↦ saved_hash payload (with_hash m payload hashes)
  ]
]

-- `PublishedHashes.get`
unfoldable pub get_hash : String → PublishedHashes → Hashing
unfolding read_and_cache
get_hash m hashes = elim (lookup m hashes.cache) [
  | none ↦ read_and_cache m hashes
  | some hit ↦
      if hit.hm_sha256 == hashes.manifest_sha m
      then (inr hit.payload_hash, hashes)
      else read_and_cache m hashes
]

module _ (payload_of : Option String → String → String) where
  -- Each cached payload is that of the file with the cached hash.
  abbrev pub IsCurrent : PublishedHashes → Type 0
  IsCurrent hashes =
      (m : String) (c : CachedHash)
      → lookup m hashes.cache ≡ some c
      → c.payload_hash ≡ payload_of c.hm_sha256 m

  -- A local file, where there is one, is the one that the manifest names.
  abbrev pub MatchesManifest : PublishedHashes → Type 0
  MatchesManifest hashes =
      (m payload : String)
      → hashes.read_payload m ≡ some (some payload)
      → payload ≡ payload_of (hashes.manifest_sha m) m

  -- Each cached payload is that of the file with the cached hash, and the local files are those
  -- that the manifest names.
  abbrev pub IsSound : PublishedHashes → Type 0
  IsSound hashes = IsCurrent hashes × MatchesManifest hashes

  -- No entry of the cache has the hash that the manifest has for the file now.
  abbrev pub IsStale : String → PublishedHashes → Type 0
  IsStale m hashes =
      (c : CachedHash) → lookup m hashes.cache ≡ some c → c.hm_sha256 ≢ hashes.manifest_sha m

  -- What `get_hash` promises of its result.
  abbrev pub Gets : String → PublishedHashes → Hashing → Type 0
  Gets m hashes (inr payload, after) =
      (payload ≡ payload_of (hashes.manifest_sha m) m) × IsSound after
  Gets m hashes (inl no_file, after) =
      IsStale m hashes × (hashes.read_payload m ≡ none) × (after ≡ hashes)
  Gets m hashes (inl unreadable, after) =
      IsStale m hashes × (hashes.read_payload m ≡ some none) × (after ≡ hashes)
  Gets m hashes (inl unsaved, after) =
      IsStale m hashes
      × (hashes.persist ≡ true)
      × (hashes.saves after.cache ≡ false)
      × IsSound after

  with_hash-IsSound :
      (m payload : String) (hashes : PublishedHashes)
      → IsSound hashes
      → payload ≡ payload_of (hashes.manifest_sha m) m
      → IsSound (with_hash m payload hashes)
  with_hash-IsSound m payload hashes (current, matches) e = (
    (λ j c f.
        let new : CachedHash = record {
          hm_sha256 = hashes.manifest_sha m;
          payload_hash = payload;
        } in
        let law = lookup-insert j m new hashes.cache in
        elim (Bool-cases (j == m)) [
          | inl s ↦
              let found : some new ≡ some c = sym (rw s at law) ∙ f in
              let same : new ≡ c = cc in
              let here = (string_eq.equal_iff j m).0 s in
              subst (λ x. x.payload_hash ≡ payload_of x.hm_sha256 j) same (rw here e)
          | inr s ↦ current j c (sym (rw s at law) ∙ f)
        ]),
    matches,
  )

  saved_hash-Gets :
      (m payload : String) (hashes : PublishedHashes) (b : Bool)
      → hashes.persist && not (hashes.saves (with_hash m payload hashes).cache) ≡ b
      → IsStale m hashes
      → IsSound (with_hash m payload hashes)
      → payload ≡ payload_of (hashes.manifest_sha m) m
      → Gets m hashes ((if b then inl unsaved else inr payload), with_hash m payload hashes)
  saved_hash-Gets m payload hashes true q stale sound e =
      (stale, ground (arith, q), ground (arith, q), sound)
  saved_hash-Gets m payload hashes false q stale sound e = (e, sound)

  read_and_cache-Gets :
      (m : String) (hashes : PublishedHashes)
      → IsSound hashes
      → IsStale m hashes
      → Gets m hashes (read_and_cache m hashes)
  unfolding read_and_cache
  read_and_cache-Gets m hashes sound stale = of_read (hashes.read_payload m) refl
    where
      of_read :
          (r : Option (Option String))
          → hashes.read_payload m ≡ r
          → Gets m hashes (elim r [
            | none ↦ (inl no_file, hashes)
            | some x ↦ elim x [
              | none ↦ (inl unreadable, hashes)
              | some payload ↦ saved_hash payload (with_hash m payload hashes)
            ]
          ])
      of_read none e = (stale, e, refl)
      of_read (some none) e = (stale, e, refl)
      of_read (some (some payload)) e =
          saved_hash-Gets m payload hashes _ refl stale
            (with_hash-IsSound m payload hashes sound (sound.1 m payload e)) (sound.1 m payload e)

  -- If each cached payload is that of the file with the cached hash, and the local files are those
  -- that the manifest names, then `get` returns the payload hash of the material's published file
  -- as the manifest names it now, and keeps both, or raises. It raises only where the cache has no
  -- entry with the manifest's hash, and then the local file is missing or its hash cannot be
  -- computed, and nothing has changed, or the cache is to be written and cannot be, and both are
  -- kept.
  pub get_hash-Gets :
      (m : String) (hashes : PublishedHashes) → IsSound hashes → Gets m hashes (get_hash m hashes)
  unfolding get_hash
  get_hash-Gets m hashes sound = elim (Option-cases (lookup m hashes.cache)) [
    | inl e ↦ rw (get_hash, e) (read_and_cache-Gets m hashes sound (λ c f. absurd (cc)))
    | inr (hit, e) ↦ elim (Bool-cases (hit.hm_sha256 == hashes.manifest_sha m)) [
      | inl s ↦
          let same = (option_eq.equal_iff hit.hm_sha256 (hashes.manifest_sha m)).0 s in
          rw (get_hash, e, s) (sound.0 m hit e ∙ ap (λ x. payload_of x m) same, sound)
      | inr s ↦
          rw (get_hash, e, s)
            (read_and_cache-Gets m hashes sound (λ c f g.
              let q : hit ≡ c = cc in
              let t =
                (option_eq.equal_iff hit.hm_sha256 (hashes.manifest_sha m)).1
                  (ap (λ (x : CachedHash). x.hm_sha256) q ∙ g) in
              cc))
    ]
  ]
