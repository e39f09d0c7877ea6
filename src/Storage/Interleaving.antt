-- ===== src/Storage/Interleaving.antt =====
-- storage.py, `RemoteSource` under several callers and download threads: the calls and threads
-- proceed in any order, one critical section, file transfer or file test at a time.
use helpmate_tablebase.Base.{
  string_eq, Bool-cases, In, Dict, lookup, insert, lookup-insert, String, ◌≡◌, refl, ap, ◌∙◌, subst,
  ◌≢◌, ◌↔◌, ◌⊎◌, inl, inr, Bool, true, false, Option, none, some, List, [], ◌∷◌, arith, Distinct,
  remove, In-remove, In-remove_of, remove-Distinct, not_In-remove, pair_eq, nat_eq, option_eq,
  list_eq, bool_eq,
}
use helpmate_tablebase.Storage.{
  Bytes, Manifest, RemoteHub, FetchState, absent, fetching, failed, finished, cached, RemoteSource,
  is_safe_material, manifest, cleanup_cache_files, size_state, file_state, recorded_state,
  fetch_state, is_fetching, enter, start_fetch, settle, fetch_file,
}
use helpmate_tablebase.Storage.Fetching.{fetch_file_frame}
use helpmate_tablebase.Storage.Presence.{Answers, fetch_state-Answers}

-- A caller may enter the locked part of `start_fetch` at any time, whatever it was told before.
-- Files may also be changed by others than this program.
pub data Step (sha256 : Bytes → String) : RemoteSource → RemoteSource → Type 0 where
  asks :
      (m : String) (hub : RemoteHub) {r r' : RemoteSource}
      → (fetch_state m hub r).0 ≡ r'
      → Step sha256 r r'
  enters : (m : String) {r r' : RemoteSource} → enter m r ≡ r' → Step sha256 r r'
  reads_manifest :
      (hub : RemoteHub) {r r' : RemoteSource} → (manifest hub r).0 ≡ r' → Step sha256 r r'
  transfers :
      (m : String) (mf : Manifest) (name : String) (hub : RemoteHub) {r r' : RemoteSource}
      → In m r.threads
      → (fetch_file sha256 mf name hub r).0 ≡ r'
      → Step sha256 r r'
  ends :
      (m : String) (ok : Bool) {r r' : RemoteSource}
      → In m r.threads
      → settle m ok r ≡ r'
      → Step sha256 r r'
  disk_changes :
      (files : Dict String Bytes) {r r' : RemoteSource}
      → record r { cache = files } ≡ r'
      → Step sha256 r r'

-- `RemoteSource.__init__`, over a cache directory that may hold files.
abbrev pub fresh_source : Dict String Bytes → RemoteSource
fresh_source files = record {
  known = none;
  states = [];
  verified = [];
  cache = files;
  threads = [];
}

-- The states that a source may come to.
pub data Reached (sha256 : Bytes → String) : RemoteSource → Type 0 where
  starts :
      (files : Dict String Bytes) {r : RemoteSource} → fresh_source files ≡ r → Reached sha256 r
  goes : {r r' : RemoteSource} → Reached sha256 r → Step sha256 r r' → Reached sha256 r'

-- The threads, and the states that they have recorded.
pub record IsSingleFlight (threads : List String) (states : Dict String FetchState) : Type 0 where
  pub distinct : Distinct threads
  pub pending : (m : String) → In m threads ↔ (lookup m states ≡ some fetching)

file_state_frame :
    (m : String) (hub : RemoteHub) (r : RemoteSource)
    → ((file_state m hub r).0.states ≡ r.states) × ((file_state m hub r).0.threads ≡ r.threads)
unfolding file_state size_state cleanup_cache_files manifest
file_state_frame m hub r = ground arith

recorded_state_frame :
    (m : String) (hub : RemoteHub) (r : RemoteSource) (o : Option FetchState)
    → ((recorded_state m hub r o).0.states ≡ r.states)
      × ((recorded_state m hub r o).0.threads ≡ r.threads)
unfolding recorded_state
recorded_state_frame m hub r o = ground (arith, file_state_frame m hub r)

fetch_state_frame :
    (m : String) (hub : RemoteHub) (r : RemoteSource)
    → ((fetch_state m hub r).0.states ≡ r.states) × ((fetch_state m hub r).0.threads ≡ r.threads)
unfolding fetch_state
fetch_state_frame m hub r = ground (arith, recorded_state_frame m hub r (lookup m r.states))

module _ (threads : List String) (states : Dict String FetchState)
    (v : IsSingleFlight threads states) where
  started-IsSingleFlight :
      (m : String)
      → ¬ (lookup m states ≡ some fetching)
      → IsSingleFlight (m ∷ threads) (insert m fetching states)
  started-IsSingleFlight m n = record {
    distinct = ((λ i. n ((v.pending m).0 i)), v.distinct);
    pending = λ x.
        ground (arith, lookup-insert x m fetching states, string_eq.equal_iff x m, v.pending x);
  }

  ended-IsSingleFlight :
      (m : String) (s : FetchState)
      → s ≢ fetching
      → IsSingleFlight (remove m threads) (insert m s states)
  ended-IsSingleFlight m s n = record {
    distinct = remove-Distinct m threads v.distinct;
    pending = λ x. ground (
      arith,
      lookup-insert x m s states,
      string_eq.equal_iff x m,
      v.pending x,
      In-remove x m threads,
      In-remove_of x m threads,
      not_In-remove m threads v.distinct,
    );
  }

manifest_frame :
    (hub : RemoteHub) (r : RemoteSource)
    → ((manifest hub r).0.states ≡ r.states) × ((manifest hub r).0.threads ≡ r.threads)
unfolding manifest
manifest_frame hub r = ground arith

In-enter :
    (m : String) (r : RemoteSource) → IsSingleFlight r.threads r.states → In m (enter m r).threads
unfolding enter
In-enter m r v = elim (Bool-cases (is_fetching (lookup m r.states))) [
  | inl t ↦ rw t ((v.pending m).1 (fetching_of (lookup m r.states) t))
  | inr t ↦ rw t (inl refl)
]
  where
    fetching_of : (o : Option FetchState) → is_fetching o ≡ true → o ≡ some fetching
    fetching_of none h = absurd (cc)
    fetching_of (some fetching) h = refl
    fetching_of (some absent) h = absurd (cc)
    fetching_of (some failed) h = absurd (cc)
    fetching_of (some finished) h = absurd (cc)
    fetching_of (some cached) h = absurd (cc)

enter-IsSingleFlight :
    (m : String) (r : RemoteSource)
    → IsSingleFlight r.threads r.states
    → IsSingleFlight (enter m r).threads (enter m r).states
unfolding enter
enter-IsSingleFlight m r v = elim (Bool-cases (is_fetching (lookup m r.states))) [
  | inl t ↦ rw t v
  | inr t ↦ rw t (started-IsSingleFlight r.threads r.states v m (λ q. cc (rw q at t)))
]

cleanup_frame :
    (m : String) (r : RemoteSource)
    → ((cleanup_cache_files m r).states ≡ r.states)
      × ((cleanup_cache_files m r).threads ≡ r.threads)
unfolding cleanup_cache_files
cleanup_frame m r = ground arith

settle-IsSingleFlight :
    (m : String) (ok : Bool) (r : RemoteSource)
    → IsSingleFlight r.threads r.states
    → IsSingleFlight (settle m ok r).threads (settle m ok r).states
unfolding settle
settle-IsSingleFlight m true r v = ended-IsSingleFlight r.threads r.states v m finished (λ q. cc)
settle-IsSingleFlight m false r v =
    rw (cleanup_frame m r).0
      (rw (cleanup_frame m r).1 (ended-IsSingleFlight r.threads r.states v m failed (λ q. cc)))

module _ (sha256 : Bytes → String) where
  Step-IsSingleFlight :
      {r r' : RemoteSource}
      → Step sha256 r r'
      → IsSingleFlight r.threads r.states
      → IsSingleFlight r'.threads r'.states
  Step-IsSingleFlight (asks m hub {r} e) v =
      let (same_states, same_threads) = fetch_state_frame m hub r in
      rw (← e) (rw same_states (rw same_threads v))
  Step-IsSingleFlight (enters m {r} e) v = rw (← e) (enter-IsSingleFlight m r v)
  Step-IsSingleFlight (reads_manifest hub {r} e) v =
      let (same_states, same_threads) = manifest_frame hub r in
      rw (← e) (rw same_states (rw same_threads v))
  Step-IsSingleFlight (transfers m mf name hub {r} i e) v =
      let (same_states, same_threads, _) = fetch_file_frame sha256 mf name hub r in
      rw (← e) (rw same_states (rw same_threads v))
  Step-IsSingleFlight (ends m ok {r} i e) v = rw (← e) (settle-IsSingleFlight m ok r v)
  Step-IsSingleFlight (disk_changes files e) v = rw (← e) v

  Reached-IsSingleFlight : {r : RemoteSource} → Reached sha256 r → IsSingleFlight r.threads r.states
  Reached-IsSingleFlight (starts files e) =
      rw (← e) (record { distinct = tt; pending = λ x. ground arith })
  Reached-IsSingleFlight (goes w s) = Step-IsSingleFlight s (Reached-IsSingleFlight w)

  -- In every state that a source reaches, under any interleaving of calls and downloads and with
  -- any answers of the hub: no material is downloaded by two threads at once, and a material's
  -- recorded state is "fetching" exactly while a thread downloads it.
  pub Reached-single_flight :
      {r : RemoteSource} (m : String)
      → Reached sha256 r
      → Distinct r.threads × (In m r.threads ↔ (lookup m r.states ≡ some fetching))
  Reached-single_flight m w = let v = Reached-IsSingleFlight w in (v.distinct, v.pending m)

  -- `start_fetch` proceeds by these steps.
  pub start_fetch-Reached :
      (m : String) (hub : RemoteHub) (r : RemoteSource)
      → Reached sha256 r
      → Reached sha256 (start_fetch m hub r)
  unfolding start_fetch
  start_fetch-Reached m hub r w = by_answer (fetch_state m hub r).1 refl
    where
      asked : Reached sha256 (fetch_state m hub r).0
      asked = goes w (asks m hub refl)

      by_answer :
          (s : FetchState) → (fetch_state m hub r).1 ≡ s → Reached sha256 (start_fetch m hub r)
      by_answer fetching e = rw (e, start_fetch) asked
      by_answer cached e = rw (e, start_fetch) asked
      by_answer absent e = rw (e, start_fetch) (goes asked (enters m refl))
      by_answer failed e = rw (e, start_fetch) (goes asked (enters m refl))
      by_answer finished e = rw (e, start_fetch) (goes asked (enters m refl))

  -- After `start_fetch` on a material with a safe name, in any state that the source reaches, the
  -- material was answered to be cached, or a thread is downloading it.
  start_fetch_pending :
      (m : String) (hub : RemoteHub) {r : RemoteSource}
      → is_safe_material m ≡ true
      → Reached sha256 r
      → ((fetch_state m hub r).1 ≡ cached) ⊎ In m (start_fetch m hub r).threads
  unfolding start_fetch
  start_fetch_pending m hub {r} safe w = by_answer (fetch_state m hub r).1 refl
    where
      valid : IsSingleFlight (fetch_state m hub r).0.threads (fetch_state m hub r).0.states
      valid = Reached-IsSingleFlight (goes w (asks m hub refl))

      busy : (fetch_state m hub r).1 ≡ fetching → In m (fetch_state m hub r).0.threads
      busy e = (valid.pending m).1 (
          ap (lookup m) (fetch_state_frame m hub r).0
          ∙ subst (Answers m hub r (fetch_state m hub r).0) e (fetch_state-Answers m hub r safe))

      by_answer :
          (s : FetchState)
          → (fetch_state m hub r).1 ≡ s
          → ((fetch_state m hub r).1 ≡ cached) ⊎ In m (start_fetch m hub r).threads
      by_answer cached e = inl e
      by_answer fetching e = rw (e, start_fetch) (inr (busy e))
      by_answer absent e = rw (e, start_fetch) (inr (In-enter m (fetch_state m hub r).0 valid))
      by_answer failed e = rw (e, start_fetch) (inr (In-enter m (fetch_state m hub r).0 valid))
      by_answer finished e = rw (e, start_fetch) (inr (In-enter m (fetch_state m hub r).0 valid))
