-- ===== src/TableFile/Planes.antt =====
-- contrib/tablefile.py, `plane_chunks` and `payload_sha256`: the hash of a table's content.
use mathlib.Core.List.{append_assoc, append-nil}
use helpmate_tablebase.Base.{
  ltb, leb, ltb→lt, leb→le, Bool-cases, length, In, Dict, ℕ, zero, suc, ◌+◌, ◌-◌, ◌*◌, ◌≤◌, ◌<◌,
  min, String, ◌≡◌, refl, sym, ap, ◌∙◌, inl, inr, false, Option, some, List, [], ◌∷◌, ◌++◌, map,
  arith, string_eq, pair_eq, nat_eq, option_eq, list_eq, bool_eq,
}
use helpmate_tablebase.Storage.{Bytes}
use helpmate_tablebase.TableFile.{
  got, part, BlockReader, logical_size, joined, chunks_loop, plane_chunks, plane_digests,
  reader_sha256,
}
use helpmate_tablebase.TableFile.Slices.{part-append, DecodesTo, IsCacheOf, read-part}

-- A chunk and the rest of the plane.
chunk_joined :
    (payload : Bytes) (at off chunk ps : ℕ)
    → off < ps
    → part payload (at + off) (min chunk (ps - off))
        ++ part payload (at + (off + chunk)) (ps - (off + chunk))
      ≡ part payload (at + off) (ps - off)
chunk_joined payload at off chunk ps h = elim (Bool-cases (leb chunk (ps - off))) [
  | inl t ↦
      let le = leb→le chunk (ps - off) t in
      let n : min chunk (ps - off) ≡ chunk = omega (arith, le) in
      let place : at + (off + chunk) ≡ at + off + chunk = omega arith in
      let rest : chunk + (ps - (off + chunk)) ≡ ps - off = omega (arith, le) in
      rw n (
        rw place (
          part-append payload (at + off) chunk (ps - (off + chunk))
          ∙ ap (part payload (at + off)) rest))
  | inr t ↦
      let more : ps - off < chunk = ground (arith, t) in
      let n : min chunk (ps - off) ≡ ps - off = omega (arith, more) in
      let rest : ps - (off + chunk) ≡ 0 = omega (arith, more) in
      rw n (rw rest (append-nil (part payload (at + off) (ps - off))))
]

module _ (decompress : Bytes → Option ℕ → Option Bytes) (r : BlockReader) (payload : Bytes) where
  chunks_loop_end :
      (fuel : ℕ) (cache : Dict ℕ Bytes) (base off chunk : ℕ) (fed : Bytes)
      → ltb off r.header.plane_size ≡ false
      → chunks_loop decompress fuel r cache base off chunk fed
        ≡ some (cache, got (fed ++ part payload (base + off) (r.header.plane_size - off)))
  unfolding chunks_loop
  chunks_loop_end fuel cache base off chunk fed t =
      let none_left : r.header.plane_size - off ≡ 0 = ground (arith, t) in
      stopped fuel
      ∙ ap (λ l. some (cache, got l))
          (sym (ap (λ n. fed ++ part payload (base + off) n) none_left ∙ append-nil fed))
    where
      stopped :
          (k : ℕ) → chunks_loop decompress k r cache base off chunk fed ≡ some (cache, got fed)
      stopped zero = rw t refl
      stopped (suc k) = rw (t, chunks_loop) refl

  chunks_loop-part :
      (fuel : ℕ) (cache : Dict ℕ Bytes) (base off chunk : ℕ) (fed : Bytes)
      → DecodesTo decompress r payload
      → 0 < r.header.block_size
      → 0 < chunk
      → base + r.header.plane_size ≤ length payload
      → r.header.plane_size ≤ off + fuel
      → IsCacheOf decompress r payload cache
      → (cache' : Dict ℕ Bytes) × (chunks_loop decompress fuel r cache base off chunk fed
          ≡ some (cache', got (fed ++ part payload (base + off) (r.header.plane_size - off))))
        × IsCacheOf decompress r payload cache'
  unfolding chunks_loop
  chunks_loop-part zero cache base off chunk fed decodes pos some_chunk within enough v =
      (cache, chunks_loop_end zero cache base off chunk fed (ground arith), v)
  chunks_loop-part (suc fuel) cache base off chunk fed decodes pos some_chunk within enough v =
      elim (Bool-cases (ltb off r.header.plane_size)) [
        | inr t ↦ (cache, chunks_loop_end (suc fuel) cache base off chunk fed t, v)
        | inl t ↦
            let ps = r.header.plane_size in
            let n = min chunk (ps - off) in
            let before = ltb→lt off ps t in
            let (cache1, e1, v1) =
              read-part decompress r payload cache (base + off) n decodes pos
                (omega (arith, before)) v in
            let (cache2, e2, v2) =
              chunks_loop-part fuel cache1 base (off + chunk) chunk
                (fed ++ part payload (base + off) n) decodes pos some_chunk within (omega arith)
                v1 in
            (
              cache2,
              rw (t, chunks_loop)
                  (rw e1 (
                    e2
                    ∙ ap (λ l. some (cache2, got l))
                        (append_assoc fed (part payload (base + off) n)
                            (part payload (base + (off + chunk)) (ps - (off + chunk)))
                          ∙ ap (λ l. fed ++ l) (chunk_joined payload base off chunk ps before)))),
              v2,
            )
      ]

  -- The planes that lie in the payload.
  plane_digests-part :
      (sha256 : Bytes → String) (cache : Dict ℕ Bytes) (chunk : ℕ) (planes : List ℕ)
      → DecodesTo decompress r payload
      → 0 < r.header.block_size
      → 0 < chunk
      → ((p : ℕ) → In p planes → p * r.header.plane_size + r.header.plane_size ≤ length payload)
      → IsCacheOf decompress r payload cache
      → (cache' : Dict ℕ Bytes) × (plane_digests decompress sha256 r cache chunk planes
          ≡ some (
            cache',
            got (
                map
                  (λ p. sha256 (part payload (p * r.header.plane_size) r.header.plane_size))
                  planes),
          ))
  unfolding plane_digests plane_chunks
  plane_digests-part sha256 cache chunk [] decodes pos some_chunk inside v = (cache, refl)
  plane_digests-part sha256 cache chunk (p ∷ ps) decodes pos some_chunk inside v =
      let (cache1, e1, v1) =
        chunks_loop-part r.header.plane_size cache (p * r.header.plane_size) 0 chunk [] decodes pos
          some_chunk (inside p (inl refl)) (omega arith) v in
      let (cache2, e2) =
        plane_digests-part sha256 cache1 chunk ps decodes pos some_chunk (λ q i. inside q (inr i))
          v1 in
      let at : p * r.header.plane_size + 0 ≡ p * r.header.plane_size = omega arith in
      let size : r.header.plane_size - 0 ≡ r.header.plane_size = omega arith in
      (cache2, rw e1 (rw e2 (rw at (rw size refl))))

  -- The hash of an opened table is that of its payload's four planes.
  reader_sha256-payload :
      (sha256 : Bytes → String) (chunk : ℕ)
      → DecodesTo decompress r payload
      → length payload ≡ logical_size r
      → 0 < r.header.block_size
      → 0 < chunk
      → (cache : Dict ℕ Bytes) × (reader_sha256 decompress sha256 r chunk
          ≡ some (
            cache,
            got (
                sha256 (
                  joined (
                    map
                      (λ p. sha256 (part payload (p * r.header.plane_size) r.header.plane_size))
                      (0 ∷ 1 ∷ 2 ∷ 3 ∷ [])))),
          ))
  unfolding reader_sha256
  reader_sha256-payload sha256 chunk decodes whole pos some_chunk =
      let (cache, e) =
        plane_digests-part sha256 [] chunk (0 ∷ 1 ∷ 2 ∷ 3 ∷ []) decodes pos some_chunk inside
          (record { small = omega arith; holds_parts = λ b out i. absurd i }) in
      (cache, rw e refl)
    where
      inside :
          (p : ℕ)
          → In p (0 ∷ 1 ∷ 2 ∷ 3 ∷ [])
          → p * r.header.plane_size + r.header.plane_size ≤ length payload
      inside p (inl e) = rw e (omega (arith, whole))
      inside p (inr (inl e)) = rw e (omega (arith, whole))
      inside p (inr (inr (inl e))) = rw e (omega (arith, whole))
      inside p (inr (inr (inr (inl e)))) = rw e (omega (arith, whole))
      inside p (inr (inr (inr (inr i)))) = absurd i

-- Two compressed tables with the same payload have the same payload hash, whatever their headers,
-- metadata, block sizes and compressions, and however the planes are cut into chunks; provided that
-- the blocks of each decode to the parts of the payload, the payload has the size that each header
-- implies, and block and chunk sizes are positive. Both hashes are computed to their end.
pub reader_sha256_content :
    (decompress : Bytes → Option ℕ → Option Bytes) (sha256 : Bytes → String)
    → (r r' : BlockReader) (payload : Bytes) (chunk chunk' : ℕ) → DecodesTo decompress r payload
    → DecodesTo decompress r' payload
    → length payload ≡ logical_size r
    → length payload ≡ logical_size r'
    → 0 < r.header.block_size
    → 0 < r'.header.block_size
    → 0 < chunk
    → 0 < chunk'
    → (hash : String) × (cache : Dict ℕ Bytes) × (cache' : Dict ℕ Bytes) × (reader_sha256 decompress
          sha256 r chunk
        ≡ some (cache, got hash))
      × (reader_sha256 decompress sha256 r' chunk' ≡ some (cache', got hash))
reader_sha256_content decompress sha256 r r' payload chunk chunk' d d' w w' pos pos' c c' =
    let (cache, e) = reader_sha256-payload decompress r payload sha256 chunk d w pos c in
    let (cache', e') = reader_sha256-payload decompress r' payload sha256 chunk' d' w' pos' c' in
    let same : r'.header.plane_size ≡ r.header.plane_size = omega (arith, w, w') in
    let hash_of : ℕ → String =
      λ ps. sha256 (joined (map (λ p. sha256 (part payload (p * ps) ps)) (0 ∷ 1 ∷ 2 ∷ 3 ∷ []))) in
    (
      hash_of r.header.plane_size,
      cache,
      cache',
      e,
      e' ∙ ap (λ ps. some (cache', got (hash_of ps))) same,
    )
