-- ===== src/TableFile/Slices.antt =====
-- contrib/tablefile.py, `BlockReader.read`: the bytes that it returns, its cache, and its end.
use mathlib.Core.List.{append_assoc, append-nil}
use native.Mathlib.Nat.{div-add-mod', mod-lt}
use helpmate_tablebase.Base.{
  ltb, leb, ltb→lt, Bool-cases, Option-cases, length, In, take, drop, Dict, lookup, insert, ℕ, zero,
  suc, ◌+◌, ◌-◌, ◌*◌, ◌/◌, ◌≤◌, ◌<◌, min, ◌≡◌, refl, sym, ap, ◌∙◌, inl, inr, true, false, Option,
  some, [], ◌∷◌, ◌++◌, arith, lookup-In, In-insert, length-take, length-drop, drop-drop,
  take-drop-take, take-append-drop, string_eq, pair_eq, nat_eq, option_eq, list_eq, bool_eq,
}
use helpmate_tablebase.Storage.{Bytes}
use helpmate_tablebase.TableFile.{got, part, BlockReader, decode, remember, block, read_loop, read}

length-part : (raw : Bytes) (from n : ℕ) → length (part raw from n) ≡ min n (length raw - from)
length-part raw from n = omega (arith, length-take n (drop from raw), length-drop from raw)

part-part :
    (raw : Bytes) (from n lo k : ℕ)
    → lo + k ≤ n
    → part (part raw from n) lo k ≡ part raw (from + lo) k
part-part raw from n lo k h =
    take-drop-take lo k n (drop from raw) h ∙ ap (take k) (drop-drop lo from raw)

pub part-append :
    (raw : Bytes) (from k m : ℕ) → part raw from k ++ part raw (from + k) m ≡ part raw from (k + m)
part-append raw from k m =
    ap (λ l. part raw from k ++ take m l) (sym (drop-drop k from raw))
    ∙ take-append-drop k m (drop from raw)

block_of : (offset bs : ℕ) → 0 < bs → (offset / bs * bs ≤ offset) × (offset < offset / bs * bs + bs)
block_of offset bs pos = (
  omega (arith, div-add-mod' offset bs),
  omega (arith, div-add-mod' offset bs, mod-lt offset pos),
)

module _ (decompress : Bytes → Option ℕ → Option Bytes) (r : BlockReader) (payload : Bytes) where
  -- Every block of the payload is decoded to its part of it.
  abbrev pub DecodesTo : Type 0
  DecodesTo =
      (b : ℕ)
      → b * r.header.block_size < length payload
      → decode decompress r b ≡ got (part payload (b * r.header.block_size) r.header.block_size)

  -- At most four blocks are cached, each of them as its part of the payload.
  pub record IsCacheOf (cache : Dict ℕ Bytes) : Type 0 where
    pub small : length cache ≤ 4
    pub holds_parts :
        (b : ℕ) (out : Bytes)
        → In (b, out) cache
        → out ≡ part payload (b * r.header.block_size) r.header.block_size

  length-insert :
      (b : ℕ) (out : Bytes) (cache : Dict ℕ Bytes)
      → length (insert b out cache) ≤ suc (length cache)
  length-insert b out [] = omega arith
  length-insert b out ((c, o) ∷ cache) = ground (arith, length-insert b out cache)

  insert-IsCacheOf :
      (b : ℕ) (cache : Dict ℕ Bytes)
      → length cache ≤ 3
      → ((c : ℕ) (out : Bytes)
          → In (c, out) cache
          → out ≡ part payload (c * r.header.block_size) r.header.block_size)
      → IsCacheOf (insert b (part payload (b * r.header.block_size) r.header.block_size) cache)
  insert-IsCacheOf b cache few parts = record {
    small =
        omega (
          arith,
          length-insert b (part payload (b * r.header.block_size) r.header.block_size) cache,
        );
    holds_parts = λ c out i.
        elim (In-insert b (part payload (b * r.header.block_size) r.header.block_size) cache
          (c, out) i) [
            | inl e ↦
                ap (λ (p : ℕ × Bytes). p.1) e
                ∙ ap (λ q. part payload (q * r.header.block_size) r.header.block_size)
                    (sym (ap (λ (p : ℕ × Bytes). p.0) e))
            | inr k ↦ parts c out k
          ];
  }

  In-drop : (p : ℕ × Bytes) (cache : Dict ℕ Bytes) → In p (drop 1 cache) → In p cache
  In-drop p [] i = i
  In-drop p (q ∷ cache) i = inr i

  remember-IsCacheOf :
      (b : ℕ) (cache : Dict ℕ Bytes)
      → IsCacheOf cache
      → IsCacheOf
          (remember decompress b (part payload (b * r.header.block_size) r.header.block_size) cache)
  unfolding remember
  remember-IsCacheOf b cache v = elim (Bool-cases (leb 4 (length cache))) [
    | inl t ↦ rw t (
        insert-IsCacheOf b (drop 1 cache)
          (let small = v.small in omega (arith, length-drop 1 cache))
          (λ c out i. v.holds_parts c out (In-drop (c, out) cache i)))
    | inr t ↦ rw t (insert-IsCacheOf b cache (ground (arith, t)) v.holds_parts)
  ]

  block-IsCacheOf :
      (cache : Dict ℕ Bytes) (b : ℕ)
      → DecodesTo
      → b * r.header.block_size < length payload
      → IsCacheOf cache
      → ((block decompress r cache b).1
          ≡ got (part payload (b * r.header.block_size) r.header.block_size))
        × IsCacheOf (block decompress r cache b).0
  unfolding block
  block-IsCacheOf cache b decodes h v = elim (Option-cases (lookup b cache)) [
    | inr (hit, z) ↦ rw (z, block) (ap got (v.holds_parts b hit (lookup-In b hit cache z)), v)
    | inl z ↦ rw (z, block) (rw (decodes b h) (refl, remember-IsCacheOf b cache v))
  ]

  -- One round of the loop reads the rest of a block, or as much of it as is asked for.
  round_reads :
      (offset end : ℕ)
      → 0 < r.header.block_size
      → offset < end
      → end ≤ length payload
      → let b = offset / r.header.block_size in
        let out = part payload (b * r.header.block_size) r.header.block_size in
        let lo = offset - b * r.header.block_size in
        let hi = min (length out) (end - b * r.header.block_size) in
        (lo < hi)
        × (offset + hi - lo ≤ end)
        × (part out lo (hi - lo) ≡ part payload offset (hi - lo))
  round_reads offset end pos before within =
      let bs = r.header.block_size in
      let at = offset / bs * bs in
      let lo = offset - at in
      let hi = min (length (part payload at bs)) (end - at) in
      let (low, high) = block_of offset bs pos in
      let len = length-part payload at bs in
      let back : at + lo ≡ offset = omega arith in
      (
        omega (arith, len),
        omega (arith, len),
        part-part payload at bs lo (hi - lo) (omega (arith, len))
            ∙ ap (λ q. part payload q (hi - lo)) back,
      )

  read_loop_end :
      (fuel : ℕ) (cache : Dict ℕ Bytes) (offset end : ℕ) (parts : Bytes)
      → ltb offset end ≡ false
      → read_loop decompress fuel r cache offset end parts ≡ some (cache, got parts)
  unfolding read_loop
  read_loop_end zero cache offset end parts t = rw t refl
  read_loop_end (suc fuel) cache offset end parts t = rw (t, read_loop) refl

  read_loop_round :
      (fuel : ℕ) (cache : Dict ℕ Bytes) (offset end : ℕ) (parts out : Bytes)
      → ltb offset end ≡ true
      → (block decompress r cache (offset / r.header.block_size)).1 ≡ got out
      → let b = offset / r.header.block_size in
        let lo = offset - b * r.header.block_size in
        let hi = min (length out) (end - b * r.header.block_size) in
        read_loop decompress (suc fuel) r cache offset end parts
        ≡ read_loop decompress fuel r
            (block decompress r cache b).0
            (offset + hi - lo)
            end
            (parts ++ part out lo (hi - lo))
  unfolding read_loop
  read_loop_round fuel cache offset end parts out t e = rw (t, read_loop) (rw e refl)

  -- What is read so far, with the rest, is what is asked for.
  parts_joined :
      (parts : Bytes) (offset end k : ℕ)
      → offset + k ≤ end
      → (parts ++ part payload offset k) ++ part payload (offset + k) (end - (offset + k))
        ≡ parts ++ part payload offset (end - offset)
  parts_joined parts offset end k h =
      append_assoc parts (part payload offset k) (part payload (offset + k) (end - (offset + k)))
      ∙ ap (λ l. parts ++ l)
          (part-append payload offset k (end - (offset + k))
            ∙ ap (part payload offset) (omega arith))

  nothing_left :
      (parts : Bytes) (offset end : ℕ)
      → end ≤ offset
      → parts ++ part payload offset (end - offset) ≡ parts
  nothing_left parts offset end h =
      let none_left : end - offset ≡ 0 = omega arith in
      ap (λ n. parts ++ part payload offset n) none_left ∙ append-nil parts

  round_joined :
      (parts chunk : Bytes) (offset end lo hi : ℕ)
      → lo < hi
      → offset + hi - lo ≤ end
      → chunk ≡ part payload offset (hi - lo)
      → (parts ++ chunk) ++ part payload (offset + hi - lo) (end - (offset + hi - lo))
        ≡ parts ++ part payload offset (end - offset)
  round_joined parts chunk offset end lo hi some_read inside same =
      let step : offset + hi - lo ≡ offset + (hi - lo) = omega arith in
      rw step (rw same (parts_joined parts offset end (hi - lo) (omega arith)))

  read_loop-reads :
      (fuel : ℕ) (cache : Dict ℕ Bytes) (offset end : ℕ) (parts : Bytes)
      → DecodesTo
      → 0 < r.header.block_size
      → end ≤ length payload
      → offset ≤ end
      → end ≤ offset + fuel
      → IsCacheOf cache
      → (cache' : Dict ℕ Bytes) × (read_loop decompress fuel r cache offset end parts
          ≡ some (cache', got (parts ++ part payload offset (end - offset))))
        × IsCacheOf cache'
  read_loop-reads zero cache offset end parts decodes pos within le enough v = (
    cache,
    read_loop_end zero cache offset end parts (ground arith)
        ∙ ap (λ l. some (cache, got l)) (sym (nothing_left parts offset end (omega arith))),
    v,
  )
  read_loop-reads (suc fuel) cache offset end parts decodes pos within le enough v =
      elim (Bool-cases (ltb offset end)) [
        | inr t ↦ (
          cache,
          read_loop_end (suc fuel) cache offset end parts t
              ∙ ap (λ l. some (cache, got l))
                  (sym (nothing_left parts offset end (ground (arith, t)))),
          v,
        )
        | inl t ↦
            let bs = r.header.block_size in
            let b = offset / bs in
            let out = part payload (b * bs) bs in
            let lo = offset - b * bs in
            let hi = min (length out) (end - b * bs) in
            let before = ltb→lt offset end t in
            let (low, _) = block_of offset bs pos in
            let (e, w) = block-IsCacheOf cache b decodes (omega arith) v in
            let (some_read, inside, same) = round_reads offset end pos before within in
            let (cache', eq, w') =
              read_loop-reads fuel (block decompress r cache b).0 (offset + hi - lo) end
                (parts ++ part out lo (hi - lo)) decodes pos within inside (omega arith) w in
            (
              cache',
              read_loop_round fuel cache offset end parts out t e
                  ∙ eq
                  ∙ ap (λ l. some (cache', got l))
                      (round_joined parts (part out lo (hi - lo)) offset end lo hi some_read inside
                        same),
              w',
            )
      ]

  -- When every block of the payload decodes to its part of it, the block size is positive and the
  -- cache is in order, a read inside the payload ends, returns exactly the bytes that were asked
  -- for, and leaves a cache in order, of at most four blocks.
  pub read-part :
      (cache : Dict ℕ Bytes) (offset n : ℕ)
      → DecodesTo
      → 0 < r.header.block_size
      → offset + n ≤ length payload
      → IsCacheOf cache
      → (cache' : Dict ℕ Bytes) × (read decompress r cache offset n
          ≡ some (cache', got (part payload offset n)))
        × IsCacheOf cache'
  unfolding read
  read-part cache offset n decodes pos within v =
      let (cache', eq, w) =
        read_loop-reads n cache offset (offset + n) [] decodes pos within (omega arith)
          (omega arith) v in
      let asked : offset + n - offset ≡ n = omega arith in
      (cache', eq ∙ ap (λ k. some (cache', got (part payload offset k))) asked, w)
