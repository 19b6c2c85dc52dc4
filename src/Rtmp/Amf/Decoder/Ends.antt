-- ===== src/Rtmp/Amf/Decoder/Ends.antt =====
-- The loops of `AmfDecoder` of RtmpServer/Amf.cpp end.
use cloud_assitant.Prelude.{
  ℕ, zero, suc, ◌+◌, ◌-◌, ◌<◌, ◌≤◌, ◌≡◌, refl, ap, inl, inr, List, [], Option, none, some, false,
  ltb, leb, ◌==◌, if◌then◌else◌, drop, ◌>>=◌, read_bytes, arith, Bool-cases, ltb→lt,
}
use cloud_assitant.Net.Bytes.{read_uint8, read_uint16_be}
use cloud_assitant.Net.BufferReader.{IoResult, count, failed}
use cloud_assitant.Rtmp.Amf.{AmfObject, AmfObjects, emplace}
use cloud_assitant.Rtmp.Amf.Decoder.{
  AmfDecoder, new_decoder, decode_object_loop, ObjectDecoder, decode_value, count_down, decode_loop,
  decode_by,
}

bind-same :
    {A B : Type 0}
    → (o : Option A) (k l : A → Option B) → ((a : A) → k a ≡ l a)
    → (o >>= k) ≡ (o >>= l)
bind-same none k l h = refl
bind-same (some a) k l h = h a

abbrev Again : Type 0
Again = ℕ → Option ℕ → AmfDecoder → Option (ℕ × AmfDecoder)

-- The end of a round of the loop of `decode`.
abbrev after : Again → ℕ → Option ℕ → IoResult × AmfDecoder → Option (ℕ × AmfDecoder)
after again used n x = elim x.0 [
  | failed ↦ some (used + 1, x.1)
  | count r ↦
      let (stop, m) = count_down n in
      if stop then some (used + 1 + r, x.1) else again (used + 1 + r) m x.1
]

after-same :
    (again again' : Again) (used : ℕ) (n : Option ℕ)
    → ((v : ℕ) (k : Option ℕ) (c : AmfDecoder) → used < v → again v k c ≡ again' v k c)
    → (x : IoResult × AmfDecoder) → after again used n x ≡ after again' used n x
after-same again again' used n h (failed, d) = refl
after-same again again' used n h (count r, d) = elim (Bool-cases (count_down n).0) [
  | inl e ↦ rw e refl
  | inr e ↦ rw e (h (used + 1 + r) (count_down n).1 d (omega arith))
]

-- Two decoders of objects that agree on what is shorter than `bound`.
module _ (f g : ObjectDecoder) (bound : ℕ) (same : (p : List ℕ) (s : ℕ) → s < bound → f p s ≡ g p s)
    (out out' : Option (ℕ × AmfDecoder)) where
  value-same :
      (kind : ℕ) (p : List ℕ) (s : ℕ) (d : AmfDecoder)
      → s < bound
      → decode_value f kind p s d ≡ decode_value g kind p s d
  unfolding decode_value
  value-same kind p s d h = rw (same p s h, same (drop 4 p) (s - 4) (omega arith)) refl

  loop-same :
      (fuel : ℕ) (p : List ℕ) (size used : ℕ) (n : Option ℕ) (d : AmfDecoder)
      → size ≤ bound
      → size - used < fuel
      → decode_loop out f fuel p size used n d ≡ decode_loop out' g fuel p size used n d
  unfolding decode_loop
  loop-same zero p size used n d h enough = absurd (omega arith)
  loop-same (suc fuel) p size used n d h enough = elim (Bool-cases (ltb used size)) [
    | inr e ↦ rw e refl
    | inl e ↦ rw e (
        bind-same (read_uint8 (drop used p)) _ _ λ kind.
          rw
            (value-same kind (drop (used + 1) p) (size - (used + 1)) d (below (ltb→lt used size e)))
            (bind-same (decode_value g kind (drop (used + 1) p) (size - (used + 1)) d) _ _ λ x.
              after-same (λ v k c. decode_loop out f fuel p size v k c)
                (λ v k c. decode_loop out' g fuel p size v k c) used n
                (λ v k c more.
                  loop-same fuel p size v k c h (omega (arith, more, ltb→lt used size e, enough)))
                x))
  ]
    where
      below : used < size → size - (used + 1) < bound
      below less = omega (arith, less, h)

module _ (f g : List ℕ → ℕ → Option (ℕ × AmfObject)) (bound : ℕ)
    (same : (p : List ℕ) (s : ℕ) → s < bound → f p s ≡ g p s)
    (out out' : Option (ℕ × AmfObjects)) where
  object_loop-same :
      (fuel : ℕ) (p : List ℕ) (used size : ℕ) (m : AmfObjects)
      → size ≤ bound
      → size < fuel
      → decode_object_loop out f fuel p used size m ≡ decode_object_loop out' g fuel p used size m
  unfolding decode_object_loop
  object_loop-same zero p used size m h enough = absurd (omega arith)
  object_loop-same (suc fuel) p used size m h enough = elim (Bool-cases (size == 0)) [
    | inl e ↦ rw e refl
    | inr e ↦ rw e (
        bind-same (read_uint16_be (drop used p)) _ _ λ n. elim (Bool-cases (ltb size (2 + n))) [
          | inl few ↦ rw few refl
          | inr more ↦ rw more (
              bind-same (read_bytes n (drop (used + 2) p)) _ _ λ key.
                rw (same (drop (used + 2 + n) p) (size - 2 - n) (below n e)) (
                  bind-same (g (drop (used + 2 + n) p) (size - 2 - n)) _ _ λ x.
                    elim (Bool-cases (leb x.0 1)) [
                      | inl last ↦ rw last refl
                      | inr on ↦ rw on (
                          object_loop-same fuel p _ (size - 2 - n) (emplace key x.1 m)
                            (omega (arith, h)) (omega (arith, enough, below n e, positive size e)))
                    ]))
        ])
  ]
    where
      positive : (k : ℕ) → (k == 0) ≡ false → 0 < k
      positive k e = ground arith

      below : (n : ℕ) → (size == 0) ≡ false → size - 2 - n < bound
      below n e = omega (arith, positive size e, h)

pub decode_by-same :
    (no_object no_object' : Option (ℕ × AmfObjects)) (no_value no_value' : Option (ℕ × AmfDecoder))
    (depth : ℕ) (p : List ℕ) (size : ℕ) (n : Option ℕ) (d : AmfDecoder)
    → size < depth
    → decode_by no_object no_value depth p size n d
      ≡ decode_by no_object' no_value' depth p size n d
unfolding decode_by
decode_by-same a b c e zero p size n d h = absurd (omega arith)
decode_by-same a b c e (suc depth) p size n d h =
    loop-same _ _ size
      (λ q s less.
        object_loop-same _ _ s
          (λ r t shorter.
            ap (λ o. o >>= λ (ret, v). some (ret, v.obj))
              (decode_by-same a b c e depth r t (some 1) new_decoder
                (omega (arith, less, shorter, h))))
          a b (suc s) q 0 s [] (omega arith) (omega arith))
      c e (suc size) p size 0 n d (omega arith) (omega arith)
