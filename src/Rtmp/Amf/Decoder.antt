-- ===== src/Rtmp/Amf/Decoder.antt =====
-- `AmfDecoder` of RtmpServer/Amf.cpp. An outer `none` is a read outside the memory. What a loop gives
-- whose fuel has run out is an argument, so that a loop that does not end can be told from it.
pub mod Ends
use cloud_assitant.Prelude.{
  ℕ, zero, suc, ◌+◌, ◌-◌, List, [], ◌∷◌, Option, none, some, Bool, false, not, ltb, leb, ◌==◌,
  if◌then◌else◌, drop, ◌>>=◌, read_bytes, replicate,
}
use cloud_assitant.Net.Bytes.{read_uint8, read_uint16_be}
use cloud_assitant.Net.BufferReader.{IoResult, count, failed}
use cloud_assitant.Rtmp.Amf.{
  amf_number, amf_boolean, amf_string, AmfObject, new_object, AmfObjects, emplace,
}

pub record AmfDecoder : Type 0 where
  pub obj : AmfObject
  pub objs : AmfObjects

abbrev pub new_decoder : AmfDecoder
new_decoder = record { obj = new_object; objs = [] }

unfoldable pub reset : AmfDecoder → AmfDecoder
reset d = record { obj = record d.obj { string = []; number = replicate 8 0 }; objs = [] }

unfoldable pub decode_boolean : List ℕ → ℕ → AmfObject → Option (IoResult × AmfObject)
unfolding read_uint8
decode_boolean data' size o =
    if ltb size 1
    then some (count 0, o)
    else (read_uint8 data' >>= λ b. some (count 1, record o { boolean = not (b == 0) }))

-- The bytes of the `double`, turned round.
abbrev pub turn : List ℕ → Option (List ℕ)
turn (a ∷ b ∷ c ∷ d ∷ e ∷ f ∷ g ∷ h ∷ r) = some (h ∷ g ∷ f ∷ e ∷ d ∷ c ∷ b ∷ a ∷ [])
turn _ = none

unfoldable pub decode_number : List ℕ → ℕ → AmfObject → Option (IoResult × AmfObject)
decode_number data' size o =
    if ltb size 8
    then some (count 0, o)
    else (turn data' >>= λ n. some (count 8, record o { number = n }))

unfoldable pub decode_string : List ℕ → ℕ → AmfObject → Option (IoResult × AmfObject)
unfolding read_uint16_be
decode_string data' size o =
    if ltb size 2
    then some (count 0, o)
    else (read_uint16_be data' >>= λ n.
        if ltb (size - 2) n
        then some (failed, o)
        else (read_bytes n (drop 2 data') >>= λ s. some (count (2 + n), record o { string = s })))

-- The loop of `decodeObject`; `decode` decodes one value with a decoder of its own.
unfoldable pub decode_object_loop :
    Option (ℕ × AmfObjects)
    → (List ℕ → ℕ → Option (ℕ × AmfObject))
    → ℕ
    → List ℕ
    → ℕ
    → ℕ
    → AmfObjects
    → Option (ℕ × AmfObjects)
decode_object_loop out decode zero data' bytes_used size objs = out
decode_object_loop out decode (suc fuel) data' bytes_used size objs =
    let again =
      λ (used left : ℕ) (m : AmfObjects). decode_object_loop out decode fuel data' used left m in
    if size == 0
    then some (bytes_used, objs)
    else (read_uint16_be (drop bytes_used data') >>= λ n.
        if ltb size (2 + n) then some (bytes_used, objs) else (do
          key ← read_bytes n (drop (bytes_used + 2) data')
          let left = size - 2 - n
          (ret, o) ← decode (drop (bytes_used + 2 + n) data') left
          let used = bytes_used + (2 + n + ret)
          if leb ret 1 then some (used, objs) else again used left (emplace key o objs)))

abbrev pub ObjectDecoder : Type 0
ObjectDecoder = List ℕ → ℕ → Option (ℕ × AmfObjects)

-- The `switch` of `decode`, on what follows the type byte.
unfoldable pub decode_value :
    ObjectDecoder → ℕ → List ℕ → ℕ → AmfDecoder → Option (IoResult × AmfDecoder)
unfolding decode_boolean decode_number decode_string
decode_value object kind data' size d =
    if kind == 0
    then (decode_number data' size (record d.obj { kind = amf_number }) >>= λ (ret, o).
        some (ret, record d { obj = o }))
    else (if kind == 1
        then (decode_boolean data' size (record d.obj { kind = amf_boolean }) >>= λ (ret, o).
            some (ret, record d { obj = o }))
        else (if kind == 2
            then (decode_string data' size (record d.obj { kind = amf_string }) >>= λ (ret, o).
                some (ret, record d { obj = o }))
            else (if kind == 3
                then (object data' size >>= λ (ret, m). some (count ret, record d { objs = m }))
                else (if kind == 8
                    then (object (drop 4 data') (size - 4) >>= λ (ret, m).
                        some (count ret, record d { objs = m }))
                    else some (count 0, d)))))

-- `n--` and the test for 0; `none` stands for a negative `n`.
abbrev pub count_down : Option ℕ → Bool × Option ℕ
count_down none = (false, none)
count_down (some zero) = (false, none)
count_down (some (suc n)) = (n == 0, some n)

-- The loop of `decode`.
unfoldable pub decode_loop :
    Option (ℕ × AmfDecoder)
    → ObjectDecoder
    → ℕ
    → List ℕ
    → ℕ
    → ℕ
    → Option ℕ
    → AmfDecoder
    → Option (ℕ × AmfDecoder)
unfolding decode_value
decode_loop out object zero data' size bytes_used n d = out
decode_loop out object (suc fuel) data' size bytes_used n d =
    let again = λ (used : ℕ) (m : Option ℕ) (e : AmfDecoder).
      decode_loop out object fuel data' size used m e in
    if ltb bytes_used size
    then (do
      kind ← read_uint8 (drop bytes_used data')
      (ret, d') ← decode_value object kind (drop (bytes_used + 1) data') (size - (bytes_used + 1)) d
      elim ret [
        | failed ↦ some (bytes_used + 1, d')
        | count r ↦
            let (stop, m) = count_down n in
            if stop then some (bytes_used + 1 + r, d') else again (bytes_used + 1 + r) m d'
      ])
    else some (bytes_used, d)

-- `decode`, with objects nested less than `depth` deep.
unfoldable pub decode_by :
    Option (ℕ × AmfObjects)
    → Option (ℕ × AmfDecoder)
    → ℕ
    → List ℕ
    → ℕ
    → Option ℕ
    → AmfDecoder
    → Option (ℕ × AmfDecoder)
unfolding decode_loop decode_object_loop
decode_by no_object no_value zero data' size n d = no_value
decode_by no_object no_value (suc depth) data' size n d =
    decode_loop no_value
      (λ object_data object_size.
        decode_object_loop no_object
          (λ value_data value_size.
            decode_by no_object no_value depth value_data value_size (some 1) new_decoder
            >>= λ (ret, e). some (ret, e.obj))
          (suc object_size) object_data 0 object_size [])
      (suc size) data' size 0 n d

unfoldable pub decode : ℕ → List ℕ → ℕ → Option ℕ → AmfDecoder → Option (ℕ × AmfDecoder)
unfolding decode_by
decode depth data' size n d = decode_by none none depth data' size n d
