-- ===== src/Rtmp/Amf/Encoder.antt =====
-- `AmfEncoder` of RtmpServer/Amf.cpp. `none` is a store past the end of `m_data`.
use cloud_assitant.Prelude.{
  ℕ, ◌+◌, ◌-◌, ◌%◌, ◌^◌, List, [], ◌∷◌, ◌++◌, Option, none, some, Bool, true, false, ltb, leb,
  if◌then◌else◌, length, ◌>>=◌,
}
use cloud_assitant.Net.Bytes.{to_byte, write_uint16_be, write_uint24_be, write_uint32_be}
use cloud_assitant.Rtmp.Amf.{
  AmfObjectType, amf_number, amf_boolean, amf_string, AmfObject, AmfObjects,
}
use cloud_assitant.Rtmp.Amf.Decoder.{turn}

-- `written` are the first `m_index` bytes of `m_data`.
pub record AmfEncoder : Type 0 where
  pub written : List ℕ
  pub size : ℕ

abbrev pub init : ℕ → AmfEncoder
init size = record { written = []; size = size }

unfoldable pub reset : AmfEncoder → AmfEncoder
reset e = record e { written = [] }

unfoldable pub realloc : AmfEncoder → ℕ → AmfEncoder
realloc e size = if leb size e.size then e else record e { size = size }

-- `m_size - m_index`, unsigned.
abbrev pub room : AmfEncoder → ℕ
room e = (e.size + 2 ^ 32 - length e.written) % 2 ^ 32

abbrev pub reserve : AmfEncoder → ℕ → ℕ → AmfEncoder
reserve e need more = if ltb (room e) need then realloc e ((e.size + more) % 2 ^ 32) else e

-- Stores at `m_index`, which moves on.
unfoldable pub put : AmfEncoder → List ℕ → Option AmfEncoder
put e xs =
    if leb (length e.written + length xs) e.size
    then some (record e { written = e.written ++ xs })
    else none

unfoldable pub encode_int8 : AmfEncoder → ℕ → Option AmfEncoder
unfolding put realloc
encode_int8 e value = put (reserve e 1 1024) (to_byte value ∷ [])

unfoldable pub encode_int16 : AmfEncoder → ℕ → Option AmfEncoder
unfolding put realloc write_uint16_be
encode_int16 e value = put (reserve e 2 1024) (write_uint16_be value)

unfoldable pub encode_int24 : AmfEncoder → ℕ → Option AmfEncoder
unfolding put realloc write_uint24_be
encode_int24 e value = put (reserve e 1 1024) (write_uint24_be value)

unfoldable pub encode_int32 : AmfEncoder → ℕ → Option AmfEncoder
unfolding put realloc write_uint32_be
encode_int32 e value = put (reserve e 1 1024) (write_uint32_be value)

-- The type byte, where one is asked for.
abbrev pub put_type : AmfEncoder → Bool → ℕ → Option AmfEncoder
put_type e true kind = put e (kind ∷ [])
put_type e false kind = some e

unfoldable pub encode_string : AmfEncoder → List ℕ → Bool → Option AmfEncoder
unfolding put realloc encode_int16 encode_int32
encode_string e str is_object =
    let len = length str in
    let e1 = reserve e (len + 5) (len + 5) in
    (if ltb len 65536
      then (put_type e1 is_object 2 >>= λ e2. encode_int16 e2 len)
      else (put_type e1 is_object 12 >>= λ e2. encode_int32 e2 len))
    >>= λ e3. put e3 str

unfoldable pub encode_number : AmfEncoder → List ℕ → Option AmfEncoder
unfolding put realloc
encode_number e value = do e1 ← put (reserve e 9 1024) (0 ∷ []); turned ← turn value; put e1 turned

unfoldable pub encode_boolean : AmfEncoder → Bool → Option AmfEncoder
unfolding put realloc
encode_boolean e value =
    put (reserve e 2 1024) (1 ∷ []) >>= λ e1. put e1 ((if value then 1 else 0) ∷ [])

-- The `switch` on the type of a value.
unfoldable pub encode_value : AmfEncoder → AmfObject → AmfObjectType → Option AmfEncoder
unfolding encode_string encode_number encode_boolean
encode_value e o amf_number = encode_number e o.number
encode_value e o amf_string = encode_string e o.string true
encode_value e o amf_boolean = encode_boolean e o.boolean

-- The loop over the map.
unfoldable pub encode_entries : AmfEncoder → AmfObjects → Option AmfEncoder
unfolding encode_string encode_value
encode_entries e [] = some e
encode_entries e ((key, o) ∷ m) = do
  e1 ← encode_string e key false
  e2 ← encode_value e1 o o.kind
  encode_entries e2 m

-- The empty key and the end mark.
abbrev pub encode_end : AmfEncoder → Option AmfEncoder
encode_end e = encode_string e [] false >>= λ e1. encode_int8 e1 9

unfoldable pub encode_objects : AmfEncoder → AmfObjects → Option AmfEncoder
unfolding encode_int8 encode_entries
encode_objects e [] = encode_int8 e 5
encode_objects e (o ∷ m) = do e1 ← encode_int8 e 3; e2 ← encode_entries e1 (o ∷ m); encode_end e2

unfoldable pub encode_ecma : AmfEncoder → AmfObjects → Option AmfEncoder
unfolding encode_int8 encode_int32 encode_entries
encode_ecma e m = do
  e1 ← encode_int8 e 8
  e2 ← encode_int32 e1 0
  e3 ← encode_entries e2 m
  encode_end e3
