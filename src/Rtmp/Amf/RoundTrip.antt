-- ===== src/Rtmp/Amf/RoundTrip.antt =====
-- What `AmfEncoder` of RtmpServer/Amf.cpp writes, `AmfDecoder` reads back.
use cloud_assitant.Prelude.{
  ℕ, ◌^◌, ◌≤◌, ◌<◌, ◌≡◌, List, [], ◌∷◌, ◌++◌, Option, none, some, if◌then◌else◌, length,
}
use cloud_assitant.Net.Bytes.{write_uint16_be}
use cloud_assitant.Rtmp.Amf.{AmfObjectType, amf_number, amf_boolean, amf_string, AmfObject}
use cloud_assitant.Rtmp.Amf.Decoder.{AmfDecoder, turn}
use cloud_assitant.Rtmp.Amf.Encoder.{AmfEncoder}

-- The index is within the memory, whose size a message will not let wrap.
pub record IsValid (e : AmfEncoder) : Type 0 where
  pub within : length e.written ≤ e.size
  pub small : e.size < 2 ^ 31

-- A string that has a 16-bit length, and a number of eight bytes.
pub record Fits (o : AmfObject) : Type 0 where
  pub string : length o.string < 65536
  pub number : length o.number ≡ 8

-- The value is written behind what is there, within the memory.
abbrev pub Appends : AmfEncoder → List ℕ → Option AmfEncoder → Type 0
Appends e xs r =
    (e' : AmfEncoder) × (r ≡ some e')
    × (e'.written ≡ e.written ++ xs)
    × (length e'.written ≤ e'.size)

-- The bytes of a value.
abbrev pub value_bytes : AmfObject → AmfObjectType → List ℕ
value_bytes o amf_number = elim (turn o.number) [ none ↦ [] | some t ↦ 0 ∷ t ]
value_bytes o amf_boolean = 1 ∷ (if o.boolean then 1 else 0) ∷ []
value_bytes o amf_string = (2 ∷ write_uint16_be (length o.string)) ++ o.string

-- The decoder once it has read a value.
abbrev pub received : AmfDecoder → AmfObject → AmfObjectType → AmfDecoder
received d o amf_number = record d { obj = record d.obj { kind = amf_number; number = o.number } }
received d o amf_boolean = record d {
  obj = record d.obj { kind = amf_boolean; boolean = o.boolean };
}
received d o amf_string = record d { obj = record d.obj { kind = amf_string; string = o.string } }
