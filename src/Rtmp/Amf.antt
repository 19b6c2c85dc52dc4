-- ===== src/Rtmp/Amf.antt =====
-- RtmpServer/Amf.h: the values. `Amf.Decoder` and `Amf.Encoder` are the two classes of
-- RtmpServer/Amf.cpp.
pub mod Decoder
pub mod Encoder
pub mod RoundTrip
use cloud_assitant.Prelude.{
  ℕ, List, [], ◌∷◌, Option, none, some, Bool, false, list_eq, if◌then◌else◌, replicate,
}

pub data AmfObjectType : Type 0 where
  amf_number amf_boolean amf_string : AmfObjectType

-- `number` are the eight bytes of the `double`, lowest first.
pub record AmfObject : Type 0 where
  pub kind : AmfObjectType
  pub string : List ℕ
  pub number : List ℕ
  pub boolean : Bool

-- `AmfObject()`. Its type, number and flag are indeterminate in C++; these stand for them.
abbrev pub new_object : AmfObject
new_object = record { kind = amf_number; string = []; number = replicate 8 0; boolean = false }

-- `std::unordered_map<std::string, AmfObject>`, in the order of insertion.
abbrev pub AmfObjects : Type 0
AmfObjects = List (List ℕ × AmfObject)

unfoldable pub find : List ℕ → AmfObjects → Option AmfObject
find key [] = none
find key ((k, o) ∷ m) = if list_eq k key then some o else find key m

-- `emplace` leaves a key that is there alone.
unfoldable pub emplace : List ℕ → AmfObject → AmfObjects → AmfObjects
emplace key o [] = (key, o) ∷ []
emplace key o ((k, p) ∷ m) = if list_eq k key then (k, p) ∷ m else (k, p) ∷ emplace key o m
