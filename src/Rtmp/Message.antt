-- ===== src/Rtmp/Message.antt =====
-- RtmpServer/RtmpMessage.h.
use cloud_assitant.Prelude.{
  ℕ, List, Option, none, some, Bool, true, false, ltb, ◌==◌, ◌&&◌, if◌then◌else◌, replicate,
}

-- `clock` is the source's `_timestamp`.
pub record RtmpMessage : Type 0 where
  pub timestamp : ℕ
  pub lenght : ℕ
  pub type_id : ℕ
  pub stream_id : ℕ
  pub extend_timestamp : ℕ
  pub clock : ℕ
  pub code_id : ℕ
  pub csid : ℕ
  pub index : ℕ
  pub playload : Option (List ℕ)

abbrev pub no_message : RtmpMessage
no_message = record {
  timestamp = 0;
  lenght = 0;
  type_id = 0;
  stream_id = 0;
  extend_timestamp = 0;
  clock = 0;
  code_id = 0;
  csid = 0;
  index = 0;
  playload = none;
}

-- `new char[n]`. Its bytes are indeterminate in C++; zeros stand for them.
abbrev pub new_bytes : ℕ → List ℕ
new_bytes n = replicate n 0

unfoldable pub clear : RtmpMessage → RtmpMessage
clear m = record m {
  index = 0;
  timestamp = 0;
  extend_timestamp = 0;
  playload = if ltb 0 m.lenght then some (new_bytes m.lenght) else m.playload;
}

abbrev pub is_set : Option (List ℕ) → Bool
is_set none = false
is_set (some _) = true

unfoldable pub is_completed : RtmpMessage → Bool
is_completed m = m.index == m.lenght && (ltb 0 m.lenght && is_set m.playload)
