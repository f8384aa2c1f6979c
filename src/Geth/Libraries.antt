-- ===== src/Geth/Libraries.antt =====
-- What GethRequester.hpp calls outside of the repository: SimpleJson, the hex codec of
-- SimpleObjects, the number traits of EclipseMonitor and the HTTP client of DecentEnclave.
use decent_ethereum.Base.{ℕ, ◌*◌, ◌≡◌, String, List, Bytes, Result, ok, length}

-- A value of the request dictionary.
pub data JsonField : Type 0 where
  text : Bytes → JsonField
  texts : List Bytes → JsonField
  number : ℕ → JsonField

abbrev pub JsonDict : Type 0
JsonDict = List (String × JsonField)

-- The accessors throw on a value of another type; `dict_get j label` is `j.AsDict()[label]`.
pub record JsonLib : Type 1 where
  pub Json : Type 0
  pub load_str : Bytes → Result Json
  pub dict_get : Json → String → Result Json
  pub as_string : Json → Result Bytes
  pub as_list : Json → Result (List Json)
  pub dump_str : Json → Bytes
  pub dump_request : JsonDict → Bytes

pub record HexLib : Type 0 where
  pub decode : Bytes → Result Bytes
  pub encode : Bytes → Bytes
  -- `Encode` of a block number, and `PrimitiveTypeTrait::FromBytes`.
  pub encode_num : ℕ → Bytes
  pub from_bytes : Bytes → Result ℕ
  -- Two digits for each byte, and decoding undoes encoding.
  pub length-encode : (b : Bytes) → length (encode b) ≡ 2 * length b
  pub decode-encode : (b : Bytes) → decode (encode b) ≡ ok b

-- `CUrlRequestExpectRespCode`: the pieces of the answer that are handed to the content callback,
-- or an exception, also for an answer other than 200.
abbrev pub Network : Type 0
Network = Bytes → Result (List Bytes)
