-- ===== src/Geth/Decoding.antt =====
-- The `Proc...` functions: an answer's "result", decoded.
use decent_ethereum.Base.{
  ℕ, Bool, true, ◌||◌, not, List, [], ◌∷◌, Bytes, Result, ok, err, and_then, invalid_geth_response,
  bad_length, length, drop, ltb, ◌==◌, if◌then◌else◌,
}
use decent_ethereum.Geth.Libraries.{JsonLib, HexLib}

-- `hexStr.size() < 3 || hexStr[0] != '0' || hexStr[1] != 'x'`
unfoldable pub lacks_prefix : Bytes → Bool
lacks_prefix [] = true
lacks_prefix (a ∷ []) = true
lacks_prefix (a ∷ b ∷ s) = ltb (length (a ∷ b ∷ s)) 3 || not (a == b'0') || not (b == b'x')

unfoldable pub decode_hex_str : HexLib → Bytes → Result Bytes
unfolding lacks_prefix
decode_hex_str hex s = if lacks_prefix s then err invalid_geth_response else hex.decode (drop 2 s)

module _ (json : JsonLib) (hex : HexLib) where
  open json use {Json, load_str, dict_get, as_string, as_list, dump_str}

  -- `LoadStr(respBody).AsDict()["result"]`
  unfoldable pub result_of : Bytes → Result Json
  result_of body = and_then (load_str body) λ j. dict_get j "result"

  unfoldable pub proc_resp_single_bytes : Bytes → Result Bytes
  unfolding result_of decode_hex_str
  proc_resp_single_bytes body = and_then (and_then (result_of body) as_string) (decode_hex_str hex)

  unfoldable pub proc_resp_single_bytes_array : ℕ → Bytes → Result Bytes
  proc_resp_single_bytes_array n body =
      and_then (proc_resp_single_bytes body)
        λ bytes. if length bytes == n then ok bytes else err bad_length

  -- The loop of `ProcRespListOfBytes`.
  unfoldable pub decode_all : List Json → Result (List Bytes)
  decode_all [] = ok []
  decode_all (j ∷ js) =
      let rest = decode_all js in
      and_then (and_then (as_string j) (decode_hex_str hex)) λ b. and_then rest λ bs. ok (b ∷ bs)

  unfoldable pub proc_resp_list_of_bytes : Bytes → Result (List Bytes)
  unfolding result_of decode_all
  proc_resp_list_of_bytes body = and_then (and_then (result_of body) as_list) decode_all

  unfoldable pub proc_resp_object : Bytes → Result Bytes
  unfolding result_of
  proc_resp_object body = and_then (result_of body) λ j. ok (dump_str j)

  unfoldable pub proc_resp_int : Bytes → Result ℕ
  unfolding result_of decode_hex_str
  proc_resp_int body =
      and_then (and_then (and_then (result_of body) as_string) (decode_hex_str hex)) hex.from_bytes
