-- ===== src/Geth/Answers.antt =====
-- What the decoding functions accept, and what they make of it.
use decent_ethereum.Base.{
  ℕ, ◌*◌, ◌≡◌, refl, ◌∙◌, ◌↔◌, inl, inr, false, Bool-cases, List, [], ◌∷◌, ◌++◌, Bytes, ok, err,
  and_then, and_then-eq-ok, invalid_geth_response, bad_length, length, ◌==◌, ==_iff, if◌then◌else◌,
  arith,
}
use decent_ethereum.Geth.Text.{codes}
use decent_ethereum.Geth.Libraries.{JsonLib, HexLib}
use decent_ethereum.Geth.Decoding.{
  lacks_prefix, decode_hex_str, proc_resp_single_bytes, proc_resp_single_bytes_array, decode_all,
}

-- "0x" and at least one character more.
lacks_prefix-0x : (c : ℕ) (s : Bytes) → lacks_prefix (b'0' ∷ b'x' ∷ c ∷ s) ≡ false
unfolding lacks_prefix
lacks_prefix-0x c s = ground arith

has_prefix :
    (s : Bytes) → lacks_prefix s ≡ false → (c : ℕ) × (t : Bytes) × (s ≡ b'0' ∷ b'x' ∷ c ∷ t)
unfolding lacks_prefix
has_prefix [] h = cc
has_prefix (a ∷ []) h = cc
has_prefix (a ∷ b ∷ []) h = ground arith
has_prefix (a ∷ b ∷ c ∷ t) h = (c, t, ground arith)

decode_hex_str-lacks :
    (hex : HexLib) (s b : Bytes) → decode_hex_str hex s ≡ ok b → lacks_prefix s ≡ false
unfolding decode_hex_str
decode_hex_str-lacks hex s b h = elim (Bool-cases (lacks_prefix s)) [
  | inl p ↦ cc (rw (p, decode_hex_str) at h)
  | inr p ↦ p
]

decode_hex_str-0x :
    (hex : HexLib) (c : ℕ) (t : Bytes)
    → decode_hex_str hex (b'0' ∷ b'x' ∷ c ∷ t) ≡ hex.decode (c ∷ t)
unfolding decode_hex_str
decode_hex_str-0x hex c t = rw (lacks_prefix-0x c t, decode_hex_str)

-- `DecodeHexStr` succeeds with a byte string exactly if the text is "0x", at least one character
-- more, and the hex decoder gives that byte string for what follows "0x".
pub decode_hex_str-ok :
    (hex : HexLib) (s b : Bytes)
    → (decode_hex_str hex s ≡ ok b)
      ↔ ((c : ℕ) × (t : Bytes) × (s ≡ b'0' ∷ b'x' ∷ c ∷ t) × (hex.decode (c ∷ t) ≡ ok b))
decode_hex_str-ok hex s b = (
  λ h.
      let (c, t, e) = has_prefix s (decode_hex_str-lacks hex s b h) in
      (c, t, e, cc (h, decode_hex_str-0x hex c t)),
  λ (c, t, e, h). rw (e, decode_hex_str-0x hex c t) h,
)

encode-cons :
    (hex : HexLib) (a : ℕ) (b : Bytes) → (c : ℕ) × (t : Bytes) × (hex.encode (a ∷ b) ≡ c ∷ t)
encode-cons hex a b = go (hex.encode (a ∷ b)) (hex.length-encode (a ∷ b))
  where
    go : (s : Bytes) → length s ≡ 2 * length (a ∷ b) → (c : ℕ) × (t : Bytes) × (s ≡ c ∷ t)
    go [] h = absurd (omega arith)
    go (c ∷ t) h = (c, t, refl)

encode-nil : (hex : HexLib) → hex.encode [] ≡ []
encode-nil hex = go (hex.encode []) (hex.length-encode [])
  where
    go : (s : Bytes) → length s ≡ 2 * length {A = ℕ} [] → s ≡ []
    go [] h = refl
    go (c ∷ t) h = absurd (omega arith)

-- For a codec whose decoder undoes its encoder and that writes two digits for a byte, "0x" and the
-- hex of a byte string is decoded to the byte string if it is not empty; for the empty one it is
-- refused as an invalid response.
pub decode_hex_str-encode :
    (hex : HexLib) (a : ℕ) (b : Bytes)
    → (decode_hex_str hex (codes "0x" ++ hex.encode (a ∷ b)) ≡ ok (a ∷ b))
      × (decode_hex_str hex (codes "0x" ++ hex.encode []) ≡ err invalid_geth_response)
unfolding decode_hex_str
decode_hex_str-encode hex a b =
    let (c, t, e) = encode-cons hex a b in
    (
      rw e (decode_hex_str-0x hex c t ∙ (rw e at (hex.decode-encode (a ∷ b)))),
      rw (encode-nil hex, decode_hex_str),
    )

module _ (json : JsonLib) (hex : HexLib) where
  open json use {Json, as_string}

  -- An answer for an array of n bytes succeeds with a value exactly if the answer for a byte string
  -- has that value and its length is n.
  pub proc_resp_single_bytes_array-ok :
      (n : ℕ) (body b : Bytes)
      → (proc_resp_single_bytes_array json hex n body ≡ ok b)
        ↔ ((proc_resp_single_bytes json hex body ≡ ok b) × (length b ≡ n))
  unfolding proc_resp_single_bytes_array
  proc_resp_single_bytes_array-ok n body b = (
    λ h. let (a, e, f) = and_then-eq-ok (proc_resp_single_bytes json hex body) _ h in sized a e f,
    λ (h, l). rw (h, proc_resp_single_bytes_array) (rw ((==_iff (length b) n).1 l)),
  )
    where
      sized :
          (a : Bytes)
          → proc_resp_single_bytes json hex body ≡ ok a
          → (if length a == n then ok a else err bad_length) ≡ ok b
          → (proc_resp_single_bytes json hex body ≡ ok b) × (length b ≡ n)
      sized a e f = ground arith

  -- Each byte string is the decoding of the element at its place, and there are no others.
  abbrev pub Decodes : List Json → List Bytes → Type 0
  Decodes [] [] = Unit
  Decodes (j ∷ js) (b ∷ bs) = (and_then (as_string j) (decode_hex_str hex) ≡ ok b) × Decodes js bs
  Decodes _ _ = ⊥

  decode_cons-ne-nil : (j : Json) (js : List Json) → decode_all json hex (j ∷ js) ≡ ok [] → ⊥
  unfolding decode_all
  decode_cons-ne-nil j js h =
      let (a, e, f) = and_then-eq-ok (and_then (as_string j) (decode_hex_str hex)) _ h in
      let (rest, g, k) = and_then-eq-ok (decode_all json hex js) _ f in cc

  cons_of :
      (j : Json) (js : List Json) (b : Bytes) (bs : List Bytes)
      → decode_all json hex (j ∷ js) ≡ ok (b ∷ bs)
      → (decode_all json hex js ≡ ok bs → Decodes js bs)
      → Decodes (j ∷ js) (b ∷ bs)
  unfolding decode_all
  cons_of j js b bs h ih =
      let (a, e, f) = and_then-eq-ok (and_then (as_string j) (decode_hex_str hex)) _ h in
      let (rest, g, k) = and_then-eq-ok (decode_all json hex js) _ f in (cc, ih (cc))

  -- The loop over the byte strings of an answer succeeds with a list exactly if each element of the
  -- list is the decoding of the element of the answer at its place, and the lengths agree: one
  -- malformed element fails the whole.
  pub decode_all-Decodes :
      (js : List Json) (bs : List Bytes) → (decode_all json hex js ≡ ok bs) ↔ Decodes js bs
  unfolding decode_all
  decode_all-Decodes [] [] = (λ h. tt, λ h. refl)
  decode_all-Decodes [] (b ∷ bs) = (λ h. cc, λ h. absurd h)
  decode_all-Decodes (j ∷ js) [] = (λ h. decode_cons-ne-nil j js h, λ h. absurd h)
  decode_all-Decodes (j ∷ js) (b ∷ bs) = (
    λ h. cons_of j js b bs h (decode_all-Decodes js bs).0,
    λ (h, r). rw (h, decode_all) (rw ((decode_all-Decodes js bs).1 r)),
  )
