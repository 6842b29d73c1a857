-- ===== src/Signatures/Messages.antt =====
-- types/signatures.py: `SignedMessage`, and `HybridSignature` with its strict wire form.
use quantum_safe_py.Prelude.{
  ℕ, Bool, true, false, not, [], ◌∷◌, Bytes, text, length, ltb, ◌==◌, ◌&&◌, ◌||◌,
}
use quantum_safe_py.Outcome.{
  Result, ok, value_error, verification_error, ◌>>=◌, ◌>>◌, require, or_raise,
}
use quantum_safe_py.Cbor.{
  Value, Fields, Cbor2, string, bytes, dict, end, field, get, is_text, written, loads_single,
}
use quantum_safe_py.Keys.Serialization.{as_dict, text_field, bytes_field}

abbrev pub max_context_len : ℕ
max_context_len = 255

-- The time is a float: its eight bytes.
pub record SignedMessage : Type 0 where
  pub message : Bytes
  pub signature : Bytes
  pub algorithm : Bytes
  pub context : Bytes
  pub signer_fingerprint : Bytes
  pub signed_at : Bytes
  pub is_hybrid : Bool

-- `SignedMessage(...)`
unfoldable pub signed_message : SignedMessage → Result SignedMessage
signed_message m = do
  require (not (ltb max_context_len (length m.context))) value_error
  require (not (length m.message == 0)) value_error
  require (not (length m.signature == 0)) value_error
  ok m

pub record HybridSignature : Type 0 where
  pub classical_sig : Bytes
  pub pqc_sig : Bytes
  pub classical_algo : Bytes
  pub pqc_algo : Bytes

-- The dictionary that `HybridSignature.to_bytes` writes.
unfoldable pub signature_map : HybridSignature → Value
signature_map h = dict (
    field (string (text "classical_sig")) (bytes h.classical_sig) (
      field (string (text "pqc_sig")) (bytes h.pqc_sig) (
        field (string (text "classical_algo")) (string h.classical_algo)
          (field (string (text "pqc_algo")) (string h.pqc_algo) end))))

-- `HybridSignature.to_bytes`
unfoldable pub hybrid_to_bytes : Cbor2 → HybridSignature → Bytes
hybrid_to_bytes c h = written c (signature_map h)

abbrev pub cbor_map_of_four : ℕ
cbor_map_of_four = 0xA4

-- `data and data[0] == _CBOR_MAP_OF_FOUR`
unfoldable pub is_map_of_four : Bytes → Bool
is_map_of_four [] = false
is_map_of_four (b ∷ bs) = b == cbor_map_of_four

-- Every key is one of `_HYBRID_SIG_FIELDS`. That each of them is there is what the lookups need.
unfoldable pub only_known : Fields → Bool
only_known end = true
only_known (field k v d) =
    (is_text (text "classical_sig") k
      || is_text (text "pqc_sig") k
      || is_text (text "classical_algo") k
      || is_text (text "pqc_algo") k)
    && only_known d

-- The checks of `HybridSignature.from_bytes`, before its failures become one exception.
unfoldable pub hybrid_parts : Cbor2 → Bytes → Result HybridSignature
hybrid_parts c d = do
  require (is_map_of_four d) verification_error
  v ← loads_single c d
  f ← as_dict v verification_error
  require (only_known f) verification_error
  classical_sig ← bytes_field (get (text "classical_sig") f)
  pqc_sig ← bytes_field (get (text "pqc_sig") f)
  classical_algo ← text_field (get (text "classical_algo") f)
  pqc_algo ← text_field (get (text "pqc_algo") f)
  ok (record {
    classical_sig = classical_sig;
    pqc_sig = pqc_sig;
    classical_algo = classical_algo;
    pqc_algo = pqc_algo;
  })

-- `HybridSignature.from_bytes`
unfoldable pub hybrid_from_bytes : Cbor2 → Bytes → Result HybridSignature
hybrid_from_bytes c d = or_raise (hybrid_parts c d) verification_error
