-- ===== src/Stream/Format/Header.antt =====
-- The stream header is read back from what is written for it.
use quantum_safe_py.Prelude.{
  ◌≤◌, ◌≡◌, one_of, bytes_eq, length, arith, true, le→ltb_false, Bool, ==_iff,
}
use quantum_safe_py.Outcome.{ok}
use quantum_safe_py.Cbor.{Cbor2, ReadsBack, is_text, get, written, loads_single-written}
use quantum_safe_py.Keys.Serialization.{as_dict}
use quantum_safe_py.Stream.Format.{
  StreamHeader, header_map, encode_header, parse_header, uses_sha384, chunk_size_ok,
  nonce_prefix_len, max_header_len,
}

-- A header that the code can write: a KEM that streams know, a nonce prefix of seven bytes, and a
-- chunk size in range.
pub record IsHeader (h : StreamHeader) (wide : Bool) : Type 0 where
  pub algorithm : uses_sha384 h.algorithm ≡ ok wide
  pub prefix : length h.nonce_prefix ≡ nonce_prefix_len
  pub size : chunk_size_ok h.chunk_size ≡ true

-- A header of a known KEM, with a nonce prefix of seven bytes and a chunk size in range, is parsed
-- back from its encoding, if the encoding has 65536 bytes at most and cbor2 reads it back.
pub parse_header-encode_header :
    (c : Cbor2) (h : StreamHeader) (wide : Bool)
    → IsHeader h wide
    → ReadsBack c (header_map h)
    → length (encode_header c h) ≤ max_header_len
    → parse_header c (encode_header c h) ≡ ok h
unfolding parse_header encode_header as_dict header_map get is_text one_of bytes_eq
parse_header-encode_header c h wide v law fits = rw (
  le→ltb_false max_header_len (length (written c (header_map h))) fits,
  loads_single-written c (header_map h) law (omega (arith, fits)),
  v.algorithm,
  (==_iff _ _).1 v.prefix,
  v.size,
)
