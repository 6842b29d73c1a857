-- ===== src/Stream/Cipher.antt =====
-- protocols/stream.py: the class `_Cipher`, `StreamSealer._seal` and `StreamOpener._open`.
-- AES-256-GCM is third-party code: the record `Aead`. The flag `copy` decides only whether the
-- buffer is copied first, and bytes are immutable here, so it is left out.
pub mod Steps
pub mod Nonces
use quantum_safe_py.Prelude.{
  ℕ, zero, ◌+◌, Bool, true, false, not, Option, none, some, List, [], ◌∷◌, ◌++◌, Bytes, length, ltb,
  leb, ◌==◌, ◌&&◌, ◌||◌, if◌then◌else◌, ◌≡◌,
}
use quantum_safe_py.Outcome.{Result, ok, err, value_error, invalid_tag, ◌>>=◌}
use quantum_safe_py.Outcome.Exec.{Exec}
use quantum_safe_py.Wire.{pack_u32}
use quantum_safe_py.Stream.Format.{tag_len}

-- Arguments: key, nonce, data, associated data.
pub record Aead : Type 0 where
  pub encrypt : Bytes → Bytes → Bytes → Bytes → Bytes
  pub decrypt : Bytes → Bytes → Bytes → Bytes → Option Bytes

-- AES-GCM: what is encrypted is decrypted, only that ciphertext is decrypted to that plaintext, and
-- the ciphertext has 16 bytes more.
pub record IsAead (a : Aead) : Type 0 where
  pub decrypt_encrypt : (k n p d : Bytes) → a.decrypt k n (a.encrypt k n p d) d ≡ some p
  pub encrypt_decrypt : (k n c d p : Bytes) → a.decrypt k n c d ≡ some p → a.encrypt k n p d ≡ c
  pub length_encrypt : (k n p d : Bytes) → length (a.encrypt k n p d) ≡ length p + tag_len

pub record CipherState : Type 0 where
  pub key : Bytes
  pub prefix : Bytes
  pub aad : Bytes
  pub chunk_size : ℕ
  pub counter : ℕ
  pub finished : Bool

abbrev pub max_counter : ℕ
max_counter = 0xFFFFFFFF

-- `_Cipher.__init__`
unfoldable pub new_cipher : Bytes → Bytes → Bytes → ℕ → CipherState
new_cipher key prefix aad cs = record {
  key = key;
  prefix = prefix;
  aad = aad;
  chunk_size = cs;
  counter = zero;
  finished = false;
}

abbrev pub last_byte : Bool → ℕ
last_byte true = 1
last_byte false = 0

unfoldable pub nonce : CipherState → Bool → Result Bytes
nonce c last = do n ← pack_u32 c.counter; ok (c.prefix ++ (n ++ (last_byte last ∷ [])))

unfoldable pub advance : Bool → Exec CipherState (Unit {0})
advance last c =
    if last
    then (record c { finished = true }, ok tt)
    else if c.counter == max_counter
    then (record c { finished = true }, err value_error)
    else (record c { counter = c.counter + 1 }, ok tt)

-- `self._advance(last); return out`
unfoldable pub advance_with : Bytes → Bool → Exec CipherState Bytes
unfolding advance
advance_with out last c = let (c', r) = advance last c in (c', (do u ← r; ok out))

-- A chunk that is not the last has the chunk size, and none is longer.
unfoldable pub wrong_plain_length : CipherState → ℕ → Bool → Bool
wrong_plain_length c n last = ltb c.chunk_size n || (not last && not (n == c.chunk_size))

seal_under : Aead → Result Bytes → Bytes → Bool → Exec CipherState Bytes
unfolding advance_with
seal_under a (err e) plain last c = (c, err e)
seal_under a (ok n) plain last c = advance_with (a.encrypt c.key n plain c.aad) last c

unfoldable pub seal : Aead → Bytes → Bool → Exec CipherState Bytes
unfolding wrong_plain_length nonce seal_under
seal a plain last c =
    if c.finished
    then (c, err value_error)
    else if wrong_plain_length c (length plain) last
    then (c, err value_error)
    else seal_under a (nonce c last) plain last c

unfoldable pub right_cipher_length : CipherState → ℕ → Bool → Bool
right_cipher_length c n last =
    if last then leb tag_len n && leb n (c.chunk_size + tag_len) else n == c.chunk_size + tag_len

-- A bad tag finishes the stream.
unfoldable pub opened : Option Bytes → Bool → Exec CipherState Bytes
unfolding advance_with
opened none last c = (record c { finished = true }, err invalid_tag)
opened (some plain) last c = advance_with plain last c

open_under : Aead → Result Bytes → Bytes → Bool → Exec CipherState Bytes
unfolding opened
open_under a (err e) ct last c = (c, err e)
open_under a (ok n) ct last c = opened (a.decrypt c.key n ct c.aad) last c

unfoldable pub open_chunk : Aead → Bytes → Bool → Exec CipherState Bytes
unfolding right_cipher_length nonce open_under
open_chunk a ct last c =
    if c.finished
    then (c, err value_error)
    else if right_cipher_length c (length ct) last
    then open_under a (nonce c last) ct last c
    else (record c { finished = true }, err value_error)
