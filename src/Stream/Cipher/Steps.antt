-- ===== src/Stream/Cipher/Steps.antt =====
-- One call of `_seal` or `_open`, in the states where it succeeds and in general.
use quantum_safe_py.Prelude.{
  ℕ, ◌+◌, ◌≤◌, ◌<◌, ◌≡◌, refl, Bool, true, false, Option, none, some, [], ◌∷◌, ◌++◌, Bytes, length,
  ◌==◌, if◌then◌else◌, arith, ap, sym, inl, inr, Bool-cases,
}
use quantum_safe_py.Outcome.{ok, err, value_error}
use quantum_safe_py.Wire.{u32, pack_u32_fits}
use quantum_safe_py.Stream.Cipher.{
  Aead, IsAead, CipherState, max_counter, last_byte, nonce, seal, open_chunk, wrong_plain_length,
  right_cipher_length, opened,
}

-- The nonce of chunk `i`, in plain form.
abbrev pub nonce_of : Bytes → ℕ → Bool → Bytes
nonce_of prefix i last = prefix ++ (u32 i ++ (last_byte last ∷ []))

pub nonce_fits :
    (c : CipherState) (last : Bool)
    → c.counter ≤ max_counter
    → nonce c last ≡ ok (nonce_of c.prefix c.counter last)
unfolding nonce
nonce_fits c last h = rw (pack_u32_fits c.counter (omega arith))

-- What the n-th chunk is sealed to.
abbrev pub sealed : Aead → CipherState → Bytes → Bool → Bytes
sealed a c plain last = a.encrypt c.key (nonce_of c.prefix c.counter last) plain c.aad

-- A stream that takes another chunk.
pub record IsLive (c : CipherState) : Type 0 where
  pub unfinished : c.finished ≡ false
  pub counter_fits : c.counter ≤ max_counter

abbrev pub next : CipherState → CipherState
next c = record c { counter = c.counter + 1 }

abbrev pub finish : CipherState → CipherState
finish c = record c { finished = true }

-- A full chunk that is not the last.
pub seal_full :
    (a : Aead) (c : CipherState) (plain : Bytes)
    → IsLive c
    → length plain ≡ c.chunk_size
    → c.counter < max_counter
    → seal a plain false c ≡ (next c, ok (sealed a c plain false))
unfolding seal
seal_full a c plain live len more =
    rw (live.unfinished, nonce_fits c false live.counter_fits) (ground arith)

-- A full chunk at the last counter value: the stream is finished, and the call raises.
pub seal_too_many :
    (a : Aead) (c : CipherState) (plain : Bytes)
    → IsLive c
    → length plain ≡ c.chunk_size
    → c.counter ≡ max_counter
    → seal a plain false c ≡ (finish c, err value_error)
unfolding seal
seal_too_many a c plain live len most =
    rw (live.unfinished, nonce_fits c false live.counter_fits) (ground arith)

pub seal_last :
    (a : Aead) (c : CipherState) (plain : Bytes)
    → IsLive c
    → length plain ≤ c.chunk_size
    → seal a plain true c ≡ (finish c, ok (sealed a c plain true))
unfolding seal
seal_last a c plain live len =
    rw (live.unfinished, nonce_fits c true live.counter_fits) (ground arith)

-- A call of `_seal` on a live stream, by its tests.
pub seal_live :
    (a : Aead) (plain : Bytes) (last : Bool) (c : CipherState)
    → IsLive c
    → seal a plain last c ≡ (
        if wrong_plain_length c (length plain) last
        then (c, err value_error)
        else if last
        then (finish c, ok (sealed a c plain true))
        else if c.counter == max_counter
        then (finish c, err value_error)
        else (next c, ok (sealed a c plain false)))
unfolding seal
seal_live a plain true c live =
    rw (live.unfinished, nonce_fits c true live.counter_fits) (ground arith)
seal_live a plain false c live =
    rw (live.unfinished, nonce_fits c false live.counter_fits) (ground arith)

pub seal_finished :
    (a : Aead) (plain : Bytes) (last : Bool) (c : CipherState)
    → c.finished ≡ true
    → seal a plain last c ≡ (c, err value_error)
unfolding seal
seal_finished a plain last c h = rw h

-- A sealed chunk is opened in the same state, when the counter still has room for what it stands for.
pub open_sealed :
    (a : Aead) (plain : Bytes) (last : Bool) (c : CipherState)
    → IsAead a
    → IsLive c
    → wrong_plain_length c (length plain) last ≡ false
    → (last ≡ false → c.counter < max_counter)
    → open_chunk a (sealed a c plain last) last c ≡ (if last then finish c else next c, ok plain)
unfolding open_chunk opened wrong_plain_length right_cipher_length
open_sealed a plain true c law live len room =
    rw
      (
        live.unfinished,
        nonce_fits c true live.counter_fits,
        law.length_encrypt,
        law.decrypt_encrypt,
      )
      (ground arith)
open_sealed a plain false c law live len room =
    rw
      (
        live.unfinished,
        nonce_fits c false live.counter_fits,
        law.length_encrypt,
        law.decrypt_encrypt,
      )
      (ground (arith, room refl))

-- A call of `_open` on a live stream, by its tests.
pub open_live :
    (a : Aead) (ct : Bytes) (last : Bool) (c : CipherState)
    → IsLive c
    → open_chunk a ct last c ≡ (
        if right_cipher_length c (length ct) last
        then opened (a.decrypt c.key (nonce_of c.prefix c.counter last) ct c.aad) last c
        else (finish c, err value_error))
unfolding open_chunk
open_live a ct last c live = rw (live.unfinished, nonce_fits c last live.counter_fits)

-- What a call of `_open` that returns says of its argument.
pub record Opens (a : Aead) (ct : Bytes) (last : Bool) (c : CipherState) (plain : Bytes)
    : Type 0 where
  pub argument : ct ≡ sealed a c plain last
  pub fits : wrong_plain_length c (length plain) last ≡ false
  pub room : last ≡ false → c.counter < max_counter
  pub state : (open_chunk a ct last c).0 ≡ (if last then finish c else next c)

opened-eq-ok :
    (a : Aead) (ct : Bytes) (last : Bool) (c : CipherState) (plain : Bytes) (o : Option Bytes)
    → IsAead a
    → IsLive c
    → right_cipher_length c (length ct) last ≡ true
    → a.decrypt c.key (nonce_of c.prefix c.counter last) ct c.aad ≡ o
    → (opened o last c).1 ≡ ok plain
    → (ct ≡ sealed a c plain last)
      × (wrong_plain_length c (length plain) last ≡ false)
      × (last ≡ false → c.counter < max_counter)
      × ((opened o last c).0 ≡ (if last then finish c else next c))
unfolding opened wrong_plain_length right_cipher_length
opened-eq-ok a ct last c plain none law live r e h = cc
opened-eq-ok a ct true c plain (some p) law live r e h =
    let pe : p ≡ plain = ground arith in
    let se : a.encrypt c.key (nonce_of c.prefix c.counter true) p c.aad ≡ ct =
      law.encrypt_decrypt _ _ ct c.aad p e in
    let len = law.length_encrypt c.key (nonce_of c.prefix c.counter true) p c.aad in
    (rw (← pe) (sym se), rw (← pe) (ground (arith, ap length se)), λ k. cc, ground arith)
opened-eq-ok a ct false c plain (some p) law live r e h =
    let pe : p ≡ plain = ground arith in
    let se : a.encrypt c.key (nonce_of c.prefix c.counter false) p c.aad ≡ ct =
      law.encrypt_decrypt _ _ ct c.aad p e in
    let len = law.length_encrypt c.key (nonce_of c.prefix c.counter false) p c.aad in
    (
      rw (← pe) (sym se),
      rw (← pe) (ground (arith, ap length se)),
      λ k. ground (arith, live.counter_fits),
      ground arith,
    )

-- What is opened was sealed: where a call of `_open` returns, its argument is the sealing of what it
-- returns, in the state that the opener is in.
pub open-eq-ok :
    (a : Aead) (ct : Bytes) (last : Bool) (c : CipherState) (plain : Bytes)
    → IsAead a
    → IsLive c
    → (open_chunk a ct last c).1 ≡ ok plain
    → Opens a ct last c plain
open-eq-ok a ct last c plain law live h =
    elim (Bool-cases (right_cipher_length c (length ct) last)) [
      | inl r ↦
          let e : open_chunk a ct last c
              ≡ opened (a.decrypt c.key (nonce_of c.prefix c.counter last) ct c.aad) last c =
            rw (open_live a ct last c live, r) in
          let (argument, fits, room, state) =
            opened-eq-ok a ct last c plain _ law live r refl (rw e at h) in
          record { argument = argument; fits = fits; room = room; state = rw e state }
      | inr r ↦
          let e : open_chunk a ct last c ≡ (finish c, err value_error) =
            rw (open_live a ct last c live, r) in
          let bad : err value_error ≡ ok plain = rw e at h in cc bad
    ]
