-- ===== src/Security/RoundTrip.antt =====
-- A sealed credential opens to what was sealed.
use base_guard.Base.{
  ℕ, zero, suc, String, true, false, [], ◌∷◌, ◌++◌, some, length, length-append, take, drop, ltb,
  ok, ◌≡◌, refl, ap, arith,
}
use base_guard.Disk.{Bytes}
use base_guard.Exec.{World, pure, lift, rand_read}
use base_guard.Exec.Inversion.{>>=-eq-ok, rand_read-length}
use base_guard.Security.{
  Cipher, is_key_size, nonce_size, credential, cipher_ready, encrypt, decrypt, unboxed,
}

take-append_exact : (n : ℕ) (a b : Bytes) → length a ≡ n → take n (a ++ b) ≡ a
take-append_exact zero [] b h = refl
take-append_exact zero (x ∷ a) b h = absurd (omega arith)
take-append_exact (suc n) [] b h = absurd (omega arith)
take-append_exact (suc n) (x ∷ a) b h = ap (◌∷◌ x) (take-append_exact n a b (omega arith))

drop-append_exact : (n : ℕ) (a b : Bytes) → length a ≡ n → drop n (a ++ b) ≡ b
drop-append_exact zero [] b h = refl
drop-append_exact zero (x ∷ a) b h = absurd (omega arith)
drop-append_exact (suc n) [] b h = absurd (omega arith)
drop-append_exact (suc n) (x ∷ a) b h = drop-append_exact n a b (omega arith)

module _ (c : Cipher) (key : Bytes) (s : String) where
  unboxed_seal :
      (n : Bytes)
      → length n ≡ nonce_size
      → unboxed c key (some (n ++ c.seal key n s credential)) ≡ ok s
  unfolding unboxed
  unboxed_seal n h =
      let box = c.seal key n s credential in
      let long : ltb (length (n ++ box)) nonce_size ≡ false = ground (arith, length-append n box) in
      rw (long, take-append_exact nonce_size n box h, drop-append_exact nonce_size n box h)
        (c.unseal-seal key n s credential)

  -- Whatever the random source gave: where `encrypt` succeeds, `decrypt` under the same key gives
  -- the credential back.
  pub decrypt-encrypt :
      (w w' : World) (box : String) → encrypt c key s w ≡ (ok box, w') → decrypt c key box ≡ ok s
  unfolding encrypt decrypt lift pure
  decrypt-encrypt w w' box h =
      let (u, w1, e1, k1) = >>=-eq-ok (lift (cipher_ready key)) _ w h in
      let (n, w2, e2, k2) = >>=-eq-ok (rand_read nonce_size) _ w1 k1 in
      let sized : is_key_size (length key) ≡ true = ground arith in
      let same : c.encode (n ++ c.seal key n s credential) ≡ box = cc k2 in
      rw (sized, ← same, c.decode-encode) (unboxed_seal n (rand_read-length nonce_size w1 e2))
