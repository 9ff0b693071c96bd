-- ===== src/Security.antt =====
-- internal/app/security.go: the encryption of stored credentials. AES-GCM, and base64 with it, are
-- an interface with the laws that the code relies on.
pub mod RoundTrip
pub mod Key
pub mod KeyFile
use base_guard.Base.{
  ℕ, String, Bool, ◌||◌, ◌++◌, Option, none, some, ◌==◌, ltb, length, take, drop, Error, Result, ok,
  err, failure, if◌then◌else◌, ◌≡◌,
}
use base_guard.Disk.{Bytes}
use base_guard.Exec.{Io, pure, lift, rand_read, ◌>>=◌, ◌>>◌}

-- `seal key nonce plaintext data` and `unseal key nonce box data` are `Seal` and `Open` of
-- `cipher.NewGCM(aes.NewCipher(key))`, `encode` and `decode` are `base64.StdEncoding`'s.
pub record Cipher : Type 0 where
  pub seal : Bytes → Bytes → String → String → Bytes
  pub unseal : Bytes → Bytes → Bytes → String → Result String
  pub encode : Bytes → String
  pub decode : String → Option Bytes
  pub unseal-seal :
      (key nonce : Bytes) (s extra : String)
      → unseal key nonce (seal key nonce s extra) extra ≡ ok s
  pub decode-encode : (b : Bytes) → decode (encode b) ≡ some b

abbrev pub nonce_size : ℕ
nonce_size = 12

-- `aes.NewCipher` takes keys of 16, 24 and 32 bytes.
abbrev pub is_key_size : ℕ → Bool
is_key_size n = n == 16 || n == 24 || n == 32

abbrev pub bad_key : Error
bad_key = failure "crypto/aes: invalid key size"

-- `aes.NewCipher(key)`
abbrev pub cipher_ready : Bytes → Result (Unit {0})
cipher_ready key = if is_key_size (length key) then ok tt else err bad_key

abbrev pub credential : String
credential = "baseguard-credential-v1"

module _ (c : Cipher) where
  unfoldable pub encrypt : Bytes → String → Io String
  encrypt key s = do
    lift (cipher_ready key)
    n ← rand_read nonce_size
    pure (c.encode (n ++ c.seal key n s credential))

  unfoldable pub unboxed : Bytes → Option Bytes → Result String
  unboxed key none = err (failure "credencial inválida")
  unboxed key (some p) =
      if ltb (length p) nonce_size
      then err (failure "credencial inválida")
      else c.unseal key (take nonce_size p) (drop nonce_size p) credential

  unfoldable pub decrypt : Bytes → String → Result String
  unfolding unboxed
  decrypt key s = if is_key_size (length key) then unboxed key (c.decode s) else err bad_key
