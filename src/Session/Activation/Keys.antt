-- ===== src/Session/Activation/Keys.antt =====
-- The keys of a completed activation.
use lime_security_powerauth.Base.{
  ℕ, ◌≡◌, refl, sym, ap, true, false, Option, none, some, Bytes, arith, ◌==◌, bit_and, length,
}
use lime_security_powerauth.Platform.{Cc7, OpenSsl, AesLaws, DigestLaws}
use lime_security_powerauth.Crypto.Aes.{cbc_decrypt_padding}
use lime_security_powerauth.Crypto.Aes.Laws.{cbc_decrypt_padding-cbc_encrypt_padding}
use lime_security_powerauth.Crypto.Ecc.{export_private_key}
use lime_security_powerauth.Crypto.Prng.{Draws}
use lime_security_powerauth.Protocol.Constants.{sf_first_lock, zero_iv}
use lime_security_powerauth.Protocol.Derivation.{derive_all_secret_keys}
use lime_security_powerauth.Protocol.Locking.{
  is_present, lock_signature_keys, unlock_signature_keys,
}
use lime_security_powerauth.Protocol.Locking.AnyFactor.{unlock-first_lock}
use lime_security_powerauth.Protocol.Locking.Opens.{only}
use lime_security_powerauth.Protocol.Types.{
  ErrorCode, ActivationData, PersistentData, SignatureUnlockKeys, SignatureUnlockKeysReq, no_keys,
}
use lime_security_powerauth.Protocol.Validation.{validate_unlock_keys}
use lime_security_powerauth.Session.{Session, State, eek, commit_new_persistent_state}
use lime_security_powerauth.Session.Activation.{step3, finish_step3, complete_activation, ◌>>=◌}

-- The request for some factors, with the salt and the rounds that the data hold.
abbrev pub request_of :
    PersistentData → SignatureUnlockKeys → Option Bytes → ℕ → SignatureUnlockKeysReq
request_of pd keys ext_key factor = record {
  factor = factor;
  keys = keys;
  ext_key = ext_key;
  pbkdf2_salt = some pd.password_salt;
  pbkdf2_iter = pd.password_iterations;
}

module _ ⦃cc : Cc7⦄ ⦃ssl : OpenSsl⦄ where
  -- Persistent data that hold what the activation agreed on.
  pub record Holds (ext_key : Option Bytes) (keys : SignatureUnlockKeys) (factor : ℕ)
      (ad : ActivationData) (pd : PersistentData) : Type 0 where
    pub counter : pd.signature_counter ≡ 0
    pub activation_id : pd.activation_id ≡ ad.activation_id
    pub server_public_key : pd.server_public_key ≡ ad.server_public_key_data
    pub device_public_key : pd.device_public_key ≡ ad.device_public_key_data
    pub private_key :
        cbc_decrypt_padding
          (derive_all_secret_keys no_keys ad.master_shared_secret).1
          zero_iv
          pd.c_device_private_key
        ≡ (export_private_key ad.device_private_key, false)
    pub opens :
        unlock_signature_keys pd.sk (request_of pd keys ext_key factor)
        ≡ some (record (only factor (derive_all_secret_keys no_keys ad.master_shared_secret).0) {
          uses_external_key = is_present ext_key;
        })

  module _ (aes : AesLaws ssl) (digest : DigestLaws ssl) where
    length-vault_key :
        (secret : Bytes)
        → (derive_all_secret_keys no_keys secret).2 ≡ true
        → length (derive_all_secret_keys no_keys secret).1 ≡ 16
    unfolding derive_all_secret_keys
    length-vault_key secret h = ground (arith, h)

    stored_lock :
        (ext_key : Option Bytes) (keys : SignatureUnlockKeys) (draws : Draws) (ad : ActivationData)
        (pd : PersistentData)
        → step3 ext_key keys draws ad ≡ some pd
        → lock_signature_keys no_keys
            (derive_all_secret_keys no_keys ad.master_shared_secret).0
            (request_of pd keys ext_key sf_first_lock)
          ≡ (pd.sk, true)
    unfolding step3
    stored_lock ext_key keys draws ad pd h = ground (arith, h)

    Holds-step3 :
        (factor : ℕ) (ext_key : Option Bytes) (keys : SignatureUnlockKeys) (draws : Draws)
        (ad : ActivationData) (pd : PersistentData)
        → (factor == sf_first_lock) ≡ false
        → (bit_and factor 0x4111 == 0) ≡ false
        → validate_unlock_keys keys ext_key factor ≡ true
        → step3 ext_key keys draws ad ≡ some pd
        → Holds ext_key keys factor ad pd
    unfolding step3
    Holds-step3 factor ext_key keys draws ad pd e a v h =
        let vault_key = (derive_all_secret_keys no_keys ad.master_shared_secret).1 in
        let private_data = export_private_key ad.device_private_key in
        let derived : (derive_all_secret_keys no_keys ad.master_shared_secret).2 ≡ true =
          ground (arith, h) in
        record {
          counter = ground (arith, h);
          activation_id = ground (arith, h);
          server_public_key = ground (arith, h);
          device_public_key = ground (arith, h);
          private_key = ground (
            arith,
            h,
            cbc_decrypt_padding-cbc_encrypt_padding aes vault_key zero_iv private_data
                (length-vault_key ad.master_shared_secret derived) refl,
          );
          opens =
              unlock-first_lock aes digest no_keys
                (derive_all_secret_keys no_keys ad.master_shared_secret).0 pd.sk keys ext_key
                (some pd.password_salt) pd.password_iterations factor
                (stored_lock ext_key keys draws ad pd h) e a v;
        }

    -- The activation data of the session and the persistent data that the call stored.
    pub record IsCompleted (s t : Session) (keys : SignatureUnlockKeys) (factor : ℕ) : Type 0 where
      pub ad : ActivationData
      pub pd : PersistentData
      pub pending : s.ad ≡ some ad
      pub stored : t ≡ record s { state = State.activated; pd = some pd; ad = none }
      pub holds : Holds (eek s) keys factor ad pd

    module _ (s t : Session) (keys : SignatureUnlockKeys) (draws : Draws) (factor : ℕ)
        (not_first : (factor == sf_first_lock) ≡ false)
        (some_factor : (bit_and factor 0x4111 == 0) ≡ false)
        (usable : validate_unlock_keys keys (eek s) factor ≡ true) where
      IsCompleted-step3 :
          (ad : ActivationData) (o : Option PersistentData)
          → s.ad ≡ some ad
          → step3 (eek s) keys draws ad ≡ o
          → finish_step3 s o ≡ (t, ErrorCode.ec_ok)
          → IsCompleted s t keys factor
      IsCompleted-step3 ad none a e h = absurd (unfold finish_step3 in ground (arith, h))
      IsCompleted-step3 ad (some pd) a e h = record {
        ad = ad;
        pd = pd;
        pending = a;
        stored = sym (unfold finish_step3 commit_new_persistent_state in ap (λ x. x.0) h);
        holds = Holds-step3 factor (eek s) keys draws ad pd not_first some_factor usable e;
      }

      IsCompleted-bind :
          (o : Option ActivationData)
          → s.ad ≡ o
          → finish_step3 s (o >>= step3 (eek s) keys draws) ≡ (t, ErrorCode.ec_ok)
          → IsCompleted s t keys factor
      IsCompleted-bind none a h = absurd (unfold finish_step3 in ground (arith, h))
      IsCompleted-bind (some ad) a h = IsCompleted-step3 ad _ a refl h

      -- Completing an activation with success stores what the activation agreed on: the identifier,
      -- the public keys and a counter of 0; the device's private key, which the derived vault key
      -- decrypts; and signature keys from which the same unlock keys, with the stored salt and
      -- rounds and the same external key, unlock exactly the derived keys of any selection of the
      -- factors that they are valid for. AES decrypts what it encrypts and PBKDF2 gives keys of the
      -- size asked for.
      pub IsCompleted-complete_activation :
          complete_activation s keys draws ≡ (t, ErrorCode.ec_ok) → IsCompleted s t keys factor
      unfolding complete_activation
      IsCompleted-complete_activation h = IsCompleted-bind s.ad refl (ground (arith, h))
