-- ===== src/Session/Status/Accepted.antt =====
-- The status of an activation that the server sends.
use lime_security_powerauth.Base.{
  ℕ, ◌≤◌, ◌<◌, ◌^◌, ◌≡◌, refl, ap, ◌∙◌, false, List, [], ◌∷◌, ◌++◌, some, arith, Bytes, length,
  length-append, is_empty,
}
use lime_security_powerauth.Platform.{Cc7, OpenSsl, Cc7Laws, AesLaws}
use lime_security_powerauth.Crypto.Aes.{cbc_encrypt}
use lime_security_powerauth.Crypto.Aes.Laws.{cbc_decrypt-cbc_encrypt, length-cbc_encrypt}
use lime_security_powerauth.Protocol.Constants.{zero_iv}
use lime_security_powerauth.Protocol.Locking.{unlock_signature_keys}
use lime_security_powerauth.Protocol.Types.{
  ErrorCode, PersistentData, SignatureKeys, SignatureUnlockKeys,
}
use lime_security_powerauth.Session.{Session, activation_data}
use lime_security_powerauth.Session.Status.{
  ActivationStatus, read_status, status_of, decrypt_status, status_with, status_activated,
  decode_activation_status, accept_status,
}
use lime_security_powerauth.Session.Vault.{transport_request}
use lime_security_powerauth.Session.Vault.Opened.{length-transport_key}
use lime_security_powerauth.Utils.Reader.{reader, read_memory, read_byte, read_u64, pure}
use lime_security_powerauth.Utils.Reader.Parses.{
  Parses, Parses-eq, Parses-bind, Parses-pure, Parses-read_byte, Parses-read_memory,
  Parses-read_u64,
}

-- One of the five states, and a 64-bit counter.
pub record IsStatus (status : ActivationStatus) : Type 0 where
  pub from_created : 1 ≤ status.state
  pub to_removed : status.state ≤ 5
  pub counter_u64 : status.counter < 2 ^ 64

abbrev header : Bytes
header = 0xDE ∷ 0xC0 ∷ 0xDE ∷ 0xD1 ∷ []

module _ ⦃cc : Cc7⦄ where
  -- The header, the state, the counter and the two counts of attempts.
  unfoldable pub status_bytes : ActivationStatus → Bytes
  status_bytes status =
      header
      ++ ((status.state ∷ [])
          ++ (cc.to_big_endian 8 status.counter
              ++ (status.fail_count ∷ status.max_fail_count ∷ [])))

module _ ⦃cc : Cc7⦄ (laws : Cc7Laws cc) where
  length-status_bytes : (status : ActivationStatus) → length (status_bytes status) ≡ 15
  unfolding status_bytes
  length-status_bytes status =
      let tail = status.fail_count ∷ status.max_fail_count ∷ [] in
      ground (
        arith,
        length-append (cc.to_big_endian 8 status.counter) tail,
        laws.length-to_big_endian 8 status.counter,
      )

  accept_status_lem :
      (status : ActivationStatus) → IsStatus status → accept_status header status ≡ pure status
  unfolding accept_status
  accept_status_lem status h = ground (arith, h.from_created, h.to_removed)

  Parses-read_status :
      (status : ActivationStatus) (s : List ℕ)
      → IsStatus status
      → Parses read_status (status_bytes status) status s s
  unfolding read_status status_bytes
  Parses-read_status status s h =
      Parses-bind (read_memory 4) _ header _ s s s (Parses-read_memory 4 header s refl) (
        Parses-bind read_byte _ (status.state ∷ []) _ s s s (Parses-read_byte status.state s) (
          Parses-bind read_u64 _ (cc.to_big_endian 8 status.counter) _ s s s
            (Parses-read_u64 laws status.counter s h.counter_u64)
            (Parses-bind read_byte _ (status.fail_count ∷ []) _ s s s
              (Parses-read_byte status.fail_count s)
              (Parses-bind read_byte _ (status.max_fail_count ∷ []) [] s s s
                (Parses-read_byte status.max_fail_count s)
                (Parses-eq (accept_status_lem status h) (Parses-pure status s))))))

  status_of-status_bytes :
      (status : ActivationStatus) (reserved : Bytes)
      → IsStatus status
      → status_of (read_status (reader (status_bytes status ++ reserved))).0
        ≡ (ErrorCode.ec_ok, some status)
  unfolding status_of reader
  status_of-status_bytes status reserved h =
      ap (λ r. status_of r.0)
        ((Parses-read_status status [] h).at (reader (status_bytes status ++ reserved)) reserved
          refl refl)

  module _ ⦃ssl : OpenSsl⦄ (aes : AesLaws ssl) where
    decrypt_status-status_bytes :
        (keys : SignatureKeys) (status : ActivationStatus) (reserved : Bytes)
        → length keys.transport_key ≡ 16
        → IsStatus status
        → length reserved ≡ 17
        → decrypt_status keys
            (some (cbc_encrypt keys.transport_key zero_iv (status_bytes status ++ reserved)))
          ≡ (ErrorCode.ec_ok, some status)
    unfolding decrypt_status
    decrypt_status-status_bytes keys status reserved k h l =
        let blob = status_bytes status ++ reserved in
        let size : length blob ≡ 32 =
          length-append (status_bytes status) reserved
          ∙ ground (arith, length-status_bytes status, l) in
        rw
          (
            length-cbc_encrypt aes keys.transport_key zero_iv blob k,
            size,
            cbc_decrypt-cbc_encrypt aes keys.transport_key zero_iv blob k refl (rw size refl),
          )
          (status_of-status_bytes status reserved h)

    -- The status that a server sends is the one that decodeActivationStatus gives, with EC_Ok: the
    -- header 0xDEC0DED1, the state, the counter as eight bytes with the highest first, the number of
    -- failed attempts and their limit, and 17 reserved bytes, encrypted with AES-CBC under the
    -- transport key that the possession key unlocks and a zero vector, in Base64. The session is
    -- activated, the state is one of the five, the counter has 64 bits, AES decrypts what it
    -- encrypts, and the byte order of cc7 is inverted by its reading.
    pub decode_activation_status-status_bytes :
        (s : Session) (pd : PersistentData) (keys : SignatureUnlockKeys) (plain : SignatureKeys)
        (status : ActivationStatus) (reserved status_blob : Bytes)
        → activation_data s ≡ some pd
        → unlock_signature_keys pd.sk (transport_request s keys) ≡ some plain
        → IsStatus status
        → length reserved ≡ 17
        → is_empty status_blob ≡ false
        → cc.from_base64 status_blob
          ≡ some (cbc_encrypt plain.transport_key zero_iv (status_bytes status ++ reserved))
        → decode_activation_status s status_blob keys ≡ (ErrorCode.ec_ok, some status)
    unfolding decode_activation_status status_activated status_with
    decode_activation_status-status_bytes s pd keys plain status reserved status_blob e u h l n f =
        rw (e, n, u, f)
          (decrypt_status-status_bytes plain status reserved
            (unfold transport_request in
              length-transport_key laws aes pd.sk plain (transport_request s keys) u)
            h l)
