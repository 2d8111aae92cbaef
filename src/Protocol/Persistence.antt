-- ===== src/Protocol/Persistence.antt =====
-- src/PowerAuth/protocol/PrivateTypes.cpp: PersistentData to and from bytes.
pub mod RoundTrip
use lime_security_powerauth.Base.{ℕ, Bool, true, false, Option, none, some, if◌then◌else◌, Bytes}
use lime_security_powerauth.Platform.{Cc7}
use lime_security_powerauth.Protocol.Constants.{pbkdf2_salt_size, signature_key_size}
use lime_security_powerauth.Protocol.Types.{PersistentData, SignatureKeys, uses_external_key}
use lime_security_powerauth.Protocol.Validation.{validate_persistent_data}
use lime_security_powerauth.Utils.Reader.{
  Read, pure, fail, ◌>>=◌, ◌>>◌, read_u32, read_u64, read_data, read_string,
}
use lime_security_powerauth.Utils.Reader
use lime_security_powerauth.Utils.Writer.{
  DataWriter, write_u32, write_u64, write_data, write_string,
}
use lime_security_powerauth.Utils.Writer

abbrev pub pd_version : ℕ
pd_version = b'3'

module _ ⦃cc : Cc7⦄ where
  -- What stands between `openVersion` and `closeVersion`.
  write_fields : PersistentData → DataWriter → DataWriter
  write_fields pd w =
      let w1 = write_u64 pd.signature_counter w in
      let w2 = write_string pd.activation_id w1 in
      let w3 = write_u32 pd.password_iterations w2 in
      let w4 = write_data pd.password_salt w3 in
      let w5 = write_data pd.sk.possession_key w4 in
      let w6 = write_data pd.sk.knowledge_key w5 in
      let w7 = write_data pd.sk.biometry_key w6 in
      let w8 = write_data pd.sk.transport_key w7 in
      let w9 = write_data pd.server_public_key w8 in
      let w10 = write_data pd.device_public_key w9 in
      let w11 = write_data pd.c_device_private_key w10 in write_u32 pd.flags_u32 w11

  -- The writer after the call, which returns true; the result of `closeVersion` is not used.
  unfoldable pub serialize_persistent_data : PersistentData → DataWriter → DataWriter
  unfolding write_fields
  serialize_persistent_data pd writer =
      (Writer.close_version (write_fields pd (Writer.open_version b'P' pd_version writer))).0

  -- What is read on success; the data that a failed call leaves behind are not used by its caller.
  unfoldable pub deserialize_persistent_data : Read PersistentData
  deserialize_persistent_data = do
    Reader.open_version b'P' pd_version
    signature_counter ← read_u64
    activation_id ← read_string
    password_iterations ← read_u32
    password_salt ← read_data pbkdf2_salt_size
    possession_key ← read_data signature_key_size
    knowledge_key ← read_data signature_key_size
    biometry_key ← read_data 0
    transport_key ← read_data signature_key_size
    server_public_key ← read_data 0
    device_public_key ← read_data 0
    c_device_private_key ← read_data 0
    flags_u32 ← read_u32
    let sk : SignatureKeys = record {
      possession_key = possession_key;
      knowledge_key = knowledge_key;
      biometry_key = biometry_key;
      transport_key = transport_key;
      uses_external_key = uses_external_key flags_u32;
    }
    let pd : PersistentData = record {
      signature_counter = signature_counter;
      activation_id = activation_id;
      password_iterations = password_iterations;
      password_salt = password_salt;
      sk = sk;
      server_public_key = server_public_key;
      device_public_key = device_public_key;
      c_device_private_key = c_device_private_key;
      flags_u32 = flags_u32;
    }
    Reader.close_version
    if validate_persistent_data pd then pure pd else fail
