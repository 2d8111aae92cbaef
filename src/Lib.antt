-- ===== src/Lib.antt =====
-- A model of the C++ core of the PowerAuth mobile SDK, with the theorems that hold of it.
--
-- The program keeps one session per activation. A Session has a setup that the application gives,
-- one of five states, and at most one of two sets of data: activation data while an activation is
-- in progress, persistent data once there is one. Its calls unlock the signature keys with the
-- factors of the user, calculate signatures with OpenSSL, and move the state, the counter and the
-- flags on. Passwords, messages for end-to-end encryption and the saved bytes are parts of their own.
--
-- Which file models what (sources are under src/PowerAuth unless they start with include):
--   Base, Base/*            lists and tests over native numbers, and bit operations
--   Platform                the cc7 library and OpenSSL: operations that are parameters, and their
--                           documented behaviour as records of laws
--   Utils/Reader, Writer    utils/DataReader.cpp, utils/DataWriter.cpp
--   Utils/Url, Url/Injective   utils/URLEncoding.cpp
--   Crypto/*                crypto/AES.cpp, Digest.cpp, ECC.cpp, PKCS7Padding.cpp, PRNG.cpp
--   Crypto/Prng/Reseed      the seeding of the generator and the first of it by a session
--   Protocol/Types, Constants   protocol/PrivateTypes.h, Constants.h, include/PowerAuth/PublicTypes.h
--   Protocol/Validation, Persistence   protocol/PrivateTypes.cpp
--   Protocol/Validation/Whole   the validation of a whole set of data, and what it entails
--   Protocol/Derivation, Locking, Signature, Activation   protocol/ProtocolUtils.cpp
--   Protocol/Locking/*      locking and unlocking of the keys: which calls open, what they lock, the
--                           sizes, the external key, the factors, and the stored keys
--   Protocol/Activation/Exchange   the two sides of the activation's exchange of secrets
--   Session                 Session.cpp: state, probes, resetSession, commitNewPersistentState
--   Session/Storage         saveSessionState, loadSessionState
--   Session/Activation      startActivation, validateActivationResponse, completeActivation
--   Session/Signing         signHTTPRequest
--   Session/Factors         changeUserPassword, the biometry and the external encryption key
--   Session/Vault           decryptVaultKey and the calls that need the vault key
--   Session/Status, KeyValues   decodeActivationStatus, prepareKeyValueMapForDataSigning
--   Session/Encryptors      createNonpersonalizedEncryptor, createPersonalizedEncryptor
--   Session/Outcome, Invariant, */Cases, Activation/Outcomes   what the calls do to a session, and
--                           the step relation
--   Session/*/Stored, Storage/Loaded, Invariant/Stored   what the calls leave to be saved
--   Session/Activation/Keys, Factors/PasswordChange, Factors/ExternalKey   the keys after a call
--   Session/Vault/Opened, Vault/Biometry   the key of the vault, and the key that is added with it
--   Session/KeyValues/*     the order of the keys, the lookup of a pair, and the text of a map
--   Encryptor, Password     Encryptor.cpp, Password.cpp
--   Encryptor/Accepted      the messages that are accepted
--   Password/Utf8, Edits    the encoding of characters, and the edits of a mutable password
--   Jni, Jni/*              jni/SessionJNI.cpp, PasswordJNI.cpp, EncryptorJNI.cpp: the native methods
--                           of the Java classes
--   Jni/Refines/*           the calls of Session that the native methods stand for
--   Examples/*              instances of the parameters and the theorems at concrete data
--
-- A function keeps its C++ name in lower case with underscores. A method takes the object and gives
-- it back, with the error code and the results, those of failed calls where they are written; a
-- pointer that may be null is an Option, and a byte array is a list of numbers. What OpenSSL draws or generates during a call is an argument of it.
-- Machine integers are natural numbers with the wrap-around written out. The two loops over random
-- draws make at most 16 attempts, as in the source; `std::to_string` is ten
-- divisions by ten, which are enough for a cc7::U32.
--
-- Not modelled: the Java and Objective-C classes, the `destroy` of a native object, which frees its
-- memory, the debug output, and the inside of OpenSSL, cc7 and the Java virtual machine.
-- Clearing memory has no effect in the model.
pub mod Base
pub mod Platform
pub mod Utils
pub mod Crypto
pub mod Protocol
pub mod Session
pub mod Encryptor
pub mod Password
pub mod Jni
pub mod Examples
