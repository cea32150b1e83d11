-- ===== src/Crypto.antt =====
-- include/common/crypto.h and src/common/crypto.cpp: hashes, ciphers, signatures and compression of
-- texts and files. The files of the system and the classes of CryptoPP are parameters, over a state
-- `F` of the files; a filter of CryptoPP says what it puts into its sink and whether it ended without
-- an exception. A source is read whole before anything is put into the sink.
pub mod Random
pub mod Transfers
pub mod Ciphers
pub mod Signatures
use kadpeer.Prelude.{
  ℕ, ◌+◌, ◌-◌, ◌%◌, Bool, true, false, ◌&&◌, ◌||◌, List, [], ◌∷◌, ◌++◌, Option, none, some,
  if◌then◌else◌, ◌==◌, ltb, length, take, drop,
}
use kadpeer.Prelude.Int.{ℤ, pos, negsuc}
use kadpeer.Outcome.{Outcome, done, undefined}
use kadpeer.Text.{Text, is_empty, c_str}
use Prim.Native.Nat.{bit_xor}

pub data OperationType : Type 0 where
  file_file : OperationType
  string_file : OperationType
  file_string : OperationType
  string_string : OperationType

pub data HashType : Type 0 where
  sha_512 : HashType
  sha_1 : HashType
  sha_256 : HashType
  sha_384 : HashType

-- `FileSource`, of a whole file, and `FileSink`: opened by its constructor, then written and closed.
-- `none` and `false` are the exceptions of `FileStore` and `FileSink`.
pub record Files (F : Type 0) : Type 0 where
  pub read_file : Text → F → Option Text
  pub open_sink : Text → F → Option F
  pub put_sink : Text → Text → F → F × Bool

-- What a filter puts into its sink, and whether it ended without an exception.
abbrev pub Filtered : Type 0
Filtered = Text × Bool

-- The keys are in their encoded form; `is_public_key` and `is_private_key` say whether it is decoded
-- without an exception. The random numbers of an encryption are an argument.
pub record CryptoPp : Type 0 where
  pub digest : HashType → Text → Text
  pub hex_encode : Text → Text
  pub derive_key : Text → Text → ℕ → ℕ → Text
  pub cfb_encrypt : Text → Text → Text → Text
  pub cfb_decrypt : Text → Text → Text → Text
  pub is_public_key : Text → Bool
  pub is_private_key : Text → Bool
  pub rsa_encrypt : Text → Text → Text → Filtered
  pub rsa_decrypt : Text → Text → Filtered
  pub rsa_sign : Text → Text → Filtered
  pub signature_length : Text → ℕ
  pub gzip : ℕ → Text → Filtered
  pub gunzip : Text → Filtered

-- The algorithm of `symm_algorithm_` is always `AES_256`, the only one of `symmtype`.
pub record Crypto : Type 0 where
  pub hash_algorithm : HashType

abbrev pub new_crypto : Crypto
new_crypto = record { hash_algorithm = sha_512 }

abbrev pub set_hash_algorithm : HashType → Crypto → Crypto
set_hash_algorithm type c = record c { hash_algorithm = type }

unfoldable pub xor_operation : Text → Text → Text
xor_operation [] second = []
xor_operation (a ∷ first) [] = []
xor_operation (a ∷ first) (b ∷ second) = bit_xor a b ∷ xor_operation first second

-- `XOR` is the only kind of obfuscation.
unfoldable pub obfuscate : Text → Text → Text
obfuscate first second =
    if length first == length second && ltb 0 (length first) then xor_operation first second else []

-- The text `maidsafe_salt`.
abbrev salt : Text
salt = 109 ∷ 97 ∷ 105 ∷ 100 ∷ 115 ∷ 97 ∷ 102 ∷ 101 ∷ 95 ∷ 115 ∷ 97 ∷ 108 ∷ 116 ∷ []

-- `(pin % 1000) + 1000`, where the remainder has the sign of the number.
unfoldable pub iterations : ℤ → ℕ
iterations (pos n) = n % 1000 + 1000
iterations (negsuc n) = 1000 - (n + 1) % 1000

abbrev is_zero_pin : ℤ → Bool
is_zero_pin (pos n) = n == 0
is_zero_pin (negsuc n) = false

unfoldable pub secure_password : CryptoPp → Text → ℤ → Text
unfolding iterations
secure_password lib password pin =
    if is_empty password || is_zero_pin pin
    then []
    else lib.hex_encode (lib.derive_key password salt (iterations pin) 32)

-- The switch over the operation that each method has. The sink is opened before the source; an
-- exception makes the result empty.
module _ {F : Type 0} (files : Files F) where
  finished : Filtered → Text
  finished (t, true) = t
  finished (t, false) = []

  deposited : Text → Bool → F × Bool → F × Text
  deposited output true (w, true) = (w, output)
  deposited output true (w, false) = (w, [])
  deposited output false (w, b) = (w, [])

  unfoldable pub deposit : Text → Filtered → F → F × Text
  unfolding deposited
  deposit output (t, ended) w = deposited output ended (files.put_sink (c_str output) t w)

  unfoldable pub transfer : OperationType → (Text → Filtered) → Text → Text → F → F × Text
  unfolding finished
  transfer string_string filter input output w = (w, finished (filter input))
  transfer string_file filter input output w = elim (files.open_sink (c_str output) w) [
    | none ↦ (w, [])
    | some opened ↦ deposit output (filter input) opened
  ]
  transfer file_string filter input output w = elim (files.read_file (c_str input) w) [
    | none ↦ (w, [])
    | some t ↦ (w, finished (filter t))
  ]
  transfer file_file filter input output w = elim (files.open_sink (c_str output) w) [
    | none ↦ (w, [])
    | some opened ↦ elim (files.read_file (c_str input) opened) [
      | none ↦ (opened, [])
      | some t ↦ deposit output (filter t) opened
    ]
  ]

  module _ (lib : CryptoPp) where
    hash_filter : HashType → Bool → Text → Filtered
    hash_filter type hex t =
        (if hex then lib.hex_encode (lib.digest type t) else lib.digest type t, true)

    unfoldable pub hash_func : Text → Text → OperationType → Bool → HashType → F → F × Text
    unfolding hash_filter transfer
    hash_func input output ot hex type = transfer ot (hash_filter type hex) input output

    unfoldable pub hash : Crypto → Text → Text → OperationType → Bool → F → F × Text
    unfolding hash_func
    hash c input output ot hex = hash_func input output ot hex c.hash_algorithm

    -- The hash of the key, in hexadecimal digits: the first 32 are the key, the next 16 the start.
    unfoldable pub hash_key : Text → Text
    hash_key key = lib.hex_encode (lib.digest sha_512 key)

    unfoldable pub byte_key : Text → Text
    unfolding hash_key
    byte_key key = take 32 (hash_key key)

    unfoldable pub byte_iv : Text → Text
    unfolding hash_key
    byte_iv key = take 16 (drop 32 (hash_key key))

    unfoldable pub symm_encrypt : Text → Text → OperationType → Text → F → F × Text
    unfolding transfer
    symm_encrypt input output ot key =
        transfer ot (λ t. (lib.cfb_encrypt (byte_key key) (byte_iv key) t, true)) input output

    unfoldable pub symm_decrypt : Text → Text → OperationType → Text → F → F × Text
    unfolding transfer
    symm_decrypt input output ot key =
        transfer ot (λ t. (lib.cfb_decrypt (byte_key key) (byte_iv key) t, true)) input output

    unfoldable pub asym_encrypt : Text → Text → Text → Text → OperationType → F → F × Text
    unfolding transfer
    asym_encrypt random input output key ot w =
        if lib.is_public_key key
        then transfer ot (lib.rsa_encrypt random key) input output w
        else (w, [])

    unfoldable pub asym_decrypt : Text → Text → Text → OperationType → F → F × Text
    unfolding transfer
    asym_decrypt input output key ot w =
        if lib.is_private_key key then transfer ot (lib.rsa_decrypt key) input output w else (w, [])

    unfoldable pub asym_sign : Text → Text → Text → OperationType → F → F × Text
    unfolding transfer
    asym_sign input output key ot w =
        if lib.is_private_key key then transfer ot (lib.rsa_sign key) input output w else (w, [])

    -- The source of the message is a temporary object that owns the filter and deletes it before
    -- `GetLastResult` reads it, whatever the filter has found.
    unfoldable pub verify : Text → Text → Outcome Bool
    verify key signature =
        if length signature == lib.signature_length key then undefined else done false

    -- A file that cannot be opened is an exception, and then nothing reads the filter.
    unfoldable pub verify_read : Text → Option Text → Option Text → Outcome Bool
    unfolding verify
    verify_read key (some message) (some signature) = verify key signature
    verify_read key message signature = done false

    -- Reads files only, where it reads them. Both operations from a text take the signature as a
    -- text, and both from a file take it as the path of a file.
    unfoldable pub asym_check_sig : Text → Text → Text → OperationType → F → Outcome Bool
    unfolding verify verify_read
    asym_check_sig input_data input_signature key ot w =
        if lib.is_public_key key
        then elim ot [
          | string_string ↦ verify key input_signature
          | string_file ↦ verify key input_signature
          | file_file ↦
              verify_read key (files.read_file (c_str input_data) w)
                (files.read_file (c_str input_signature) w)
          | file_string ↦
              verify_read key (files.read_file (c_str input_data) w)
                (files.read_file (c_str input_signature) w)
        ]
        else done false

    unfoldable pub compress : Text → Text → ℤ → OperationType → F → F × Text
    unfolding transfer
    compress input output (pos level) ot w =
        if ltb 9 level then (w, []) else transfer ot (lib.gzip level) input output w
    compress input output (negsuc n) ot w = (w, [])

    unfoldable pub uncompress : Text → Text → OperationType → F → F × Text
    unfolding transfer
    uncompress input output ot = transfer ot lib.gunzip input output
