-- ===== src/Crypto/Ciphers.antt =====
-- include/common/crypto.h and src/common/crypto.cpp: what the methods of `Crypto` make can be undone.
use kadpeer.Prelude.{
  All, ℕ, suc, ◌≡◌, ◌≢◌, ◌<◌, ◌&&◌, Bool, true, [], ◌∷◌, some, arith, refl, ◌==◌, ==_iff, length,
  ◌∙◌,
}
use kadpeer.Text.{Text, c_str}
use kadpeer.Crypto.{
  Files, CryptoPp, OperationType, file_file, xor_operation, obfuscate, symm_encrypt, symm_decrypt,
  byte_key, byte_iv,
}
use kadpeer.Crypto.Transfers.{
  Laws, from_file, to_file, contents, transfer-transfer, transfer-in_place,
}
use Prim.Native.Nat.{bit_xor, zero}

-- A test of every number under a limit.
passes : (ℕ → Bool) → ℕ → Bool
passes test zero = true
passes test (suc limit) = passes test limit && test limit

passes-lt : (test : ℕ → Bool) (limit b : ℕ) → b < limit → passes test limit ≡ true → test b ≡ true
unfolding passes
passes-lt test zero b low h = elim low [ ]
passes-lt test (suc limit) b low h = ground (arith, passes-lt test limit b)

abbrev undoes : ℕ → ℕ → Bool
undoes a b = bit_xor (bit_xor a b) b == a

abbrev undoes_bytes : ℕ → Bool
undoes_bytes a = passes (undoes a) 256

all_bytes : passes undoes_bytes 256 ≡ true
unfolding passes
all_bytes = refl

-- Two exclusive ors with one byte give back the other.
xor_twice : (a b : ℕ) → a < 256 → b < 256 → bit_xor (bit_xor a b) b ≡ a
xor_twice a b h k =
    (==_iff _ a).0 (passes-lt (undoes a) 256 b k (passes-lt undoes_bytes 256 a h all_bytes))

abbrev pub IsByte : ℕ → Type 0
IsByte b = b < 256

length-xor_operation : (a b : Text) → length a ≡ length b → length (xor_operation a b) ≡ length a
unfolding xor_operation
length-xor_operation [] b h = refl
length-xor_operation (x ∷ a) [] h = absurd (omega arith)
length-xor_operation (x ∷ a) (y ∷ b) h = ground (arith, length-xor_operation a b)

xor_operation_twice :
    (a b : Text)
    → length a ≡ length b
    → All IsByte a
    → All IsByte b
    → xor_operation (xor_operation a b) b ≡ a
unfolding xor_operation
xor_operation_twice [] b h p q = refl
xor_operation_twice (x ∷ a) [] h p q = absurd (omega arith)
xor_operation_twice (x ∷ a) (y ∷ b) h p q =
    ground (arith, xor_twice x y, xor_operation_twice a b (omega arith) p.1 q.1)

obfuscate_lem : (a b : Text) → a ≢ [] → length a ≡ length b → obfuscate a b ≡ xor_operation a b
unfolding obfuscate
obfuscate_lem [] b ne h = absurd (ne refl)
obfuscate_lem (x ∷ a) b ne h = ground arith

xor_operation-ne-nil : (x : ℕ) (a : Text) (y : ℕ) (b : Text) → xor_operation (x ∷ a) (y ∷ b) ≢ []
unfolding xor_operation
xor_operation-ne-nil x a y b e = cc

-- Obfuscating twice with a text of the same length gives the text back.
pub obfuscate-obfuscate :
    (first second : Text)
    → first ≢ []
    → length first ≡ length second
    → All IsByte first
    → All IsByte second
    → obfuscate (obfuscate first second) second ≡ first
obfuscate-obfuscate [] second ne h p q = absurd (ne refl)
obfuscate-obfuscate (x ∷ a) [] ne h p q = absurd (omega arith)
obfuscate-obfuscate (x ∷ a) (y ∷ b) ne h p q = rw (obfuscate_lem (x ∷ a) (y ∷ b) ne h) (
    obfuscate_lem _ (y ∷ b) (xor_operation-ne-nil x a y b)
      (length-xor_operation (x ∷ a) (y ∷ b) h ∙ h)
    ∙ xor_operation_twice (x ∷ a) (y ∷ b) h p q)

module _ {F : Type 0} (files : Files F) (laws : Laws files) (lib : CryptoPp) (key : Text) where
  -- Where CFB decryption undoes encryption, SymmDecrypt with the key gives back what SymmEncrypt
  -- took, from a text or a file, over a text or a file, to a text or a file: where both return a
  -- result, no call reads the name that it writes, and the second takes the result of the first as
  -- what it is.
  pub symm_decrypt-symm_encrypt :
      ((k iv t : Text) → lib.cfb_decrypt k iv (lib.cfb_encrypt k iv t) ≡ t)
      → (input output output' : Text) (a b : OperationType) (w : F) → to_file a ≡ from_file b
      → (from_file a ≡ true → to_file a ≡ true → c_str output ≢ c_str input)
      → let (w1, made) = symm_encrypt files lib input output a key w in
        let (w2, result) = symm_decrypt files lib made output' b key w1 in
        (from_file b ≡ true → to_file b ≡ true → c_str output' ≢ c_str made)
        → made ≢ []
        → result ≢ []
        → contents files (to_file b) result w2 ≡ contents files (from_file a) input w
  unfolding symm_encrypt symm_decrypt
  symm_decrypt-symm_encrypt undo input output output' a b w =
      transfer-transfer files laws _ _ input output output' a b w (λ t h. undo _ _ t)

  -- SymmEncrypt from a file to a file of the same name loses what the file held: where it returns a
  -- result, the file holds what the cipher makes of the empty text.
  pub symm_encrypt-in_place :
      (input output : Text) (w : F)
      → c_str output ≡ c_str input
      → let (w1, made) = symm_encrypt files lib input output file_file key w in
        made ≢ []
        → contents files true made w1
          ≡ some (lib.cfb_encrypt (byte_key files lib key) (byte_iv files lib key) [])
  unfolding symm_encrypt
  symm_encrypt-in_place input output w same ne =
      (transfer-in_place files laws _ input output w same ne).1
