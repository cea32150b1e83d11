-- ===== src/Crypto/Signatures.antt =====
-- include/common/crypto.h and src/common/crypto.cpp: `AsymCheckSig`, of what `AsymSign` returns and of
-- other signatures.
use kadpeer.Prelude.{◌≡◌, ◌≢◌, true, false, [], arith, length, sym, ◌∙◌, subst, ◌<◌}
use kadpeer.Outcome.{done, undefined}
use kadpeer.Text.{Text, c_str}
use kadpeer.Crypto.{
  Files, CryptoPp, file_file, string_file, string_string, asym_sign, asym_check_sig, transfer,
}
use kadpeer.Crypto.Transfers.{Laws, transfer-Delivers, transfer-result, transfer-other}

-- A key pair, as far as the checks need it: the signatures of the private key have the length that the
-- public key says.
pub record Pair (lib : CryptoPp) (private public : Text) : Type 0 where
  pub decoded : lib.is_public_key public ≡ true
  pub sized :
      (t : Text)
      → (lib.rsa_sign private t).1 ≡ true
      → length (lib.rsa_sign private t).0 ≡ lib.signature_length public

module _ {F : Type 0} (files : Files F) (lib : CryptoPp) (private public : Text)
    (pair : Pair lib private public) where
  -- The check of a signature of a text, as a text, reads the deleted filter.
  pub asym_check_sig-asym_sign :
      (input output : Text) (w later : F)
      → let signature = (asym_sign files lib input output private string_string w).1 in
        signature ≢ []
        → asym_check_sig files lib input signature public string_string later ≡ undefined
  unfolding asym_sign asym_check_sig
  asym_check_sig-asym_sign input output w later ne = ground (arith, pair.decoded, pair.sized input)

module _ {F : Type 0} (files : Files F) (laws : Laws files) (lib : CryptoPp) (private public : Text)
    (pair : Pair lib private public) where
  verify_transfer :
      (input output : Text) (w : F)
      → c_str output ≢ c_str input
      → let (w', path) = transfer files file_file (lib.rsa_sign private) input output w in
        path ≢ [] → asym_check_sig files lib input path public file_file w' ≡ undefined
  unfolding asym_check_sig
  verify_transfer input output w apart ne =
      let (t, source, delivered) =
        transfer-Delivers files laws (lib.rsa_sign private) input output w file_file (λ _ _. apart)
          ne in
      let kept =
        transfer-other files laws (lib.rsa_sign private) input output (c_str input) w apart in
      rw (pair.decoded, kept ∙ source, delivered.1) (ground (arith, pair.sized t))

  asym_sign-transfer :
      (input output : Text) (w : F)
      → (asym_sign files lib input output private file_file w).1 ≢ []
      → asym_sign files lib input output private file_file w
        ≡ transfer files file_file (lib.rsa_sign private) input output w
  unfolding asym_sign
  asym_sign-transfer input output w ne = ground arith

  -- The check of a signature of a file that AsymSign wrote to a file of another name reads a deleted
  -- object: it accepts no signature that AsymSign made.
  pub asym_check_sig-asym_sign_file :
      (input output : Text) (w : F)
      → c_str output ≢ c_str input
      → let (w', path) = asym_sign files lib input output private file_file w in
        path ≢ [] → asym_check_sig files lib input path public file_file w' ≡ undefined
  asym_check_sig-asym_sign_file input output w apart ne =
      let e = asym_sign-transfer input output w ne in
      subst
        (λ (r : F × Text).
          r.1 ≢ [] → asym_check_sig files lib input r.1 public file_file r.0 ≡ undefined)
        (sym e) (verify_transfer input output w apart) ne

module _ {F : Type 0} (files : Files F) (lib : CryptoPp) (private public : Text) where
  -- AsymCheckSig from a text to a file takes the path that AsymSign returns for the signature: it
  -- refuses the signature unless the path is as long as a signature.
  pub asym_check_sig-string_file :
      (input output : Text) (w : F)
      → length output ≢ lib.signature_length public
      → 0 < lib.signature_length public
      → let (w', path) = asym_sign files lib input output private string_file w in
        asym_check_sig files lib input path public string_file w' ≡ done false
  unfolding asym_sign asym_check_sig
  asym_check_sig-string_file input output w ne pos =
      let named = transfer-result files (lib.rsa_sign private) input output w in ground arith
