-- ===== src/Tests/Ciphers.antt =====
-- Files in memory, simple ciphers and signatures, and the theorems on them.
use kadpeer.Prelude.{
  ℕ, ◌≡◌, ◌≢◌, ◌++◌, refl, sym, ap, ◌∙◌, true, [], ◌∷◌, Option, none, some, arith, if◌then◌else◌,
  length, drop, get_or, All,
}
use kadpeer.Prelude.Int.{pos, negsuc}
use kadpeer.Order.{list_cmp}
use kadpeer.Outcome.{undefined}
use kadpeer.Text.{Text, text_eq, text_eq_iff, c_str}
use kadpeer.Crypto.{
  Files, CryptoPp, file_file, symm_encrypt, symm_decrypt, asym_sign, asym_check_sig, iterations,
  transfer, deposit,
}
use kadpeer.Crypto.Ciphers.{symm_decrypt-symm_encrypt, symm_encrypt-in_place}
use kadpeer.Crypto.Random.{IsCharacter, random_string, random_string_lem, random_char}
use kadpeer.Crypto.Signatures.{Pair, asym_check_sig-asym_sign_file}
use kadpeer.Crypto.Transfers.{Laws, contents}

abbrev pub Memory : Type 0
Memory = Text → Option Text

abbrev pub update : Text → Option Text → Memory → Memory
update p t w q = if text_eq q p then t else w q

abbrev pub append_text : Text → Option Text → Option Text
append_text t none = none
append_text t (some s) = some (s ++ t)

abbrev pub memory_files : Files Memory
memory_files = record {
  read_file = λ p w. w p;
  open_sink = λ p w. some (update p (some []) w);
  put_sink = λ p t w. (update p (append_text t (w p)) w, true);
}

text_eq_refl : (p : Text) → text_eq p p ≡ true
text_eq_refl p = (text_eq_iff p p).1 refl

abbrev at : Text → Option Memory → Option Text
at p none = none
at p (some w) = w p

update_self : (p : Text) (t : Option Text) (w : Memory) → update p t w p ≡ t
update_self p t w = rw (text_eq_refl p)

update_other : (p q : Text) (t : Option Text) (w : Memory) → p ≢ q → update p t w q ≡ w q
update_other p q t w ne = ground (arith, text_eq_iff q p)

memory-Laws : Laws memory_files
memory-Laws = record {
  opened_empty = λ p w w' e. sym (ap (at p) e) ∙ update_self p (some []) w;
  opened_other = λ p q w w' ne e. sym (ap (at q) e) ∙ update_other p q (some []) w ne;
  put_holds = λ p t w e h. update_self p (append_text t (w p)) w ∙ ap (append_text t) e;
  put_other = λ p q t w ne. update_other p q (append_text t (w p)) w ne;
}

-- A cipher that puts a byte before the text, and signatures of two bytes.
abbrev pub toy : CryptoPp
toy = record {
  digest = λ type t. t;
  hex_encode = λ t. t;
  derive_key = λ password salt n size. password;
  cfb_encrypt = λ key iv t. 1 ∷ t;
  cfb_decrypt = λ key iv t. drop 1 t;
  is_public_key = λ key. true;
  is_private_key = λ key. true;
  rsa_encrypt = λ random key t. (t, true);
  rsa_decrypt = λ key t. (t, true);
  rsa_sign = λ key t. (length t ∷ 7 ∷ [], true);
  signature_length = λ key. 2;
  gzip = λ level t. (t, true);
  gunzip = λ t. (t, true);
}

pub toy-Pair : (private public : Text) → Pair toy private public
toy-Pair private public = record { decoded = refl; sized = λ t h. refl }

abbrev name_a : Text
name_a = 97 ∷ []

abbrev name_b : Text
name_b = 98 ∷ []

abbrev name_c : Text
name_c = 99 ∷ []

abbrev pub memory : Memory
memory p = if text_eq p (97 ∷ []) then some (5 ∷ 6 ∷ []) else none

cons-ne-nil : (x : ℕ) (xs : Text) → x ∷ xs ≢ []
cons-ne-nil x xs e = cc

b-ne-a : name_b ≢ name_a
b-ne-a e = omega (arith, ap (λ (t : Text). get_or t 0 0) e)

c-ne-b : name_c ≢ name_b
c-ne-b e = omega (arith, ap (λ (t : Text). get_or t 0 0) e)

-- From the file a to the file b, and from there to a text.
symm_decrypt-symm_encrypt_example :
    let (w1, made) = symm_encrypt memory_files toy name_a name_b file_file [] memory in
    let (w2, result) = symm_decrypt memory_files toy made name_c file_file [] w1 in
    contents memory_files true result w2 ≡ contents memory_files true name_a memory
unfolding symm_encrypt symm_decrypt transfer deposit c_str list_cmp
symm_decrypt-symm_encrypt_example =
    symm_decrypt-symm_encrypt memory_files memory-Laws toy [] (λ k iv t. refl) name_a name_b name_c
      file_file file_file memory refl (λ _ _. b-ne-a) (λ _ _. c-ne-b) (cons-ne-nil 98 [])
      (cons-ne-nil 99 [])

symm_encrypt-in_place_example :
    let (w1, made) = symm_encrypt memory_files toy name_a name_a file_file [] memory in
    contents memory_files true made w1 ≡ some (1 ∷ [])
unfolding symm_encrypt transfer deposit c_str list_cmp
symm_encrypt-in_place_example =
    symm_encrypt-in_place memory_files memory-Laws toy [] name_a name_a memory refl
      (cons-ne-nil 97 [])

asym_check_sig-asym_sign_file_example :
    let (w', path) = asym_sign memory_files toy name_a name_b [] file_file memory in
    asym_check_sig memory_files toy name_a path [] file_file w' ≡ undefined
unfolding asym_sign asym_check_sig transfer deposit c_str list_cmp
asym_check_sig-asym_sign_file_example =
    asym_check_sig-asym_sign_file memory_files memory-Laws toy [] [] (toy-Pair [] []) name_a name_b
      memory b-ne-a (cons-ne-nil 98 [])

random_string_lem_example :
    (length (random_string (λ i. record { is_convertable_to_long = true; as_long = pos i }) (pos 3))
      ≡ 3)
    × All IsCharacter
        (random_string (λ i. record { is_convertable_to_long = true; as_long = pos i }) (pos 3))
random_string_lem_example =
    random_string_lem (λ i. record { is_convertable_to_long = true; as_long = pos i }) 3

-- A draw of 121 becomes y, and z does not come up.
last_letter : random_char 121 ≡ 121
unfolding random_char
last_letter = refl

fewest_iterations : iterations (negsuc 998) ≡ 1
unfolding iterations
fewest_iterations = refl
