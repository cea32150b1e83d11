-- ===== src/Crypto/Transfers.antt =====
-- src/common/crypto.cpp: what reaches the sink of a transfer from its source, for each of the four
-- operations.
use kadpeer.Prelude.{
  ◌≡◌, ◌≢◌, Bool, true, false, [], Option, none, some, arith, refl, sym, ◌∙◌, subst, ap,
  Option-cases, inl, inr, ◌⊎◌,
}
use kadpeer.Text.{Text, c_str}
use kadpeer.Crypto.{
  Files, Filtered, OperationType, file_file, string_file, file_string, string_string, transfer,
  deposit,
}

-- The documented behaviour of a file: opening it for writing makes it empty, what is put into it
-- follows what it holds, and no other name is affected: two names are never links to one file.
pub record Laws {F : Type 0} (files : Files F) : Type 0 where
  pub opened_empty :
      (p : Text) (w w' : F) → files.open_sink p w ≡ some w' → files.read_file p w' ≡ some []
  pub opened_other :
      (p q : Text) (w w' : F)
      → p ≢ q
      → files.open_sink p w ≡ some w'
      → files.read_file q w' ≡ files.read_file q w
  pub put_holds :
      (p t : Text) (w : F)
      → files.read_file p w ≡ some []
      → (files.put_sink p t w).1 ≡ true
      → files.read_file p (files.put_sink p t w).0 ≡ some t
  pub put_other :
      (p q t : Text) (w : F)
      → p ≢ q
      → files.read_file q (files.put_sink p t w).0 ≡ files.read_file q w

abbrev pub from_file : OperationType → Bool
from_file file_file = true
from_file string_file = false
from_file file_string = true
from_file string_string = false

abbrev pub to_file : OperationType → Bool
to_file file_file = true
to_file string_file = true
to_file file_string = false
to_file string_string = false

module _ {F : Type 0} (files : Files F) where
  -- The data that an argument of a method, or its result, stands for.
  abbrev pub contents : Bool → Text → F → Option Text
  contents true path w = files.read_file (c_str path) w
  contents false t w = some t

  -- The effect of a transfer on its sink.
  abbrev pub Delivers : OperationType → Filtered → F × Text → Type 0
  Delivers ot (t, ended) (w, result) = (ended ≡ true) × (contents (to_file ot) result w ≡ some t)

module _ {F : Type 0} (files : Files F) (laws : Laws files) where
  deposit-Delivers :
      (output : Text) (made : Filtered) (w : F)
      → files.read_file (c_str output) w ≡ some []
      → (deposit files output made w).1 ≢ []
      → Delivers files string_file made (deposit files output made w)
  unfolding deposit
  deposit-Delivers output (t, ended) w empty ne = ground (arith, laws.put_holds (c_str output) t w)

  -- A transfer that came to put what the filter made into the opened file.
  deposited-Delivers :
      (output : Text) (made : Filtered) (w w' : F) (r : F × Text)
      → files.open_sink (c_str output) w ≡ some w'
      → r ≡ deposit files output made w'
      → r.1 ≢ []
      → Delivers files file_file made r
  deposited-Delivers output made w w' r e f =
      subst (λ r. r.1 ≢ [] → Delivers files file_file made r) (sym f)
        (deposit-Delivers output made w' (laws.opened_empty _ w w' e))

  transfer-string_file :
      (filter : Text → Filtered) (input output : Text) (w w' : F)
      → files.open_sink (c_str output) w ≡ some w'
      → transfer files string_file filter input output w ≡ deposit files output (filter input) w'
  unfolding transfer
  transfer-string_file filter input output w w' e = ground arith

  transfer-file_file :
      (filter : Text → Filtered) (input output t : Text) (w w' : F)
      → files.open_sink (c_str output) w ≡ some w'
      → files.read_file (c_str input) w' ≡ some t
      → transfer files file_file filter input output w ≡ deposit files output (filter t) w'
  unfolding transfer
  transfer-file_file filter input output t w w' e f = ground arith

  transfer-unopened :
      (filter : Text → Filtered) (input output : Text) (w : F)
      → files.open_sink (c_str output) w ≡ none
      → (transfer files file_file filter input output w).1 ≡ []
  unfolding transfer
  transfer-unopened filter input output w e = ground arith

  -- A transfer with a result: its source has data, and the sink has what the filter made of it.
  pub transfer-Delivers :
      (filter : Text → Filtered) (input output : Text) (w : F) (ot : OperationType)
      → (from_file ot ≡ true → to_file ot ≡ true → c_str output ≢ c_str input)
      → (transfer files ot filter input output w).1 ≢ []
      → (t : Text) × (contents files (from_file ot) input w ≡ some t)
        × Delivers files ot (filter t) (transfer files ot filter input output w)
  unfolding transfer
  transfer-Delivers filter input output w string_string apart ne = (input, refl, ground arith)
  transfer-Delivers filter input output w file_string apart ne =
      elim (Option-cases (files.read_file (c_str input) w)) [
        | inl e ↦ absurd (ne (ground arith))
        | inr (t, e) ↦ (t, e, ground arith)
      ]
  transfer-Delivers filter input output w string_file apart ne =
      elim (Option-cases (files.open_sink (c_str output) w)) [
        | inl e ↦ absurd (ne (ground arith))
        | inr (w', e) ↦ (
          input,
          refl,
          deposited-Delivers output (filter input) w w' _ e
              (transfer-string_file filter input output w w' e) ne,
        )
      ]
  transfer-Delivers filter input output w file_file apart ne =
      elim (Option-cases (files.open_sink (c_str output) w)) [
        | inl e ↦ absurd (ne (ground arith))
        | inr (w', e) ↦ elim (Option-cases (files.read_file (c_str input) w')) [
          | inl f ↦ absurd (ne (ground arith))
          | inr (t, f) ↦ (
            t,
            sym (laws.opened_other _ _ w w' (apart refl refl) e) ∙ f,
            deposited-Delivers output (filter t) w w' _ e
                (transfer-file_file filter input output t w w' e f) ne,
          )
        ]
      ]

  deposit-other :
      (output : Text) (made : Filtered) (p : Text) (w : F)
      → c_str output ≢ p
      → files.read_file p (deposit files output made w).0 ≡ files.read_file p w
  unfolding deposit
  deposit-other output (t, ended) p w apart =
      ground (arith, laws.put_other (c_str output) p t w apart)

  -- A transfer from a file to another changes no file but its sink.
  pub transfer-other :
      (filter : Text → Filtered) (input output p : Text) (w : F)
      → c_str output ≢ p
      → files.read_file p (transfer files file_file filter input output w).0 ≡ files.read_file p w
  unfolding transfer
  transfer-other filter input output p w apart =
      elim (Option-cases (files.open_sink (c_str output) w)) [
        | inl e ↦ ground arith
        | inr (w', e) ↦ elim (Option-cases (files.read_file (c_str input) w')) [
          | inl f ↦ ground (arith, laws.opened_other (c_str output) p w w' apart)
          | inr (t, f) ↦
              ap (λ r. files.read_file p r.0) (transfer-file_file filter input output t w w' e f)
              ∙ deposit-other output (filter t) p w' apart
              ∙ laws.opened_other (c_str output) p w w' apart e
        ]
      ]

  -- Two transfers after one another, the second from what the first made, where its filter undoes
  -- the first.
  pub transfer-transfer :
      (f g : Text → Filtered) (input output output' : Text) (a b : OperationType) (w : F)
      → ((t : Text) → (f t).1 ≡ true → (g (f t).0).0 ≡ t)
      → to_file a ≡ from_file b
      → (from_file a ≡ true → to_file a ≡ true → c_str output ≢ c_str input)
      → let (w1, made) = transfer files a f input output w in
        let (w2, result) = transfer files b g made output' w1 in
        (from_file b ≡ true → to_file b ≡ true → c_str output' ≢ c_str made)
        → made ≢ []
        → result ≢ []
        → contents files (to_file b) result w2 ≡ contents files (from_file a) input w
  transfer-transfer f g input output output' a b w undo chain apart apart' ne ne' =
      let first = transfer files a f input output w in
      let (t, source, delivered) = transfer-Delivers f input output w a apart ne in
      let (t', source', sink') = transfer-Delivers g first.1 output' first.0 b apart' ne' in
      let kept : contents files (from_file b) first.1 first.0 ≡ some (f t).0 =
        subst (λ k. contents files k first.1 first.0 ≡ some (f t).0) chain delivered.1 in
      let same : t' ≡ (f t).0 = cc in
      sink'.1 ∙ ap (λ u. some (g u).0) same ∙ ap some (undo t delivered.0) ∙ sym source

  -- A transfer from a file to the same name opens the sink first, so that the source is empty.
  pub transfer-in_place :
      (filter : Text → Filtered) (input output : Text) (w : F)
      → c_str output ≡ c_str input
      → (transfer files file_file filter input output w).1 ≢ []
      → Delivers files file_file (filter []) (transfer files file_file filter input output w)
  transfer-in_place filter input output w same ne =
      elim (Option-cases (files.open_sink (c_str output) w)) [
        | inl e ↦ absurd (ne (transfer-unopened filter input output w e))
        | inr (w', e) ↦
            deposited-Delivers output (filter []) w w' _ e
              (transfer-file_file filter input output [] w w' e
                (subst (λ p. files.read_file p w' ≡ some []) same (laws.opened_empty _ w w' e)))
              ne
      ]

-- The result of a transfer from a text to a file is the name of the sink, or empty.
pub transfer-result :
    {F : Type 0} (files : Files F) (filter : Text → Filtered) (input output : Text) (w : F)
    → let r = (transfer files string_file filter input output w).1 in (r ≡ output) ⊎ (r ≡ [])
unfolding transfer deposit
transfer-result files filter input output w = ground arith
