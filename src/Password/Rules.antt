-- ===== src/Password/Rules.antt =====
-- A generated password: its length and alphabet, and that it is generated.
use Prim.Native.Char.{Char}
use text.Mathlib.TextLemmas.{cons-append, nil-append}
use odoo_operator.Base.{
  ℕ, zero, suc, String, ◌<>◌, ◌≡◌, refl, ◌∙◌, ap, sym, [], ◌∷◌, All, In, chars, text_of, length,
  arith, inl, inr,
}
use odoo_operator.Value.{str}
use odoo_operator.Prog.{Exn, Request, choice, Result, ok, err, ret, ◌>>=◌, request, as_text}
use odoo_operator.Prog.Only.{Only, Only-bind, Only-ret, Only-request, Only-as_text}
use odoo_operator.Server.{Server, IsHealthy, IsRandom}
use odoo_operator.Server.Run.{run}
use odoo_operator.Server.Rules.{Succeeds, Succeeds-bind, Succeeds-ret, bind_ok_inv, Result-cases}
use odoo_operator.Password.{alphabet, choose_char, generate_password}

pub Only-generate_password :
    {P : Request → Type 0}
    → ((al : String) → P (choice al))
    → (n : ℕ) → Only P (generate_password n)
unfolding generate_password
Only-generate_password p zero = Only-ret ""
Only-generate_password p (suc n) =
    Only-bind (Only-bind (Only-request _ (p _)) λ v. Only-as_text v)
      λ c. Only-bind (Only-generate_password p n) λ rest. Only-ret _

ap_ok : {a b : String} → Path (Result String) (ok a) (ok b) → a ≡ b
ap_ok e = cc e

module _ (S : Server) where
  choose_char-ok :
      (s : S.State) {c : String}
      → (S.respond (choice alphabet) s).0 ≡ ok (str c)
      → (run S choose_char s).result ≡ ok c
  unfolding choose_char request as_text ◌>>=◌ run
  choose_char-ok s e = ground arith

  choose_char-err :
      (s : S.State) {x : Exn}
      → (S.respond (choice alphabet) s).0 ≡ err x
      → (run S choose_char s).result ≡ err x
  unfolding choose_char request as_text ◌>>=◌ run
  choose_char-err s e = ground arith

  pub Succeeds-generate_password : IsHealthy S → (n : ℕ) → Succeeds S (generate_password n)
  unfolding generate_password
  Succeeds-generate_password H zero = Succeeds-ret ""
  Succeeds-generate_password H (suc n) =
      Succeeds-bind
        (record {
          at = λ s w. let (c, e) = H.choose alphabet s "a" (inl refl) in (c, choose_char-ok s e);
        })
        λ c. Succeeds-bind (Succeeds-generate_password H n) λ rest. Succeeds-ret (c <> rest)

  choose_char-one :
      IsRandom S
      → (s : S.State) {p : String} → (run S choose_char s).result ≡ ok p
      → (c : Char) × (p ≡ text_of (c ∷ [])) × In c (chars alphabet)
  choose_char-one R s e = elim (Result-cases (S.respond (choice alphabet) s).0) [
    | inl (v, q) ↦
        let (c, ev, i) = R.chosen alphabet s q in
        (c, ap_ok (sym e ∙ choose_char-ok s (q ∙ ap ok ev)), i)
    | inr (x, q) ↦ absurd (cc (choose_char-err s q))
  ]

abbrev pub IsPassword : ℕ → String → Type 0
IsPassword n p = (length (chars p) ≡ n) × All (λ c. In c (chars alphabet)) (chars p)

ret_inv :
    (S : Server) {A : Type 0} (a b : A) (s : S.State) → (run S (ret a) s).result ≡ ok b → a ≡ b
unfolding run
ret_inv S a b s e = cc e

next :
    (c : Char) (n : ℕ) (p : String)
    → In c (chars alphabet)
    → IsPassword n p
    → IsPassword (suc n) (text_of (c ∷ []) <> p)
next c n p i (l, a) = rw (cons-append c "" p, nil-append p) (ap suc l, (i, a))

-- A password that is generated has the length that was asked for, and each of its characters is one
-- of the alphabet.
pub generate_password_chars :
    (S : Server)
    → IsRandom S
    → (n : ℕ) (s : S.State) {p : String} → (run S (generate_password n) s).result ≡ ok p
    → IsPassword n p
unfolding generate_password
generate_password_chars S R zero s e = rw (sym (ret_inv S "" _ s e)) (refl, tt)
generate_password_chars S R (suc n) s e =
    let (q, e0, e1, _) = bind_ok_inv S choose_char _ s e in
    let (rest, e2, e3, _) = bind_ok_inv S (generate_password n) _ _ e1 in
    let (c, eq, i) = choose_char-one S R s e0 in
    rw (sym (ret_inv S _ _ _ e3), eq) (next c n rest i (generate_password_chars S R n _ e2))
