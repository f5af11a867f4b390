-- ===== src/Auth/Entrada.antt =====
-- frontend/features/auth: the login. The state of screens/LoginScreen.tsx, and the request and the
-- reading of the answer of `login` of services/authService.ts.
use gestao_restaurante.Base.{
  ℕ, zero, suc, ◌+◌, ◌≡◌, refl, Bool, true, false, not, ◌&&◌, ◌||◌, String, Option, none, some,
  List, [], ◌∷◌, length, leb, ◌==◌, if◌then◌else◌, Bool-cases, inl, inr, arith,
}
use gestao_restaurante.Base.Text.{Texto, codes, vazio, trim, includes, is_digit, to_lower_case}
use gestao_restaurante.Auth.{RestauranteTenant, OperadorRecente}
use gestao_restaurante.Auth.Login.{LoginInput}

-- A hexadecimal digit, of either case.
abbrev hexadecimal : ℕ → Bool
hexadecimal c = is_digit c || (leb b'a' c && leb c b'f') || (leb b'A' c && leb c b'F')

-- The rest after `n` hexadecimal digits.
unfoldable pub apos_digitos : ℕ → Texto → Option Texto
apos_digitos zero s = some s
apos_digitos (suc n) [] = none
apos_digitos (suc n) (c ∷ s) = let rest = apos_digitos n s in if hexadecimal c then rest else none

abbrev pub apos_hifen : Option Texto → Option Texto
apos_hifen none = none
apos_hifen (some []) = none
apos_hifen (some (c ∷ s)) = if c == b'-' then some s else none

abbrev pub seguido : ℕ → Option Texto → Option Texto
seguido n none = none
seguido n (some s) = apos_digitos n s

abbrev pub acabou : Option Texto → Bool
acabou none = false
acabou (some s) = vazio s

-- `isGuid`: groups of 8, 4, 4, 4 and 12 digits between hyphens.
unfoldable pub is_guid : Texto → Bool
unfolding apos_digitos
is_guid s = acabou (
    seguido 12 (
      apos_hifen (
        seguido 4
          (apos_hifen (seguido 4 (apos_hifen (seguido 4 (apos_hifen (apos_digitos 8 s)))))))))

-- The body of the request of `login`.
pub record CorpoLogin : Type 0 where
  pub email : Texto
  pub password : Texto
  pub restaurante_id : Option Texto

abbrev pub tem_arroba : Texto → Bool
tem_arroba t = includes t (codes "@")

unfoldable pub corpo_login : LoginInput → CorpoLogin
unfolding trim includes to_lower_case is_guid
corpo_login x = record {
  email =
      if tem_arroba x.identificador
      then to_lower_case (trim x.identificador)
      else codes "operador@restaurante.com";
  password = x.palavra_passe;
  restaurante_id = if is_guid x.restaurante_id then some x.restaurante_id else none;
}

-- The state of the screen.
pub record LoginScreen : Type 0 where
  pub identificador : Texto
  pub palavra_passe : Texto
  pub is_operador_mode : Bool
  pub tenants : List RestauranteTenant
  pub operador_ativo_id : String

abbrev pub inicial : List RestauranteTenant → LoginScreen
inicial padrao = record {
  identificador = codes "gestor@restaurante.com";
  palavra_passe = codes "123456";
  is_operador_mode = false;
  tenants = padrao;
  operador_ativo_id = "99999999-9999-9999-9999-999999999999";
}

-- `handleSelectOperador`, for the operator's e-mail as a text.
unfoldable pub handle_select_operador : OperadorRecente → Texto → LoginScreen → LoginScreen
handle_select_operador op email s = record s {
  operador_ativo_id = op.id;
  identificador = email;
  palavra_passe = codes "123456";
}

unfoldable pub handle_toggle_operador_mode : LoginScreen → LoginScreen
handle_toggle_operador_mode s = record s {
  is_operador_mode = not s.is_operador_mode;
  identificador =
      if not s.is_operador_mode
      then codes "operador@restaurante.com"
      else codes "gestor@restaurante.com";
}

abbrev pub id_ou : Option RestauranteTenant → Texto → Texto
id_ou none padrao = padrao
id_ou (some t) padrao = if vazio t.id then padrao else t.id

abbrev pub primeiro : List RestauranteTenant → Option RestauranteTenant
primeiro [] = none
primeiro (t ∷ ts) = some t

-- `currentTenant?.id || tenants[0]?.id || '99999999-…'`
abbrev pub tenant_id : Option RestauranteTenant → List RestauranteTenant → Texto
tenant_id current tenants =
    id_ou current (id_ou (primeiro tenants) (codes "99999999-9999-9999-9999-999999999999"))

pub data Verdicto : Type 0 where
  sem_identificador sem_senha : Verdicto
  enviado : LoginInput → Verdicto

unfoldable pub handle_acessar_painel : Option RestauranteTenant → LoginScreen → Verdicto
unfolding trim
handle_acessar_painel current s =
    if vazio (trim s.identificador)
    then sem_identificador
    else if vazio (trim s.palavra_passe)
    then sem_senha
    else enviado (record {
      identificador = trim s.identificador;
      palavra_passe = trim s.palavra_passe;
      restaurante_id = tenant_id current s.tenants;
    })

abbrev pub corpo_de : Verdicto → Option CorpoLogin
corpo_de sem_identificador = none
corpo_de sem_senha = none
corpo_de (enviado x) = some (corpo_login x)

-- What the button sends to the server, if it sends anything.
unfoldable pub acessar : Option RestauranteTenant → LoginScreen → Option CorpoLogin
unfolding handle_acessar_painel corpo_login
acessar current s = corpo_de (handle_acessar_painel current s)

-- Identifiers without an at sign, such as the operators' registration numbers, are not told apart:
-- two that are not blank and have no at sign even when trimmed send the same request.
pub acessar-indistinct :
    (current : Option RestauranteTenant) (s : LoginScreen) (a b : Texto)
    → vazio (trim a) ≡ false
    → vazio (trim b) ≡ false
    → tem_arroba (trim a) ≡ false
    → tem_arroba (trim b) ≡ false
    → acessar current (record s { identificador = a })
      ≡ acessar current (record s { identificador = b })
unfolding acessar handle_acessar_painel corpo_login
acessar-indistinct current s a b ha hb na nb = elim (Bool-cases (vazio (trim s.palavra_passe))) [
  | inl e ↦ rw (ha, hb, e) refl
  | inr e ↦ rw (ha, hb, e, na, nb) refl
]

-- What is left of `s` is shorter by `k`.
abbrev Consumed : ℕ → Texto → Option Texto → Type 0
Consumed k s none = Unit {0}
Consumed k s (some r) = length s ≡ k + length r

um_mais :
    (n : ℕ) (c : ℕ) (s : Texto) (b : Bool) (o : Option Texto)
    → Consumed n s o
    → Consumed (suc n) (c ∷ s) (if b then o else none)
um_mais n c s false o h = tt
um_mais n c s true none h = tt
um_mais n c s true (some r) h = omega (arith, h)

apos_digitos-Consumed : (n : ℕ) (s : Texto) → Consumed n s (apos_digitos n s)
unfolding apos_digitos
apos_digitos-Consumed zero s = omega arith
apos_digitos-Consumed (suc n) [] = tt
apos_digitos-Consumed (suc n) (c ∷ s) =
    um_mais n c s (hexadecimal c) (apos_digitos n s) (apos_digitos-Consumed n s)

mais :
    (k n : ℕ) (s r : Texto) (o : Option Texto)
    → length s ≡ k + length r
    → Consumed n r o
    → Consumed (k + n) s o
mais k n s r none h e = tt
mais k n s r (some t) h e = omega (arith, h, e)

hifen :
    (k : ℕ) (s r : Texto) (b : Bool)
    → length s ≡ (k + 1) + length r
    → Consumed (k + 1) s (if b then some r else none)
hifen k s r true h = h
hifen k s r false h = tt

seguido-Consumed :
    (k n : ℕ) (s : Texto) (o : Option Texto) → Consumed k s o → Consumed (k + n) s (seguido n o)
seguido-Consumed k n s none h = tt
seguido-Consumed k n s (some r) h = mais k n s r (apos_digitos n r) h (apos_digitos-Consumed n r)

apos_hifen-Consumed :
    (k : ℕ) (s : Texto) (o : Option Texto) → Consumed k s o → Consumed (k + 1) s (apos_hifen o)
apos_hifen-Consumed k s none h = tt
apos_hifen-Consumed k s (some []) h = tt
apos_hifen-Consumed k s (some (c ∷ r)) h = hifen k s r (c == b'-') (omega (arith, h))

acabou-Consumed :
    (k : ℕ) (s : Texto) (o : Option Texto) → Consumed k s o → acabou o ≡ true → length s ≡ k
acabou-Consumed k s none h e = cc
acabou-Consumed k s (some []) h e = omega (arith, h)
acabou-Consumed k s (some (c ∷ r)) h e = cc

-- What the pattern of the identifiers accepts has 36 characters.
pub is_guid-length : (s : Texto) → is_guid s ≡ true → length s ≡ 36
unfolding is_guid
is_guid-length s h =
    let a = apos_hifen-Consumed 8 s _ (apos_digitos-Consumed 8 s) in
    let b = apos_hifen-Consumed 13 s _ (seguido-Consumed 9 4 s _ a) in
    let c = apos_hifen-Consumed 18 s _ (seguido-Consumed 14 4 s _ b) in
    let d = apos_hifen-Consumed 23 s _ (seguido-Consumed 19 4 s _ c) in
    acabou-Consumed 36 s _ (seguido-Consumed 24 12 s _ d) h
