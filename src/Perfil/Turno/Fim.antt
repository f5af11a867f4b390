-- ===== src/Perfil/Turno/Fim.antt =====
-- The closing of a shift, and the lock.
use gestao_restaurante.Base.{
  ℕ, zero, suc, ◌+◌, ◌≤◌, ◌<◌, ◌≡◌, ◌↔◌, refl, ap, Bool, true, false, not, ◌&&◌, Option, none, some,
  List, [], ◌∷◌, length, leb, ltb, if◌then◌else◌, arith,
}
use gestao_restaurante.Base.Text.{Texto}
use gestao_restaurante.Auth.{
  OperadorRecente, Json, Storage, AuthState, auth_token, get_string, delete_item,
  apagar_credenciais, logout,
}
use gestao_restaurante.Caixa.{valor_dinheiro}
use gestao_restaurante.Perfil.{ShiftMetrics, Perfil, saldo_de}
use gestao_restaurante.Perfil.Gaveta.{IsLoaded}
use gestao_restaurante.Perfil.Turno.{
  sessao_fechamento, Turno, inicial, handle_logout, handle_tentar_desbloqueio,
  handle_confirmar_fechamento_turno, concluir_fechamento, Acao, conexao, abrir_filiais,
  fechar_filiais, buscar, escolher_filial, bloquear, tentar_desbloqueio, sair, digitar_pin,
  abrir_fechamento, voltar_fechamento, dispensar_fechamento, confirmar_fechamento, fim_da_espera,
  passo, executar,
}

gaveta-sessao_fechamento :
    (m : Option ShiftMetrics) (o : Option OperadorRecente) (p : Perfil)
    → p.metricas ≡ m
    → IsLoaded p
    → (valor_dinheiro (sessao_fechamento m o) ≡ saldo_de m) ↔ (0 < saldo_de m)
unfolding valor_dinheiro sessao_fechamento
gaveta-sessao_fechamento none o p e h = absurd (ground (arith, e, h))
gaveta-sessao_fechamento (some m) o p e h = ground arith

-- Once the shift's figures are loaded, the closing asks the operator to find in the drawer what the
-- drawer holds exactly if that is not zero: for an emptied drawer it asks for a built-in amount.
pub valor_dinheiro-sessao_fechamento :
    (p : Perfil) (o : Option OperadorRecente)
    → IsLoaded p
    → (valor_dinheiro (sessao_fechamento p.metricas o) ≡ saldo_de p.metricas)
      ↔ (0 < saldo_de p.metricas)
valor_dinheiro-sessao_fechamento p o h = gaveta-sessao_fechamento p.metricas o p refl h

-- At most one closing is in flight, and it is shown as such.
pub record IsSingle (x : Turno) : Type 0 where
  pub single : x.esperas ≤ 1
  pub shown : x.is_fechando_caixa ≡ ltb 0 x.esperas

either :
    (b : Bool) (x y : Turno) → (b ≡ true → IsSingle x) → IsSingle y → IsSingle (if b then x else y)
either true x y h k = h refl
either false x y h k = k

kept :
    {x : Turno}
    → IsSingle x
    → (y : Turno) → y.esperas ≡ x.esperas
    → y.is_fechando_caixa ≡ x.is_fechando_caixa
    → IsSingle y
kept h y e f = record {
  single = ground (arith, h.single, e);
  shown = ground (arith, h.shown, e, f);
}

passo-IsSingle : (json : Json) (a : Acao) (x : Turno) → IsSingle x → IsSingle (passo json a x)
unfolding passo handle_logout handle_tentar_desbloqueio handle_confirmar_fechamento_turno
    concluir_fechamento
passo-IsSingle json (conexao b) x h = kept h _ refl refl
passo-IsSingle json abrir_filiais x h = kept h _ refl refl
passo-IsSingle json fechar_filiais x h = kept h _ refl refl
passo-IsSingle json (buscar t) x h = kept h _ refl refl
passo-IsSingle json (escolher_filial t) x h = kept h _ refl refl
passo-IsSingle json bloquear x h = kept h _ refl refl
passo-IsSingle json tentar_desbloqueio x h =
    either x.is_bloqueado _ x
      (λ e. either (leb 4 (length x.pin)) _ _ (λ f. kept h _ refl refl) (kept h _ refl refl)) h
passo-IsSingle json sair x h = either x.is_bloqueado _ x (λ e. kept h _ refl refl) h
passo-IsSingle json (digitar_pin t) x h = kept h _ refl refl
passo-IsSingle json abrir_fechamento x h = kept h _ refl refl
passo-IsSingle json voltar_fechamento x h =
    either x.is_fechando_caixa x _ (λ e. h) (kept h _ refl refl)
passo-IsSingle json dispensar_fechamento x h = kept h _ refl refl
passo-IsSingle json confirmar_fechamento x h =
    either (x.is_confirmar_fechamento_open && not x.is_fechando_caixa && x.is_api_online) _ x
      (λ e. record { single = ground (arith, e, h.single, h.shown); shown = ground arith }) h
passo-IsSingle json fim_da_espera x h = go x.esperas refl
  where
    go :
        (k : ℕ)
        → x.esperas ≡ k
        → IsSingle (elim k [ zero ↦ x | suc n ↦ concluir_fechamento (record x { esperas = n }) ])
    go zero e = h
    go (suc n) e = record {
      single = ground (arith, e, h.single);
      shown = ground (arith, e, h.single);
    }

executar-IsSingle :
    (json : Json) (acoes : List Acao) (x : Turno) → IsSingle x → IsSingle (executar json acoes x)
unfolding executar
executar-IsSingle json [] x h = h
executar-IsSingle json (a ∷ acoes) x h =
    executar-IsSingle json acoes (passo json a x) (passo-IsSingle json a x h)

-- Whatever the user does on the profile's screen: at most one closing of the shift is in flight, and
-- the dialog shows that there is one exactly while it is.
pub executar-inicial-IsSingle :
    (json : Json) (acoes : List Acao) (s : Storage × AuthState)
    → IsSingle (executar json acoes (inicial s))
executar-inicial-IsSingle json acoes s =
    executar-IsSingle json acoes (inicial s) (record { single = omega arith; shown = refl })

chosen : {b : Bool} (x y : Turno) → b ≡ true → (if b then x else y) ≡ x
chosen x y e = rw e refl

ready : (a b c : Bool) → a ≡ true → b ≡ false → c ≡ true → (a && not b && c) ≡ true
ready a b c e f g = rw (e, f, g) refl

-- A closing that is confirmed while the server answers and none is in flight, and whose dialog is
-- dismissed by the backdrop before the wait is over: it is not undone. The operator is logged out
-- and led to the login, and the token is no longer stored.
pub dispensar_fechamento-sair :
    (json : Json) (x : Turno)
    → x.is_confirmar_fechamento_open ≡ true
    → x.is_fechando_caixa ≡ false
    → x.is_api_online ≡ true
    → let y = executar json (confirmar_fechamento ∷ dispensar_fechamento ∷ fim_da_espera ∷ []) x in
      (y.sessao.1.is_authenticated ≡ false)
      × (get_string auth_token y.sessao.0 ≡ none)
      × (y.saidas ≡ x.saidas + 1)
unfolding executar passo handle_confirmar_fechamento_turno concluir_fechamento handle_logout logout
    apagar_credenciais delete_item get_string
dispensar_fechamento-sair json x shown idle online =
    let test : (x.is_confirmar_fechamento_open && not x.is_fechando_caixa && x.is_api_online)
        ≡ true =
      ready _ _ _ shown idle online in
    let confirmed =
      chosen (record x { is_fechando_caixa = true; esperas = suc x.esperas }) x test in
    let rest = executar json (dispensar_fechamento ∷ fim_da_espera ∷ []) in
    (
      ap (λ y. (rest y).sessao.1.is_authenticated) confirmed,
      ap (λ y. get_string auth_token (rest y).sessao.0) confirmed,
      ap (λ y. (rest y).saidas) confirmed,
    )

-- A locked terminal is unlocked by any code of four characters or more, and by no shorter one.
pub tentar_desbloqueio_iff :
    (json : Json) (t : Texto) (x : Turno)
    → x.is_bloqueado ≡ true
    → ((passo json tentar_desbloqueio (passo json (digitar_pin t) x)).is_bloqueado ≡ false)
      ↔ (4 ≤ length t)
unfolding passo handle_tentar_desbloqueio
tentar_desbloqueio_iff json t x h = rw h (ground (arith, h))
