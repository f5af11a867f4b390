-- ===== src/Administracao/Vista/Oferta.antt =====
-- What the administrator's list and the paywall offer to press.
use gestao_restaurante.Base.{
  ℕ, suc, ◌+◌, ◌*◌, ◌≡◌, refl, ap, ◌∙◌, inl, inr, Bool, true, false, String, Option, none, some,
  List, [], ◌∷◌, ◌++◌, length, str_eq, if◌then◌else◌, Bool-cases, append_assoc, arith,
}
use gestao_restaurante.Base.Text.{Texto}
use gestao_restaurante.Shared.Vista.{Elemento, botao, toques}
use gestao_restaurante.Administracao.{
  TenantAdminItem, PlanoItem, AssinaturaStatus, Paywall, plano_ativo, assinar,
}
use gestao_restaurante.Administracao.Vista.{
  Acao, estender_trial, alterar_status, confirmar, card_tenant_admin, cartoes, tenants_filtrados,
  vista_vazia, admin_backoffice_screen, card_plano, cards_planos, legenda_assinar, modal_paywall,
}

-- The plans that a press of one of these would subscribe.
abbrev pub assinados : List Acao → List String
assinados [] = []
assinados (confirmar id ∷ acoes) = id ∷ assinados acoes
assinados (_ ∷ acoes) = assinados acoes

abbrev pub lista : Option String → List String
lista none = []
lista (some id) = id ∷ []

card_plano-assinados :
    (p : PlanoItem) (v : List (Elemento Acao))
    → assinados (toques (card_plano p ++ v)) ≡ assinados (toques v)
unfolding card_plano
card_plano-assinados p v = elim (Bool-cases p.possui_modulo_ia) [
  | inl e ↦ rw e refl
  | inr e ↦ rw e refl
]

cards_planos-assinados :
    (ps : List PlanoItem) (v : List (Elemento Acao))
    → assinados (toques (cards_planos ps ++ v)) ≡ assinados (toques v)
unfolding cards_planos
cards_planos-assinados [] v = refl
cards_planos-assinados (p ∷ ps) v =
    ap (λ l. assinados (toques l)) (append_assoc (card_plano p) (cards_planos ps) v)
    ∙ card_plano-assinados p (cards_planos ps ++ v)
    ∙ cards_planos-assinados ps v

legenda-toques :
    (o : Option PlanoItem) (v : List (Elemento Acao))
    → toques (legenda_assinar false o ++ v) ≡ toques v
legenda-toques none v = refl
legenda-toques (some p) v = refl

button :
    (id : String) (o : Option PlanoItem) (v : List (Elemento Acao)) (b : Bool)
    → assinados (toques v) ≡ []
    → assinados (toques (botao b (confirmar id) ∷ (legenda_assinar false o ++ v)))
      ≡ lista (if b then none else some id)
button id o v true h = ap assinados (legenda-toques o v) ∙ h
button id o v false h = ap (λ l. id ∷ assinados l) (legenda-toques o v) ∙ ap (λ l. id ∷ l) h

-- What the paywall's controls can subscribe: the identifier that the button sends, and nothing
-- while a subscription is in flight.
pub modal_paywall-assinar :
    (is_assinando : Bool) (a : AssinaturaStatus) (p : Paywall)
    → assinados (toques (modal_paywall is_assinando a p))
      ≡ (if is_assinando then [] else lista (assinar a.planos_disponiveis p).1)
unfolding modal_paywall assinar
modal_paywall-assinar true a p = cards_planos-assinados a.planos_disponiveis _
modal_paywall-assinar false a p =
    cards_planos-assinados a.planos_disponiveis _
    ∙ button p.plano_selecionado_id (plano_ativo a.planos_disponiveis p.plano_selecionado_id) _
        (str_eq p.plano_selecionado_id "") refl

-- The changes among these actions.
abbrev pub mudancas : List Acao → ℕ
mudancas [] = 0
mudancas (estender_trial id dias ∷ acoes) = suc (mudancas acoes)
mudancas (alterar_status id status ∷ acoes) = suc (mudancas acoes)
mudancas (_ ∷ acoes) = mudancas acoes

cartoes-mudancas :
    (is_processando : Bool) (ts : List TenantAdminItem) (v : List (Elemento Acao))
    → mudancas (toques (cartoes is_processando ts ++ v))
      ≡ (if is_processando then 0 else 3 * length ts) + mudancas (toques v)
unfolding cartoes card_tenant_admin
cartoes-mudancas true [] v = omega arith
cartoes-mudancas false [] v = omega arith
cartoes-mudancas true (t ∷ ts) v = cartoes-mudancas true ts v
cartoes-mudancas false (t ∷ ts) v = omega (arith, cartoes-mudancas false ts v)

vista_vazia-mudancas : (ts : List TenantAdminItem) → mudancas (toques (vista_vazia ts)) ≡ 0
vista_vazia-mudancas [] = refl
vista_vazia-mudancas (t ∷ ts) = refl

-- The administrator's list offers three changes for each restaurant that the search finds, and none
-- while a change is in flight.
pub admin_backoffice_screen-mudancas :
    (busca : Texto) (is_processando : Bool) (ts : List TenantAdminItem)
    → mudancas (toques (admin_backoffice_screen busca is_processando ts))
      ≡ (if is_processando then 0 else 3 * length (tenants_filtrados busca ts))
unfolding admin_backoffice_screen
admin_backoffice_screen-mudancas busca is_processando ts =
    let found = tenants_filtrados busca ts in
    omega
      (arith, cartoes-mudancas is_processando found (vista_vazia found), vista_vazia-mudancas found)
