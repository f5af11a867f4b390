-- ===== src/Estoque/Tela/Recarga.antt =====
-- A query that gives another list while a form of the stock screen is open.
use gestao_restaurante.Base.{
  ◌≡◌, refl, ap, Bool, true, false, ◌&&◌, Option, none, some, List, [], ◌∷◌, if◌then◌else◌,
  Bool-cases, inl, inr,
}
use gestao_restaurante.Base.Text.{trim_start, replace_first}
use gestao_restaurante.Base.Decimal.{parse_float}
use gestao_restaurante.Estoque.{InsumoEstoque, EntradaEstoqueResponse, registrar_baixa_estoque}
use gestao_restaurante.Estoque.Movimentos.{
  VerdictoBaixa, confirmar_baixa, preparar_entrada, entrar_lido, confirmar_entrada, ler_numero,
}
use gestao_restaurante.Estoque.Tela.{
  baixa, Tela, concluir_entrada, handle_confirmar_baixa, concluir_baixa, recarregar, enviar_entrada,
  enviar_baixa, enviar_entrada_de, enviar_baixa_de, efeito_entrada, passo, executar,
}

sem_quantidade :
    (online : Bool) (res : Option EntradaEstoqueResponse) (t : Tela)
    → t.form_entrada.quantidade_texto ≡ []
    → (enviar_entrada_de online res t).pedidos ≡ t.pedidos
unfolding enviar_entrada_de confirmar_entrada entrar_lido ler_numero replace_first parse_float
    trim_start concluir_entrada
sem_quantidade online res t e = elim (Bool-cases (t.hook.is_modal_entrada_open && online)) [
  | inl b ↦ rw (b, e) refl
  | inr b ↦ rw b refl
]

preparada :
    (t : Tela)
    → t.hook.is_modal_entrada_open ≡ true
    → (efeito_entrada t).form_entrada.quantidade_texto ≡ []
unfolding preparar_entrada
preparada t e = rw e refl

-- If the query gives another list while the entry form is open, what was typed is lost: to confirm
-- then sends nothing, whatever had been typed and whatever the server would answer.
pub recarregar-enviar_entrada :
    (xs : List InsumoEstoque) (online : Bool) (res : Option EntradaEstoqueResponse) (t : Tela)
    → t.hook.is_modal_entrada_open ≡ true
    → (executar (recarregar xs ∷ enviar_entrada online res ∷ []) t).pedidos ≡ t.pedidos
unfolding executar passo
recarregar-enviar_entrada xs online res t e =
    let after = efeito_entrada (record t { todos_insumos = xs }) in
    sem_quantidade online res after (preparada (record t { todos_insumos = xs }) e)

same_pedidos :
    (ok : Bool) (v : VerdictoBaixa) (t u : Tela)
    → t.pedidos ≡ u.pedidos
    → (concluir_baixa ok v t).pedidos ≡ (concluir_baixa ok v u).pedidos
unfolding concluir_baixa handle_confirmar_baixa
same_pedidos ok (VerdictoBaixa.recusada a) t u e = e
same_pedidos true (VerdictoBaixa.enviada d) t u e = ap (◌∷◌ (baixa (registrar_baixa_estoque d))) e
same_pedidos false (VerdictoBaixa.enviada d) t u e = ap (◌∷◌ (baixa (registrar_baixa_estoque d))) e

same_branch :
    (b : Bool) (x y u v : Tela)
    → x.pedidos ≡ u.pedidos
    → y.pedidos ≡ v.pedidos
    → (if b then x else y).pedidos ≡ (if b then u else v).pedidos
same_branch true x y u v e k = e
same_branch false x y u v e k = k

same_envio :
    (xs : List InsumoEstoque) (ok : Bool) (i : Option InsumoEstoque) (t : Tela)
    → (enviar_baixa_de ok i (efeito_entrada (record t { todos_insumos = xs }))).pedidos
      ≡ (enviar_baixa_de ok i t).pedidos
unfolding enviar_baixa_de
same_envio xs ok none t = refl
same_envio xs ok (some i) t =
    same_branch t.is_modal_baixa_open _ _ _ t
      (same_pedidos ok (confirmar_baixa i t.form_baixa) _ t refl) refl

-- The write-off form checks against the balance of the moment it was opened: another list from the
-- query changes nothing of what it sends.
pub recarregar-enviar_baixa :
    (xs : List InsumoEstoque) (ok : Bool) (t : Tela)
    → (executar (recarregar xs ∷ enviar_baixa ok ∷ []) t).pedidos
      ≡ (executar (enviar_baixa ok ∷ []) t).pedidos
unfolding executar passo
recarregar-enviar_baixa xs ok t = same_envio xs ok t.insumo_baixa_selecionado t
