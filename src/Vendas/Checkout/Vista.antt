-- ===== src/Vendas/Checkout/Vista.antt =====
-- What the sheet shows: the elements of CheckoutBottomSheet.tsx and of its parts ResumoComandaBox.tsx,
-- GradeFormasPagamento.tsx and PainelDinheiroTroco.tsx, in frontend/features/vendas/components.
pub mod Toques
use gestao_restaurante.Base.{
  ℕ, zero, suc, ◌+◌, ◌-◌, Bool, true, false, not, ◌||◌, List, [], ◌∷◌, ◌++◌, map, ◌==◌,
  if◌then◌else◌,
}
use gestao_restaurante.Base.Number.{ℤ, pos, negsuc}
use gestao_restaurante.Base.Text.{Texto, codes, vazio}
use gestao_restaurante.Base.Decimal.{digitos}
use gestao_restaurante.Shared.Vista.{Elemento, texto, botao, campo}
use gestao_restaurante.Vendas.{FormaPagamento, dinheiro, pix, debito, credito, ItemComanda}
use gestao_restaurante.Vendas.Carrinho.{CarrinhoState, obter_total_itens, obter_subtotal}
use gestao_restaurante.Vendas.Checkout.{
  Pilula, Checkout, is_dinheiro, com_virgula, pilulas_calculadas, selecionar_pilula,
  valor_recebido_numerico, troco, is_valor_insuficiente,
}

pub data Acao : Type 0 where
  fechar : Acao
  selecionar_forma : FormaPagamento → Acao
  mudar_valor : Texto → Acao
  tocar_pilula : Pilula → Acao
  confirmar_venda : Acao

-- `xs.map((i) => i.produto.nome).join(', ')`
unfoldable pub nomes_resumo : List ItemComanda → Texto
nomes_resumo [] = []
nomes_resumo (i ∷ []) = i.produto.nome
nomes_resumo (i ∷ j ∷ is) = i.produto.nome ++ codes ", " ++ nomes_resumo (j ∷ is)

-- `ResumoComandaBox`
unfoldable pub resumo_comanda_box : ℕ → ℕ → Texto → List (Elemento Acao)
unfolding digitos
resumo_comanda_box total subtotal nomes =
    texto
      (digitos total ++ codes (if total == 1 then " item selecionado" else " itens selecionados"))
    ∷ texto (if vazio nomes then codes "Nenhum item adicionado" else nomes)
    ∷ texto (codes "TOTAL A PAGAR")
    ∷ texto (codes "R$ " ++ com_virgula subtotal)
    ∷ []

-- `GradeFormasPagamento`
unfoldable pub grade_formas_pagamento : List (Elemento Acao)
grade_formas_pagamento =
    texto (codes "FORMA DE PAGAMENTO")
    ∷ botao false (selecionar_forma dinheiro)
    ∷ texto (codes "💵")
    ∷ texto (codes "Dinheiro")
    ∷ texto (codes "Cédulas / Moedas")
    ∷ botao false (selecionar_forma pix)
    ∷ texto (codes "💠")
    ∷ texto (codes "Instantâneo")
    ∷ texto (codes "PIX")
    ∷ texto (codes "QR Code dinâmico")
    ∷ botao false (selecionar_forma debito)
    ∷ texto (codes "📟")
    ∷ texto (codes "Débito")
    ∷ texto (codes "Cartão / Maquininha")
    ∷ botao false (selecionar_forma credito)
    ∷ texto (codes "💳")
    ∷ texto (codes "Crédito")
    ∷ texto (codes "À vista ou parcelado")
    ∷ []

abbrev pub vista_pilulas : List Pilula → List (Elemento Acao)
vista_pilulas [] = []
vista_pilulas (p ∷ ps) = botao false (tocar_pilula p) ∷ texto p.label ∷ vista_pilulas ps

-- `subtotal - valorRecebidoNumerico`, where the latter is the smaller.
abbrev pub falta : ℕ → ℤ → ℕ
falta subtotal (pos r) = subtotal - r
falta subtotal (negsuc n) = subtotal + suc n

-- The warning sign and the printer, each with its variation selector.
abbrev aviso : Texto
aviso = 9888 ∷ 65039 ∷ []

abbrev impressora : Texto
impressora = 128424 ∷ 65039 ∷ []

-- `PainelDinheiroTroco`
unfoldable pub painel_dinheiro_troco : ℕ → Texto → List Pilula → ℕ → Bool → ℤ → List (Elemento Acao)
painel_dinheiro_troco subtotal input pilulas troco insuficiente recebido =
    texto (codes "Valor Recebido em Espécie")
    ∷ texto (codes "Teclado numérico")
    ∷ texto (codes "R$")
    ∷ campo input mudar_valor
    ∷ (vista_pilulas pilulas
        ++ (if insuficiente
            then texto (
                aviso
                ++ codes " Valor insuficiente. Faltam R$ "
                ++ com_virgula (falta subtotal recebido))
              ∷ []
            else texto (codes "✓")
              ∷ texto (codes "Troco a Devolver:")
              ∷ texto (codes "R$ " ++ com_virgula troco)
              ∷ []))

-- The panel of the cash, which is shown for that form of payment only.
unfoldable pub painel_do_checkout : ℕ → Checkout → List (Elemento Acao)
unfolding painel_dinheiro_troco pilulas_calculadas troco valor_recebido_numerico
    is_valor_insuficiente
painel_do_checkout subtotal c =
    if is_dinheiro c.forma_pagamento
    then painel_dinheiro_troco subtotal c.valor_recebido_input (pilulas_calculadas subtotal)
        (troco subtotal c) (is_valor_insuficiente subtotal c) (valor_recebido_numerico c)
    else []

-- The caption of the confirmation's button, and the remark below it.
abbrev pub legenda : Bool → Bool → List (Elemento Acao)
legenda is_pending is_api_online =
    (if is_pending
      then []
      else texto (if not is_api_online then codes "📡" else impressora)
        ∷ texto (
            codes (
              if not is_api_online
              then "Servidor Offline - Venda Suspensa"
              else "Confirmar Pagamento e Emitir Venda"))
        ∷ [])
    ++ texto (
        codes (
          if not is_api_online
          then "Conectividade interrompida: aguarde a reconexão para emitir a venda e atualizar o estoque."
          else "A confirmação deduz imediatamente os insumos do estoque no servidor."))
      ∷ []

-- The confirmation's button.
unfoldable pub botao_confirmar : Bool → Bool → CarrinhoState → Checkout → List (Elemento Acao)
unfolding is_valor_insuficiente
botao_confirmar is_pending is_api_online s c =
    botao
      (is_valor_insuficiente (obter_subtotal s) c
        || is_pending
        || (obter_total_itens s == 0)
        || not is_api_online)
      confirmar_venda
    ∷ legenda is_pending is_api_online

-- `CheckoutBottomSheet`: the backdrop, the head with its cross, the parts and the button.
unfoldable pub checkout_bottom_sheet : Bool → Bool → CarrinhoState → Checkout → List (Elemento Acao)
unfolding nomes_resumo resumo_comanda_box grade_formas_pagamento painel_do_checkout botao_confirmar
checkout_bottom_sheet is_pending is_api_online s c =
    (botao false fechar
      ∷ texto (codes "Fechar Comanda " ++ codes s.comanda_ativa)
      ∷ texto (codes "Mesa / Balcão")
      ∷ botao false fechar
      ∷ texto (codes "✕")
      ∷ [])
    ++ (resumo_comanda_box (obter_total_itens s) (obter_subtotal s) (nomes_resumo s.itens)
        ++ (grade_formas_pagamento
            ++ (painel_do_checkout (obter_subtotal s) c
                ++ botao_confirmar is_pending is_api_online s c)))
