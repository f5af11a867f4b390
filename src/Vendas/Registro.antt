-- ===== src/Vendas/Registro.antt =====
-- frontend/features/vendas/hooks/useRegistrarVenda.ts: the sale from the button of the payment sheet
-- to the answer of the server. The answer is an argument.
pub mod Vender
mod Tests
use gestao_restaurante.Base.{
  ℕ, zero, suc, ◌+◌, Bool, true, false, not, ◌&&◌, ◌||◌, String, Option, none, some, List, [], ◌∷◌,
  ◌++◌, ltb, ◌==◌, if◌then◌else◌,
}
use gestao_restaurante.Base.Text.{Texto, codes, includes, to_lower_case}
use gestao_restaurante.Vendas.{RegistrarVendaRequestDto}
use gestao_restaurante.Vendas.Carrinho.{CarrinhoState, limpar_carrinho, obter_subtotal}
use gestao_restaurante.Vendas.Checkout.{Checkout, confirmar, troco}

pub record ItemVendaResponseDto : Type 0 where
  pub id : String
  pub produto_id : String
  pub quantidade : ℕ
  pub preco_unitario : ℕ
  pub subtotal : ℕ

pub record VendaResponseDto : Type 0 where
  pub venda_id : String
  pub restaurante_id : String
  pub fechamento_caixa_id : String
  pub data_hora : String
  pub status : String
  pub forma_pagamento : String
  pub valor_total : ℕ
  pub itens : List ItemVendaResponseDto

-- An error: the status and the `error` field of a response, and the message.
pub record Falha : Type 0 where
  pub response_status : Option ℕ
  pub data_error : Option Texto
  pub message : Option Texto

pub data Resposta : Type 0 where
  emitida : VendaResponseDto → Resposta
  recusada : Falha → Resposta

-- The dialogs; a receipt tells the change, if there is any.
pub data Dialogo : Type 0 where
  venda_emitida : VendaResponseDto → Option ℕ → Dialogo
  servidor_offline : Dialogo
  caixa_fechado : Dialogo
  erro_ao_registrar : Texto → Dialogo

-- The stores that a sale touches: the cart, the online flag, the requests sent, the dialogs shown
-- (newest first), how often the caches were invalidated, and how often the sheet was closed.
pub record Loja : Type 0 where
  pub carrinho : CarrinhoState
  pub is_api_online : Bool
  pub pedidos : List RegistrarVendaRequestDto
  pub dialogos : List Dialogo
  pub invalidacoes : ℕ
  pub fechamentos : ℕ

-- `a || b` for a text that may be missing.
abbrev pub ou : Option Texto → Texto → Texto
ou none d = d
ou (some []) d = d
ou (some (c ∷ t)) d = c ∷ t

abbrev pub server_message : Falha → Texto
server_message f =
    ou f.data_error (
      ou f.message
        (codes "Não foi possível registrar a venda. Verifique a conexão com o servidor."))

abbrev pub is_offline : Texto → Bool
is_offline m =
    includes (to_lower_case m) (codes "offline")
    || includes (to_lower_case m) (codes "network error")
    || includes (to_lower_case m) (codes "rede")

abbrev pub is_status : ℕ → Option ℕ → Bool
is_status n none = false
is_status n (some m) = m == n

abbrev pub is_caixa_fechado : Falha → Bool
is_caixa_fechado f =
    is_status 422 f.response_status
    || includes (to_lower_case (server_message f)) (codes "caixa aberta")
    || includes (to_lower_case (server_message f)) (codes "sessão de caixa")

-- `onError`
unfoldable pub dialogo_de_erro : Falha → Dialogo
dialogo_de_erro f =
    if is_offline (server_message f)
    then servidor_offline
    else if is_caixa_fechado f
    then caixa_fechado
    else erro_ao_registrar (server_message f)

unfoldable pub on_error : Falha → Loja → Loja
unfolding dialogo_de_erro
on_error f l = record l { dialogos = dialogo_de_erro f ∷ l.dialogos }

abbrev pub troco_texto : ℕ → Option ℕ
troco_texto t = if ltb 0 t then some t else none

-- `onSuccess`, where the caller's callback closes the sheet.
unfoldable pub on_success : ℕ → VendaResponseDto → Loja → Loja
on_success t v l = record l {
  carrinho = limpar_carrinho l.carrinho;
  invalidacoes = l.invalidacoes + 2;
  fechamentos = l.fechamentos + 1;
  dialogos = venda_emitida v (troco_texto t) ∷ l.dialogos;
}

abbrev pub falha_offline : Falha
falha_offline = record {
  response_status = none;
  data_error = none;
  message =
      some (codes "Servidor offline. Não é possível emitir vendas sem comunicação com o servidor.");
}

unfoldable pub ao_responder : ℕ → Resposta → Loja → Loja
unfolding on_success on_error
ao_responder t (emitida v) l = on_success t v l
ao_responder t (recusada f) l = on_error f l

-- `mutate(dto)`, with the answer that the request would get.
unfoldable pub registrar_venda : ℕ → RegistrarVendaRequestDto → Resposta → Loja → Loja
unfolding ao_responder on_error
registrar_venda t dto r l =
    if not l.is_api_online
    then on_error falha_offline l
    else ao_responder t r (record l { pedidos = l.pedidos ++ dto ∷ [] })

abbrev pub enviar : ℕ → Resposta → Loja → Option RegistrarVendaRequestDto → Loja
enviar t r l none = l
enviar t r l (some dto) = registrar_venda t dto r l

-- The button of the sheet.
unfoldable pub vender : Bool → Checkout → Resposta → Loja → Loja
unfolding registrar_venda
vender is_pending c r l =
    enviar (troco (obter_subtotal l.carrinho) c) r l (confirmar is_pending l.carrinho c)
