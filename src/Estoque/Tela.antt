-- ===== src/Estoque/Tela.antt =====
-- screens/EstoqueScreen.tsx: the stock screen with its three forms, as a state machine. What the
-- server answers is an argument of the actions that send; a form does not change while it sends.
pub mod Envios
pub mod Recarga
use gestao_restaurante.Base.{
  ℕ, Bool, true, false, ◌&&◌, String, Option, none, some, List, [], ◌∷◌, ◌++◌, if◌then◌else◌,
}
use gestao_restaurante.Base.Text.{Texto, codes}
use gestao_restaurante.Shared.Formatters.{ou_padrao, formatar_moeda_input}
use gestao_restaurante.Estoque.{
  AbaEstoqueAtiva, InsumoEstoque, EntradaEstoqueInput, EntradaEstoqueResponse, CadastrarInsumoInput,
  MotivoBaixaEstoque, BaixaEstoqueInput, PedidoBaixa, registrar_baixa_estoque, InsumosEstoque,
  abrir_modal_entrada, fechar_modal_entrada,
}
use gestao_restaurante.Estoque.Movimentos.{
  Aviso, FormularioBaixa, baixa_limpa, VerdictoBaixa, confirmar_baixa, FormularioEntrada,
  entrada_limpa, preparar_entrada, handle_insumo_change, VerdictoEntrada, confirmar_entrada,
}
use gestao_restaurante.Estoque.Novo.{
  AvisoNovo, FormularioNovo, novo_limpo, VerdictoNovo, handle_salvar,
}
use gestao_restaurante.Estoque
use gestao_restaurante.Estoque.Movimentos
use gestao_restaurante.Estoque.Novo

-- The requests that the screen sends.
pub data Pedido : Type 0 where
  entrada : EntradaEstoqueInput → Pedido
  baixa : PedidoBaixa → Pedido
  cadastro : CadastrarInsumoInput → Pedido

-- The dialogs, with the values that they show.
pub data Dialogo : Type 0 where
  aviso : Aviso → Dialogo
  aviso_novo : AvisoNovo → Dialogo
  entrada_registrada : ℕ → ℕ → Texto → Dialogo
  erro_entrada : Dialogo
  baixa_registrada : ℕ → Dialogo
  erro_baixa : Dialogo
  insumo_cadastrado : Texto → Dialogo
  erro_cadastro : Texto → Dialogo

pub record Tela : Type 0 where
  pub hook : InsumosEstoque
  pub todos_insumos : List InsumoEstoque
  pub is_modal_novo_insumo_open : Bool
  pub insumo_baixa_selecionado : Option InsumoEstoque
  pub is_modal_baixa_open : Bool
  pub form_entrada : FormularioEntrada
  pub form_baixa : FormularioBaixa
  pub form_novo : FormularioNovo
  pub pedidos : List Pedido
  pub invalidadas : List String
  pub dialogos : List Dialogo

abbrev pub inicial : Tela
inicial = record {
  hook = Estoque.inicial;
  todos_insumos = [];
  is_modal_novo_insumo_open = false;
  insumo_baixa_selecionado = none;
  is_modal_baixa_open = false;
  form_entrada = entrada_limpa;
  form_baixa = baixa_limpa;
  form_novo = novo_limpo;
  pedidos = [];
  invalidadas = [];
  dialogos = [];
}

abbrev pub mostrar : Dialogo → Tela → Tela
mostrar d t = record t { dialogos = d ∷ t.dialogos }

-- `onSuccess` of the three mutations.
abbrev pub invalidar : Tela → Tela
invalidar t = record t {
  invalidadas =
      t.invalidadas ++ ("insumos-estoque" ∷ "fichas-tecnicas" ∷ "capacidade-producao" ∷ []);
}

-- The effect of the entry form: it runs when the form opens or closes, when the ingredient changes,
-- and when the list does.
abbrev pub efeito_entrada : Tela → Tela
efeito_entrada t = record t {
  form_entrada =
      if t.hook.is_modal_entrada_open
      then preparar_entrada t.hook.insumo_selecionado t.todos_insumos t.form_entrada
      else t.form_entrada;
}

-- `handleConfirmarEntrada`, for the answer; `none` is a failure.
unfoldable pub handle_confirmar_entrada :
    Option EntradaEstoqueResponse → EntradaEstoqueInput → Tela → Tela
handle_confirmar_entrada none dados t =
    mostrar erro_entrada (record t { pedidos = entrada dados ∷ t.pedidos })
handle_confirmar_entrada (some res) dados t =
    let sent = invalidar (record t { pedidos = entrada dados ∷ t.pedidos }) in
    mostrar (entrada_registrada dados.quantidade res.novo_saldo res.protocolo_ledger)
      (record sent { hook = fechar_modal_entrada sent.hook })

unfoldable pub concluir_entrada : Option EntradaEstoqueResponse → VerdictoEntrada → Tela → Tela
unfolding handle_confirmar_entrada
concluir_entrada res (VerdictoEntrada.recusada a) t = mostrar (aviso a) t
concluir_entrada res (VerdictoEntrada.enviada dados) t = handle_confirmar_entrada res dados t

-- `handleConfirmarBaixa`, for whether the server accepts.
unfoldable pub handle_confirmar_baixa : Bool → BaixaEstoqueInput → Tela → Tela
unfolding registrar_baixa_estoque
handle_confirmar_baixa false dados t =
    mostrar erro_baixa (record t { pedidos = baixa (registrar_baixa_estoque dados) ∷ t.pedidos })
handle_confirmar_baixa true dados t =
    let sent =
      invalidar (record t { pedidos = baixa (registrar_baixa_estoque dados) ∷ t.pedidos }) in
    mostrar (baixa_registrada dados.quantidade)
      (record sent { is_modal_baixa_open = false; insumo_baixa_selecionado = none })

unfoldable pub concluir_baixa : Bool → VerdictoBaixa → Tela → Tela
unfolding handle_confirmar_baixa
concluir_baixa ok (VerdictoBaixa.recusada a) t = mostrar (aviso a) t
concluir_baixa ok (VerdictoBaixa.enviada dados) t = handle_confirmar_baixa ok dados t

-- What the server answers to a new ingredient: it takes it, or the texts of the error, from its
-- body and from the request.
pub data RespostaNovo : Type 0 where
  cadastrado : RespostaNovo
  rejeitado : Option Texto → Option Texto → RespostaNovo

-- `handleConfirmarNovoInsumo` with the rest of the form's `handleSalvar`.
unfoldable pub handle_confirmar_novo_insumo : RespostaNovo → CadastrarInsumoInput → Tela → Tela
unfolding ou_padrao
handle_confirmar_novo_insumo cadastrado dados t =
    let sent = invalidar (record t { pedidos = cadastro dados ∷ t.pedidos }) in
    mostrar (insumo_cadastrado dados.nome)
      (record sent { is_modal_novo_insumo_open = false; form_novo = novo_limpo })
handle_confirmar_novo_insumo (rejeitado corpo mensagem) dados t =
    mostrar
      (erro_cadastro (ou_padrao corpo (ou_padrao mensagem (codes "Erro ao cadastrar insumo."))))
      (record t { pedidos = cadastro dados ∷ t.pedidos })

unfoldable pub concluir_novo : RespostaNovo → VerdictoNovo → Tela → Tela
unfolding handle_confirmar_novo_insumo
concluir_novo res (VerdictoNovo.recusado a) t = mostrar (aviso_novo a) t
concluir_novo res (VerdictoNovo.enviado dados) t = handle_confirmar_novo_insumo res dados t

-- What happens to the screen. `recarregar` is a query that gives another list.
pub data Acao : Type 0 where
  recarregar : List InsumoEstoque → Acao
  escolher_aba : AbaEstoqueAtiva → Acao
  buscar : Texto → Acao
  abrir_entrada : Option InsumoEstoque → Acao
  fechar_entrada : Acao
  escolher_insumo : String → Acao
  digitar_entrada : Texto → Acao
  digitar_custo : Texto → Acao
  anotar_entrada : Texto → Acao
  enviar_entrada : Bool → Option EntradaEstoqueResponse → Acao
  abrir_baixa : InsumoEstoque → Acao
  fechar_baixa : Acao
  escolher_motivo : MotivoBaixaEstoque → Acao
  digitar_baixa : Texto → Acao
  anotar_baixa : Texto → Acao
  enviar_baixa : Bool → Acao
  abrir_novo : Acao
  fechar_novo : Acao
  editar_novo : FormularioNovo → Acao
  enviar_novo : RespostaNovo → Acao

-- The button of the entry form, which is disabled offline.
unfoldable pub enviar_entrada_de : Bool → Option EntradaEstoqueResponse → Tela → Tela
unfolding confirmar_entrada concluir_entrada
enviar_entrada_de online res t =
    if t.hook.is_modal_entrada_open && online
    then concluir_entrada res (confirmar_entrada t.form_entrada) t
    else t

-- The button of the write-off form, which is shown for an ingredient.
unfoldable pub enviar_baixa_de : Bool → Option InsumoEstoque → Tela → Tela
unfolding confirmar_baixa concluir_baixa
enviar_baixa_de ok none t = t
enviar_baixa_de ok (some i) t =
    if t.is_modal_baixa_open then concluir_baixa ok (confirmar_baixa i t.form_baixa) t else t

-- Without an ingredient given, the entry form lets the user choose one.
abbrev escolher : String → Option InsumoEstoque → Tela → Tela
escolher id (some i) t = t
escolher id none t = record t {
  form_entrada = handle_insumo_change t.todos_insumos id t.form_entrada;
}

abbrev com_entrada : FormularioEntrada → Tela → Tela
com_entrada f t = record t { form_entrada = f }

abbrev com_baixa : FormularioBaixa → Tela → Tela
com_baixa f t = record t { form_baixa = f }

unfoldable pub passo : Acao → Tela → Tela
unfolding enviar_entrada_de enviar_baixa_de handle_salvar concluir_novo formatar_moeda_input
    preparar_entrada handle_insumo_change
passo (recarregar xs) t = efeito_entrada (record t { todos_insumos = xs })
passo (escolher_aba aba) t = record t { hook = record t.hook { aba_ativa = aba } }
passo (buscar b) t = record t { hook = record t.hook { busca = b } }
passo (abrir_entrada i) t = efeito_entrada (record t { hook = abrir_modal_entrada i t.hook })
passo fechar_entrada t = record t { hook = fechar_modal_entrada t.hook }
passo (escolher_insumo id) t = escolher id t.hook.insumo_selecionado t
passo (digitar_entrada s) t = com_entrada (record t.form_entrada { quantidade_texto = s }) t
passo (digitar_custo s) t =
    com_entrada (record t.form_entrada { custo_texto = formatar_moeda_input s }) t
passo (anotar_entrada s) t = com_entrada (record t.form_entrada { observacao = s }) t
passo (enviar_entrada online res) t = enviar_entrada_de online res t
passo (abrir_baixa i) t = record t {
  insumo_baixa_selecionado = some i;
  is_modal_baixa_open = true;
  form_baixa = if t.is_modal_baixa_open then t.form_baixa else baixa_limpa;
}
passo fechar_baixa t = record t { is_modal_baixa_open = false; insumo_baixa_selecionado = none }
passo (escolher_motivo m) t = com_baixa (record t.form_baixa { motivo_selecionado = m }) t
passo (digitar_baixa s) t = com_baixa (record t.form_baixa { quantidade_texto = s }) t
passo (anotar_baixa s) t = com_baixa (record t.form_baixa { observacao = s }) t
passo (enviar_baixa ok) t = enviar_baixa_de ok t.insumo_baixa_selecionado t
passo abrir_novo t = record t { is_modal_novo_insumo_open = true }
passo fechar_novo t = record t { is_modal_novo_insumo_open = false; form_novo = novo_limpo }
passo (editar_novo f) t = record t { form_novo = f }
passo (enviar_novo res) t =
    if t.is_modal_novo_insumo_open then concluir_novo res (handle_salvar t.form_novo) t else t

unfoldable pub executar : List Acao → Tela → Tela
unfolding passo
executar [] t = t
executar (a ∷ acoes) t = executar acoes (passo a t)
