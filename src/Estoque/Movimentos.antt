-- ===== src/Estoque/Movimentos.antt =====
-- components/ModalBaixaEstoque.tsx and components/ModalEntradaEstoque.tsx: the two forms that move
-- stock, with what they decide for the numbers read from their texts.
pub mod Regras
use gestao_restaurante.Base.{
  ℕ, zero, suc, ◌+◌, ◌/◌, Bool, true, false, not, String, Option, none, some, List, [], ◌∷◌, ltb,
  str_eq, find, if◌then◌else◌,
}
use gestao_restaurante.Base.Number.{ℤ, pos, negsuc}
use gestao_restaurante.Base.Text.{Texto, vazio, trim, replace_first}
use gestao_restaurante.Base.Decimal.{digitos, parse_float}
use gestao_restaurante.Shared.Formatters.{formatar_quantidade, formatar_moeda_input}
use gestao_restaurante.Shared.Formatters.Moeda.{ler_moeda}
use gestao_restaurante.Estoque.{
  InsumoEstoque, EntradaEstoqueInput, MotivoBaixaEstoque, avaria, BaixaEstoqueInput,
}

-- `parseFloat(t.replace(',', '.'))`
unfoldable pub ler_numero : Texto → Option ℤ
unfolding replace_first parse_float
ler_numero t = parse_float (replace_first b',' b'.' t)

-- `observacao.trim() || undefined`
unfoldable pub anotacao : Texto → Option Texto
unfolding trim
anotacao t = if vazio (trim t) then none else some (trim t)

-- The warnings; the one on the balance prints the quantity and the balance.
pub data Aviso : Type 0 where
  quantidade_invalida selecao_obrigatoria : Aviso
  saldo_insuficiente : Texto → Texto → Aviso

-- The state of ModalBaixaEstoque.
pub record FormularioBaixa : Type 0 where
  pub motivo_selecionado : MotivoBaixaEstoque
  pub quantidade_texto : Texto
  pub observacao : Texto

-- The initial state, and what the effect sets when the form opens.
abbrev pub baixa_limpa : FormularioBaixa
baixa_limpa = record { motivo_selecionado = avaria; quantidade_texto = []; observacao = [] }

pub data VerdictoBaixa : Type 0 where
  recusada : Aviso → VerdictoBaixa
  enviada : BaixaEstoqueInput → VerdictoBaixa

abbrev pub aviso_de_saldo : InsumoEstoque → ℕ → Aviso
aviso_de_saldo insumo qtd =
    saldo_insuficiente (formatar_quantidade (some qtd) insumo.unidade_medida)
      (formatar_quantidade (some insumo.saldo_atual) insumo.unidade_medida)

-- `handleConfirmar` of the form, for the number that was read.
unfoldable pub baixar_lido : InsumoEstoque → FormularioBaixa → Option ℤ → VerdictoBaixa
unfolding formatar_quantidade anotacao
baixar_lido insumo f none = recusada quantidade_invalida
baixar_lido insumo f (some (negsuc n)) = recusada quantidade_invalida
baixar_lido insumo f (some (pos zero)) = recusada quantidade_invalida
baixar_lido insumo f (some (pos (suc n))) =
    if ltb insumo.saldo_atual (suc n)
    then recusada (aviso_de_saldo insumo (suc n))
    else enviada (record {
      insumo_id = insumo.id;
      quantidade = suc n;
      motivo = f.motivo_selecionado;
      observacao = anotacao f.observacao;
    })

unfoldable pub confirmar_baixa : InsumoEstoque → FormularioBaixa → VerdictoBaixa
unfolding ler_numero baixar_lido
confirmar_baixa insumo f = baixar_lido insumo f (ler_numero f.quantidade_texto)

-- The state of ModalEntradaEstoque.
pub record FormularioEntrada : Type 0 where
  pub insumo_selecionado_id : String
  pub quantidade_texto : Texto
  pub custo_texto : Texto
  pub observacao : Texto

abbrev pub entrada_limpa : FormularioEntrada
entrada_limpa = record {
  insumo_selecionado_id = "";
  quantidade_texto = [];
  custo_texto = [];
  observacao = [];
}

-- `custo ? formatarMoedaInput(String(Math.round(custo * 100))) : ''`
unfoldable pub texto_do_custo : Option ℕ → Texto
unfolding formatar_moeda_input digitos
texto_do_custo none = []
texto_do_custo (some zero) = []
texto_do_custo (some (suc c)) = formatar_moeda_input (digitos ((suc c + 5) / 10))

abbrev com_insumo : InsumoEstoque → FormularioEntrada → FormularioEntrada
com_insumo i f = record f {
  insumo_selecionado_id = i.id;
  custo_texto = texto_do_custo i.custo_unitario_medio;
}

abbrev primeiro : Option InsumoEstoque → List InsumoEstoque → FormularioEntrada → FormularioEntrada
primeiro (some i) todos f = com_insumo i f
primeiro none [] f = f
primeiro none (i ∷ todos) f = com_insumo i f

-- The effect of the form, where it is visible.
unfoldable pub preparar_entrada :
    Option InsumoEstoque → List InsumoEstoque → FormularioEntrada → FormularioEntrada
unfolding texto_do_custo
preparar_entrada inicial todos f = record (primeiro inicial todos f) {
  quantidade_texto = [];
  observacao = [];
}

abbrev pub trocar_custo : Option ℕ → FormularioEntrada → FormularioEntrada
trocar_custo none f = f
trocar_custo (some zero) f = f
trocar_custo (some (suc c)) f = record f { custo_texto = texto_do_custo (some (suc c)) }

abbrev pub com_custo : Option InsumoEstoque → FormularioEntrada → FormularioEntrada
com_custo none f = f
com_custo (some i) f = trocar_custo i.custo_unitario_medio f

-- `handleInsumoChange`
unfoldable pub handle_insumo_change :
    List InsumoEstoque → String → FormularioEntrada → FormularioEntrada
unfolding texto_do_custo
handle_insumo_change todos id f =
    com_custo (find (λ i. str_eq i.id id) todos) (record f { insumo_selecionado_id = id })

-- `!isNaN(custo || NaN) ? custo : undefined`
unfoldable pub custo_valido : Option ℤ → Option ℤ
custo_valido none = none
custo_valido (some (pos zero)) = none
custo_valido (some (pos (suc n))) = some (pos (suc n))
custo_valido (some (negsuc n)) = some (negsuc n)

unfoldable pub custo_lido : Texto → Option ℤ
unfolding custo_valido ler_moeda
custo_lido t = custo_valido (if vazio t then none else ler_moeda t)

pub data VerdictoEntrada : Type 0 where
  recusada : Aviso → VerdictoEntrada
  enviada : EntradaEstoqueInput → VerdictoEntrada

-- `handleConfirmar` of the form, for the number that was read.
unfoldable pub entrar_lido : FormularioEntrada → Option ℤ → VerdictoEntrada
unfolding custo_lido anotacao
entrar_lido f none = recusada quantidade_invalida
entrar_lido f (some (negsuc n)) = recusada quantidade_invalida
entrar_lido f (some (pos zero)) = recusada quantidade_invalida
entrar_lido f (some (pos (suc n))) =
    if str_eq f.insumo_selecionado_id ""
    then recusada selecao_obrigatoria
    else enviada (record {
      insumo_id = f.insumo_selecionado_id;
      quantidade = suc n;
      custo_unitario = custo_lido f.custo_texto;
      observacao = anotacao f.observacao;
    })

unfoldable pub confirmar_entrada : FormularioEntrada → VerdictoEntrada
unfolding ler_numero entrar_lido
confirmar_entrada f = entrar_lido f (ler_numero f.quantidade_texto)
