-- ===== src/Shared/Formatters.antt =====
-- frontend/shared/utils/formatters.ts: quantities and money as pt-BR text. Numbers are in
-- thousandths and not negative; `none` is NaN. `toLocaleString('pt-BR')` groups the integer part by
-- thousands with points and writes a comma before the fraction.
pub mod Moeda
mod Tests
use gestao_restaurante.Base.{
  ℕ, zero, suc, ◌+◌, ◌*◌, ◌/◌, ◌%◌, Bool, true, false, ◌&&◌, ◌||◌, Option, none, some, List, [],
  ◌∷◌, ◌++◌, ◌==◌, map, filter, any, ltb, if◌then◌else◌,
}
use gestao_restaurante.Base.Text.{Texto, codes, trim, same, is_digit, to_lower_case}
use gestao_restaurante.Base.Decimal.{digitos, parse_int}

-- Three digits.
abbrev pub milhar : ℕ → Texto
milhar n = (b'0' + n / 100) ∷ (b'0' + n / 10 % 10) ∷ (b'0' + n % 10) ∷ []

-- The integer part, grouped. The fuel bounds the groups; one more than the number is enough.
unfoldable pub agrupar_fuel : ℕ → ℕ → Texto
agrupar_fuel zero n = []
agrupar_fuel (suc f) n = elim (ltb n 1000) [
  | true ↦ digitos n
  | false ↦ agrupar_fuel f (n / 1000) ++ b'.' ∷ milhar (n % 1000)
]

unfoldable pub agrupar : ℕ → Texto
unfolding agrupar_fuel
agrupar n = agrupar_fuel (suc n) n

-- `(centavos / 100).toLocaleString('pt-BR', …)` with two decimals.
unfoldable pub centavos_pt_br : ℕ → Texto
unfolding agrupar
centavos_pt_br c = agrupar (c / 100) ++ b',' ∷ (b'0' + c / 10 % 10) ∷ (b'0' + c % 10) ∷ []

-- At most three decimals, without the zeros at their end.
abbrev pub casas_pt_br : ℕ → Texto
casas_pt_br m =
    if m == 0
    then []
    else if m % 100 == 0
    then b',' ∷ (b'0' + m / 100) ∷ []
    else if m % 10 == 0
    then b',' ∷ (b'0' + m / 100) ∷ (b'0' + m / 10 % 10) ∷ []
    else b',' ∷ milhar m

-- `Number(valor.toFixed(3)).toLocaleString('pt-BR', …)` with none to three decimals.
unfoldable pub milesimos_pt_br : ℕ → Texto
unfolding agrupar
milesimos_pt_br v = agrupar (v / 1000) ++ casas_pt_br (v % 1000)

abbrev pub unidades_inteiras : List Texto
unidades_inteiras =
    codes "un"
    ∷ codes "unid"
    ∷ codes "unidade"
    ∷ codes "unidades"
    ∷ codes "pct"
    ∷ codes "cx"
    ∷ codes "caixa"
    ∷ codes "caixas"
    ∷ codes "lata"
    ∷ codes "latas"
    ∷ codes "garrafa"
    ∷ codes "garrafas"
    ∷ []

-- `(unidade || '').trim().toLowerCase()`
unfoldable pub unidade_normal : Texto → Texto
unfolding trim to_lower_case
unidade_normal unidade = to_lower_case (trim unidade)

-- `Math.round(valor)`
abbrev pub arredondar : ℕ → ℕ
arredondar v = (v + 500) / 1000

unfoldable pub formatar_quantidade : Option ℕ → Texto → Texto
unfolding trim unidade_normal milesimos_pt_br
formatar_quantidade none unidade = trim (b'0' ∷ 32 ∷ unidade)
formatar_quantidade (some valor) unidade =
    if any (same (unidade_normal unidade)) unidades_inteiras
    then digitos (arredondar valor) ++ 32 ∷ unidade
    else milesimos_pt_br valor ++ 32 ∷ unidade

-- The currency style puts a no-break space after the sign, and rounds to the nearest cent.
unfoldable pub formatar_moeda : Option ℕ → Texto
unfolding centavos_pt_br
formatar_moeda none = codes "R$ 0,00"
formatar_moeda (some valor) = b'R' ∷ b'$' ∷ 160 ∷ centavos_pt_br ((valor + 5) / 10)

-- `texto.replace(/\D/g, '')`
abbrev pub apenas_numeros : Texto → Texto
apenas_numeros = filter is_digit

-- `formatarMoedaInput` on the digits of its text.
unfoldable pub moeda_de_digitos : Texto → Texto
unfolding parse_int centavos_pt_br
moeda_de_digitos [] = []
moeda_de_digitos (d ∷ ds) = centavos_pt_br (parse_int (d ∷ ds))

unfoldable pub formatar_moeda_input : Texto → Texto
unfolding moeda_de_digitos
formatar_moeda_input texto = moeda_de_digitos (apenas_numeros texto)

-- `quantidade > 0 && quantidade < 1`
abbrev pub fracionada : ℕ → Bool
fracionada q = ltb 0 q && ltb q 1000

unfoldable pub formatar_porcao_gastronomica : Option ℕ → Texto → Texto
unfolding trim unidade_normal formatar_quantidade
formatar_porcao_gastronomica none unidade = trim (b'0' ∷ 32 ∷ unidade)
formatar_porcao_gastronomica (some q) unidade =
    let u = unidade_normal unidade in
    if (same u (codes "kg") || same u (codes "quilo")) && fracionada q
    then digitos q ++ codes " g"
    else if (same u (codes "l") || same u (codes "litro")) && fracionada q
    then digitos q ++ codes " ml"
    else formatar_quantidade (some q) unidade

pub record InsumoMensagem : Type 0 where
  pub nome_insumo : Texto
  pub quantidade : Option ℕ
  pub unidade_medida : Option Texto

pub record MensagemOrdemCompraInput : Type 0 where
  pub protocolo : Texto
  pub fornecedor : Option Texto
  pub insumos : List InsumoMensagem
  pub valor_total : Option ℕ

-- `t || padrao`: an absent or empty text is replaced.
unfoldable pub ou_padrao : Option Texto → Texto → Texto
ou_padrao none padrao = padrao
ou_padrao (some []) padrao = padrao
ou_padrao (some (c ∷ t)) padrao = c ∷ t

-- `linhas.join('\n')`
unfoldable pub juntar_linhas : List Texto → Texto
juntar_linhas [] = []
juntar_linhas (t ∷ []) = t
juntar_linhas (t ∷ u ∷ ts) = t ++ 10 ∷ juntar_linhas (u ∷ ts)

unfoldable pub linha_insumo : InsumoMensagem → Texto
unfolding formatar_quantidade ou_padrao
linha_insumo item =
    codes "• *"
    ++ item.nome_insumo
    ++ codes "*: "
    ++ formatar_quantidade item.quantidade (ou_padrao item.unidade_medida (codes "un"))

unfoldable pub gerar_mensagem_ordem_compra_whats_app : MensagemOrdemCompraInput → Texto
unfolding linha_insumo juntar_linhas ou_padrao formatar_moeda
gerar_mensagem_ordem_compra_whats_app input =
    codes "📦 *PEDIDO DE COMPRA - "
    ++ input.protocolo
    ++ codes "*\n\nOlá, *"
    ++ ou_padrao input.fornecedor (codes "Distribuidora Prime Carnes & Panificação")
    ++ codes "*!\nFavor confirmar o fornecimento dos seguintes insumos:\n\n"
    ++ juntar_linhas (map linha_insumo input.insumos)
    ++ codes "\n\n💰 *Total Estimado*: "
    ++ formatar_moeda input.valor_total
    ++ codes "\n⏰ *Prazo Desejado*: D+0 até às 18:00\n\n_Pedido gerado via Gestão Inteligente._"
