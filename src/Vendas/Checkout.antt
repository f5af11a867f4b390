-- ===== src/Vendas/Checkout.antt =====
-- frontend/features/vendas/components/CheckoutBottomSheet.tsx: the sheet that takes the payment
-- of the cart. Its fields are the state of the form; what React derives from them is a function.
pub mod Troco
pub mod Vista
mod Tests
use gestao_restaurante.Base.{
  ℕ, ◌+◌, ◌-◌, Bool, true, false, ◌&&◌, ◌||◌, String, Option, none, some, List, [], ◌∷◌, ◌++◌, map,
  ltb, leb, ◌==◌, if◌then◌else◌, length, get_elem?,
}
use gestao_restaurante.Base.Number.{ℤ, pos, negsuc, unidade, ceil_to, to_fixed2}
use gestao_restaurante.Base.Text.{Texto, codes, replace_first}
use gestao_restaurante.Base.Decimal.{texto_fixed2, parse_float}
use gestao_restaurante.Vendas.{
  FormaPagamento, dinheiro, ItemComanda, ItemVendaRequestDto, RegistrarVendaRequestDto,
}
use gestao_restaurante.Vendas.Carrinho.{CarrinhoState, obter_total_itens, obter_subtotal}

pub record Pilula : Type 0 where
  pub id : String
  pub label : Texto
  pub valor : ℕ

pub record Checkout : Type 0 where
  pub forma_pagamento : FormaPagamento
  pub valor_recebido_input : Texto
  pub pilula_selecionada : String

abbrev pub inicial : Checkout
inicial = record { forma_pagamento = dinheiro; valor_recebido_input = []; pilula_selecionada = "" }

-- `formaPagamento === 'Dinheiro'`
abbrev pub is_dinheiro : FormaPagamento → Bool
is_dinheiro dinheiro = true
is_dinheiro _ = false

-- The next ten reais, or ten more where the subtotal is a multiple of ten.
abbrev pub valor1 : ℕ → ℕ
valor1 subtotal =
    let proxima_dezena = ceil_to 10000 subtotal in
    if proxima_dezena == subtotal then proxima_dezena + 10000 else proxima_dezena

-- The next fifty reais after one real more, or ten more than the first suggestion.
abbrev pub valor_final2 : ℕ → ℕ
valor_final2 subtotal =
    let valor2 = ceil_to 50000 (subtotal + unidade) in
    if leb valor2 (valor1 subtotal) then valor1 subtotal + 10000 else valor2

-- `v.toFixed(2).replace('.', ',')`
abbrev pub com_virgula : ℕ → Texto
com_virgula v = replace_first b'.' b',' (texto_fixed2 v)

abbrev pub pilula1 : ℕ → Pilula
pilula1 subtotal = record {
  id = "p1";
  label = codes "+ R$ " ++ com_virgula (valor1 subtotal);
  valor = valor1 subtotal;
}

abbrev pub pilula2 : ℕ → Pilula
pilula2 subtotal = record {
  id = "p2";
  label = codes "+ R$ " ++ com_virgula (valor_final2 subtotal);
  valor = valor_final2 subtotal;
}

abbrev pub pilula_exata : ℕ → Pilula
pilula_exata subtotal = record {
  id = "exato";
  label = codes "Valor Exato (R$ " ++ (com_virgula subtotal ++ codes ")");
  valor = subtotal;
}

pub pilulas_calculadas : ℕ → List Pilula
pilulas_calculadas subtotal =
    if leb subtotal 0 then [] else pilula1 subtotal ∷ pilula2 subtotal ∷ pilula_exata subtotal ∷ []

pub selecionar_pilula : Pilula → Checkout → Checkout
selecionar_pilula p c = record c {
  pilula_selecionada = p.id;
  valor_recebido_input = texto_fixed2 p.valor;
}

-- The effect that runs when the sheet opens or the subtotal changes.
pub ao_abrir : Bool → ℕ → Checkout → Checkout
unfolding pilulas_calculadas selecionar_pilula
ao_abrir visible subtotal c =
    if visible && ltb 0 subtotal && ltb 1 (length (pilulas_calculadas subtotal))
    then elim (get_elem? (pilulas_calculadas subtotal) 1) [
      | some p ↦ selecionar_pilula p c
      | none ↦ c
    ]
    else c

-- What the input reads as; a text that is no number counts as zero.
pub valor_recebido_numerico : Checkout → ℤ
valor_recebido_numerico c = elim (parse_float (replace_first b',' b'.' c.valor_recebido_input)) [
  | none ↦ pos 0
  | some v ↦ v
]

pub troco_de : ℤ → ℕ → ℕ
troco_de (pos r) subtotal = if ltb subtotal r then to_fixed2 (r - subtotal) else 0
troco_de (negsuc n) subtotal = 0

pub troco : ℕ → Checkout → ℕ
troco subtotal c =
    if is_dinheiro c.forma_pagamento then troco_de (valor_recebido_numerico c) subtotal else 0

abbrev pub menor_que : ℤ → ℕ → Bool
menor_que (pos r) subtotal = ltb r subtotal
menor_que (negsuc n) subtotal = true

unfoldable pub is_valor_insuficiente : ℕ → Checkout → Bool
is_valor_insuficiente subtotal c =
    is_dinheiro c.forma_pagamento && menor_que (valor_recebido_numerico c) subtotal

unfoldable pub pedido_de_item : ItemComanda → ItemVendaRequestDto
pedido_de_item i = record { produto_id = i.produto.id; quantidade = i.quantidade }

-- `handleConfirmar`: the sale that is sent, or none.
unfoldable pub confirmar : Bool → CarrinhoState → Checkout → Option RegistrarVendaRequestDto
confirmar is_pending s c =
    if obter_total_itens s == 0 || is_valor_insuficiente (obter_subtotal s) c || is_pending
    then none
    else some (record { forma_pagamento = c.forma_pagamento; itens = map pedido_de_item s.itens })
