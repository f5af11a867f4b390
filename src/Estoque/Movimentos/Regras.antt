-- ===== src/Estoque/Movimentos/Regras.antt =====
-- What the two forms let through.
use gestao_restaurante.Base.{
  ℕ, zero, suc, ◌*◌, ◌%◌, ◌≤◌, ◌<◌, ◌≡◌, ◌↔◌, refl, Bool, true, false, Option, none, some, [], ◌∷◌,
  str_eq, if◌then◌else◌, arith,
}
use gestao_restaurante.Base.Number.{ℤ, pos, negsuc}
use gestao_restaurante.Base.Text.{Texto, vazio}
use gestao_restaurante.Base.Decimal.{parse_int}
use gestao_restaurante.Shared.Formatters.{apenas_numeros, formatar_moeda_input, moeda_de_digitos}
use gestao_restaurante.Shared.Formatters.Moeda.{ler_moeda-formatar_moeda_input}
use gestao_restaurante.Estoque.{InsumoEstoque}
use gestao_restaurante.Estoque.Movimentos.{
  ler_numero, anotacao, FormularioBaixa, VerdictoBaixa, baixar_lido, confirmar_baixa,
  FormularioEntrada, custo_valido, custo_lido, VerdictoEntrada, entrar_lido, confirmar_entrada,
}

-- The write-off form sends exactly the quantities that are positive and within the balance it
-- shows: then it sends that quantity of that ingredient, with the chosen reason.
pub confirmar_baixa_iff :
    (insumo : InsumoEstoque) (f : FormularioBaixa) (q : ℕ)
    → ler_numero f.quantidade_texto ≡ some (pos q)
    → (confirmar_baixa insumo f
        ≡ VerdictoBaixa.enviada (record {
          insumo_id = insumo.id;
          quantidade = q;
          motivo = f.motivo_selecionado;
          observacao = anotacao f.observacao;
        }))
      ↔ ((0 < q) × (q ≤ insumo.saldo_atual))
unfolding confirmar_baixa baixar_lido
confirmar_baixa_iff insumo f zero e = rw e (ground arith)
confirmar_baixa_iff insumo f (suc n) e = rw e (ground arith)

-- The entry form sends exactly the quantities that are positive, for a chosen ingredient.
pub confirmar_entrada_iff :
    (f : FormularioEntrada) (q : ℕ)
    → ler_numero f.quantidade_texto ≡ some (pos q)
    → (confirmar_entrada f
        ≡ VerdictoEntrada.enviada (record {
          insumo_id = f.insumo_selecionado_id;
          quantidade = q;
          custo_unitario = custo_lido f.custo_texto;
          observacao = anotacao f.observacao;
        }))
      ↔ ((0 < q) × (str_eq f.insumo_selecionado_id "" ≡ false))
unfolding confirmar_entrada entrar_lido
confirmar_entrada_iff f zero e = rw e (ground arith)
confirmar_entrada_iff f (suc n) e = rw e (ground arith)

-- A cost that is absent, or a positive whole number of cents.
abbrev pub InCents : Option ℤ → Type 0
InCents none = Unit {0}
InCents (some (pos n)) = (0 < n) × (n % 10 ≡ 0)
InCents (some (negsuc n)) = ⊥

custo_valido-InCents : (n : ℕ) → n % 10 ≡ 0 → InCents (custo_valido (some (pos n)))
unfolding custo_valido
custo_valido-InCents zero h = tt
custo_valido-InCents (suc n) h = (omega arith, h)

ou_nada :
    (b : Bool) (c : Option ℤ)
    → InCents (custo_valido c)
    → InCents (custo_valido (if b then none else c))
unfolding custo_valido
ou_nada true c h = tt
ou_nada false c h = h

lido : (t ds : Texto) → apenas_numeros t ≡ ds → InCents (custo_lido (formatar_moeda_input t))
unfolding custo_lido custo_valido formatar_moeda_input moeda_de_digitos
lido t [] e = rw e tt
lido t (d ∷ ds) e = ou_nada (vazio (formatar_moeda_input t)) _ (
    rw (ler_moeda-formatar_moeda_input t d ds e)
      (custo_valido-InCents (parse_int (d ∷ ds) * 10) (omega arith)))

-- The cost field holds what the money mask prints.
abbrev pub IsMasked : FormularioEntrada → Type 0
IsMasked f = (t : Texto) × (f.custo_texto ≡ formatar_moeda_input t)

pub custo_lido-InCents : (f : FormularioEntrada) → IsMasked f → InCents (custo_lido f.custo_texto)
custo_lido-InCents f (t, e) = rw e (lido t (apenas_numeros t) refl)
