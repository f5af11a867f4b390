-- ===== src/Caixa.antt =====
-- frontend/features/caixa: the session of the cash register and its closing. services/caixaService.ts,
-- hooks/useFecharCaixa.ts and the drawer's value of components/ModalConfirmarFechamento.tsx.
pub mod Fechamento
pub mod Vista
mod Tests
use gestao_restaurante.Base.{
  ℕ, Bool, true, false, String, Option, none, some, List, [], ◌∷◌, ◌++◌, find, if◌then◌else◌,
}
use gestao_restaurante.Base.Text.{Texto, codes, replace_first}
use gestao_restaurante.Base.Decimal.{texto_fixed2}

pub data TipoPagamento : Type 0 where
  pix credito debito dinheiro : TipoPagamento

pub data StatusSessaoCaixa : Type 0 where
  aberta fechada : StatusSessaoCaixa

pub record MetodoPagamentoResumo : Type 0 where
  pub id : String
  pub nome : String
  pub tipo : TipoPagamento
  pub valor : ℕ
  pub percentual : ℕ
  pub transacoes_texto : String
  pub badge : Option String
  pub cor_barra : String
  pub icone : Texto

pub record DadosClimaticos : Type 0 where
  pub temperatura : ℕ
  pub condicao : String
  pub umidade : ℕ
  pub status_umidade : String
  pub chuva_mm : ℕ
  pub status_chuva : String

pub record SessaoCaixaResumo : Type 0 where
  pub id : String
  pub status : StatusSessaoCaixa
  pub terminal : String
  pub data_hora_formatada : Texto
  pub turno : Texto
  pub operador : Texto
  pub total_apurado : ℕ
  pub percentual_meta : ℕ
  pub total_vendas : ℕ
  pub ticket_medio : ℕ
  pub pagamentos : List MetodoPagamentoResumo
  pub clima : DadosClimaticos

-- `DADOS_SESSAO_PADRAO`
abbrev pub dados_sessao_padrao : SessaoCaixaResumo
dados_sessao_padrao = record {
  id = "sessao-caixa-01";
  status = aberta;
  terminal = "Terminal 01";
  data_hora_formatada = codes "11:38 - 27/09";
  turno = codes "Turno Almoço";
  operador = codes "Lucas Vicente";
  total_apurado = 2480500;
  percentual_meta = 18400;
  total_vendas = 38;
  ticket_medio = 65270;
  pagamentos =
      record {
        id = "metodo-pix";
        nome = "PIX";
        tipo = pix;
        valor = 1120000;
        percentual = 45;
        transacoes_texto = "Taxa líquida 0%";
        badge = some "Instantâneo";
        cor_barra = "#B3261E";
        icone = codes "⚡";
      }
      ∷ record {
        id = "metodo-credito";
        nome = "Cartão Crédito";
        tipo = credito;
        valor = 740500;
        percentual = 30;
        transacoes_texto = "14 transações";
        badge = none;
        cor_barra = "#D9381E";
        icone = codes "💳";
      }
      ∷ record {
        id = "metodo-debito";
        nome = "Cartão Débito";
        tipo = debito;
        valor = 420000;
        percentual = 17;
        transacoes_texto = "9 transações";
        badge = none;
        cor_barra = "#F28B82";
        icone = codes "📟";
      }
      ∷ record {
        id = "metodo-dinheiro";
        nome = "Dinheiro";
        tipo = dinheiro;
        valor = 200000;
        percentual = 8;
        transacoes_texto = "5 transações físicas";
        badge = some "Gaveta OK";
        cor_barra = "#FCE8E6";
        icone = codes "💵";
      }
      ∷ [];
  clima = record {
    temperatura = 26000;
    condicao = "Parc. Nublado";
    umidade = 68;
    status_umidade = "Ideal Cozinha";
    chuva_mm = 0;
    status_chuva = "Sem Impacto";
  };
}

-- `obterSessaoAtiva()`
abbrev pub obter_sessao_ativa : SessaoCaixaResumo
obter_sessao_ativa = dados_sessao_padrao

pub record FecharCaixaResponseDto : Type 0 where
  pub fechamento_caixa_id : Texto
  pub restaurante_id : Texto
  pub data_abertura : Texto
  pub data_fechamento : Texto
  pub valor_total_vendas : ℕ
  pub quantidade_vendas : ℕ
  pub status : Texto
  pub correlation_id : Texto

-- What chance and the clock give: seven random characters, the dates and the milliseconds.
pub record Sorteio : Type 0 where
  pub sufixo : Texto
  pub seis_horas_atras : Texto
  pub agora : Texto
  pub milissegundos : Texto

-- `fecharCaixa()`; `none` is a failure of the request.
unfoldable pub fechar_caixa : Sorteio → Option FecharCaixaResponseDto → FecharCaixaResponseDto
fechar_caixa s (some r) = r
fechar_caixa s none = record {
  fechamento_caixa_id = codes "fc-" ++ s.sufixo;
  restaurante_id = codes "restaurante-demo-01";
  data_abertura = s.seis_horas_atras;
  data_fechamento = s.agora;
  valor_total_vendas = 2480500;
  quantidade_vendas = 38;
  status = codes "Fechado";
  correlation_id = codes "corr-" ++ s.milissegundos;
}

-- The dialogs of the hook: the closing's number, its total as text and its sales; or an error.
pub data Dialogo : Type 0 where
  encerrado : Texto → Texto → ℕ → Dialogo
  erro_ao_encerrar : Texto → Dialogo

-- The screen: whether the confirmation is open, what has been invalidated and shown.
pub record Caixa : Type 0 where
  pub is_modal_open : Bool
  pub invalidadas : List String
  pub dialogos : List Dialogo

unfoldable pub total_texto : FecharCaixaResponseDto → Texto
unfolding texto_fixed2 replace_first
total_texto r = replace_first b'.' b',' (texto_fixed2 r.valor_total_vendas)

-- `onSuccess`; the callback of the screen closes the confirmation.
unfoldable pub on_success : FecharCaixaResponseDto → Caixa → Caixa
unfolding total_texto
on_success r c = record c {
  is_modal_open = false;
  invalidadas = c.invalidadas ++ ("caixa" ∷ "previsoes" ∷ []);
  dialogos = encerrado r.fechamento_caixa_id (total_texto r) r.quantidade_vendas ∷ c.dialogos;
}

-- The mutation: the service always gives a response, so that `onError` has no call.
unfoldable pub fechar : Sorteio → Option FecharCaixaResponseDto → Caixa → Caixa
unfolding fechar_caixa on_success
fechar s resposta c = on_success (fechar_caixa s resposta) c

abbrev e_dinheiro : MetodoPagamentoResumo → Bool
e_dinheiro p = elim p.tipo [ dinheiro ↦ true | _ ↦ false ]

abbrev valor_ou_zero : Option MetodoPagamentoResumo → ℕ
valor_ou_zero none = 0
valor_ou_zero (some p) = p.valor

-- `valorDinheiro`
unfoldable pub valor_dinheiro : SessaoCaixaResumo → ℕ
valor_dinheiro s = valor_ou_zero (find e_dinheiro s.pagamentos)
