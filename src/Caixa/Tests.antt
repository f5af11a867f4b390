-- ===== src/Caixa/Tests.antt =====
-- The built-in session adds up, and a closing without a server.
use gestao_restaurante.Base.{◌≡◌, refl, true, [], ◌∷◌, none, sum}
use gestao_restaurante.Base.Text.{codes, replace_first}
use gestao_restaurante.Base.Decimal.{texto_fixed2, digitos}
use gestao_restaurante.Caixa.{
  dados_sessao_padrao, valor_dinheiro, Sorteio, Caixa, encerrado, fechar, fechar_caixa, on_success,
  total_texto,
}

soma : sum (λ p. p.valor) dados_sessao_padrao.pagamentos ≡ dados_sessao_padrao.total_apurado
soma = refl

gaveta : valor_dinheiro dados_sessao_padrao ≡ 200000
unfolding valor_dinheiro
gaveta = refl

abbrev sorteio : Sorteio
sorteio = record {
  sufixo = codes "A1B2C3D";
  seis_horas_atras = codes "06:00";
  agora = codes "12:00";
  milissegundos = codes "1";
}

abbrev confirmando : Caixa
confirmando = record { is_modal_open = true; invalidadas = []; dialogos = [] }

-- Without a server the dialog has a made-up number and the built-in total.
sem_servidor :
    (fechar sorteio none confirmando).dialogos
    ≡ encerrado (codes "fc-A1B2C3D") (codes "2480,50") 38 ∷ []
unfolding fechar fechar_caixa on_success total_texto texto_fixed2 digitos replace_first
sem_servidor = refl
