-- ===== src/Perfil/Vista/Dialogos.antt =====
-- The profile's dialogs: components/ModalMovimentacaoCaixa.tsx and ModalBloqueioTerminal.tsx of
-- frontend/features/perfil.
use gestao_restaurante.Base.{
  ℕ, zero, suc, Bool, true, false, not, ◌&&◌, ◌||◌, Option, none, some, List, [], ◌∷◌, ◌++◌, ltb,
  if◌then◌else◌,
}
use gestao_restaurante.Base.Number.{ℤ, pos, negsuc}
use gestao_restaurante.Base.Text.{Texto, codes}
use gestao_restaurante.Shared.Formatters.{formatar_moeda}
use gestao_restaurante.Shared.Vista.{Elemento, texto, botao, campo}
use gestao_restaurante.Perfil.{
  TipoMovimentacaoCaixa, Erro, valor_zero, valor_acima_do_saldo, sem_motivo, Formulario,
  is_suprimento, valor_numerico,
}
use gestao_restaurante.Perfil.Turno.{Turno}

pub data Acao : Type 0 where
  fechar confirmar desbloquear sair : Acao
  mudar_valor mudar_motivo mudar_pin : Texto → Acao

-- `valorNumerico <= 0 || saldoInsuficiente`
abbrev pub sem_valor : ℤ → Bool
sem_valor (negsuc n) = true
sem_valor (pos zero) = true
sem_valor (pos (suc n)) = false

abbrev pub acima : ℕ → ℤ → Bool
acima saldo (negsuc n) = false
acima saldo (pos v) = ltb saldo v

unfoldable pub valor_recusado : TipoMovimentacaoCaixa → ℕ → ℤ → Bool
valor_recusado tipo saldo v = sem_valor v || (not (is_suprimento tipo) && acima saldo v)

unfoldable pub texto_erro : ℕ → Erro → Texto
unfolding formatar_moeda
texto_erro saldo valor_zero = codes "Informe um valor maior que zero."
texto_erro saldo valor_acima_do_saldo =
    codes "Valor acima do saldo disponível em dinheiro ("
    ++ formatar_moeda (some saldo)
    ++ codes ")."
texto_erro saldo sem_motivo = codes "Informe o motivo ou justificativa da movimentação."

unfoldable pub aviso_erro : ℕ → Option Erro → List (Elemento Acao)
unfolding texto_erro
aviso_erro saldo none = []
aviso_erro saldo (some e) = texto (((9888 ∷ 65039 ∷ []) ++ codes " ") ++ texto_erro saldo e) ∷ []

abbrev pub legenda_confirmar : Bool → Bool → List (Elemento Acao)
legenda_confirmar true entrada = []
legenda_confirmar false entrada =
    texto (codes (if entrada then "Confirmar Entrada" else "Confirmar Retirada")) ∷ []

-- `ModalMovimentacaoCaixa`
unfoldable pub modal_movimentacao_caixa :
    TipoMovimentacaoCaixa → ℕ → Bool → Formulario → List (Elemento Acao)
unfolding formatar_moeda valor_numerico valor_recusado aviso_erro
modal_movimentacao_caixa tipo saldo is_submitting f =
    texto (codes (if is_suprimento tipo then "➕" else "➖"))
    ∷ texto (
        codes (
          if is_suprimento tipo
          then "Entrada de Suprimento (Troco)"
          else "Sangria de Caixa (Retirada)"))
    ∷ texto (
        codes (
          if is_suprimento tipo
          then "Aporte de dinheiro físico para troco inicial na gaveta"
          else "Retirada de segurança do dinheiro em espécie para o cofre"))
    ∷ texto (codes "Saldo em Espécie na Gaveta:")
    ∷ texto (formatar_moeda (some saldo))
    ∷ texto (codes "VALOR (R$):")
    ∷ campo f.valor_texto mudar_valor
    ∷ texto (codes "MOTIVO / JUSTIFICATIVA:")
    ∷ campo f.motivo mudar_motivo
    ∷ (aviso_erro saldo f.erro
        ++ (botao is_submitting fechar
            ∷ texto (codes "Cancelar")
            ∷ botao (is_submitting || valor_recusado tipo saldo (valor_numerico f)) confirmar
            ∷ legenda_confirmar is_submitting (is_suprimento tipo)))

abbrev pub aviso_pin : Bool → List (Elemento Acao)
aviso_pin true =
    texto (((9888 ∷ 65039 ∷ []) ++ codes " Digite ao menos 4 dígitos para desbloquear.")) ∷ []
aviso_pin false = []

-- `ModalBloqueioTerminal`; its back key does nothing.
unfoldable pub modal_bloqueio_terminal : Texto → Texto → Turno → List (Elemento Acao)
modal_bloqueio_terminal nome iniciais x =
    texto (codes "🔒")
    ∷ texto iniciais
    ∷ texto (codes "Terminal Bloqueado")
    ∷ texto (
        codes "Sessão de "
        ++ nome
        ++ codes " pausada. O caixa e as rotinas fiscais permanecem abertos.")
    ∷ texto (codes "DIGITE O PIN DE DESBLOQUEIO:")
    ∷ campo x.pin mudar_pin
    ∷ (aviso_pin x.erro
        ++ (botao false desbloquear
            ∷ texto (codes "Desbloquear Terminal")
            ∷ botao false sair
            ∷ texto (codes "Trocar de Operador ou Sair")
            ∷ []))
