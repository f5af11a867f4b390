-- ===== src/Perfil/Gaveta.antt =====
-- What the form of a movement submits.
use gestao_restaurante.Base.{
  ℕ, zero, suc, ◌≤◌, ◌<◌, ◌≡◌, ◌↔◌, ◌⊎◌, Bool, true, false, Option, none, some, arith,
}
use gestao_restaurante.Base.Number.{pos}
use gestao_restaurante.Base.Text.{vazio, trim}
use gestao_restaurante.Perfil.{
  TipoMovimentacaoCaixa, Formulario, valor_numerico, is_suprimento, enviada, confirmar_valor,
  handle_confirmar, ShiftMetrics, Perfil,
}

abbrev presente : Option ShiftMetrics → Bool
presente none = false
presente (some m) = true

-- The shift's figures have been loaded.
abbrev pub IsLoaded : Perfil → Type 0
IsLoaded p = presente p.metricas ≡ true

-- The form submits a movement exactly when the value is positive, the reason is not blank, and a
-- withdrawal does not exceed the drawer; it submits that value and the trimmed reason.
pub handle_confirmar_iff :
    (tipo : TipoMovimentacaoCaixa) (saldo v : ℕ) (f : Formulario)
    → valor_numerico f ≡ pos v
    → (handle_confirmar tipo saldo f
        ≡ enviada (record { tipo = tipo; valor = v; motivo = trim f.motivo }))
      ↔ ((0 < v) × (vazio (trim f.motivo) ≡ false) × ((is_suprimento tipo ≡ true) ⊎ (v ≤ saldo)))
unfolding handle_confirmar confirmar_valor
handle_confirmar_iff tipo saldo zero f e = rw e (ground arith)
handle_confirmar_iff tipo saldo (suc n) f e = rw e (ground arith)
