-- ===== src/TempoReal/Aviso/Tests.antt =====
-- Two notices in quick succession.
use gestao_restaurante.Base.{ℕ, ◌≡◌, ◌≤◌, refl, true, none, some, List, [], ◌∷◌, arith}
use gestao_restaurante.Base.Text.{codes}
use gestao_restaurante.TempoReal.{Plataforma, Toast, info, show_toast}
use gestao_restaurante.TempoReal.Aviso.{
  Aviso, inicial, presente, efeito, Evento, mostrar, disparar, fechar, terminar, passo, executar,
}
use gestao_restaurante.TempoReal.Aviso.Fecho.{
  IsTimed, executar-inicial-IsTimed, executar-mostrar, terminar-mostrar, executar-disparar-terminar,
}

abbrev plataforma : Plataforma
plataforma = record {
  json = record {
    stringify_tenant = λ t. t.id;
    stringify_operador = λ o. [];
    parse_tenant = λ t. none;
    parse_operador = λ t. none;
  };
  ler_critico = λ t. none;
  base36 = λ n. n ∷ [];
  iso = λ n. n ∷ [];
}

abbrev noticia : Toast
noticia = record {
  tipo = info;
  titulo = codes "Venda";
  mensagem = codes "Registrada";
  icone = codes "*";
}

abbrev eventos : List (ℕ × Evento)
eventos = (0, mostrar noticia) ∷ (6000, disparar) ∷ (6250, terminar) ∷ []

executar-inicial-IsTimed_example : IsTimed (executar plataforma eventos inicial)
executar-inicial-IsTimed_example = executar-inicial-IsTimed plataforma eventos

executar-mostrar_example :
    (executar plataforma
      ((5999, disparar) ∷ (6100, terminar) ∷ [])
      (passo plataforma 0 (mostrar noticia) inicial)).status.active_toast
    ≡ (show_toast plataforma 0 noticia inicial.status).active_toast
executar-mostrar_example =
    executar-mostrar plataforma 0 noticia ((5999, disparar) ∷ (6100, terminar) ∷ []) inicial refl
      (omega arith)

abbrev mostrado : Aviso
mostrado = passo plataforma 0 (mostrar noticia) inicial

no_ar : presente mostrado.status.active_toast ≡ true
unfolding passo efeito
no_ar = refl

terminar-mostrar_example :
    let b =
      executar plataforma
        ((1000, fechar) ∷ (1100, mostrar noticia) ∷ (1250, terminar) ∷ [])
        mostrado in
    (b.status.active_toast ≡ none) × (b.timer ≡ none)
terminar-mostrar_example = terminar-mostrar plataforma 1000 1100 1250 noticia mostrado no_ar

due : (n : ℕ) → (executar plataforma ((0, mostrar noticia) ∷ []) inicial).timer ≡ some n → n ≤ 6000
unfolding executar passo efeito
due n e = ground (arith, e)

executar-disparar-terminar_example :
    (executar plataforma
      ((6000, disparar) ∷ (6000, terminar) ∷ [])
      (executar plataforma ((0, mostrar noticia) ∷ []) inicial)).status.active_toast
    ≡ none
executar-disparar-terminar_example =
    executar-disparar-terminar plataforma ((0, mostrar noticia) ∷ []) 6000 due
