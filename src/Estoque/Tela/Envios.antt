-- ===== src/Estoque/Tela/Envios.antt =====
-- What the stock screen sends over any use of it.
use gestao_restaurante.Base.{
  ℕ, zero, suc, ◌+◌, ◌/◌, ◌<◌, ◌≡◌, refl, Bool, true, false, ◌&&◌, String, Option, none, some, List,
  [], ◌∷◌, if◌then◌else◌, str_eq, All, find, ltb, arith, Bool-cases, inl, inr,
}
use gestao_restaurante.Base.Number.{ℤ, pos, negsuc}
use gestao_restaurante.Base.Text.{Texto, vazio, trim}
use gestao_restaurante.Base.Text.Trim.{IsNamed, trim-IsNamed}
use gestao_restaurante.Base.Decimal.{digitos}
use gestao_restaurante.Shared.Formatters.{formatar_moeda_input, moeda_de_digitos}
use gestao_restaurante.Estoque.{
  InsumoEstoque, EntradaEstoqueResponse, abrir_modal_entrada, registrar_baixa_estoque,
}
use gestao_restaurante.Estoque.Movimentos.{
  FormularioBaixa, VerdictoBaixa, baixar_lido, confirmar_baixa, FormularioEntrada, texto_do_custo,
  preparar_entrada, handle_insumo_change, VerdictoEntrada, entrar_lido, confirmar_entrada,
}
use gestao_restaurante.Estoque.Movimentos.Regras.{InCents, IsMasked, custo_lido-InCents}
use gestao_restaurante.Estoque.Movimentos.{trocar_custo, com_custo}
use gestao_restaurante.Estoque.Novo.{FormularioNovo, VerdictoNovo, salvar_lido, handle_salvar}
use gestao_restaurante.Estoque.Tela.{
  Pedido, entrada, baixa, cadastro, Tela, inicial, handle_confirmar_entrada, concluir_entrada,
  handle_confirmar_baixa, concluir_baixa, RespostaNovo, cadastrado, rejeitado,
  handle_confirmar_novo_insumo, concluir_novo, Acao, recarregar, escolher_aba, buscar,
  abrir_entrada, fechar_entrada, escolher_insumo, digitar_entrada, digitar_custo, anotar_entrada,
  enviar_entrada, abrir_baixa, fechar_baixa, escolher_motivo, digitar_baixa, anotar_baixa,
  enviar_baixa, abrir_novo, fechar_novo, editar_novo, enviar_novo, enviar_entrada_de,
  enviar_baixa_de, efeito_entrada, escolher, passo, executar,
}

abbrev Positivos : List (String × ℕ) → Type 0
Positivos = All (λ item. 0 < item.1)

-- A request that the server can book: positive quantities, an ingredient, a cost of whole cents, a
-- name that is not blank and has no white space at its ends.
abbrev pub IsSound : Pedido → Type 0
IsSound (entrada d) =
    (0 < d.quantidade) × InCents d.custo_unitario × (str_eq d.insumo_id "" ≡ false)
IsSound (baixa p) = Positivos p.itens
IsSound (cadastro d) = IsNamed d.nome

abbrev pub IsValid : Tela → Type 0
IsValid t = IsMasked t.form_entrada × All IsSound t.pedidos

abbrev EntradaSound : VerdictoEntrada → Type 0
EntradaSound (VerdictoEntrada.recusada a) = Unit {0}
EntradaSound (VerdictoEntrada.enviada d) = IsSound (entrada d)

entrar_lido-Sound :
    (f : FormularioEntrada) (v : Option ℤ) → IsMasked f → EntradaSound (entrar_lido f v)
unfolding entrar_lido
entrar_lido-Sound f none m = tt
entrar_lido-Sound f (some (negsuc n)) m = tt
entrar_lido-Sound f (some (pos zero)) m = tt
entrar_lido-Sound f (some (pos (suc n))) m = elim (Bool-cases (str_eq f.insumo_selecionado_id "")) [
  | inl e ↦ rw e tt
  | inr e ↦ rw e (omega arith, custo_lido-InCents f m, e)
]

abbrev BaixaSound : VerdictoBaixa → Type 0
BaixaSound (VerdictoBaixa.recusada a) = Unit {0}
BaixaSound (VerdictoBaixa.enviada d) = 0 < d.quantidade

baixar_lido-Sound :
    (i : InsumoEstoque) (f : FormularioBaixa) (v : Option ℤ) → BaixaSound (baixar_lido i f v)
unfolding baixar_lido
baixar_lido-Sound i f none = tt
baixar_lido-Sound i f (some (negsuc n)) = tt
baixar_lido-Sound i f (some (pos zero)) = tt
baixar_lido-Sound i f (some (pos (suc n))) = elim (Bool-cases (ltb i.saldo_atual (suc n))) [
  | inl e ↦ rw e tt
  | inr e ↦ rw e (omega arith)
]

abbrev NovoSound : VerdictoNovo → Type 0
NovoSound (VerdictoNovo.recusado a) = Unit {0}
NovoSound (VerdictoNovo.enviado d) = IsSound (cadastro d)

salvar_lido-Sound :
    (f : FormularioNovo) (c m : Option ℕ) (s : Option (Option ℕ))
    → vazio (trim f.nome) ≡ false
    → NovoSound (salvar_lido f c m s)
unfolding salvar_lido
salvar_lido-Sound f none m s h = tt
salvar_lido-Sound f (some c) none s h = tt
salvar_lido-Sound f (some c) (some m) none h = tt
salvar_lido-Sound f (some c) (some m) (some o) h = trim-IsNamed f.nome h

handle_salvar-Sound : (f : FormularioNovo) → NovoSound (handle_salvar f)
unfolding handle_salvar
handle_salvar-Sound f = elim (Bool-cases (vazio (trim f.nome))) [
  | inl e ↦ rw e tt
  | inr e ↦ rw e (salvar_lido-Sound f _ _ _ e)
]

texto_do_custo-masked : (c : Option ℕ) → (t : Texto) × (texto_do_custo c ≡ formatar_moeda_input t)
unfolding texto_do_custo formatar_moeda_input moeda_de_digitos
texto_do_custo-masked none = ([], refl)
texto_do_custo-masked (some zero) = ([], refl)
texto_do_custo-masked (some (suc c)) = (digitos ((suc c + 5) / 10), refl)

preparar_entrada-IsMasked :
    (i : Option InsumoEstoque) (xs : List InsumoEstoque) (f : FormularioEntrada)
    → IsMasked f
    → IsMasked (preparar_entrada i xs f)
unfolding preparar_entrada
preparar_entrada-IsMasked (some i) xs f h = texto_do_custo-masked i.custo_unitario_medio
preparar_entrada-IsMasked none [] f h = h
preparar_entrada-IsMasked none (i ∷ xs) f h = texto_do_custo-masked i.custo_unitario_medio

trocar_custo-IsMasked :
    (c : Option ℕ) (f : FormularioEntrada) → IsMasked f → IsMasked (trocar_custo c f)
trocar_custo-IsMasked none f h = h
trocar_custo-IsMasked (some zero) f h = h
trocar_custo-IsMasked (some (suc c)) f h = texto_do_custo-masked (some (suc c))

com_custo-IsMasked :
    (o : Option InsumoEstoque) (f : FormularioEntrada) → IsMasked f → IsMasked (com_custo o f)
com_custo-IsMasked none f h = h
com_custo-IsMasked (some i) f h = trocar_custo-IsMasked i.custo_unitario_medio f h

handle_insumo_change-IsMasked :
    (xs : List InsumoEstoque) (id : String) (f : FormularioEntrada)
    → IsMasked f
    → IsMasked (handle_insumo_change xs id f)
unfolding handle_insumo_change
handle_insumo_change-IsMasked xs id f h =
    com_custo-IsMasked (find (λ i. str_eq i.id id) xs) (record f { insumo_selecionado_id = id }) h

concluir_entrada-IsValid :
    (res : Option EntradaEstoqueResponse) (v : VerdictoEntrada) (t : Tela)
    → EntradaSound v
    → IsValid t
    → IsValid (concluir_entrada res v t)
unfolding concluir_entrada handle_confirmar_entrada
concluir_entrada-IsValid res (VerdictoEntrada.recusada a) t s h = h
concluir_entrada-IsValid none (VerdictoEntrada.enviada d) t s (m, h) = (m, (s, h))
concluir_entrada-IsValid (some r) (VerdictoEntrada.enviada d) t s (m, h) = (m, (s, h))

concluir_baixa-IsValid :
    (ok : Bool) (v : VerdictoBaixa) (t : Tela)
    → BaixaSound v
    → IsValid t
    → IsValid (concluir_baixa ok v t)
unfolding concluir_baixa handle_confirmar_baixa registrar_baixa_estoque
concluir_baixa-IsValid ok (VerdictoBaixa.recusada a) t s h = h
concluir_baixa-IsValid true (VerdictoBaixa.enviada d) t s (m, h) = (m, ((s, tt), h))
concluir_baixa-IsValid false (VerdictoBaixa.enviada d) t s (m, h) = (m, ((s, tt), h))

concluir_novo-IsValid :
    (res : RespostaNovo) (v : VerdictoNovo) (t : Tela)
    → NovoSound v
    → IsValid t
    → IsValid (concluir_novo res v t)
unfolding concluir_novo handle_confirmar_novo_insumo
concluir_novo-IsValid res (VerdictoNovo.recusado a) t s h = h
concluir_novo-IsValid cadastrado (VerdictoNovo.enviado d) t s (m, h) = (m, (s, h))
concluir_novo-IsValid (rejeitado c e) (VerdictoNovo.enviado d) t s (m, h) = (m, (s, h))

either : (b : Bool) (x y : Tela) → IsValid x → IsValid y → IsValid (if b then x else y)
either true x y h k = h
either false x y h k = k

efeito_entrada-IsValid : (t : Tela) → IsValid t → IsValid (efeito_entrada t)
efeito_entrada-IsValid t (m, h) = elim (Bool-cases t.hook.is_modal_entrada_open) [
  | inl e ↦ rw e (preparar_entrada-IsMasked _ _ t.form_entrada m, h)
  | inr e ↦ rw e (m, h)
]

escolher-IsValid :
    (id : String) (i : Option InsumoEstoque) (t : Tela) → IsValid t → IsValid (escolher id i t)
escolher-IsValid id none t (m, h) =
    (handle_insumo_change-IsMasked t.todos_insumos id t.form_entrada m, h)
escolher-IsValid id (some i) t h = h

enviar_baixa_de-IsValid :
    (ok : Bool) (i : Option InsumoEstoque) (t : Tela) → IsValid t → IsValid (enviar_baixa_de ok i t)
unfolding enviar_baixa_de confirmar_baixa
enviar_baixa_de-IsValid ok none t h = h
enviar_baixa_de-IsValid ok (some i) t h =
    either t.is_modal_baixa_open _ t
      (concluir_baixa-IsValid ok _ t (baixar_lido-Sound i t.form_baixa _) h) h

passo-IsValid : (a : Acao) (t : Tela) → IsValid t → IsValid (passo a t)
unfolding passo enviar_entrada_de confirmar_entrada
passo-IsValid (recarregar xs) t h = efeito_entrada-IsValid (record t { todos_insumos = xs }) h
passo-IsValid (escolher_aba aba) t h = h
passo-IsValid (buscar b) t h = h
passo-IsValid (abrir_entrada i) t h =
    efeito_entrada-IsValid (record t { hook = abrir_modal_entrada i t.hook }) h
passo-IsValid fechar_entrada t h = h
passo-IsValid (escolher_insumo id) t h = escolher-IsValid id t.hook.insumo_selecionado t h
passo-IsValid (digitar_entrada s) t h = h
passo-IsValid (digitar_custo s) t (m, h) = ((s, refl), h)
passo-IsValid (anotar_entrada s) t h = h
passo-IsValid (enviar_entrada online res) t h =
    either (t.hook.is_modal_entrada_open && online) _ t
      (concluir_entrada-IsValid res _ t (entrar_lido-Sound t.form_entrada _ h.0) h) h
passo-IsValid (abrir_baixa i) t h = h
passo-IsValid fechar_baixa t h = h
passo-IsValid (escolher_motivo m) t h = h
passo-IsValid (digitar_baixa s) t h = h
passo-IsValid (anotar_baixa s) t h = h
passo-IsValid (enviar_baixa ok) t h = enviar_baixa_de-IsValid ok t.insumo_baixa_selecionado t h
passo-IsValid abrir_novo t h = h
passo-IsValid fechar_novo t h = h
passo-IsValid (editar_novo f) t h = h
passo-IsValid (enviar_novo res) t h =
    either t.is_modal_novo_insumo_open _ t
      (concluir_novo-IsValid res _ t (handle_salvar-Sound t.form_novo) h) h

executar-IsValid : (acoes : List Acao) (t : Tela) → IsValid t → IsValid (executar acoes t)
unfolding executar
executar-IsValid [] t h = h
executar-IsValid (a ∷ acoes) t h = executar-IsValid acoes (passo a t) (passo-IsValid a t h)

-- Over any use of the screen and any answers of the server, every request that it sends is one that
-- the server can book: an entry has a positive quantity, a named ingredient, and no cost or a
-- positive one of whole cents; a write-off has positive quantities; a new ingredient has a name
-- that is not blank, nor is there white space at its ends. And the cost field only ever holds what
-- the money mask prints.
pub executar-inicial-IsValid : (acoes : List Acao) → IsValid (executar acoes inicial)
unfolding formatar_moeda_input moeda_de_digitos
executar-inicial-IsValid acoes = executar-IsValid acoes inicial (([], refl), tt)
