-- ===== src/Vendas/NovoProduto.antt =====
-- frontend/features/vendas/components/ModalNovoProduto.tsx: the form that registers a product with
-- its recipe, as a state machine. What the server answers is an argument of `salvar`.
pub mod Receita
mod Tests
use gestao_restaurante.Base.{
  ℕ, zero, suc, Bool, true, false, not, ◌||◌, String, Option, none, some, List, [], ◌∷◌, ◌++◌, map,
  any, find, str_eq, if◌then◌else◌,
}
use gestao_restaurante.Base.Number.{ℤ, pos, negsuc}
use gestao_restaurante.Base.Text.{Texto, codes, vazio, trim}
use gestao_restaurante.Shared.Formatters.{ou_padrao}
use gestao_restaurante.Estoque.{InsumoEstoque}
use gestao_restaurante.Estoque.Movimentos.{ler_numero, anotacao}
use gestao_restaurante.Estoque.Novo.{nao_negativo}
use gestao_restaurante.Vendas.{CategoriaProduto, hamburgueres}
use gestao_restaurante.Vendas.Catalogo.{ItemFichaTecnicaInput, CriarProdutoInput}

pub record IngredienteLinha : Type 0 where
  pub insumo_id : String
  pub quantidade_texto : Texto

pub data Dialogo : Type 0 where
  sem_insumos limite sem_nome preco_invalido quantidade_invalida : Dialogo
  erro : Texto → Dialogo

-- The state of the form, the products that it has sent and the dialogs that it has shown, newest
-- first.
pub record NovoProduto : Type 0 where
  pub nome : Texto
  pub categoria : CategoriaProduto
  pub preco_texto : Texto
  pub descricao : Texto
  pub ingredientes : List IngredienteLinha
  pub insumos_disponiveis : List InsumoEstoque
  pub enviados : List CriarProdutoInput
  pub dialogos : List Dialogo

abbrev pub inicial : NovoProduto
inicial = record {
  nome = [];
  categoria = hamburgueres;
  preco_texto = [];
  descricao = [];
  ingredientes = [];
  insumos_disponiveis = [];
  enviados = [];
  dialogos = [];
}

abbrev pub mostrar : Dialogo → NovoProduto → NovoProduto
mostrar d f = record f { dialogos = d ∷ f.dialogos }

abbrev pub reset_form : NovoProduto → NovoProduto
reset_form f = record f {
  nome = [];
  categoria = hamburgueres;
  preco_texto = [];
  descricao = [];
  ingredientes = [];
}

-- `ingredientes.map((i) => i.insumoId)`
abbrev pub ids : List IngredienteLinha → List String
ids = map (λ l. l.insumo_id)

-- Whether the set made of the texts has the text.
abbrev pub contem : String → List String → Bool
contem id xs = any (λ x. str_eq x id) xs

abbrev pub proximo_disponivel : NovoProduto → Option InsumoEstoque
proximo_disponivel f = find (λ i. not (contem i.id (ids f.ingredientes))) f.insumos_disponiveis

abbrev pub com_linha : Option InsumoEstoque → NovoProduto → NovoProduto
com_linha none f = mostrar limite f
com_linha (some i) f = record f {
  ingredientes = f.ingredientes ++ record { insumo_id = i.id; quantidade_texto = codes "1" } ∷ [];
}

abbrev pub nenhum : List InsumoEstoque → Bool
nenhum [] = true
nenhum (i ∷ xs) = false

unfoldable pub adicionar_linha_ingrediente : NovoProduto → NovoProduto
adicionar_linha_ingrediente f =
    if nenhum f.insumos_disponiveis
    then mostrar sem_insumos f
    else com_linha (proximo_disponivel f) f

-- `xs.filter((_, i) => i !== index)`
unfoldable pub sem_indice : ℕ → List IngredienteLinha → List IngredienteLinha
sem_indice index [] = []
sem_indice zero (l ∷ ls) = ls
sem_indice (suc index) (l ∷ ls) = l ∷ sem_indice index ls

-- `alterarQuantidade`, for the index of a line.
unfoldable pub alterar_em : ℕ → Texto → List IngredienteLinha → List IngredienteLinha
alterar_em index valor [] = []
alterar_em zero valor (l ∷ ls) = record l { quantidade_texto = valor } ∷ ls
alterar_em (suc index) valor (l ∷ ls) = l ∷ alterar_em index valor ls

-- The number of an ingredient after `isNaN(qtd) || qtd <= 0` has returned.
abbrev pub positivo : Option ℤ → Option ℕ
positivo none = none
positivo (some (negsuc n)) = none
positivo (some (pos zero)) = none
positivo (some (pos (suc n))) = some (suc n)

abbrev pub com_item :
    String → Option ℕ → Option (List ItemFichaTecnicaInput) → Option (List ItemFichaTecnicaInput)
com_item id none resto = none
com_item id (some q) none = none
com_item id (some q) (some fs) = some (record { insumo_id = id; quantidade = q } ∷ fs)

-- The loop over the lines; `none` is its early return.
unfoldable pub ficha_formatada : List IngredienteLinha → Option (List ItemFichaTecnicaInput)
unfolding ler_numero
ficha_formatada [] = some []
ficha_formatada (l ∷ ls) =
    com_item l.insumo_id (positivo (ler_numero l.quantidade_texto)) (ficha_formatada ls)

-- `ficha.length > 0 ? ficha : undefined`
abbrev pub ou_nenhuma : List ItemFichaTecnicaInput → Option (List ItemFichaTecnicaInput)
ou_nenhuma [] = none
ou_nenhuma (x ∷ xs) = some (x ∷ xs)

pub data Verdicto : Type 0 where
  recusado : Dialogo → Verdicto
  enviado : CriarProdutoInput → Verdicto

-- The checks after the name, on what the texts give.
unfoldable pub salvar_lido : NovoProduto → Option ℕ → Option (List ItemFichaTecnicaInput) → Verdicto
unfolding anotacao trim
salvar_lido f none ficha = recusado preco_invalido
salvar_lido f (some preco) none = recusado quantidade_invalida
salvar_lido f (some preco) (some ficha) = enviado (record {
  nome = trim f.nome;
  preco = preco;
  categoria = f.categoria;
  descricao = anotacao f.descricao;
  ficha_tecnica = ou_nenhuma ficha;
})

-- `handleSalvar`, up to what it sends.
unfoldable pub handle_salvar : NovoProduto → Verdicto
unfolding trim ler_numero salvar_lido ficha_formatada
handle_salvar f =
    if vazio (trim f.nome)
    then recusado sem_nome
    else salvar_lido f (nao_negativo (ler_numero f.preco_texto)) (ficha_formatada f.ingredientes)

-- What the server answers: the product is registered, or the texts of the error.
pub data Resposta : Type 0 where
  cadastrado : Resposta
  rejeitado : Option Texto → Option Texto → Resposta

-- The rest of `handleSalvar`.
unfoldable pub concluir : Resposta → Verdicto → NovoProduto → NovoProduto
unfolding ou_padrao
concluir res (recusado d) f = mostrar d f
concluir cadastrado (enviado dados) f = reset_form (record f { enviados = dados ∷ f.enviados })
concluir (rejeitado corpo mensagem) (enviado dados) f =
    mostrar (erro (ou_padrao corpo (ou_padrao mensagem (codes "Erro ao cadastrar produto."))))
      (record f { enviados = dados ∷ f.enviados })

-- What happens to the form. `carregar` is what the effect loads when the form opens.
pub data Acao : Type 0 where
  carregar : List InsumoEstoque → Acao
  digitar_nome : Texto → Acao
  escolher_categoria : CategoriaProduto → Acao
  digitar_preco : Texto → Acao
  digitar_descricao : Texto → Acao
  adicionar_linha : Acao
  remover_linha : ℕ → Acao
  alterar_quantidade : ℕ → Texto → Acao
  salvar : Resposta → Acao
  fechar : Acao

unfoldable pub passo : Acao → NovoProduto → NovoProduto
unfolding adicionar_linha_ingrediente sem_indice alterar_em handle_salvar concluir
passo (carregar xs) f = record f { insumos_disponiveis = xs }
passo (digitar_nome t) f = record f { nome = t }
passo (escolher_categoria c) f = record f { categoria = c }
passo (digitar_preco t) f = record f { preco_texto = t }
passo (digitar_descricao t) f = record f { descricao = t }
passo adicionar_linha f = adicionar_linha_ingrediente f
passo (remover_linha i) f = record f { ingredientes = sem_indice i f.ingredientes }
passo (alterar_quantidade i t) f = record f { ingredientes = alterar_em i t f.ingredientes }
passo (salvar res) f = concluir res (handle_salvar f) f
passo fechar f = reset_form f

unfoldable pub executar : List Acao → NovoProduto → NovoProduto
unfolding passo
executar [] f = f
executar (a ∷ acoes) f = executar acoes (passo a f)
