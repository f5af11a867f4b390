-- ===== src/Vendas/NovoProduto/Receita.antt =====
-- The recipe that the form of a new product builds and sends.
use gestao_restaurante.Base.{
  ℕ, zero, suc, ◌<◌, ◌≡◌, refl, ap, Bool, true, false, not, String, Option, none, some, List, [],
  ◌∷◌, ◌++◌, map, find, str_eq, eq_iff, All, Bool-cases, inl, inr, if◌then◌else◌, arith,
}
use gestao_restaurante.Base.Number.{ℤ, pos, negsuc}
use gestao_restaurante.Base.Text.{Texto, codes, vazio, trim}
use gestao_restaurante.Base.Text.Trim.{IsNamed, trim-IsNamed}
use gestao_restaurante.Estoque.{InsumoEstoque}
use gestao_restaurante.Estoque.Movimentos.{ler_numero}
use gestao_restaurante.Vendas.Catalogo.{ItemFichaTecnicaInput, CriarProdutoInput}
use gestao_restaurante.Vendas.NovoProduto.{
  IngredienteLinha, NovoProduto, inicial, ids, contem, proximo_disponivel, com_linha, nenhum,
  adicionar_linha_ingrediente, sem_indice, alterar_em, positivo, com_item, ficha_formatada,
  ou_nenhuma, Verdicto, recusado, enviado, salvar_lido, handle_salvar, Resposta, cadastrado,
  rejeitado, concluir, Acao, carregar, digitar_nome, escolher_categoria, digitar_preco,
  digitar_descricao, adicionar_linha, remover_linha, alterar_quantidade, salvar, fechar, passo,
  executar,
}

-- No text stands twice.
abbrev pub NoRepeat : List String → Type 0
NoRepeat [] = Unit
NoRepeat (x ∷ xs) = (contem x xs ≡ false) × NoRepeat xs

contem-append :
    (x y : String) (xs : List String)
    → contem x xs ≡ false
    → str_eq y x ≡ false
    → contem x (xs ++ y ∷ []) ≡ false
contem-append x y [] h k = ground (arith, k)
contem-append x y (z ∷ zs) h k = ground (arith, h, contem-append x y zs (ground (arith, h)) k)

contem_cons :
    (y x : String) (xs : List String)
    → contem y (x ∷ xs) ≡ false
    → (str_eq x y ≡ false) × (contem y xs ≡ false)
contem_cons y x xs h = ground (arith, h)

str_eq-sym : (x y : String) → str_eq x y ≡ false → str_eq y x ≡ false
str_eq-sym x y h = ground (arith, h, eq_iff x y, eq_iff y x)

NoRepeat-append :
    (y : String) (xs : List String) → NoRepeat xs → contem y xs ≡ false → NoRepeat (xs ++ y ∷ [])
NoRepeat-append y [] h k = (refl, tt)
NoRepeat-append y (x ∷ xs) (fresh, h) k =
    let (differs, rest) = contem_cons y x xs k in
    (contem-append x y xs fresh (str_eq-sym x y differs), NoRepeat-append y xs h rest)

ids-append :
    (ls : List IngredienteLinha) (l : IngredienteLinha)
    → ids (ls ++ l ∷ []) ≡ ids ls ++ l.insumo_id ∷ []
ids-append [] l = refl
ids-append (x ∷ ls) l = ap (◌∷◌ x.insumo_id) (ids-append ls l)

contem-sem_indice :
    (x : String) (k : ℕ) (ls : List IngredienteLinha)
    → contem x (ids ls) ≡ false
    → contem x (ids (sem_indice k ls)) ≡ false
unfolding sem_indice
contem-sem_indice x k [] h = h
contem-sem_indice x zero (l ∷ ls) h = (contem_cons x l.insumo_id (ids ls) h).1
contem-sem_indice x (suc k) (l ∷ ls) h =
    let (differs, rest) = contem_cons x l.insumo_id (ids ls) h in
    ground (arith, differs, contem-sem_indice x k ls rest)

NoRepeat-sem_indice :
    (k : ℕ) (ls : List IngredienteLinha) → NoRepeat (ids ls) → NoRepeat (ids (sem_indice k ls))
unfolding sem_indice
NoRepeat-sem_indice k [] h = h
NoRepeat-sem_indice zero (l ∷ ls) h = h.1
NoRepeat-sem_indice (suc k) (l ∷ ls) (fresh, h) =
    (contem-sem_indice l.insumo_id k ls fresh, NoRepeat-sem_indice k ls h)

ids-alterar_em : (k : ℕ) (t : Texto) (ls : List IngredienteLinha) → ids (alterar_em k t ls) ≡ ids ls
unfolding alterar_em
ids-alterar_em k t [] = refl
ids-alterar_em zero t (l ∷ ls) = refl
ids-alterar_em (suc k) t (l ∷ ls) = ap (◌∷◌ l.insumo_id) (ids-alterar_em k t ls)

-- What `find` gives satisfies the test.
find-holds :
    (p : InsumoEstoque → Bool) (xs : List InsumoEstoque) (i : InsumoEstoque)
    → find p xs ≡ some i
    → p i ≡ true
find-holds p [] i e = cc
find-holds p (x ∷ xs) i e = elim (Bool-cases (p x)) [
  | inl b ↦ (let k : ◌≡◌ {A = Option InsumoEstoque} (some x) (some i) = rw b at e in cc)
  | inr b ↦ find-holds p xs i (rw b at e)
]

-- A sent recipe: every quantity is positive, and no ingredient stands twice.
abbrev pub ReceitaOk : List ItemFichaTecnicaInput → Type 0
ReceitaOk fs = All (λ x. 0 < x.quantidade) fs × NoRepeat (map (λ x. x.insumo_id) fs)

abbrev pub FichaOk : Option (List ItemFichaTecnicaInput) → Type 0
FichaOk none = Unit {0}
FichaOk (some fs) = ReceitaOk fs

-- A product that can be registered: its name is not blank and has no white space at its ends.
abbrev pub IsSound : CriarProdutoInput → Type 0
IsSound d = IsNamed d.nome × FichaOk d.ficha_tecnica

-- What the loop makes of the lines.
abbrev FromLines : List IngredienteLinha → Option (List ItemFichaTecnicaInput) → Type 0
FromLines ls none = Unit {0}
FromLines ls (some fs) = All (λ x. 0 < x.quantidade) fs × (map (λ x. x.insumo_id) fs ≡ ids ls)

com_item-FromLines :
    (l : IngredienteLinha) (ls : List IngredienteLinha) (v : Option ℤ)
    (resto : Option (List ItemFichaTecnicaInput))
    → FromLines ls resto
    → FromLines (l ∷ ls) (com_item l.insumo_id (positivo v) resto)
com_item-FromLines l ls none resto h = tt
com_item-FromLines l ls (some (negsuc n)) resto h = tt
com_item-FromLines l ls (some (pos zero)) resto h = tt
com_item-FromLines l ls (some (pos (suc n))) none h = tt
com_item-FromLines l ls (some (pos (suc n))) (some fs) (h, e) =
    ((omega arith, h), ap (◌∷◌ l.insumo_id) e)

ficha_formatada-FromLines : (ls : List IngredienteLinha) → FromLines ls (ficha_formatada ls)
unfolding ficha_formatada
ficha_formatada-FromLines [] = (tt, refl)
ficha_formatada-FromLines (l ∷ ls) =
    com_item-FromLines l ls (ler_numero l.quantidade_texto) (ficha_formatada ls)
      (ficha_formatada-FromLines ls)

abbrev Sent : Verdicto → Type 0
Sent (recusado d) = Unit {0}
Sent (enviado d) = IsSound d

ou_nenhuma-ReceitaOk : (fs : List ItemFichaTecnicaInput) → ReceitaOk fs → FichaOk (ou_nenhuma fs)
ou_nenhuma-ReceitaOk [] h = tt
ou_nenhuma-ReceitaOk (x ∷ xs) h = h

salvar_lido-Sent :
    (f : NovoProduto) (preco : Option ℕ) (ficha : Option (List ItemFichaTecnicaInput))
    → vazio (trim f.nome) ≡ false
    → NoRepeat (ids f.ingredientes)
    → FromLines f.ingredientes ficha
    → Sent (salvar_lido f preco ficha)
unfolding salvar_lido
salvar_lido-Sent f none ficha named h k = tt
salvar_lido-Sent f (some p) none named h k = tt
salvar_lido-Sent f (some p) (some fs) named h (positive, e) =
    (trim-IsNamed f.nome named, ou_nenhuma-ReceitaOk fs (positive, rw e h))

handle_salvar-Sent : (f : NovoProduto) → NoRepeat (ids f.ingredientes) → Sent (handle_salvar f)
unfolding handle_salvar
handle_salvar-Sent f h = elim (Bool-cases (vazio (trim f.nome))) [
  | inl b ↦ rw b tt
  | inr b ↦ rw b (salvar_lido-Sent f _ _ b h (ficha_formatada-FromLines f.ingredientes))
]

-- The lines name no ingredient twice, and everything sent can be registered.
abbrev pub IsValid : NovoProduto → Type 0
IsValid f = NoRepeat (ids f.ingredientes) × All IsSound f.enviados

concluir-IsValid :
    (res : Resposta) (v : Verdicto) (f : NovoProduto)
    → Sent v
    → IsValid f
    → IsValid (concluir res v f)
unfolding concluir
concluir-IsValid res (recusado d) f s h = h
concluir-IsValid cadastrado (enviado d) f s (h, k) = (tt, (s, k))
concluir-IsValid (rejeitado c m) (enviado d) f s (h, k) = (h, (s, k))

fresh-of : (b : Bool) → not b ≡ true → b ≡ false
fresh-of true e = cc
fresh-of false e = refl

com_linha-IsValid :
    (f : NovoProduto) (o : Option InsumoEstoque)
    → proximo_disponivel f ≡ o
    → IsValid f
    → IsValid (com_linha o f)
com_linha-IsValid f none e h = h
com_linha-IsValid f (some i) e (h, k) =
    let free = find-holds (λ i. not (contem i.id (ids f.ingredientes))) f.insumos_disponiveis i e in
    (
      rw (ids-append f.ingredientes (record { insumo_id = i.id; quantidade_texto = codes "1" })) (
          NoRepeat-append i.id (ids f.ingredientes) h
            (fresh-of (contem i.id (ids f.ingredientes)) free)),
      k,
    )

either : (b : Bool) (x y : NovoProduto) → IsValid x → IsValid y → IsValid (if b then x else y)
either true x y h k = h
either false x y h k = k

passo-IsValid : (a : Acao) (f : NovoProduto) → IsValid f → IsValid (passo a f)
unfolding passo adicionar_linha_ingrediente
passo-IsValid (carregar xs) f h = h
passo-IsValid (digitar_nome t) f h = h
passo-IsValid (escolher_categoria c) f h = h
passo-IsValid (digitar_preco t) f h = h
passo-IsValid (digitar_descricao t) f h = h
passo-IsValid adicionar_linha f h =
    either (nenhum f.insumos_disponiveis) _ (com_linha (proximo_disponivel f) f) h
      (com_linha-IsValid f (proximo_disponivel f) refl h)
passo-IsValid (remover_linha i) f (h, k) = (NoRepeat-sem_indice i f.ingredientes h, k)
passo-IsValid (alterar_quantidade i t) f (h, k) = (rw (ids-alterar_em i t f.ingredientes) h, k)
passo-IsValid (salvar res) f h =
    concluir-IsValid res (handle_salvar f) f (handle_salvar-Sent f h.0) h
passo-IsValid fechar f (h, k) = (tt, k)

executar-IsValid : (acoes : List Acao) (f : NovoProduto) → IsValid f → IsValid (executar acoes f)
unfolding executar
executar-IsValid [] f h = h
executar-IsValid (a ∷ acoes) f h = executar-IsValid acoes (passo a f) (passo-IsValid a f h)

-- Over any use of the form, any lists of ingredients and any answers of the server: the lines never
-- name an ingredient twice, and every product that is sent has a name that is not blank, with no
-- white space at its ends, and either no recipe, or one whose quantities are positive and that names
-- no ingredient twice.
pub executar-inicial-NoRepeat : (acoes : List Acao) → IsValid (executar acoes inicial)
executar-inicial-NoRepeat acoes = executar-IsValid acoes inicial (tt, tt)

-- What the loop sends, for lines that it accepts: the ingredients of the lines in their order.
pub ficha_formatada-ids :
    (ls : List IngredienteLinha) (fs : List ItemFichaTecnicaInput)
    → ficha_formatada ls ≡ some fs
    → (map (λ x. x.insumo_id) fs ≡ ids ls) × All (λ x. 0 < x.quantidade) fs
ficha_formatada-ids ls fs e =
    let (positive, same) : FromLines ls (some fs) = rw e at (ficha_formatada-FromLines ls) in
    (same, positive)
