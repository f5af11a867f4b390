-- ===== src/Estoque/Novo.antt =====
-- components/ModalNovoInsumo.tsx and components/ModalNovoInsumoPills.tsx: the form that registers an
-- ingredient.
use gestao_restaurante.Base.{
  ℕ, ◌≡◌, ◌↔◌, ◌⊎◌, inl, inr, refl, Bool, true, false, String, Option, none, some, List, [], ◌∷◌,
  if◌then◌else◌, Bool-cases, arith,
}
use gestao_restaurante.Base.Number.{ℤ, pos, negsuc}
use gestao_restaurante.Base.Text.{Texto, vazio, trim}
use gestao_restaurante.Estoque.{CadastrarInsumoInput}
use gestao_restaurante.Estoque.Movimentos.{ler_numero}

abbrev pub categorias_padrao : List String
categorias_padrao =
    "Proteínas / Carnes" ∷ "Panificação" ∷ "Laticínios" ∷ "Hortifrúti" ∷ "Bebidas / Embalagens"
    ∷ "Geral / Mercearia" ∷ []

abbrev pub unidades_padrao : List String
unidades_padrao = "UN" ∷ "KG" ∷ "L" ∷ "G" ∷ []

pub data AvisoNovo : Type 0 where
  sem_nome custo_invalido minimo_invalido saldo_invalido : AvisoNovo

-- The state of the form.
pub record FormularioNovo : Type 0 where
  pub nome : Texto
  pub categoria : String
  pub unidade_medida : String
  pub custo_texto : Texto
  pub minimo_texto : Texto
  pub saldo_inicial_texto : Texto

-- The initial state, and `resetForm`.
abbrev pub novo_limpo : FormularioNovo
novo_limpo = record {
  nome = [];
  categoria = "Proteínas / Carnes";
  unidade_medida = "UN";
  custo_texto = [];
  minimo_texto = [];
  saldo_inicial_texto = [];
}

-- What is left of a number after `isNaN(n) || n < 0` has returned.
abbrev pub nao_negativo : Option ℤ → Option ℕ
nao_negativo none = none
nao_negativo (some (pos n)) = some n
nao_negativo (some (negsuc n)) = none

abbrev alguma : Option ℕ → Option (Option ℕ)
alguma none = none
alguma (some n) = some (some n)

-- The opening balance: absent where its text is blank; `none` is an invalid one.
unfoldable pub saldo_lido : Texto → Option (Option ℕ)
unfolding ler_numero trim
saldo_lido t = if vazio (trim t) then some none else alguma (nao_negativo (ler_numero t))

pub data VerdictoNovo : Type 0 where
  recusado : AvisoNovo → VerdictoNovo
  enviado : CadastrarInsumoInput → VerdictoNovo

-- The checks in their order, on what the three texts give.
unfoldable pub salvar_lido : FormularioNovo → Option ℕ → Option ℕ → Option (Option ℕ) → VerdictoNovo
unfolding trim
salvar_lido f none minimo saldo = recusado custo_invalido
salvar_lido f (some custo) none saldo = recusado minimo_invalido
salvar_lido f (some custo) (some minimo) none = recusado saldo_invalido
salvar_lido f (some custo) (some minimo) (some saldo) = enviado (record {
  nome = trim f.nome;
  unidade_medida = f.unidade_medida;
  estoque_minimo = minimo;
  custo_unitario = custo;
  saldo_inicial = saldo;
  categoria = some f.categoria;
})

-- `handleSalvar`, up to what it sends.
unfoldable pub handle_salvar : FormularioNovo → VerdictoNovo
unfolding trim ler_numero saldo_lido salvar_lido
handle_salvar f =
    if vazio (trim f.nome)
    then recusado sem_nome
    else salvar_lido f (nao_negativo (ler_numero f.custo_texto))
        (nao_negativo (ler_numero f.minimo_texto)) (saldo_lido f.saldo_inicial_texto)

abbrev pub Aceito : VerdictoNovo → Type 0
Aceito (recusado a) = ⊥
Aceito (enviado d) = Unit {0}

nao_negativo_inv : (o : Option ℤ) (n : ℕ) → nao_negativo o ≡ some n → o ≡ some (pos n)
nao_negativo_inv none n e = cc
nao_negativo_inv (some (pos m)) n e = cc
nao_negativo_inv (some (negsuc m)) n e = cc

-- What the three texts must give.
abbrev Numeros : Option ℕ → Option ℕ → Option (Option ℕ) → Type 0
Numeros c m s =
    ((n : ℕ) × (c ≡ some n)) × ((n : ℕ) × (m ≡ some n)) × ((o : Option ℕ) × (s ≡ some o))

salvar_lido-Numeros :
    (f : FormularioNovo) (c m : Option ℕ) (s : Option (Option ℕ))
    → Aceito (salvar_lido f c m s)
    → Numeros c m s
unfolding salvar_lido
salvar_lido-Numeros f none m s h = absurd h
salvar_lido-Numeros f (some c) none s h = absurd h
salvar_lido-Numeros f (some c) (some m) none h = absurd h
salvar_lido-Numeros f (some c) (some m) (some o) h = ((c, refl), (m, refl), (o, refl))

abbrev SaldoLegivel : Texto → Type 0
SaldoLegivel t = (vazio (trim t) ≡ true) ⊎ ((s : ℕ) × (ler_numero t ≡ some (pos s)))

alguma_inv : (o : Option ℕ) (r : Option ℕ) → alguma o ≡ some r → (n : ℕ) × (o ≡ some n)
alguma_inv none r e = cc
alguma_inv (some n) r e = (n, refl)

saldo_lido_inv : (t : Texto) (o : Option ℕ) → saldo_lido t ≡ some o → SaldoLegivel t
unfolding saldo_lido
saldo_lido_inv t o e = elim (Bool-cases (vazio (trim t))) [
  | inl b ↦ inl b
  | inr b ↦
      let read : alguma (nao_negativo (ler_numero t)) ≡ some o = ground (arith, e, b) in
      let (n, k) = alguma_inv (nao_negativo (ler_numero t)) o read in
      inr (n, nao_negativo_inv (ler_numero t) n k)
]

saldo_lido-some : (t : Texto) → SaldoLegivel t → (o : Option ℕ) × (saldo_lido t ≡ some o)
unfolding saldo_lido
saldo_lido-some t (inl b) = (none, rw b refl)
saldo_lido-some t (inr (n, e)) = elim (Bool-cases (vazio (trim t))) [
  | inl b ↦ (none, rw b refl)
  | inr b ↦ (some n, rw (b, e) refl)
]

passou :
    (b : Bool) (a : AvisoNovo) (v : VerdictoNovo)
    → Aceito (if b then recusado a else v)
    → (b ≡ false) × Aceito v
passou true a v h = absurd h
passou false a v h = (refl, h)

-- The form sends an ingredient exactly when its name is not blank, its cost and its minimum are
-- read as numbers that are not negative, and its opening balance is blank or such a number.
pub handle_salvar_iff :
    (f : FormularioNovo)
    → Aceito (handle_salvar f) ↔ (
        (vazio (trim f.nome) ≡ false)
        × ((c : ℕ) × (ler_numero f.custo_texto ≡ some (pos c)))
        × ((m : ℕ) × (ler_numero f.minimo_texto ≡ some (pos m)))
        × ((vazio (trim f.saldo_inicial_texto) ≡ true)
            ⊎ ((s : ℕ) × (ler_numero f.saldo_inicial_texto ≡ some (pos s)))))
unfolding handle_salvar salvar_lido saldo_lido
handle_salvar_iff f = (
  λ h.
      let (named, kept) = passou (vazio (trim f.nome)) sem_nome _ h in
      let ((c, ec), (m, em), (o, es)) = salvar_lido-Numeros f _ _ _ kept in
      (
        named,
        (c, nao_negativo_inv (ler_numero f.custo_texto) c ec),
        (m, nao_negativo_inv (ler_numero f.minimo_texto) m em),
        saldo_lido_inv f.saldo_inicial_texto o es,
      ),
  λ (b, (c, ec), (m, em), s).
      let (o, es) = saldo_lido-some f.saldo_inicial_texto s in rw (b, ec, em, es) tt,
)
