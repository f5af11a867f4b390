-- ===== src/Estoque/Vista.antt =====
-- What the stock's screen shows: screens/EstoqueScreen.tsx of frontend/features/estoque without its
-- dialogs, and its parts components/EstoqueHeader.tsx, SegmentedEstoqueControl.tsx,
-- InsumoSaldoCard.tsx, FichasTecnicasList.tsx, FichaTecnicaIngredientesPills.tsx,
-- FichaTecnicaFinanceGrid.tsx and FabEntradaMercadoria.tsx.
pub mod Oferta
use gestao_restaurante.Base.{
  ℕ, ◌+◌, Bool, true, false, ◌&&◌, Option, none, some, List, [], ◌∷◌, ◌++◌, length, ltb,
  if◌then◌else◌,
}
use gestao_restaurante.Base.Text.{Texto, codes, vazio, same}
use gestao_restaurante.Base.Decimal.{digitos}
use gestao_restaurante.Shared.Formatters.{formatar_quantidade}
use gestao_restaurante.Shared.Vista.{
  Elemento, texto, botao, campo, texto_numero, texto_fixed1, com_virgula,
}
use gestao_restaurante.Estoque.{
  AbaEstoqueAtiva, insumos, fichas, StatusNivelEstoque, critico, atencao, normal, InsumoEstoque,
  IngredienteFicha, FichaTecnicaItem, insumos_filtrados, fichas_filtradas, InsumosEstoque,
}

pub data Acao : Type 0 where
  buscar : Texto → Acao
  scan_barcode : Acao
  select_aba : AbaEstoqueAtiva → Acao
  registrar_baixa registrar_entrada : InsumoEstoque → Acao
  abrir_novo_insumo : Acao

-- `EstoqueHeader`; the screen gives no scanner, so that its button does nothing.
unfoldable pub estoque_header : ℕ → ℕ → Texto → List (Elemento Acao)
unfolding digitos
estoque_header total_insumos total_fichas busca =
    texto (codes "🏪")
    ∷ texto (codes "Restaurante Inteligente • Estoque")
    ∷ texto (codes "CAIXA ABERTO")
    ∷ texto (((128104 ∷ 8205 ∷ []) ++ codes "🍳"))
    ∷ texto (codes "MÓDULO DE SUPRIMENTOS")
    ∷ texto (codes "Gestão de Inventário")
    ∷ texto (codes "Sincronizado")
    ∷ texto (codes "📋")
    ∷ texto (digitos total_insumos ++ codes " Insumos Cadastrados")
    ∷ texto (codes "🥗")
    ∷ texto (digitos total_fichas ++ codes " Fichas (BOM)")
    ∷ texto (codes "🔍")
    ∷ campo busca buscar
    ∷ botao false scan_barcode
    ∷ texto (codes "📷")
    ∷ []

-- `SegmentedEstoqueControl`
unfoldable pub segmented_estoque_control : List (Elemento Acao)
segmented_estoque_control =
    botao false (select_aba insumos)
    ∷ texto (codes "📦")
    ∷ texto (codes "Insumos & Saldos")
    ∷ botao false (select_aba fichas)
    ∷ texto (codes "🥗")
    ∷ texto (codes "Fichas Técnicas")
    ∷ []

abbrev pub badge_texto : StatusNivelEstoque → Texto
badge_texto critico = ((9888 ∷ 65039 ∷ []) ++ codes " Abaixo do Mínimo")
badge_texto atencao = codes "⏰ Ponto de Pedido"
badge_texto normal = ((128737 ∷ 65039 ∷ []) ++ codes " Estoque Seguro")

-- A part that is missing prints nothing.
abbrev pub ou_nada : Option Texto → Texto
ou_nada none = []
ou_nada (some t) = t

-- `v || d` for a number that may be missing, and whether it is positive.
abbrev pub positivo : Option ℕ → Bool
positivo none = false
positivo (some v) = ltb 0 v

abbrev pub numero_ou : Option ℕ → ℕ → ℕ
numero_ou none d = d
numero_ou (some v) d = if ltb 0 v then v else d

-- The remark at the foot of the card: the deficit, the lead time, or what is known of the use.
unfoldable pub rodape : InsumoEstoque → List (Elemento Acao)
unfolding formatar_quantidade texto_numero digitos
rodape i =
    if positivo i.deficit_quantidade
    then texto (
        codes "📉 Déficit: "
        ++ formatar_quantidade i.deficit_quantidade i.unidade_medida
        ++ codes " (-"
        ++ texto_numero (numero_ou i.deficit_percentual 35000)
        ++ codes "%)")
      ∷ []
    else if positivo i.lead_time_horas
    then texto
        (codes "🚚 Lead Time Fornecedor: " ++ digitos (numero_ou i.lead_time_horas 0) ++ codes "h")
      ∷ []
    else if vazio (ou_nada i.observacao_consumo)
    then []
    else texto (((128737 ∷ 65039 ∷ []) ++ codes " ") ++ ou_nada i.observacao_consumo) ∷ []

abbrev pub rotulo_entrada : StatusNivelEstoque → Texto
rotulo_entrada critico = codes "📦 Entrada (+)"
rotulo_entrada _ = codes "+ Entrada"

-- `InsumoSaldoCard`, without its bar.
unfoldable pub insumo_saldo_card : InsumoEstoque → List (Elemento Acao)
unfolding formatar_quantidade rodape
insumo_saldo_card i =
    (texto i.nome
      ∷ texto (ou_nada i.localizacao ++ codes " • SKU " ++ i.sku)
      ∷ texto (badge_texto i.status_nivel)
      ∷ texto (formatar_quantidade (some i.saldo_atual) i.unidade_medida ++ codes " atual")
      ∷ texto (codes "Mínimo: " ++ formatar_quantidade (some i.estoque_minimo) i.unidade_medida)
      ∷ [])
    ++ (rodape i
        ++ (botao false (registrar_baixa i)
            ∷ texto (codes "Ajuste / Baixa")
            ∷ botao false (registrar_entrada i)
            ∷ texto (rotulo_entrada i.status_nivel)
            ∷ []))

unfoldable pub cards_insumos : List InsumoEstoque → List (Elemento Acao)
unfolding insumo_saldo_card
cards_insumos [] = []
cards_insumos (i ∷ is) = insumo_saldo_card i ++ cards_insumos is

abbrev pub insumos_ou_aviso : List InsumoEstoque → List (Elemento Acao)
insumos_ou_aviso [] =
    texto (codes "🔍")
    ∷ texto (codes "Nenhum insumo encontrado")
    ∷ texto (codes "Verifique o termo buscado ou adicione novos insumos.")
    ∷ []
insumos_ou_aviso (i ∷ is) = cards_insumos (i ∷ is)

abbrev pub pilulas : List IngredienteFicha → List (Elemento Acao)
pilulas [] = []
pilulas (i ∷ is) =
    texto (i.nome ++ (if vazio i.quantidade then [] else codes " (" ++ i.quantidade ++ codes ")"))
    ∷ pilulas is

-- `FichaTecnicaIngredientesPills`, as the list uses it: with the quantities.
unfoldable pub ficha_tecnica_ingredientes_pills : List IngredienteFicha → List (Elemento Acao)
ficha_tecnica_ingredientes_pills is = texto (codes "INGREDIENTES DA FORMULAÇÃO") ∷ pilulas is

-- `FichaTecnicaFinanceGrid`
unfoldable pub ficha_tecnica_finance_grid : ℕ → ℕ → ℕ → List (Elemento Acao)
unfolding com_virgula texto_fixed1
ficha_tecnica_finance_grid custo preco margem =
    texto (codes "Custo Insumos")
    ∷ texto (codes "R$ " ++ com_virgula custo)
    ∷ texto (codes "Preço Balcão")
    ∷ texto (codes "R$ " ++ com_virgula preco)
    ∷ texto (codes "Margem Bruta")
    ∷ texto (texto_fixed1 margem ++ codes "%")
    ∷ []

abbrev pub emoji_de : Texto → Texto
emoji_de sku =
    if same sku (codes "#PDV-01")
    then codes "🍔"
    else if same sku (codes "#PDV-02")
    then codes "🍟"
    else codes "🥤"

abbrev minutos : Option ℕ → Texto
minutos none = []
minutos (some n) = digitos n

-- A card of `FichasTecnicasList`.
unfoldable pub card_ficha : FichaTecnicaItem → List (Elemento Acao)
unfolding ficha_tecnica_ingredientes_pills ficha_tecnica_finance_grid digitos
card_ficha f =
    (texto (emoji_de f.sku)
      ∷ texto (codes "SKU " ++ f.sku)
      ∷ texto (ou_nada f.versao_bom)
      ∷ texto f.nome_produto
      ∷ texto (codes "Preparo: " ++ minutos f.tempo_preparo_min ++ codes " min")
      ∷ [])
    ++ (ficha_tecnica_ingredientes_pills f.ingredientes
        ++ (ficha_tecnica_finance_grid f.custo_insumos f.preco_balcao f.margem_bruta_percentual
            ++ (texto (
                  if vazio (ou_nada f.insumo_limitante_nome)
                  then codes "✓"
                  else (9888 ∷ 65039 ∷ []))
                ∷ texto (
                    codes "Capacidade Máxima: "
                    ++ digitos f.capacidade_turno_porcoes
                    ++ codes " porções "
                    ++ (if vazio (ou_nada f.insumo_limitante_nome)
                        then codes "(100% abastecido)"
                        else codes "(limitado por "
                          ++ ou_nada f.insumo_limitante_nome
                          ++ codes ")"))
                ∷ [])))

unfoldable pub cards_fichas : List FichaTecnicaItem → List (Elemento Acao)
unfolding card_ficha
cards_fichas [] = []
cards_fichas (f ∷ fs) = card_ficha f ++ cards_fichas fs

-- `FichasTecnicasList`
unfoldable pub fichas_tecnicas_list : List FichaTecnicaItem → List (Elemento Acao)
unfolding digitos cards_fichas
fichas_tecnicas_list [] =
    texto (codes "🔍")
    ∷ texto (codes "Nenhuma ficha técnica encontrada")
    ∷ texto (codes "Verifique o termo buscado ou adicione novos produtos com BOM.")
    ∷ []
fichas_tecnicas_list (f ∷ fs) =
    texto (codes "Receitas & Fichas Técnicas (BOM)")
    ∷ texto
        (digitos (length (f ∷ fs)) ++ codes " fórmulas ativas com apuração de custos em tempo real")
    ∷ cards_fichas (f ∷ fs)

abbrev pub carregando : Bool → List InsumoEstoque → Bool
carregando is_loading [] = is_loading
carregando is_loading (i ∷ is) = false

-- What the tab shows.
abbrev pub vista_aba :
    AbaEstoqueAtiva → List InsumoEstoque → List FichaTecnicaItem → List (Elemento Acao)
vista_aba insumos is fs =
    (texto (codes "Níveis de Estoque")
      ∷ texto (codes "Crítico")
      ∷ texto (codes "Atenção")
      ∷ texto (codes "Normal")
      ∷ [])
    ++ insumos_ou_aviso is
vista_aba fichas is fs = fichas_tecnicas_list fs

-- `EstoqueScreen` with `FabEntradaMercadoria`.
unfoldable pub estoque_screen :
    InsumosEstoque → Bool → List InsumoEstoque → List FichaTecnicaItem → List (Elemento Acao)
unfolding estoque_header segmented_estoque_control cards_insumos fichas_tecnicas_list
    insumos_filtrados fichas_filtradas
estoque_screen e is_loading is fs =
    estoque_header (length is) (length fs) e.busca
    ++ (segmented_estoque_control
        ++ ((if carregando is_loading is
              then texto (codes "Sincronizando livro-razão de suprimentos...") ∷ []
              else vista_aba e.aba_ativa (insumos_filtrados e.busca is)
                  (fichas_filtradas e.busca fs))
            ++ (botao false abrir_novo_insumo ∷ texto (codes "+") ∷ [])))
