-- ===== src/Lib.antt =====
-- Verification of the application of Gestao-Restaurante (the point of sale and the back office of a
-- restaurant, in TypeScript, under src/frontend).
--
-- The parts, and the files that model them:
--   * Vendas: the open order and its payment. Vendas/Carrinho is the store of
--     src/frontend/features/vendas/hooks/useCarrinho.ts (adicionarItem is adicionar_item, removerItem
--     is remover_item, alterarQuantidade is alterar_quantidade, limparCarrinho is limpar_carrinho);
--     Vendas/Checkout is the form of src/frontend/features/vendas/components/CheckoutBottomSheet.tsx,
--     which reads the store's subtotal and sends its items. Vendas/Registro is
--     src/frontend/features/vendas/hooks/useRegistrarVenda.ts, which sends the sale and empties the
--     cart; Vendas/Catalogo is src/frontend/features/vendas/hooks/useCatalogoProdutos.ts over
--     src/frontend/features/vendas/services/vendasService.ts; Vendas/NovoProduto is the form of
--     src/frontend/features/vendas/components/ModalNovoProduto.tsx.
--   * Shared: what the features share. Shared/Sse is the client of the event stream,
--     src/frontend/shared/services/sseClient.ts, as a state machine; Shared/Fluxo is its cutting of
--     the arriving text into blocks, Shared/Bloco its reading of a block (processSseBlock), with
--     the message of src/RestauranteInteligente.Api/Controllers/EventsController.cs that it reads.
--     Shared/Conexao is src/frontend/shared/hooks/useConnectionStore.ts, the store that says whether
--     the API answers, with its timer and its probes. Shared/Formatters is
--     src/frontend/shared/utils/formatters.ts, Shared/Ambiente is
--     src/frontend/shared/config/env.ts, and Shared/Dialogo is
--     src/frontend/shared/components/AppDialog.
--   * Auth: the session. Auth is src/frontend/features/auth/hooks/useAuthStore.ts over the storage of
--     src/frontend/shared/services/storage.ts (setSession is set_session, setTenant is set_tenant,
--     initSessionFromStorage is init_session_from_storage); Auth/Requests has the interceptors of
--     src/frontend/shared/services/api.ts, which read the storage and tell the connection store, and
--     the histories of the whole application; Auth/Login is the choice of the restaurant in
--     src/frontend/features/auth/hooks/useLoginMutation.ts; Auth/Cnpj is
--     src/frontend/features/auth/utils/maskUtils.ts. Auth/Cadastro is the form of
--     src/frontend/features/auth/components/ModalCadastroRestaurante.tsx, Auth/Entrada that of
--     src/frontend/features/auth/screens/LoginScreen.tsx, with the requests of
--     src/frontend/features/auth/services/authService.ts. Auth/Resposta makes sessions of its answers,
--     as src/frontend/features/auth/hooks/useLoginMutation.ts and useCadastroRestauranteMutation.ts do.
--   * Estoque: the stock. Estoque is src/frontend/features/estoque/services/estoqueService.ts and the
--     filters of src/frontend/features/estoque/hooks/useInsumosEstoque.ts; Estoque/Movimentos has the
--     forms of src/frontend/features/estoque/components/ModalBaixaEstoque.tsx and
--     ModalEntradaEstoque.tsx, Estoque/Novo that of ModalNovoInsumo.tsx, and Estoque/Tela joins them
--     into src/frontend/features/estoque/screens/EstoqueScreen.tsx.
--   * Caixa: the closing of the cash register, src/frontend/features/caixa/hooks/useFecharCaixa.ts over
--     src/frontend/features/caixa/services/caixaService.ts. Administracao: the restaurants and their
--     plans, src/frontend/features/admin/hooks/useAdminTenants.ts and
--     src/frontend/features/assinatura/components/ModalPaywall.tsx.
--   * TempoReal: src/frontend/shared/hooks/useRealtimeEvents.ts, which joins the client of the stream
--     with the session and with the store of src/frontend/shared/hooks/useSseStatus.ts. TempoReal/Aviso
--     is the notice of src/frontend/shared/components/RealtimeEventToast.tsx.
--   * Perfil: the cash drawer of the shift, src/frontend/features/perfil/hooks/usePerfil.ts with the
--     form of src/frontend/features/perfil/components/ModalMovimentacaoCaixa.tsx. Perfil/Turno is the
--     rest of the hook: the lock, the choice of the restaurant and the closing of the shift.
--   * Painel: the executive panel, src/frontend/features/dashboard/services/dashboardService.ts and
--     src/frontend/features/dashboard/screens/DashboardScreen.tsx, which opens the order of Previsoes.
--   * Previsoes: the report of the production capacity,
--     src/frontend/features/previsoes/hooks/useCapacidadeProducao.ts (Previsoes/Tela is its state),
--     and the order of src/frontend/features/previsoes/components/OrdemCompraModal.tsx.
--   * The screens. A module Vista has what a screen shows, in the order of its elements: the texts, the
--     controls with what a press does and whether they are disabled, and the inputs (Shared/Vista).
--     Vendas/Checkout/Vista is the sheet of CheckoutBottomSheet.tsx, Caixa/Vista
--     src/frontend/features/caixa/screens/CaixaScreen.tsx, Perfil/Vista
--     src/frontend/features/perfil/screens/PerfilScreen.tsx with its dialogs, Previsoes/Vista
--     src/frontend/features/previsoes/screens/PrevisoesScreen.tsx with its dialogs, Painel/Vista
--     DashboardScreen.tsx, Estoque/Vista EstoqueScreen.tsx, and Administracao/Vista
--     src/frontend/features/admin/screens/AdminBackofficeScreen.tsx and ModalPaywall.tsx. The modules
--     below them say what a screen offers to press.
--   * Base: shared helpers. Base/Number has the amounts, Base/Text and Base/Decimal the string and
--     number functions of JavaScript that the program calls.
--
-- Numbers. An amount of money is a natural number of thousandths, so that a price may have three
-- decimals and toFixed(2) rounds halves up, as it does on the decimal; the binary rounding of a
-- double is not modelled: where the program adds and subtracts amounts without rounding them, as it
-- does with the balance of the cash drawer, the amounts here are exact, and no property is about them;
-- and a count of cents has no bound, where a double is exact up to 2^53. parseFloat reads the sign, the digits and the fraction, which it cuts
-- downward at a thousandth; Infinity is not read. The printing of a number runs on
-- fuel, the number itself plus one, and the round trip with the reading shows that it is enough.
-- Texts are lists of code units; toLowerCase knows ASCII and Latin-1.
--
-- Streams. A call of startStreaming in flight is a stream with a number; a response, a chunk, an end
-- or a failure of it is a signal, and so are the two timers. An abort takes the stream out at once,
-- since the code answers an AbortError by returning. The listeners are logs of what they were told.
-- A jitter is an argument of the signal that schedules a reconnection.
--
-- JSON, env, the clock and the server are parameters or arguments. Where a property needs it, a
-- hypothesis says that parsing undoes the printing of the value concerned.
--
-- Not modelled: layout, colours and sizes, the screens that are not named above, navigation, the query
-- cache, the server (C#), the forecasting scripts (Python), deployment, and the services of the features
-- that are not named above.
pub mod Base
pub mod Administracao
pub mod Caixa
pub mod Vendas
pub mod Auth
pub mod Perfil
pub mod Estoque
pub mod Previsoes
pub mod Painel
pub mod Shared
pub mod TempoReal
